-- ===== src/Bridge/Supervisor/Settling.antt =====
-- The loop's top: deadlines that are due are enforced one after another, and the chain ends.
use om_tui.Common.{ℕ, ◌≤◌, ◌<◌, ◌≡◌, Bool, true, false, ◌||◌, not, arith, ◌⊎◌, inl, inr}
use om_tui.Bridge.Types.{OpError}
use om_tui.Bridge.Supervisor.State.{
  State, Timer, no_timer, connect_timer, liveness_timer, backoff_timer, probe_timer, pair_timer,
  Loop, Config, Inputs,
}
use om_tui.Bridge.Supervisor.Failures.{
  validate_policy, record_fingerprint, reset_failure_history, connect_timeout_failure,
}
use om_tui.Bridge.Supervisor.Generations.{
  route_failure, route_class, begin_credential_repair, handle_connect_timeout, retire_current,
  clear_generation_context, start_generation,
}
use om_tui.Bridge.Supervisor.Probing.{begin_probe, schedule_liveness_check}
use om_tui.Bridge.Supervisor.Pairing.{expire_pairing}
use om_tui.Bridge.Supervisor.Loop.{is_due, deadline_of, fire, enforce_due_deadline, Event}
use om_tui.Bridge.Supervisor.Loop.Run.{iteration}
use om_tui.Bridge.Supervisor.Accounts.Routing.{route_failure-SameBooks}
use om_tui.Bridge.Supervisor.Soundness.{IsSound, is_no_timer, is_backoff_timer}

-- The clock stands still, at a time that is not zero.
pub record IsFrozen (now : ℕ) (i : Inputs) : Type 0 where
  pub positive : 0 < now
  pub at_due : i.due ≡ now
  pub at_check : i.check ≡ now
  pub at_begin : i.begin ≡ now
  pub at_plan : i.plan ≡ now

abbrev is_settled : ℕ → Timer → Bool
is_settled now timer = not (is_due (deadline_of timer) now)

-- A failure leaves no timer, or that of the backoff.
abbrev backs_off : Timer → Bool
backs_off timer = is_no_timer timer || is_backoff_timer timer

route_failure-backs_off :
    (c : Config) (i : Inputs) (failure : OpError) (l : Loop)
    → l.timer ≡ no_timer
    → backs_off (route_failure c i failure l).timer ≡ true
unfolding route_failure route_class begin_credential_repair record_fingerprint reset_failure_history
route_failure-backs_off c i failure l n = ground arith

timeout-backs_off :
    (c : Config) (i : Inputs) (l : Loop)
    → l.timer ≡ no_timer
    → backs_off (handle_connect_timeout c i l).timer ≡ true
unfolding handle_connect_timeout retire_current clear_generation_context
timeout-backs_off c i l n = ground (
  arith,
  route_failure-backs_off c i connect_timeout_failure
      (retire_current (record l { timer = no_timer })),
)

-- Every deadline but that of a connection attempt leaves one that is not due.
module _ (c : Config) (i : Inputs) (now : ℕ) (frozen : IsFrozen now i)
    (timed : validate_policy c.policy ≡ true) where
  fire-settled :
      (timer : Timer) (l : Loop)
      → l.timer ≡ no_timer
      → ((is_settled now (fire c i timer l).timer ≡ true)
          ⊎ (backs_off (fire c i timer l).timer ≡ true))
  unfolding fire begin_probe schedule_liveness_check start_generation expire_pairing validate_policy
  fire-settled no_timer l n = ground arith
  fire-settled (connect_timer t) l n = inr (timeout-backs_off c i l n)
  fire-settled (liveness_timer t) l n = inl (ground arith)
  fire-settled (backoff_timer t) l n = inl (ground arith)
  fire-settled (probe_timer t) l n = inl (ground arith)
  fire-settled (pair_timer t) l n = inl (ground arith)

  backoff-settled :
      (l : Loop)
      → backs_off l.timer ≡ true
      → is_settled now (enforce_due_deadline c i l).0.timer ≡ true
  unfolding enforce_due_deadline fire start_generation validate_policy
  backoff-settled l b = ground arith

  enforce-settled :
      (l : Loop)
      → ((is_settled now (enforce_due_deadline c i l).0.timer ≡ true)
          ⊎ (backs_off (enforce_due_deadline c i l).0.timer ≡ true))
  unfolding enforce_due_deadline
  enforce-settled l = ground (arith, fire-settled l.timer (record l { timer = no_timer }))

  settled-enforce :
      (l : Loop) → is_settled now l.timer ≡ true → (enforce_due_deadline c i l).1 ≡ false
  unfolding enforce_due_deadline
  settled-enforce l s = ground arith

  settled_stays :
      (l : Loop)
      → is_settled now l.timer ≡ true
      → is_settled now (enforce_due_deadline c i l).0.timer ≡ true
  unfolding enforce_due_deadline
  settled_stays l s = ground arith

-- At a standing clock the loop's top enforces at most two deadlines before it goes on to its select, from
-- any state of the loop: an overdue connection attempt may fail into a backoff that is due at once, and the attempt
-- which that begins is not due. So neither run nor Sync's drain spins on deadlines. The policy is one that
-- validatePolicy accepts.
pub deadlines_settle :
    (c : Config) (i : Inputs) (now : ℕ) (l : Loop)
    → IsFrozen now i
    → validate_policy c.policy ≡ true
    → (enforce_due_deadline c i (enforce_due_deadline c i (enforce_due_deadline c i l).0).0).1
      ≡ false
deadlines_settle c i now l frozen timed =
    let first = (enforce_due_deadline c i l).0 in
    let second = (enforce_due_deadline c i first).0 in
    let settled : is_settled now second.timer ≡ true =
      elim (enforce-settled c i now frozen timed l) [
        | inl done ↦ settled_stays c i now frozen timed first done
        | inr back ↦ backoff-settled c i now frozen timed first back
      ] in
    settled-enforce c i now frozen timed second settled

route_failure-gate :
    (c : Config) (i : Inputs) (failure : OpError) (l : Loop)
    → (route_failure c i failure l).gate ≡ l.gate
unfolding route_failure route_class begin_credential_repair record_fingerprint reset_failure_history
route_failure-gate c i failure l = ground arith

timeout-closed :
    (c : Config) (i : Inputs) (l : Loop)
    → IsSound l
    → l.snapshot.state ≡ State.connecting
    → ((handle_connect_timeout c i (record l { timer = no_timer })).gate.active ≡ false)
      × ((handle_connect_timeout c i (record l { timer = no_timer })).run ≡ false)
unfolding handle_connect_timeout retire_current clear_generation_context
timeout-closed c i l s e =
    let gone = retire_current (record l { timer = no_timer }) in
    ground (
      arith,
      route_failure-gate c i connect_timeout_failure gone,
      route_failure-SameBooks c i connect_timeout_failure gone,
    )

connecting-timer :
    (l : Loop)
    → IsSound l
    → l.snapshot.state ≡ State.connecting
    → l.start_timed_out ≡ false
    → l.timer ≡ connect_timer l.connect_deadline
connecting-timer l s e t = ground arith

fire-connect :
    (c : Config) (i : Inputs) (timer : Timer) (deadline : ℕ) (l : Loop)
    → timer ≡ connect_timer deadline
    → fire c i timer l ≡ handle_connect_timeout c i l
unfolding fire
fire-connect c i timer deadline l e = rw e

-- A turn of the loop that finds the deadline of a connection attempt passed, in a sound loop that is
-- connecting, ends the attempt before it looks at anything else: afterwards no run is held and the sink of
-- the generation is closed, whichever event is ready and whatever Stop does.
pub overdue_attempt_closed :
    (c : Config) (i : Inputs) (e : Event) (l : Loop)
    → IsSound l
    → l.snapshot.state ≡ State.connecting
    → l.start_timed_out ≡ false
    → l.closing ≡ false
    → 0 < l.connect_deadline
    → l.connect_deadline ≤ i.due
    → ((iteration c i e l).gate.active ≡ false) × ((iteration c i e l).run ≡ false)
unfolding iteration enforce_due_deadline
overdue_attempt_closed c i e l s k t n p d =
    let begun = record l { closing = i.stop_called } in
    let ended = handle_connect_timeout c i (record begun { timer = no_timer }) in
    let timer = connecting-timer l s k t in
    ground (
      arith,
      timer,
      fire-connect c i l.timer l.connect_deadline (record begun { timer = no_timer }),
      timeout-closed c i begun,
    )
