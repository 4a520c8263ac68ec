-- ===== src/Bridge/Supervisor/Snapshots/Commands.antt =====
-- The commands publish what they change.
use om_tui.Common.{
  ℕ, ◌≡◌, ◌⊎◌, refl, inl, inr, true, false, if_elim, if_cases, List, [], ◌∷◌, arith, str_eq, ◌||◌,
}
use om_tui.Bridge.Types.{OpError}
use om_tui.Bridge.Supervisor.State.{
  Loop, Config, Inputs, idle, no_timer, State, Reply, done, LinkedDevice,
}
use om_tui.Bridge.Supervisor.Failures.{reset_failure_history, is_expired}
use om_tui.Bridge.Supervisor.Generations.{start_generation, begin_credential_repair}
use om_tui.Bridge.Supervisor.Pairing.{begin_pairing}
use om_tui.Bridge.Supervisor.Loop.{
  enforce_due_deadline, Work, activity, run_done, readiness, probe_result, repair_result,
  pair_event, pair_result, tick, perform_work, round, drain_ready_work, reply_to,
  start_and_defer_reply, leave_blocked, start_device, handle_start, handle_command, Command, start,
  retry_blocked, inputs_changed, begin_pair, sync, is_blocked,
}
use om_tui.Bridge.Supervisor.Soundness.{IsSound}
use om_tui.Bridge.Supervisor.Snapshots.{IsPublished}
use om_tui.Bridge.Supervisor.Snapshots.Routing.{begin_credential_repair-IsPublished}
use om_tui.Bridge.Supervisor.Snapshots.Handlers.{
  fire-IsPublished, handle_activity-IsPublished, handle_run_done-IsPublished,
  handle_ready-IsPublished, handle_probe_result-IsPublished, handle_repair_result-IsPublished,
  handle_pair_event-IsPublished, handle_pair_result-IsPublished,
}

pub enforce_due_deadline-IsPublished :
    (c : Config) (i : Inputs) (l : Loop)
    → IsPublished l
    → IsPublished (enforce_due_deadline c i l).0
unfolding enforce_due_deadline
enforce_due_deadline-IsPublished c i l p =
    ground (arith, fire-IsPublished c i l.timer (record l { timer = no_timer }))

pub perform_work-IsPublished :
    (c : Config) (i : Inputs) (w : Work) (l : Loop)
    → IsPublished l
    → IsPublished (perform_work c i w l)
unfolding perform_work
perform_work-IsPublished c i (activity generation kind time) l p =
    handle_activity-IsPublished c i generation kind time l p
perform_work-IsPublished c i (run_done cause) l p =
    if_elim IsPublished l.done_open (handle_run_done-IsPublished c i cause l p) p
perform_work-IsPublished c i (readiness finished) l p =
    if_elim IsPublished l.ready (handle_ready-IsPublished c i finished l p) p
perform_work-IsPublished c i (probe_result generation alive_at cause) l p =
    handle_probe_result-IsPublished c i generation alive_at cause l p
perform_work-IsPublished c i (repair_result epoch cause) l p =
    handle_repair_result-IsPublished c i epoch cause l p
perform_work-IsPublished c i (pair_event epoch kind expires_at message) l p =
    handle_pair_event-IsPublished i epoch kind expires_at message l p
perform_work-IsPublished c i (pair_result epoch cause device) l p =
    handle_pair_result-IsPublished i epoch cause device l p
perform_work-IsPublished c i tick l p = p

round-IsPublished :
    (c : Config) (i : Inputs) (w : Work) (l : Loop) → IsPublished l → IsPublished (round c i w l)
unfolding round
round-IsPublished c i w l p =
    if_elim IsPublished (enforce_due_deadline c i l).1 (enforce_due_deadline-IsPublished c i l p)
      (perform_work-IsPublished c i w l p)

drain_ready_work-IsPublished :
    (c : Config) (ready : List (Inputs × Work)) (l : Loop)
    → IsPublished l
    → IsPublished (drain_ready_work c ready l)
unfolding drain_ready_work
drain_ready_work-IsPublished c [] l p = p
drain_ready_work-IsPublished c ((i, w) ∷ rest) l p =
    drain_ready_work-IsPublished c rest (round c i w l) (round-IsPublished c i w l p)

reply_to-IsPublished :
    (caller : ℕ) (reply : Reply) (l : Loop) → IsPublished l → IsPublished (reply_to caller reply l)
reply_to-IsPublished caller reply l p = record { going = p.going; published = p.published }

-- From a loop with no connection a start publishes, also what was changed before it.
start_and_defer_reply-IsPublished :
    (c : Config) (i : Inputs) (caller : ℕ) (l : Loop)
    → l.closing ≡ false
    → l.run ≡ false
    → l.start_results ≡ idle
    → IsPublished (start_and_defer_reply c i caller l)
unfolding start_and_defer_reply start_generation
start_and_defer_reply-IsPublished c i caller l g n e = ground arith

leave_blocked-IsPublished :
    (c : Config) (i : Inputs) (caller : ℕ) (failure : OpError) (l : Loop)
    → l.closing ≡ false
    → l.run ≡ false
    → l.start_results ≡ idle
    → IsPublished (leave_blocked c i caller failure l)
unfolding leave_blocked
leave_blocked-IsPublished c i caller failure l g n e =
    if_elim IsPublished (is_expired failure.class)
      (reply_to-IsPublished caller done (begin_credential_repair c failure l)
        (begin_credential_repair-IsPublished c failure l g))
      (if_elim IsPublished (str_eq failure.operation "pair")
        (record { going = g; published = refl })
        (start_and_defer_reply-IsPublished c i caller l g n e))

-- A stopped or blocked loop has no connection.
no_connection :
    (l : Loop)
    → IsSound l
    → (is_blocked l.snapshot.state ≡ true) ⊎ (l.snapshot.state ≡ State.stopped)
    → (l.run ≡ false) × (l.start_results ≡ idle)
no_connection l s e = ground arith

released-IsPublished :
    (c : Config) (i : Inputs) (caller : ℕ) (l : Loop)
    → IsSound l
    → IsPublished l
    → is_blocked l.snapshot.state ≡ true
    → IsPublished (leave_blocked c i caller l.last_failure (reset_failure_history l))
unfolding reset_failure_history
released-IsPublished c i caller l s p b =
    let free = no_connection l s (inl b) in
    leave_blocked-IsPublished c i caller l.last_failure (reset_failure_history l) p.going free.0
      free.1

start_device-IsPublished :
    (c : Config) (i : Inputs) (caller : ℕ) (device : LinkedDevice) (l : Loop)
    → IsSound l
    → IsPublished l
    → l.snapshot.state ≡ State.stopped
    → IsPublished (start_device c i caller device l)
unfolding start_device reset_failure_history
start_device-IsPublished c i caller device l s p e =
    let free = no_connection l s (inr e) in
    if_elim IsPublished l.pair_active (reply_to-IsPublished caller _ l p) (
      start_and_defer_reply-IsPublished c i caller
        (record (reset_failure_history l) { request = device }) p.going free.0 free.1)

not_unconfigured : (l : Loop) → IsSound l → l.snapshot.state ≡ State.unconfigured → ⊥
not_unconfigured l s e = ground arith

handle_start-IsPublished :
    (c : Config) (i : Inputs) (caller : ℕ) (device : LinkedDevice) (l : Loop) (state : State)
    → IsSound l
    → IsPublished l
    → l.snapshot.state ≡ state
    → IsPublished (handle_start c i caller device state l)
unfolding handle_start
handle_start-IsPublished c i caller device l State.stopped s p e =
    start_device-IsPublished c i caller device l s p e
handle_start-IsPublished c i caller device l State.unconfigured s p e =
    absurd (not_unconfigured l s e)
handle_start-IsPublished c i caller device l State.unpaired s p e =
    reply_to-IsPublished caller _ l p
handle_start-IsPublished c i caller device l _ s p e = reply_to-IsPublished caller _ l p

pub handle_command-IsPublished :
    (c : Config) (i : Inputs) (caller : ℕ) (request : Command) (l : Loop)
    → IsSound l
    → IsPublished l
    → IsPublished (handle_command c i caller request l)
unfolding handle_command begin_pairing
handle_command-IsPublished c i caller (start device) l s p =
    handle_start-IsPublished c i caller device l l.snapshot.state s p refl
handle_command-IsPublished c i caller retry_blocked l s p =
    if_cases IsPublished (is_blocked l.snapshot.state) (released-IsPublished c i caller l s p)
      (λ _. reply_to-IsPublished caller _ l p)
handle_command-IsPublished c i caller (inputs_changed fingerprint) l s p =
    if_cases IsPublished (is_blocked l.snapshot.state)
      (λ b.
        if_elim IsPublished
          (str_eq fingerprint "" || str_eq fingerprint l.snapshot.error_fingerprint)
          (reply_to-IsPublished caller _ l p) (released-IsPublished c i caller l s p b))
      (λ _. reply_to-IsPublished caller _ l p)
handle_command-IsPublished c i caller begin_pair l s p = ground arith
handle_command-IsPublished c i caller (sync ready) l s p =
    reply_to-IsPublished caller done (drain_ready_work c ready l)
      (drain_ready_work-IsPublished c ready l p)
