-- ===== src/Bridge/Supervisor/Soundness/Blocked.antt =====
-- A blocked account stays blocked until the user acts.
use om_tui.Common.{ℕ, ◌≡◌, Bool, true, false, List, [], ◌∷◌, arith, if_elim, if_cases}
use om_tui.Bridge.Supervisor.State.{State, Loop, Config, Inputs, idle, no_timer, Reply, done}
use om_tui.Bridge.Supervisor.Connecting.{handle_run_done, handle_ready, finish_start, receive_start}
use om_tui.Bridge.Supervisor.Probing.{handle_activity, handle_probe_result, handle_repair_result}
use om_tui.Bridge.Supervisor.Pairing.{handle_pair_event, handle_pair_result, begin_pairing}
use om_tui.Bridge.Supervisor.Loop.{
  Work, activity, run_done, readiness, probe_result, repair_result, pair_event, pair_result, tick,
  perform_work, round, drain_ready_work, reply_to, ask, enforce_due_deadline, Command, start,
  retry_blocked, inputs_changed, begin_pair, sync, Event, command, work, start_result,
  start_returns, take_command, handle_command, handle_start,
}
use om_tui.Bridge.Supervisor.Loop.Run.{select_unless_due, select, step, proceed, iteration}
use om_tui.Bridge.Supervisor.Soundness.{IsSound}

-- The commands that may release a blocked account.
abbrev pub releases : Event → Bool
releases (command _ retry_blocked) = true
releases (command _ (inputs_changed _)) = true
releases _ = false

-- Blocked, with nothing under way.
pub record IsBlocked (generation : ℕ) (l : Loop) : Type 0 where
  pub is_blocked : l.snapshot.state ≡ State.blocked
  pub same_generation : l.snapshot.generation ≡ generation
  pub no_run : l.run ≡ false
  pub no_start : l.start_results ≡ idle
  pub no_probe : l.probing ≡ false
  pub no_repair : l.repairing ≡ false
  pub no_pairing : l.pair_active ≡ false
  pub timerless : l.timer ≡ no_timer

IsSound-IsBlocked :
    (l : Loop) → IsSound l → l.snapshot.state ≡ State.blocked → IsBlocked l.snapshot.generation l
IsSound-IsBlocked l s e = ground arith

module _ (g : ℕ) where
  perform_work-IsBlocked :
      (c : Config) (i : Inputs) (w : Work) (l : Loop)
      → IsBlocked g l
      → IsBlocked g (perform_work c i w l)
  unfolding perform_work handle_activity handle_run_done handle_ready handle_probe_result
      handle_repair_result handle_pair_event handle_pair_result
  perform_work-IsBlocked c i (activity generation kind time) l b = ground arith
  perform_work-IsBlocked c i (run_done cause) l b = ground arith
  perform_work-IsBlocked c i (readiness finished) l b = ground arith
  perform_work-IsBlocked c i (probe_result generation alive_at cause) l b = ground arith
  perform_work-IsBlocked c i (repair_result epoch cause) l b = ground arith
  perform_work-IsBlocked c i (pair_event epoch kind expires_at message) l b = ground arith
  perform_work-IsBlocked c i (pair_result epoch cause device) l b = ground arith
  perform_work-IsBlocked c i tick l b = b

  enforce_due_deadline-IsBlocked :
      (c : Config) (i : Inputs) (l : Loop)
      → IsBlocked g l
      → IsBlocked g (enforce_due_deadline c i l).0
  unfolding enforce_due_deadline
  enforce_due_deadline-IsBlocked c i l b = ground arith

  round-IsBlocked :
      (c : Config) (i : Inputs) (w : Work) (l : Loop) → IsBlocked g l → IsBlocked g (round c i w l)
  unfolding round
  round-IsBlocked c i w l b =
      if_elim (IsBlocked g) (enforce_due_deadline c i l).1 (enforce_due_deadline-IsBlocked c i l b)
        (perform_work-IsBlocked c i w l b)

  drain_ready_work-IsBlocked :
      (c : Config) (ready : List (Inputs × Work)) (l : Loop)
      → IsBlocked g l
      → IsBlocked g (drain_ready_work c ready l)
  unfolding drain_ready_work
  drain_ready_work-IsBlocked c [] l b = b
  drain_ready_work-IsBlocked c ((i, w) ∷ rest) l b =
      drain_ready_work-IsBlocked c rest (round c i w l) (round-IsBlocked c i w l b)

  reply_to-IsBlocked :
      (caller : ℕ) (reply : Reply) (l : Loop)
      → IsBlocked g l
      → IsBlocked g (reply_to caller reply l)
  reply_to-IsBlocked caller reply l b = ground arith

  handle_command-IsBlocked :
      (c : Config) (i : Inputs) (caller : ℕ) (request : Command) (l : Loop)
      → releases (command caller request) ≡ false
      → IsBlocked g l
      → IsBlocked g (handle_command c i caller request l)
  unfolding handle_command handle_start begin_pairing
  handle_command-IsBlocked c i caller (start device) l r b = ground arith
  handle_command-IsBlocked c i caller retry_blocked l r b = cc
  handle_command-IsBlocked c i caller (inputs_changed fingerprint) l r b = cc
  handle_command-IsBlocked c i caller begin_pair l r b = ground arith
  handle_command-IsBlocked c i caller (sync ready) l r b =
      reply_to-IsBlocked caller done (drain_ready_work c ready l)
        (drain_ready_work-IsBlocked c ready l b)

  select-IsBlocked :
      (c : Config) (i : Inputs) (e : Event) (l : Loop)
      → releases e ≡ false
      → IsBlocked g l
      → IsBlocked g (select c i e l)
  unfolding select take_command receive_start
  select-IsBlocked c i (command caller request) l r b =
      if_elim (IsBlocked g) l.closing (ground arith)
        (handle_command-IsBlocked c i caller request (ask caller l) r (ground arith))
  select-IsBlocked c i (work w) l r b = perform_work-IsBlocked c i w l b
  select-IsBlocked c i start_result l r b = ground arith
  select-IsBlocked c i (start_returns has_run cause) l r b = b

  select_unless_due-IsBlocked :
      (c : Config) (i : Inputs) (e : Event) (r : Loop × Bool)
      → releases e ≡ false
      → IsBlocked g r.0
      → IsBlocked g (select_unless_due c i e r)
  select_unless_due-IsBlocked c i e (l, true) r b = b
  select_unless_due-IsBlocked c i e (l, false) r b = select-IsBlocked c i e l r b

  iteration-IsBlocked :
      (c : Config) (i : Inputs) (e : Event) (l : Loop)
      → releases e ≡ false
      → l.closing ≡ false
      → IsBlocked g l
      → IsBlocked g (iteration c i e l)
  unfolding iteration
  iteration-IsBlocked c i e l r n b =
      let begun = record l { closing = i.stop_called } in
      if_cases (IsBlocked g) l.closing (λ closed. cc)
        (λ _.
          select_unless_due-IsBlocked c i e (enforce_due_deadline c i begun) r
            (enforce_due_deadline-IsBlocked c i begun (ground arith)))

  proceed-IsBlocked :
      (c : Config) (i : Inputs) (e : Event) (l : Loop)
      → releases e ≡ false
      → l.closing ≡ false
      → IsBlocked g l
      → IsBlocked g (proceed c i e l)
  unfolding proceed finish_start
  proceed-IsBlocked c i (start_returns has_run cause) l r n b = ground arith
  proceed-IsBlocked c i (command caller request) l r n b =
      iteration-IsBlocked c i (command caller request) l r n b
  proceed-IsBlocked c i (work w) l r n b = iteration-IsBlocked c i (work w) l r n b
  proceed-IsBlocked c i start_result l r n b = iteration-IsBlocked c i start_result l r n b

-- A sound loop whose state is blocked, and which is not closing, stays blocked in the same generation, with no
-- Start, run, probe, repair, pairing or timer, after any step but a RetryBlocked or an InputsChanged
-- command: no deadline, late result or other command reconnects it.
pub blocked_stays :
    (c : Config) (i : Inputs) (e : Event) (l : Loop)
    → IsSound l
    → l.snapshot.state ≡ State.blocked
    → l.closing ≡ false
    → releases e ≡ false
    → IsBlocked l.snapshot.generation (step c i e l)
unfolding step
blocked_stays c i e l s b n r =
    let held = IsSound-IsBlocked l s b in
    if_elim (IsBlocked l.snapshot.generation) l.exited held
      (proceed-IsBlocked l.snapshot.generation c i e l r n held)
