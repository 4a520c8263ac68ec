-- ===== src/Examples/Supervisor/Retries.antt =====
-- Deadlines, retries and the blocked state at small inputs.
use om_tui.Common.{◌≡◌, ◌+◌, ◌<◌, refl, inl, ◌*◌, str_eq, false, [], ◌∷◌, arith}
use om_tui.Bridge.Types.{OpError, rate_limited}
use om_tui.Bridge.Supervisor.State.{State, Loop, backoff_timer}
use om_tui.Bridge.Supervisor.Failures.{
  no_failure, classify_failure, backoff_cap, double_cap, draw_jitter, reset_failure_history,
  record_fingerprint, validate_policy, connect_timeout_failure,
}
use om_tui.Bridge.Supervisor.Generations.{
  resolve_pending_start, clear_generation_context, retire_current, start_generation, route_class,
  route_failure,
}
use om_tui.Bridge.Supervisor.Probing.{refresh_liveness_deadline, schedule_liveness_check}
use om_tui.Bridge.Supervisor.Connecting.{
  finish_start, install_run, settle_start, handle_start_result, receive_start, handle_run_done,
  handle_ready,
}
use om_tui.Bridge.Supervisor.Loop.{
  command, start_result, start, begin_pair, fire, enforce_due_deadline, perform_work,
  start_and_defer_reply, start_device, handle_start, handle_command, take_command,
}
use om_tui.Bridge.Supervisor.Loop.Run.{select, iteration, proceed, step, steps, new_loop}
use om_tui.Bridge.Supervisor.Soundness.{IsSound}
use om_tui.Bridge.Supervisor.Soundness.Histories.{history-Status, alive-Status}
use om_tui.Bridge.Supervisor.Soundness.Blocked.{blocked_stays, IsBlocked}
use om_tui.Bridge.Supervisor.Pacing.{backoff_cap-lesser, lesser, pow2, transient_backoff}
use om_tui.Bridge.Supervisor.Settling.{deadlines_settle, overdue_attempt_closed}
use om_tui.Bridge.Supervisor.Circuit.{circuit_opens, route_all}
use om_tui.Examples.Supervisor.{config, at, device, initial, to_online}

backoff_cap-lesser_example : backoff_cap 8 60 4 ≡ lesser 60 (8 * pow2 3)
backoff_cap-lesser_example = backoff_cap-lesser 8 60 3 (omega arith)

transient_backoff_example :
    ((route_failure config (at 50) connect_timeout_failure initial).snapshot.state ≡ State.backoff)
    × ((route_failure config (at 50) connect_timeout_failure initial).snapshot.retry_at ≡ 53)
    × ((route_failure config (at 50) connect_timeout_failure initial).timer ≡ backoff_timer 53)
    × ((route_failure config (at 50) connect_timeout_failure initial).transient_attempt
        ≡ initial.transient_attempt + 1)
    × (53 < 110)
unfolding new_loop backoff_cap double_cap validate_policy
transient_backoff_example =
    transient_backoff config (at 50) connect_timeout_failure initial 3 refl refl refl (omega arith)

-- A loop that a repeated failure has blocked.
abbrev shut_out : Loop
shut_out = record initial {
  snapshot = record initial.snapshot { state = State.blocked; generation = 4 };
}

shut_out-IsSound : IsSound (record shut_out { gate = record { generation = 4; active = false } })
unfolding new_loop
shut_out-IsSound = ground arith

blocked_stays_example : IsBlocked 4 (
    step config
      (at 900)
      (command 8 begin_pair)
      (record shut_out { gate = record { generation = 4; active = false } }))
unfolding new_loop
blocked_stays_example =
    blocked_stays config (at 900) (command 8 begin_pair)
      (record shut_out { gate = record { generation = 4; active = false } }) shut_out-IsSound refl
      refl refl

deadlines_settle_example :
    (enforce_due_deadline config
      (at 900)
      (enforce_due_deadline config
        (at 900)
        (enforce_due_deadline config (at 900) (steps config to_online initial)).0).0).1
    ≡ false
unfolding validate_policy
deadlines_settle_example =
    deadlines_settle config (at 900) 900 (steps config to_online initial) (omega arith) refl

-- The loop with its first Start outstanding.
abbrev connecting_loop : Loop
connecting_loop = steps config ((at 10, command 7 (start device)) ∷ []) initial

connecting_facts :
    (connecting_loop.snapshot.state ≡ State.connecting)
    × (connecting_loop.start_timed_out ≡ false)
    × (connecting_loop.closing ≡ false)
    × (connecting_loop.connect_deadline ≡ 110)
    × (connecting_loop.exited ≡ false)
unfolding steps step proceed iteration select perform_work enforce_due_deadline fire take_command
    handle_command handle_start start_device start_and_defer_reply start_generation
    reset_failure_history finish_start receive_start handle_start_result settle_start install_run
    resolve_pending_start handle_ready refresh_liveness_deadline schedule_liveness_check
    handle_run_done retire_current clear_generation_context route_failure record_fingerprint
    route_class draw_jitter backoff_cap double_cap classify_failure new_loop
connecting_facts = (refl, refl, refl, refl, refl)

overdue_attempt_closed_example :
    ((iteration config (at 120) start_result connecting_loop).gate.active ≡ false)
    × ((iteration config (at 120) start_result connecting_loop).run ≡ false)
overdue_attempt_closed_example =
    let f = connecting_facts in
    overdue_attempt_closed config (at 120) start_result connecting_loop
      (alive-Status connecting_loop
        (history-Status config State.stopped ((at 10, command 7 (start device)) ∷ []) (inl refl))
        f.4)
      f.0 f.1 f.2 (omega (arith, f.3)) (omega (arith, f.3))

abbrev limit_failure : OpError
limit_failure = record no_failure { class = rate_limited; operation = "run"; fingerprint = "429" }

circuit_opens_example :
    (route_all config limit_failure (at 50 ∷ at 70 ∷ []) initial).snapshot.state ≡ State.blocked
unfolding validate_policy str_eq
circuit_opens_example =
    circuit_opens config limit_failure (at 50 ∷ at 70 ∷ []) initial refl refl refl (omega arith)
