-- ===== src/Examples/Supervisor.antt =====
-- A supervisor whose first connection ends, whose second is cut off by Stop, and its parts at small inputs.
pub mod Retries
use om_tui.Common.{
  trim, ℕ, ◌≡◌, ◌+◌, ◌≤◌, ◌<◌, refl, inl, ◌*◌, str_eq, String, true, false, none, some, List, [],
  ◌∷◌, arith,
}
use om_tui.Bridge.Types.{OpError, rate_limited}
use om_tui.Bridge.Supervisor.State.{
  State, Loop, Config, Inputs, LinkedDevice, clean, opaque, StartResult, posted, backoff_timer,
}
use om_tui.Bridge.Supervisor.Failures.{
  no_failure, classify_failure, backoff_cap, double_cap, draw_jitter, reset_failure_history,
  record_fingerprint, validate_policy, connect_timeout_failure,
}
use om_tui.Bridge.Supervisor.Generations.{
  resolve_pending_start, clear_generation_context, retire_current, start_generation, route_class,
  route_failure,
}
use om_tui.Bridge.Supervisor.Probing.{refresh_liveness_deadline, schedule_liveness_check}
use om_tui.Bridge.Supervisor.Connecting.{
  finish_start, install_run, settle_start, handle_start_result, receive_start, handle_run_done,
  handle_ready,
}
use om_tui.Bridge.Supervisor.Loop.{
  Event, command, work, start_result, start_returns, run_done, readiness, tick, start, begin_pair,
  fire, enforce_due_deadline, perform_work, start_and_defer_reply, start_device, handle_start,
  handle_command, take_command,
}
use om_tui.Bridge.Supervisor.Loop.Run.{shutdown, select, iteration, proceed, step, steps, new_loop}
use om_tui.Bridge.Supervisor.Entry.{Construction, new_supervisor, apply_options}
use om_tui.Bridge.Supervisor.Soundness.Construction.{new_supervisor-Status}
use om_tui.Bridge.Supervisor.Snapshots.Histories.{snapshot_published}
use om_tui.Bridge.Supervisor.Sink.{append, forward}
use om_tui.Bridge.Supervisor.Soundness.{Status, IsSound}
use om_tui.Bridge.Supervisor.Soundness.Histories.{history-Status, alive-Status}
use om_tui.Bridge.Supervisor.Soundness.Fencing.{append-forwarded, Admits}
use om_tui.Bridge.Supervisor.Soundness.Blocked.{blocked_stays, IsBlocked}
use om_tui.Bridge.Supervisor.Accounts.{count, callers, posted_run}
use om_tui.Bridge.Supervisor.Accounts.Promises.{
  stopped_once, earlier_runs_stopped, final_runs, answered_once, shutdown-posted,
}
use om_tui.Bridge.Supervisor.Pacing.{backoff_cap-lesser, lesser, pow2, transient_backoff}
use om_tui.Bridge.Supervisor.Settling.{deadlines_settle, overdue_attempt_closed}
use om_tui.Bridge.Supervisor.Circuit.{circuit_opens, route_all}

abbrev pub config : Config
config = record {
  policy = record {
    connect_timeout = 100;
    probe_every = 50;
    probe_timeout = 20;
    liveness_timeout = 200;
    min_backoff = 8;
    max_backoff = 60;
    max_same_fingerprint = 2;
  };
  repairs = true;
  pairs = true;
}

-- Every reading of the clock at one time, and a random source that draws 3.
abbrev pub at : ℕ → Inputs
at t = record {
  due = t;
  check = t;
  begin = t;
  plan = t;
  floor = t;
  draw = λ n. some 3;
  stop_called = false;
}

abbrev pub device : LinkedDevice
device = record { remote_account_id = "remote"; device_id = "device" }

-- The first run ends at 50; its successor starts at 60.
abbrev reconnect : List (Inputs × Event)
reconnect =
    (at 10, command 7 (start device))
    ∷ (at 20, start_returns true clean)
    ∷ (at 30, start_result)
    ∷ (at 40, work (readiness none))
    ∷ (at 50, work (run_done opaque))
    ∷ (at 60, work tick)
    ∷ []

-- The second Start answers, Stop is called, and the loop returns without the answer.
abbrev cut_off : List (Inputs × Event)
cut_off =
    (at 10, command 7 (start device))
    ∷ (at 20, start_returns true clean)
    ∷ (at 30, start_result)
    ∷ (at 40, work (readiness none))
    ∷ (at 50, work (run_done opaque))
    ∷ (at 60, work tick)
    ∷ (at 70, start_returns true clean)
    ∷ (record (at 80) { stop_called = true }, work tick)
    ∷ (at 90, work tick)
    ∷ []

abbrev pub initial : Loop
initial = new_loop State.stopped

abbrev construction : Construction
construction = record {
  account_id = "acc";
  platform = "signal";
  has_lifecycle = true;
  has_clock = true;
  has_random = true;
  policy = config.policy;
  initial = State.unpaired ∷ State.stopped ∷ [];
}

new_supervisor-Status_example :
    (validate_policy config.policy ≡ true)
    × Status (steps config reconnect initial).exited (steps config reconnect initial)
unfolding new_supervisor trim str_eq validate_policy apply_options
new_supervisor-Status_example = new_supervisor-Status construction config reconnect initial refl

snapshot_published_example :
    (steps config reconnect initial).published ≡ (steps config reconnect initial).snapshot
snapshot_published_example =
    snapshot_published config State.stopped reconnect (inl refl)
      (refl, (refl, (refl, (refl, (refl, (refl, tt))))))

stopped_once_example :
    (count 1 (steps config cut_off initial).acquired ≤ 1)
    × (count 1 (steps config cut_off initial).stops
        ≤ count 1 (steps config cut_off initial).acquired)
stopped_once_example = stopped_once config State.stopped cut_off (inl refl) 1

reconnected :
    (1 < (steps config reconnect initial).snapshot.generation)
    × ((steps config reconnect initial).exited ≡ false)
unfolding steps step proceed iteration select perform_work enforce_due_deadline fire take_command
    handle_command handle_start start_device start_and_defer_reply start_generation
    reset_failure_history finish_start receive_start handle_start_result settle_start install_run
    resolve_pending_start handle_ready refresh_liveness_deadline schedule_liveness_check
    handle_run_done retire_current clear_generation_context route_failure record_fingerprint
    route_class draw_jitter backoff_cap double_cap classify_failure new_loop
reconnected = (omega arith, refl)

returned : (steps config cut_off initial).exited ≡ true
unfolding steps step proceed iteration select perform_work enforce_due_deadline fire take_command
    handle_command handle_start start_device start_and_defer_reply start_generation
    reset_failure_history finish_start receive_start handle_start_result settle_start install_run
    resolve_pending_start handle_ready refresh_liveness_deadline schedule_liveness_check
    handle_run_done retire_current clear_generation_context route_failure record_fingerprint
    route_class draw_jitter backoff_cap double_cap classify_failure new_loop shutdown
returned = refl

-- The run of the second Start is handed over and never stopped.
dropped :
    (count 2 (steps config cut_off initial).acquired ≡ 1)
    × (count 2 (steps config cut_off initial).stops ≡ 0)
unfolding steps step proceed iteration select perform_work enforce_due_deadline fire take_command
    handle_command handle_start start_device start_and_defer_reply start_generation
    reset_failure_history finish_start receive_start handle_start_result settle_start install_run
    resolve_pending_start handle_ready refresh_liveness_deadline schedule_liveness_check
    handle_run_done retire_current clear_generation_context route_failure record_fingerprint
    route_class draw_jitter backoff_cap double_cap classify_failure new_loop shutdown
dropped = (refl, refl)

earlier_runs_stopped_example :
    count 1 (steps config reconnect initial).stops
    ≡ count 1 (steps config reconnect initial).acquired
earlier_runs_stopped_example =
    earlier_runs_stopped config State.stopped reconnect (inl refl) 1 reconnected.0 reconnected.1

final_runs_example :
    count 2 (steps config cut_off initial).acquired
    ≡ count 2 (steps config cut_off initial).stops
      + posted_run 2 (steps config cut_off initial).start_results
final_runs_example = final_runs config State.stopped cut_off (inl refl) 2 returned

answered_once_example :
    count 7 (callers (steps config cut_off initial).replies)
    ≡ count 7 (steps config cut_off initial).asked
answered_once_example = answered_once config State.stopped cut_off (inl refl) 7 returned

-- The loop when its second Start has answered.
abbrev second_result : StartResult
second_result = record { generation = 2; has_run = true; cause = clean }

abbrev answered : Loop
answered = record initial {
  snapshot = record initial.snapshot { state = State.connecting; generation = 2 };
  start_results = posted second_result;
}

shutdown-posted_example :
    ((shutdown false clean answered).stops ≡ [])
    × ((shutdown false clean answered).start_results ≡ posted second_result)
    × ((shutdown false clean answered).exited ≡ true)
unfolding new_loop
shutdown-posted_example = shutdown-posted false clean second_result answered refl refl

-- The loop with its first run ready.
abbrev pub to_online : List (Inputs × Event)
to_online =
    (at 10, command 7 (start device))
    ∷ (at 20, start_returns true clean)
    ∷ (at 30, start_result)
    ∷ (at 40, work (readiness none))
    ∷ []

append-forwarded_example :
    (◌≡◌ {A = String} "acc" "acc") × (◌≡◌ {A = ℕ} 1 1) × Admits 1 (steps config to_online initial)
unfolding str_eq steps step proceed iteration select perform_work enforce_due_deadline fire
    take_command handle_command handle_start start_device start_and_defer_reply start_generation
    reset_failure_history finish_start receive_start handle_start_result settle_start install_run
    resolve_pending_start handle_ready refresh_liveness_deadline schedule_liveness_check
    handle_run_done retire_current clear_generation_context route_failure record_fingerprint
    route_class draw_jitter backoff_cap double_cap classify_failure new_loop append forward
append-forwarded_example =
    append-forwarded config State.stopped to_online (inl refl) "acc" 1 "acc" 1 true false refl
