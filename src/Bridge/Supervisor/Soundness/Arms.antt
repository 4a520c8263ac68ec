-- ===== src/Bridge/Supervisor/Soundness/Arms.antt =====
-- The arms of the select and the due deadline keep the loop sound.
use om_tui.Common.{ℕ, ◌≡◌, false, if_elim, List, [], ◌∷◌, arith, String}
use om_tui.Bridge.Supervisor.State.{
  Loop, Config, Inputs, no_timer, Cause, ActivityKind, PairEventKind, qr, code, blocked, other,
  LinkedDevice, Timer, connect_timer, liveness_timer, backoff_timer, probe_timer, pair_timer,
}
use om_tui.Bridge.Supervisor.Failures.{
  reset_failure_history, connect_timeout_failure, classify_failure,
}
use om_tui.Bridge.Supervisor.Generations.{start_generation, handle_connect_timeout}
use om_tui.Bridge.Supervisor.Probing.{
  begin_probe, probe_timeout_failure, handle_probe_result, refresh_liveness_deadline,
  schedule_liveness_check, handle_activity, handle_repair_result,
}
use om_tui.Bridge.Supervisor.Pairing.{
  expire_pairing, handle_pair_event, expire_if_due, handle_pair_result,
}
use om_tui.Bridge.Supervisor.Loop.{
  fire, enforce_due_deadline, Work, activity, run_done, readiness, probe_result, repair_result,
  pair_event, pair_result, tick, perform_work, round, drain_ready_work,
}
use om_tui.Bridge.Supervisor.Soundness.{IsSound}
use om_tui.Bridge.Supervisor.Soundness.Routing.{route_failure-retire_current-IsSound}
use om_tui.Bridge.Supervisor.Soundness.Connecting.{handle_run_done-IsSound, handle_ready-IsSound}

pub handle_activity-IsSound :
    (c : Config) (i : Inputs) (generation : ℕ) (kind : ActivityKind) (time : ℕ) (l : Loop)
    → IsSound l
    → IsSound (handle_activity c i generation kind time l)
unfolding handle_activity reset_failure_history refresh_liveness_deadline schedule_liveness_check
handle_activity-IsSound c i generation ActivityKind.event time l s = ground arith
handle_activity-IsSound c i generation ActivityKind.beat time l s = ground arith

pub handle_probe_result-IsSound :
    (c : Config) (i : Inputs) (generation alive_at : ℕ) (cause : Cause) (l : Loop)
    → IsSound l
    → IsSound (handle_probe_result c i generation alive_at cause l)
unfolding handle_probe_result reset_failure_history refresh_liveness_deadline
    schedule_liveness_check
handle_probe_result-IsSound c i generation alive_at cause l s =
    let answered = record l { probing = false; probe_timed_out = false; timer = no_timer } in
    ground (
      arith,
      route_failure-retire_current-IsSound c i probe_timeout_failure answered,
      route_failure-retire_current-IsSound c i (classify_failure cause "probe" "probe_failed")
          answered,
    )

pub handle_repair_result-IsSound :
    (c : Config) (i : Inputs) (epoch : ℕ) (cause : Cause) (l : Loop)
    → IsSound l
    → IsSound (handle_repair_result c i epoch cause l)
unfolding handle_repair_result start_generation
handle_repair_result-IsSound c i epoch cause l s = ground arith

pub handle_pair_event-IsSound :
    (i : Inputs) (epoch : ℕ) (kind : PairEventKind) (expires_at : ℕ) (message : String) (l : Loop)
    → IsSound l
    → IsSound (handle_pair_event i epoch kind expires_at message l)
unfolding handle_pair_event expire_pairing
handle_pair_event-IsSound i epoch qr expires_at message l s = ground arith
handle_pair_event-IsSound i epoch code expires_at message l s = ground arith
handle_pair_event-IsSound i epoch blocked expires_at message l s = ground arith
handle_pair_event-IsSound i epoch other expires_at message l s = ground arith

pub handle_pair_result-IsSound :
    (i : Inputs) (epoch : ℕ) (cause : Cause) (device : LinkedDevice) (l : Loop)
    → IsSound l
    → IsSound (handle_pair_result i epoch cause device l)
unfolding handle_pair_result expire_pairing expire_if_due classify_failure
handle_pair_result-IsSound i epoch cause device l s = ground arith

pub fire-IsSound :
    (c : Config) (i : Inputs) (timer : Timer) (l : Loop)
    → IsSound l
    → l.timer ≡ timer
    → IsSound (fire c i timer (record l { timer = no_timer }))
unfolding fire begin_probe schedule_liveness_check start_generation expire_pairing
    handle_connect_timeout
fire-IsSound c i no_timer l s e = ground arith
fire-IsSound c i (connect_timer t) l s e = ground (
  arith,
  route_failure-retire_current-IsSound c i connect_timeout_failure (record l { timer = no_timer }),
)
fire-IsSound c i (liveness_timer t) l s e = ground arith
fire-IsSound c i (backoff_timer t) l s e = ground arith
fire-IsSound c i (probe_timer t) l s e = ground arith
fire-IsSound c i (pair_timer t) l s e = ground arith

pub enforce_due_deadline-IsSound :
    (c : Config) (i : Inputs) (l : Loop) → IsSound l → IsSound (enforce_due_deadline c i l).0
unfolding enforce_due_deadline
enforce_due_deadline-IsSound c i l s = ground (arith, fire-IsSound c i l.timer l)

pub perform_work-IsSound :
    (c : Config) (i : Inputs) (w : Work) (l : Loop) → IsSound l → IsSound (perform_work c i w l)
unfolding perform_work
perform_work-IsSound c i (activity generation kind time) l s =
    handle_activity-IsSound c i generation kind time l s
perform_work-IsSound c i (run_done cause) l s =
    if_elim IsSound l.done_open (handle_run_done-IsSound c i cause l s) s
perform_work-IsSound c i (readiness finished) l s =
    if_elim IsSound l.ready (handle_ready-IsSound c i finished l s) s
perform_work-IsSound c i (probe_result generation alive_at cause) l s =
    handle_probe_result-IsSound c i generation alive_at cause l s
perform_work-IsSound c i (repair_result epoch cause) l s =
    handle_repair_result-IsSound c i epoch cause l s
perform_work-IsSound c i (pair_event epoch kind expires_at message) l s =
    handle_pair_event-IsSound i epoch kind expires_at message l s
perform_work-IsSound c i (pair_result epoch cause device) l s =
    handle_pair_result-IsSound i epoch cause device l s
perform_work-IsSound c i tick l s = s

pub round-IsSound :
    (c : Config) (i : Inputs) (w : Work) (l : Loop) → IsSound l → IsSound (round c i w l)
unfolding round enforce_due_deadline
round-IsSound c i w l s = ground (arith, fire-IsSound c i l.timer l, perform_work-IsSound c i w l)

pub drain_ready_work-IsSound :
    (c : Config) (ready : List (Inputs × Work)) (l : Loop)
    → IsSound l
    → IsSound (drain_ready_work c ready l)
unfolding drain_ready_work
drain_ready_work-IsSound c [] l s = s
drain_ready_work-IsSound c ((i, w) ∷ rest) l s =
    drain_ready_work-IsSound c rest (round c i w l) (round-IsSound c i w l s)
