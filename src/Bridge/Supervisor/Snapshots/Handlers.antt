-- ===== src/Bridge/Supervisor/Snapshots/Handlers.antt =====
-- The handlers publish what they change.
use om_tui.Common.{ℕ, ◌≡◌, Bool, false, Option, none, some, if_elim, arith, String, leb}
use om_tui.Bridge.Types.{OpError}
use om_tui.Bridge.Supervisor.State.{
  Loop, Config, Inputs, StartChannel, idle, waiting, posted, no_timer, Cause, ActivityKind, event,
  beat, StartResult, done, failed, PairEventKind, qr, code, blocked, other, LinkedDevice, Timer,
  connect_timer, liveness_timer, backoff_timer, probe_timer, pair_timer,
}
use om_tui.Bridge.Supervisor.Failures.{
  reset_failure_history, connect_timeout_failure, classify_failure,
}
use om_tui.Bridge.Supervisor.Generations.{
  start_generation, route_failure, handle_connect_timeout, retire_current, resolve_pending_start,
  clear_generation_context,
}
use om_tui.Bridge.Supervisor.Connecting.{
  handle_ready, handle_run_done, spoiled, settle_start, handle_start_result, receive_start,
  install_run, discard, nil_run_failure,
}
use om_tui.Bridge.Supervisor.Probing.{
  is_clean, begin_probe, probe_timeout_failure, handle_probe_result, refresh_liveness_deadline,
  schedule_liveness_check, handle_activity, handle_repair_result,
}
use om_tui.Bridge.Supervisor.Pairing.{
  expire_pairing, handle_pair_event, expire_if_due, handle_pair_result,
}
use om_tui.Bridge.Supervisor.Loop.{fire}
use om_tui.Bridge.Supervisor.Snapshots.{IsPublished}
use om_tui.Bridge.Supervisor.Snapshots.Routing.{
  route_failure-IsPublished, retire_current-IsPublished, handle_connect_timeout-IsPublished,
  resolve_pending_start-IsPublished,
}

pub handle_run_done-IsPublished :
    (c : Config) (i : Inputs) (cause : Cause) (l : Loop)
    → IsPublished l
    → IsPublished (handle_run_done c i cause l)
unfolding handle_run_done
handle_run_done-IsPublished c i cause l p =
    let gone = record l { timer = no_timer; done_open = false } in
    ground (
      arith,
      handle_connect_timeout-IsPublished c i l,
      route_failure-IsPublished c i (classify_failure (spoiled cause) "run" "run_completed")
          (retire_current gone),
      retire_current-IsPublished gone,
    )

pub handle_ready-IsPublished :
    (c : Config) (i : Inputs) (finished : Option Cause) (l : Loop)
    → IsPublished l
    → IsPublished (handle_ready c i finished l)
unfolding handle_ready refresh_liveness_deadline schedule_liveness_check
handle_ready-IsPublished c i none l p = ground (arith, handle_connect_timeout-IsPublished c i l)
handle_ready-IsPublished c i (some cause) l p =
    ground
      (arith, handle_connect_timeout-IsPublished c i l, handle_run_done-IsPublished c i cause l)

pub fail_start-IsPublished :
    (c : Config) (i : Inputs) (failure : OpError) (l : Loop)
    → l.closing ≡ false
    → IsPublished (resolve_pending_start (failed failure) (route_failure c i failure l))
fail_start-IsPublished c i failure l g =
    resolve_pending_start-IsPublished (failed failure) (route_failure c i failure l)
      (route_failure-IsPublished c i failure l g)

pub retire_current-going : (l : Loop) → l.closing ≡ false → (retire_current l).closing ≡ false
unfolding retire_current clear_generation_context
retire_current-going l g = ground arith

pub clear_generation_context-going :
    (l : Loop) → l.closing ≡ false → (clear_generation_context l).closing ≡ false
unfolding clear_generation_context
clear_generation_context-going l g = g

pub discard-going :
    (result : StartResult) (l : Loop) → l.closing ≡ false → (discard result l).closing ≡ false
discard-going result l g = ground arith

module _ (c : Config) (i : Inputs) (result : StartResult) (l : Loop) (p : IsPublished l) where
  pub settle_start-IsPublished :
      (timed_out : Bool) → IsPublished (settle_start c i result timed_out l)
  unfolding settle_start install_run
  settle_start-IsPublished timed_out =
      let untimed = record l { timer = no_timer } in
      let failure = classify_failure result.cause "start" "start_failed" in
      let installed = install_run l in
      if_elim IsPublished timed_out
        (fail_start-IsPublished c i connect_timeout_failure
          (clear_generation_context (discard result l))
          (clear_generation_context-going (discard result l) (discard-going result l p.going)))
        (if_elim IsPublished (is_clean result.cause)
          (if_elim IsPublished result.has_run
            (if_elim IsPublished (leb l.connect_deadline i.check)
              (resolve_pending_start-IsPublished _ (handle_connect_timeout c i installed) (
                handle_connect_timeout-IsPublished c i installed
                  (record { going = p.going; published = p.published })))
              (resolve_pending_start-IsPublished done installed
                (record { going = p.going; published = p.published })))
            (fail_start-IsPublished c i nil_run_failure (clear_generation_context untimed)
              (clear_generation_context-going untimed p.going)))
          (fail_start-IsPublished c i failure _ (
            retire_current-going _
              (if_elim (λ (x : Loop). x.closing ≡ false) result.has_run p.going p.going))))

pub receive_start-IsPublished :
    (c : Config) (i : Inputs) (channel : StartChannel) (l : Loop)
    → IsPublished l
    → IsPublished (receive_start c i channel l)
unfolding receive_start handle_start_result
receive_start-IsPublished c i idle l p = p
receive_start-IsPublished c i (waiting generation) l p = p
receive_start-IsPublished c i (posted result) l p =
    let opened = record l { start_results = idle; start_timed_out = false } in
    ground (
      arith,
      settle_start-IsPublished c i result opened
          (record { going = p.going; published = p.published }) l.start_timed_out,
    )

pub handle_activity-IsPublished :
    (c : Config) (i : Inputs) (generation : ℕ) (kind : ActivityKind) (time : ℕ) (l : Loop)
    → IsPublished l
    → IsPublished (handle_activity c i generation kind time l)
unfolding handle_activity reset_failure_history refresh_liveness_deadline schedule_liveness_check
handle_activity-IsPublished c i generation event time l p = ground arith
handle_activity-IsPublished c i generation beat time l p = ground arith

pub handle_probe_result-IsPublished :
    (c : Config) (i : Inputs) (generation alive_at : ℕ) (cause : Cause) (l : Loop)
    → IsPublished l
    → IsPublished (handle_probe_result c i generation alive_at cause l)
unfolding handle_probe_result reset_failure_history refresh_liveness_deadline
    schedule_liveness_check
handle_probe_result-IsPublished c i generation alive_at cause l p =
    let answered = record l { probing = false; probe_timed_out = false; timer = no_timer } in
    ground (
      arith,
      route_failure-IsPublished c i probe_timeout_failure (retire_current answered),
      route_failure-IsPublished c i (classify_failure cause "probe" "probe_failed")
          (retire_current answered),
      retire_current-going answered,
    )

pub start_generation-IsPublished :
    (c : Config) (i : Inputs) (l : Loop) → IsPublished l → IsPublished (start_generation c i l).0
unfolding start_generation
start_generation-IsPublished c i l p = ground arith

pub handle_repair_result-IsPublished :
    (c : Config) (i : Inputs) (epoch : ℕ) (cause : Cause) (l : Loop)
    → IsPublished l
    → IsPublished (handle_repair_result c i epoch cause l)
unfolding handle_repair_result
handle_repair_result-IsPublished c i epoch cause l p = ground (
  arith,
  start_generation-IsPublished c i (record l { repairing = false; repair_failed = false }),
)

pub handle_pair_event-IsPublished :
    (i : Inputs) (epoch : ℕ) (kind : PairEventKind) (expires_at : ℕ) (message : String) (l : Loop)
    → IsPublished l
    → IsPublished (handle_pair_event i epoch kind expires_at message l)
unfolding handle_pair_event expire_pairing
handle_pair_event-IsPublished i epoch qr expires_at message l p = ground arith
handle_pair_event-IsPublished i epoch code expires_at message l p = ground arith
handle_pair_event-IsPublished i epoch blocked expires_at message l p = ground arith
handle_pair_event-IsPublished i epoch other expires_at message l p = ground arith

pub handle_pair_result-IsPublished :
    (i : Inputs) (epoch : ℕ) (cause : Cause) (device : LinkedDevice) (l : Loop)
    → IsPublished l
    → IsPublished (handle_pair_result i epoch cause device l)
unfolding handle_pair_result expire_pairing expire_if_due
handle_pair_result-IsPublished i epoch cause device l p = ground arith

pub fire-IsPublished :
    (c : Config) (i : Inputs) (timer : Timer) (l : Loop)
    → IsPublished l
    → IsPublished (fire c i timer l)
unfolding fire begin_probe schedule_liveness_check expire_pairing
fire-IsPublished c i no_timer l p = p
fire-IsPublished c i (connect_timer t) l p = handle_connect_timeout-IsPublished c i l p
fire-IsPublished c i (liveness_timer t) l p = ground arith
fire-IsPublished c i (backoff_timer t) l p = ground (arith, start_generation-IsPublished c i l)
fire-IsPublished c i (probe_timer t) l p = ground arith
fire-IsPublished c i (pair_timer t) l p = ground arith
