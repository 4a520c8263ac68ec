-- ===== src/Bridge/Supervisor/Connecting.antt =====
-- A connection attempt: the worker that calls Lifecycle.Start, its result, readiness, and the end of a run.
use om_tui.Common.{ℕ, Bool, true, false, ◌&&◌, Option, none, some, ◌∷◌, leb, ◌==◌, if◌then◌else◌}
use om_tui.Bridge.Types.{misconfigured, unset, OpError}
use om_tui.Bridge.Supervisor.State.{
  State, no_timer, Cause, opaque, StartResult, idle, waiting, posted, StartChannel, done, failed,
  Loop, Config, Inputs,
}
use om_tui.Bridge.Supervisor.Failures.{no_failure, classify_failure, connect_timeout_failure}
use om_tui.Bridge.Supervisor.Generations.{
  publish, is_idle, is_connecting, stop_run, resolve_pending_start, clear_generation_context,
  retire_current, route_failure, handle_connect_timeout,
}
use om_tui.Bridge.Supervisor.Probing.{is_clean, watch}

-- An error that is not nil.
abbrev pub spoiled : Cause → Cause
spoiled cause = if is_clean cause then opaque else cause

-- Start hands a run to the worker.
abbrev pub take_run : ℕ → Loop → Loop
take_run generation l = record l { acquired = generation ∷ l.acquired }

abbrev pub post : ℕ → Bool → Cause → Loop → Loop
post generation has_run cause l = record l {
  start_results = posted (record { generation = generation; has_run = has_run; cause = cause });
}

-- The goroutine of startGeneration after callLifecycleStart. A run that arrives after the cancellation is
-- stopped, and the joined error is not nil.
unfoldable pub finish_start : Bool → Cause → StartChannel → Loop → Loop
finish_start has_run cause (waiting generation) l =
    if has_run
    then if l.start_canceled
      then post generation false (spoiled cause) (stop_run generation (take_run generation l))
      else post generation true cause (take_run generation l)
    else post generation false cause l
finish_start has_run cause idle l = l
finish_start has_run cause (posted result) l = l

abbrev pub nil_run_failure : OpError
nil_run_failure = record no_failure {
  class = misconfigured;
  operation = "start";
  fingerprint = "lifecycle_nil_run";
}

unfoldable pub install_run : Loop → Loop
install_run l = record l { run = true; ready = true; done_open = true }

-- A result that holds a run is stopped.
abbrev pub discard : StartResult → Loop → Loop
discard result l = if result.has_run then stop_run result.generation l else l

-- The failure of a first attempt also answers the caller that waits for it.
abbrev pub fail_start : Config → Inputs → OpError → Loop → Loop
fail_start c i failure l = resolve_pending_start (failed failure) (route_failure c i failure l)

-- handleStartResult once the result is the current generation's.
unfoldable pub settle_start : Config → Inputs → StartResult → Bool → Loop → Loop
settle_start c i result timed_out l =
    if timed_out
    then fail_start c i connect_timeout_failure (clear_generation_context (discard result l))
    else if is_clean result.cause
    then if result.has_run
      then if leb l.connect_deadline i.check
        then resolve_pending_start (failed connect_timeout_failure)
            (handle_connect_timeout c i (install_run l))
        else resolve_pending_start done (install_run l)
      else fail_start c i nil_run_failure (clear_generation_context (record l { timer = no_timer }))
    else fail_start c i (classify_failure result.cause "start" "start_failed")
        (retire_current (record (if result.has_run then install_run l else l) { timer = no_timer }))

unfoldable pub handle_start_result : Config → Inputs → StartResult → Loop → Loop
handle_start_result c i result l =
    if is_idle l.start_results
    then discard result l
    else if result.generation == l.snapshot.generation
    then settle_start c i result l.start_timed_out
        (record l { start_results = idle; start_timed_out = false })
    else discard result l

-- The select's receive from startResults, which takes the result out of the channel.
unfoldable pub receive_start : Config → Inputs → StartChannel → Loop → Loop
receive_start c i (posted result) l =
    handle_start_result c i result (record l { start_results = waiting result.generation })
receive_start c i idle l = l
receive_start c i (waiting generation) l = l

unfoldable pub handle_run_done : Config → Inputs → Cause → Loop → Loop
handle_run_done c i cause l =
    if l.run
    then if is_connecting l.snapshot.state && leb l.connect_deadline i.check
      then handle_connect_timeout c i l
      else route_failure c i (classify_failure (spoiled cause) "run" "run_completed")
          (retire_current (record l { done_open = false; timer = no_timer }))
    else record l { done_open = false }

-- handleReady past its tests.
abbrev pub become_online : Config → Inputs → Loop → Loop
become_online c i l = publish (
    watch c i (record l {
      ready = false;
      liveness_baseline = i.begin;
      snapshot = record l.snapshot {
        state = State.online;
        retry_at = 0;
        error_class = unset;
        error_fingerprint = "";
      };
    }))

abbrev pub ready_unless_late : Config → Inputs → Loop → Loop
ready_unless_late c i l =
    if leb l.connect_deadline i.check then handle_connect_timeout c i l else become_online c i l

abbrev pub ready_unless_done : Config → Inputs → Option Cause → Loop → Loop
ready_unless_done c i (some cause) l =
    if l.done_open then handle_run_done c i cause l else ready_unless_late c i l
ready_unless_done c i none l = ready_unless_late c i l

-- `finished`: what is ready on Run.Done.
unfoldable pub handle_ready : Config → Inputs → Option Cause → Loop → Loop
handle_ready c i finished l =
    if l.run && is_connecting l.snapshot.state
    then ready_unless_done c i finished l
    else record l { ready = false }
