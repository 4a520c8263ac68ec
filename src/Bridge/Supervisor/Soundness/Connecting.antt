-- ===== src/Bridge/Supervisor/Soundness/Connecting.antt =====
-- A connection attempt keeps the loop sound: the start result, readiness, and the end of a run.
use om_tui.Common.{◌≡◌, Bool, true, false, Option, none, some, arith}
use om_tui.Bridge.Types.{OpError}
use om_tui.Bridge.Supervisor.State.{
  Loop, Config, Inputs, StartChannel, idle, waiting, posted, no_timer, Cause, StartResult, done,
  failed,
}
use om_tui.Bridge.Supervisor.Failures.{connect_timeout_failure, classify_failure}
use om_tui.Bridge.Supervisor.Generations.{
  route_failure, handle_connect_timeout, retire_current, resolve_pending_start,
  clear_generation_context,
}
use om_tui.Bridge.Supervisor.Connecting.{
  handle_ready, handle_run_done, spoiled, settle_start, handle_start_result, receive_start,
  install_run, discard, nil_run_failure, finish_start,
}
use om_tui.Bridge.Supervisor.Probing.{refresh_liveness_deadline, schedule_liveness_check}
use om_tui.Bridge.Supervisor.Soundness.{IsSound}
use om_tui.Bridge.Supervisor.Soundness.Routing.{
  IsRetired, retire_current-IsRetired, route_failure-retire_current-IsSound, route_failure-IsSound,
  resolve_pending_start-IsSound, clear_generation_context-IsRetired, handle_connect_timeout-IsSound,
}

pub handle_run_done-IsSound :
    (c : Config) (i : Inputs) (cause : Cause) (l : Loop)
    → IsSound l
    → IsSound (handle_run_done c i cause l)
unfolding handle_run_done
handle_run_done-IsSound c i cause l s = ground (
  arith,
  handle_connect_timeout-IsSound c i l,
  route_failure-retire_current-IsSound c i (classify_failure (spoiled cause) "run" "run_completed")
      (record l { timer = no_timer; done_open = false }),
)

pub handle_ready-IsSound :
    (c : Config) (i : Inputs) (finished : Option Cause) (l : Loop)
    → IsSound l
    → IsSound (handle_ready c i finished l)
unfolding handle_ready refresh_liveness_deadline schedule_liveness_check
handle_ready-IsSound c i none l s = ground (arith, handle_connect_timeout-IsSound c i l)
handle_ready-IsSound c i (some cause) l s =
    ground (arith, handle_connect_timeout-IsSound c i l, handle_run_done-IsSound c i cause l)

pub fail_start-IsSound :
    (c : Config) (i : Inputs) (failure : OpError) (l : Loop)
    → IsRetired l
    → IsSound (resolve_pending_start (failed failure) (route_failure c i failure l))
fail_start-IsSound c i failure l r =
    resolve_pending_start-IsSound (failed failure) (route_failure c i failure l)
      (route_failure-IsSound c i failure l r)

-- A run that arrives is installed in place of its Start.
module _ (c : Config) (i : Inputs) (result : StartResult) (l : Loop) where
  abbrev opened : Loop
  opened = record l { start_results = idle; start_timed_out = false }

  timed_out-IsSound :
      IsSound l
      → l.start_results ≡ posted result
      → l.start_timed_out ≡ true
      → IsSound (settle_start c i result true opened)
  unfolding settle_start
  timed_out-IsSound s e t = ground (
    arith,
    fail_start-IsSound c i connect_timeout_failure
        (clear_generation_context (discard result opened)),
    clear_generation_context-IsRetired (discard result opened),
  )

  installed-IsSound :
      IsSound l
      → l.start_results ≡ posted result
      → l.start_timed_out ≡ false
      → IsSound (settle_start c i result false opened)
  unfolding settle_start install_run
  installed-IsSound s e t =
      let untimed = record opened { timer = no_timer } in
      let installed = install_run opened in
      let failure = classify_failure result.cause "start" "start_failed" in
      ground (
        arith,
        resolve_pending_start-IsSound done installed,
        handle_connect_timeout-IsSound c i installed,
        resolve_pending_start-IsSound (failed connect_timeout_failure)
            (handle_connect_timeout c i installed),
        fail_start-IsSound c i nil_run_failure (clear_generation_context untimed),
        clear_generation_context-IsRetired untimed,
        fail_start-IsSound c i failure (retire_current untimed),
        retire_current-IsRetired untimed,
        fail_start-IsSound c i failure (retire_current (record installed { timer = no_timer })),
        retire_current-IsRetired (record installed { timer = no_timer }),
      )

pub receive_start-IsSound :
    (c : Config) (i : Inputs) (channel : StartChannel) (l : Loop)
    → IsSound l
    → l.start_results ≡ channel
    → IsSound (receive_start c i channel l)
unfolding receive_start handle_start_result
receive_start-IsSound c i idle l s e = s
receive_start-IsSound c i (waiting generation) l s e = s
receive_start-IsSound c i (posted result) l s e =
    ground (arith, timed_out-IsSound c i result l, installed-IsSound c i result l)

pub finish_start-IsSound :
    (has_run : Bool) (cause : Cause) (channel : StartChannel) (l : Loop)
    → IsSound l
    → l.start_results ≡ channel
    → IsSound (finish_start has_run cause channel l)
unfolding finish_start
finish_start-IsSound has_run cause idle l s e = s
finish_start-IsSound has_run cause (waiting generation) l s e = ground arith
finish_start-IsSound has_run cause (posted result) l s e = s
