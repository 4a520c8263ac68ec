-- ===== src/Bridge/Supervisor/Loop/Run.antt =====
-- The run loop: shutdown, the select, one turn, and whole histories.
use om_tui.Common.{Bool, true, false, none, List, [], ◌∷◌, if◌then◌else◌}
use om_tui.Bridge.Types.{unset}
use om_tui.Bridge.Supervisor.State.{
  State, Snapshot, no_timer, Cause, idle, supervisor_stopped, refused, Loop, Config, Inputs,
}
use om_tui.Bridge.Supervisor.Failures.{no_failure}
use om_tui.Bridge.Supervisor.Generations.{publish, resolve_pending_start, retire_current}
use om_tui.Bridge.Supervisor.Connecting.{finish_start, receive_start}
use om_tui.Bridge.Supervisor.Loop.{
  Event, command, work, start_result, start_returns, enforce_due_deadline, perform_work,
  take_command,
}

-- The workers that Wait joins: a Start that has not returned may still return a run, and stops it, since
-- its context is canceled.
abbrev pub join_start : Bool → Cause → Loop → Loop
join_start has_run cause l = finish_start has_run cause l.start_results l

abbrev pub rest : State → Loop → Loop
rest state l = publish (record l {
  snapshot = record l.snapshot { state = state; liveness_deadline = 0; retry_at = 0 };
})

-- shutdown, with what an outstanding Start returns.
unfoldable pub shutdown : Bool → Cause → Loop → Loop
shutdown has_run cause l =
    let stopping =
      retire_current
        (record (rest State.stopping l) { timer = no_timer; pair_sink_open = false }) in
    let joined =
      resolve_pending_start (refused supervisor_stopped) (join_start has_run cause stopping) in
    rest State.stopped
      (record joined { probing = false; repairing = false; pair_active = false; exited = true })

-- The select.
unfoldable pub select : Config → Inputs → Event → Loop → Loop
select c i (command caller request) l = take_command c i caller request l
select c i (work w) l = perform_work c i w l
select c i start_result l = receive_start c i l.start_results l
select c i (start_returns has_run cause) l = l

abbrev pub select_unless_due : Config → Inputs → Event → Loop × Bool → Loop
select_unless_due c i e (enforced, true) = enforced
select_unless_due c i e (l, false) = select c i e l

-- What Start returns when shutdown joins its worker.
abbrev pub joined_run : Event → Bool
joined_run (start_returns has_run cause) = has_run
joined_run _ = false

abbrev pub joined_cause : Event → Cause
joined_cause (start_returns has_run cause) = cause
joined_cause _ = Cause.clean

-- A turn of the loop of run.
unfoldable pub iteration : Config → Inputs → Event → Loop → Loop
iteration c i e l =
    if l.closing
    then shutdown (joined_run e) (joined_cause e) l
    else select_unless_due c i e (enforce_due_deadline c i (record l { closing = i.stop_called }))

-- The worker's step goes beside the loop, until shutdown joins it.
unfoldable pub proceed : Config → Inputs → Event → Loop → Loop
proceed c i (start_returns has_run cause) l =
    if l.closing
    then iteration c i (start_returns has_run cause) l
    else finish_start has_run cause l.start_results l
proceed c i e l = iteration c i e l

-- Nothing follows the return of run.
unfoldable pub step : Config → Inputs → Event → Loop → Loop
step c i e l = if l.exited then l else proceed c i e l

-- A history of the loop.
unfoldable pub steps : Config → List (Inputs × Event) → Loop → Loop
steps c [] l = l
steps c ((i, e) ∷ rest) l = steps c rest (step c i e l)

-- NewSupervisor's loop, with the initial state of WithInitialState.
unfoldable pub new_loop : State → Loop
new_loop state =
    let snapshot : Snapshot = record {
      state = state;
      generation = 0;
      last_event_at = 0;
      last_probe_ok_at = 0;
      liveness_deadline = 0;
      retry_at = 0;
      error_class = unset;
      error_fingerprint = "";
    } in
    record {
      snapshot = snapshot;
      published = snapshot;
      timer = no_timer;
      request = record { remote_account_id = ""; device_id = "" };
      start_results = idle;
      start_timed_out = false;
      start_canceled = false;
      pending_start_reply = none;
      run = false;
      ready = false;
      done_open = false;
      connect_deadline = 0;
      liveness_baseline = 0;
      transient_attempt = 0;
      same_fingerprint = "";
      same_failure_count = 0;
      last_failure = no_failure;
      repair_failed = false;
      probing = false;
      probe_started = 0;
      probe_timed_out = false;
      repair_epoch = 0;
      repairing = false;
      pair_epoch = 0;
      pair_active = false;
      pair_expired = false;
      pair_expires_at = 0;
      pair_sink_open = false;
      gate = record { generation = 0; active = false };
      closing = false;
      exited = false;
      acquired = [];
      stops = [];
      asked = [];
      replies = [];
    }
