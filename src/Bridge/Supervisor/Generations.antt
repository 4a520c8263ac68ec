-- ===== src/Bridge/Supervisor/Generations.antt =====
-- Timers, the generation fence, the start and the end of a generation, credential repair, and the routing
-- of a failure.
use om_tui.Common.{
  ℕ, ◌+◌, Bool, true, false, not, ◌||◌, Option, none, some, ◌∷◌, ltb, ◌==◌, coalesce, if◌then◌else◌,
}
use om_tui.Bridge.Types.{
  FailureClass, transient, rate_limited, credentials_expired, reauth_required, upgrade_required,
  misconfigured, unsupported, unset, OpError,
}
use om_tui.Bridge.Supervisor.State.{
  State, no_timer, connect_timer, backoff_timer, StartChannel, idle, waiting, posted,
  SupervisorError, supervisor_stopped, supervisor_busy, Reply, Fence, Loop, Config, Inputs,
}
use om_tui.Bridge.Supervisor.Failures.{
  known_class, is_unpaired, connect_timeout_failure, backoff_cap, draw_jitter,
  reset_failure_history, record_fingerprint,
}

abbrev pub publish : Loop → Loop
publish l = record l { published = l.snapshot }

abbrev pub enter : State → Loop → Loop
enter state l = record l { snapshot = record l.snapshot { state = state } }

abbrev pub is_idle : StartChannel → Bool
is_idle idle = true
is_idle (waiting _) = false
is_idle (posted _) = false

abbrev pub is_connecting : State → Bool
is_connecting State.connecting = true
is_connecting _ = false

-- generationFence.activate and deactivate.
abbrev pub activate : ℕ → Fence → Fence
activate generation gate = record { generation = generation; active = true }

abbrev pub deactivate : ℕ → Fence → Fence
deactivate generation gate =
    if gate.generation == generation then record gate { active = false } else gate

-- resolvePendingStart.
abbrev pub answer : Option ℕ → Reply → Loop → Loop
answer none reply l = l
answer (some caller) reply l = record l {
  pending_start_reply = none;
  replies = (caller, reply) ∷ l.replies;
}

unfoldable pub resolve_pending_start : Reply → Loop → Loop
resolve_pending_start reply l = answer l.pending_start_reply reply l

-- Run.Stop of the run of a generation.
abbrev pub stop_run : ℕ → Loop → Loop
stop_run generation l = record l { stops = generation ∷ l.stops }

-- The cancellation reaches a Start that has not returned.
unfoldable pub clear_generation_context : Loop → Loop
clear_generation_context l = record l {
  start_canceled = true;
  gate = deactivate l.snapshot.generation l.gate;
  ready = false;
  done_open = false;
}

-- retireCurrent with retireCurrentPreservingProbe.
unfoldable pub retire_current : Loop → Loop
retire_current l =
    let cleared =
      clear_generation_context (record l { probing = false; probe_timed_out = false }) in
    if l.run then stop_run l.snapshot.generation (record cleared { run = false }) else cleared

-- The state of the loop when a generation's Start is called.
abbrev pub started : Config → Inputs → Loop → Loop
started c i l = publish (record l {
  snapshot = record l.snapshot {
    state = State.connecting;
    generation = l.snapshot.generation + 1;
    last_event_at = 0;
    last_probe_ok_at = 0;
    liveness_deadline = 0;
    retry_at = 0;
    error_class = unset;
    error_fingerprint = "";
  };
  connect_deadline = i.begin + c.policy.connect_timeout;
  liveness_baseline = i.begin;
  timer = connect_timer (i.begin + c.policy.connect_timeout);
  gate = activate (l.snapshot.generation + 1) l.gate;
  start_results = waiting (l.snapshot.generation + 1);
  start_timed_out = false;
  start_canceled = false;
})

-- startGeneration; none for a nil error.
unfoldable pub start_generation : Config → Inputs → Loop → Loop × Option SupervisorError
start_generation c i l =
    if l.closing
    then (l, some supervisor_stopped)
    else if l.run || not (is_idle l.start_results)
    then (l, some supervisor_busy)
    else (started c i l, none)

unfoldable pub begin_credential_repair : Config → OpError → Loop → Loop
begin_credential_repair c failure l =
    let repairing = record l {
      timer = no_timer;
      snapshot = record l.snapshot {
        state = State.repairing_credentials;
        retry_at = 0;
        error_class = failure.class;
        error_fingerprint = failure.fingerprint;
      };
      last_failure = failure;
      repair_failed = false;
    } in
    if c.repairs
    then record (publish repairing) { repair_epoch = l.repair_epoch + 1; repairing = true }
    else publish (enter State.blocked (record repairing { repair_failed = true }))

-- The arm of a transient failure once the delay is drawn.
abbrev pub back_off : Inputs → Option ℕ → Loop → Loop
back_off i none l = publish (record l {
  snapshot = record l.snapshot {
    state = State.blocked;
    error_class = misconfigured;
    error_fingerprint = "invalid_jitter_source";
  };
})
back_off i (some delay) l = publish (record l {
  snapshot = record l.snapshot { state = State.backoff; retry_at = i.plan + delay };
  timer = backoff_timer (i.plan + delay);
})

-- A rate limit that has passed ends now.
abbrev pub not_before : ℕ → Inputs → ℕ
not_before retry_at i = if ltb retry_at i.plan then i.floor else retry_at

-- The second switch of routeFailure.
unfoldable pub route_class : Config → Inputs → FailureClass → OpError → Loop → Loop
route_class c i transient failure l =
    let attempt = l.transient_attempt + 1 in
    back_off i (draw_jitter i.draw (backoff_cap c.policy.min_backoff c.policy.max_backoff attempt))
      (record l { transient_attempt = attempt })
route_class c i rate_limited failure l = publish (record l {
  snapshot = record l.snapshot { state = State.backoff; retry_at = coalesce failure.retry_at 0 };
  timer = backoff_timer (not_before (coalesce failure.retry_at 0) i);
})
route_class c i credentials_expired failure l = begin_credential_repair c failure l
route_class c i reauth_required failure l = publish (enter State.blocked l)
route_class c i upgrade_required failure l = publish (enter State.blocked l)
route_class c i misconfigured failure l = publish (enter State.blocked l)
route_class c i unsupported failure l = publish (enter State.blocked l)
route_class c i _ failure l = l

abbrev pub note_failure : OpError → Loop → Loop
note_failure failure l = record l {
  last_failure = failure;
  snapshot = record l.snapshot {
    error_class = failure.class;
    error_fingerprint = failure.fingerprint;
    retry_at = 0;
    liveness_deadline = 0;
  };
}

abbrev pub rest_unpaired : OpError → Loop → Loop
rest_unpaired failure l = publish (record l {
  last_failure = failure;
  snapshot = record l.snapshot {
    error_class = failure.class;
    error_fingerprint = failure.fingerprint;
    state = State.unpaired;
  };
})

abbrev pub route_known : Config → Inputs → OpError → Loop → Loop
route_known c i failure l =
    if is_unpaired failure.class
    then rest_unpaired failure (reset_failure_history (note_failure failure l))
    else let (recorded, opens) =
        record_fingerprint c.policy failure.class failure.fingerprint (note_failure failure l) in
      if opens
      then publish (enter State.blocked recorded)
      else route_class c i failure.class failure recorded

unfoldable pub route_failure : Config → Inputs → OpError → Loop → Loop
route_failure c i failure l =
    route_known c i (record failure { class = known_class failure.class }) l

-- handleConnectTimeout.
unfoldable pub handle_connect_timeout : Config → Inputs → Loop → Loop
handle_connect_timeout c i l =
    if is_connecting l.snapshot.state
    then if is_idle l.start_results
      then if l.run
        then route_failure c i connect_timeout_failure
            (retire_current (record l { timer = no_timer }))
        else record l { timer = no_timer }
      else record l {
        timer = no_timer;
        start_timed_out = true;
        start_canceled = true;
        gate = deactivate l.snapshot.generation l.gate;
      }
    else l
