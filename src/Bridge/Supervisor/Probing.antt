-- ===== src/Bridge/Supervisor/Probing.antt =====
-- Liveness: activity, the deadline it moves, the probe, and the result of a credential repair.
use om_tui.Common.{ℕ, ◌+◌, Bool, true, false, not, ◌&&◌, ◌||◌, ltb, ◌==◌, if◌then◌else◌}
use om_tui.Bridge.Types.{transient, OpError}
use om_tui.Bridge.Supervisor.State.{
  State, no_timer, liveness_timer, probe_timer, Cause, clean, Loop, Config, Inputs, ActivityKind,
  event, beat,
}
use om_tui.Bridge.Supervisor.Failures.{no_failure, classify_failure, reset_failure_history}
use om_tui.Bridge.Supervisor.Generations.{
  publish, enter, retire_current, route_failure, start_generation,
}

abbrev pub is_online : State → Bool
is_online State.online = true
is_online _ = false

abbrev pub is_degraded : State → Bool
is_degraded State.degraded = true
is_degraded _ = false

abbrev pub is_repairing : State → Bool
is_repairing State.repairing_credentials = true
is_repairing _ = false

abbrev pub is_clean : Cause → Bool
is_clean clean = true
is_clean _ = false

-- The later of two times; `if a.After(b) { b = a }`.
abbrev pub later : ℕ → ℕ → ℕ
later a b = if ltb b a then a else b

abbrev pub earlier : ℕ → ℕ → ℕ
earlier a b = if ltb a b then a else b

-- clampActivityTime.
unfoldable pub clamp_activity_time : ℕ → ℕ → ℕ
clamp_activity_time time now = if time == 0 || ltb now time then now else time

unfoldable pub refresh_liveness_deadline : Config → Loop → Loop
refresh_liveness_deadline c l = record l {
  snapshot = record l.snapshot {
    liveness_deadline =
        later l.snapshot.last_probe_ok_at (later l.snapshot.last_event_at l.liveness_baseline)
        + c.policy.liveness_timeout;
  };
}

unfoldable pub schedule_liveness_check : Config → Inputs → Loop → Loop
schedule_liveness_check c i l =
    if is_online l.snapshot.state
    then record l {
      timer = liveness_timer (earlier l.snapshot.liveness_deadline (i.plan + c.policy.probe_every));
    }
    else l

abbrev pub record_activity : ActivityKind → ℕ → Loop → Loop
record_activity event time l = record l {
  snapshot = record l.snapshot { last_event_at = later time l.snapshot.last_event_at };
}
record_activity beat time l = record l {
  snapshot = record l.snapshot { last_probe_ok_at = later time l.snapshot.last_probe_ok_at };
}

-- The tail of handleActivity and of a good probe.
abbrev pub watch : Config → Inputs → Loop → Loop
watch c i l = schedule_liveness_check c i (refresh_liveness_deadline c l)

unfoldable pub handle_activity : Config → Inputs → ℕ → ActivityKind → ℕ → Loop → Loop
handle_activity c i generation kind time l =
    let seen = reset_failure_history (record_activity kind (clamp_activity_time time i.check) l) in
    if generation == l.snapshot.generation && l.run
    then publish (if is_online l.snapshot.state then watch c i seen else seen)
    else l

unfoldable pub begin_probe : Config → Inputs → Loop → Loop
begin_probe c i l =
    if l.run && is_online l.snapshot.state && not l.probing
    then publish (
        enter State.degraded (record l {
          probe_started = i.begin;
          probe_timed_out = false;
          probing = true;
          timer = probe_timer (i.begin + c.policy.probe_timeout);
        }))
    else l

abbrev pub probe_timeout_failure : OpError
probe_timeout_failure = record no_failure {
  class = transient;
  operation = "probe";
  fingerprint = "probe_timeout";
}

-- The generation answered the probe, alive at a time that is not before the probe.
abbrev pub probed : Config → Inputs → ℕ → Loop → Loop
probed c i time l =
    let seen = record_activity beat (later l.probe_started (clamp_activity_time time i.check)) l in
    let fresh = refresh_liveness_deadline c (enter State.online (reset_failure_history seen)) in
    schedule_liveness_check c i (publish fresh)

unfoldable pub handle_probe_result : Config → Inputs → ℕ → ℕ → Cause → Loop → Loop
handle_probe_result c i generation alive_at cause l =
    let answered = record l { probing = false; probe_timed_out = false; timer = no_timer } in
    if l.probing && generation == l.snapshot.generation
    then if l.probe_timed_out
      then route_failure c i probe_timeout_failure (retire_current answered)
      else if is_clean cause
      then if l.run && is_degraded l.snapshot.state then probed c i alive_at answered else answered
      else route_failure c i (classify_failure cause "probe" "probe_failed")
          (retire_current answered)
    else l

unfoldable pub handle_repair_result : Config → Inputs → ℕ → Cause → Loop → Loop
handle_repair_result c i epoch cause l =
    let finished = record l { repairing = false } in
    if l.repairing && epoch == l.repair_epoch
    then if is_repairing l.snapshot.state
      then if is_clean cause
        then (start_generation c i (record finished { repair_failed = false })).0
        else publish (enter State.blocked (record finished { repair_failed = true }))
      else finished
    else l
