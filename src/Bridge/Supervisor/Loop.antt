-- ===== src/Bridge/Supervisor/Loop.antt =====
-- The arms of the run loop: the commands, the deadlines that are due, and Sync's drain.
pub mod Run
use om_tui.Common.{
  ℕ, Bool, true, false, not, ◌&&◌, ◌||◌, Option, none, some, List, [], ◌∷◌, String, str_eq, leb,
  ◌==◌, if◌then◌else◌,
}
use om_tui.Bridge.Types.{OpError, unset}
use om_tui.Bridge.Supervisor.State.{
  State, Snapshot, Timer, no_timer, connect_timer, liveness_timer, backoff_timer, probe_timer,
  pair_timer, Cause, idle, SupervisorError, supervisor_stopped, supervisor_busy, supervisor_blocked,
  pairing_not_allowed, fingerprint_unchanged, Reply, done, refused, LinkedDevice, Loop, Config,
  Inputs, ActivityKind, PairEventKind,
}
use om_tui.Bridge.Supervisor.Failures.{no_failure, is_expired, reset_failure_history}
use om_tui.Bridge.Supervisor.Generations.{
  publish, enter, resolve_pending_start, retire_current, start_generation, begin_credential_repair,
  handle_connect_timeout,
}
use om_tui.Bridge.Supervisor.Probing.{
  is_online, is_degraded, handle_activity, schedule_liveness_check, begin_probe,
  handle_probe_result, handle_repair_result,
}
use om_tui.Bridge.Supervisor.Connecting.{finish_start, receive_start, handle_run_done, handle_ready}
use om_tui.Bridge.Supervisor.Pairing.{
  begin_pairing, expire_pairing, handle_pair_event, handle_pair_result,
}

-- The arms of the loop's select, but for commands, the stop request and startResults. `readiness` carries
-- what is ready on Run.Done at that moment.
pub data Work : Type 0 where
  activity : ℕ → ActivityKind → ℕ → Work
  run_done : Cause → Work
  readiness : Option Cause → Work
  probe_result : ℕ → ℕ → Cause → Work
  repair_result : ℕ → Cause → Work
  pair_event : ℕ → PairEventKind → ℕ → String → Work
  pair_result : ℕ → Cause → LinkedDevice → Work
  -- Nothing but a deadline that may be due.
  tick : Work

pub data Command : Type 0 where
  start : LinkedDevice → Command
  retry_blocked : Command
  inputs_changed : String → Command
  begin_pair : Command
  -- The work that its drain finds ready.
  sync : List (Inputs × Work) → Command

-- What an iteration finds: a command of a caller, work, or a start result to receive. `start_returns`
-- is the worker's own step, with what Lifecycle.Start returned.
pub data Event : Type 0 where
  command : ℕ → Command → Event
  work : Work → Event
  start_result : Event
  start_returns : Bool → Cause → Event

-- The timer's deadline has come.
abbrev pub is_due : ℕ → ℕ → Bool
is_due deadline now = not (deadline == 0) && leb deadline now

abbrev pub deadline_of : Timer → ℕ
deadline_of no_timer = 0
deadline_of (connect_timer t) = t
deadline_of (liveness_timer t) = t
deadline_of (backoff_timer t) = t
deadline_of (probe_timer t) = t
deadline_of (pair_timer t) = t

abbrev pub is_backoff : State → Bool
is_backoff State.backoff = true
is_backoff _ = false

-- The switch of enforceDueDeadline, on the purpose of the timer that was cleared.
unfoldable pub fire : Config → Inputs → Timer → Loop → Loop
fire c i no_timer l = l
fire c i (connect_timer _) l = handle_connect_timeout c i l
fire c i (liveness_timer _) l =
    if is_online l.snapshot.state
    then if leb l.snapshot.liveness_deadline i.check
      then begin_probe c i l
      else schedule_liveness_check c i l
    else l
fire c i (backoff_timer _) l =
    if is_backoff l.snapshot.state && not l.closing then (start_generation c i l).0 else l
fire c i (probe_timer _) l =
    if l.probing && is_degraded l.snapshot.state then record l { probe_timed_out = true } else l
fire c i (pair_timer _) l =
    if l.pair_active && not (l.pair_expires_at == 0) && leb l.pair_expires_at i.check
    then expire_pairing l
    else l

-- enforceDueDeadline: the flag is its result.
unfoldable pub enforce_due_deadline : Config → Inputs → Loop → Loop × Bool
enforce_due_deadline c i l =
    if is_due (deadline_of l.timer) i.due
    then (fire c i l.timer (record l { timer = no_timer }), true)
    else (l, false)

-- An arm of the select. A nil channel is never ready.
unfoldable pub perform_work : Config → Inputs → Work → Loop → Loop
perform_work c i (activity generation kind time) l = handle_activity c i generation kind time l
perform_work c i (run_done cause) l = if l.done_open then handle_run_done c i cause l else l
perform_work c i (readiness finished) l = if l.ready then handle_ready c i finished l else l
perform_work c i (probe_result generation alive_at cause) l =
    handle_probe_result c i generation alive_at cause l
perform_work c i (repair_result epoch cause) l = handle_repair_result c i epoch cause l
perform_work c i (pair_event epoch kind expires_at message) l =
    handle_pair_event i epoch kind expires_at message l
perform_work c i (pair_result epoch cause device) l = handle_pair_result i epoch cause device l
perform_work c i tick l = l

-- A round of drainReadyWork: the due deadline if there is one, and otherwise an arm.
unfoldable pub round : Config → Inputs → Work → Loop → Loop
round c i w l =
    let (enforced, due) = enforce_due_deadline c i l in
    if due then enforced else perform_work c i w l

unfoldable pub drain_ready_work : Config → List (Inputs × Work) → Loop → Loop
drain_ready_work c [] l = l
drain_ready_work c ((i, w) ∷ rest) l = drain_ready_work c rest (round c i w l)

abbrev pub reply_to : ℕ → Reply → Loop → Loop
reply_to caller reply l = record l { replies = (caller, reply) ∷ l.replies }

-- startAndDeferReply, and the caller's answer when it is not deferred.
abbrev pub defer_reply : ℕ → Loop × Option SupervisorError → Loop
defer_reply caller (l, none) = record l { pending_start_reply = some caller }
defer_reply caller (l, some e) = reply_to caller (refused e) l

unfoldable pub start_and_defer_reply : Config → Inputs → ℕ → Loop → Loop
start_and_defer_reply c i caller l = defer_reply caller (start_generation c i l)

-- The exit from a blocked state that RetryBlocked and InputsChanged share.
unfoldable pub leave_blocked : Config → Inputs → ℕ → OpError → Loop → Loop
leave_blocked c i caller failure l =
    if is_expired failure.class
    then reply_to caller done (begin_credential_repair c failure l)
    else if str_eq failure.operation "pair"
    then reply_to caller done (publish (enter State.unpaired l))
    else start_and_defer_reply c i caller l

unfoldable pub start_device : Config → Inputs → ℕ → LinkedDevice → Loop → Loop
start_device c i caller device l =
    if l.pair_active
    then reply_to caller (refused supervisor_busy) l
    else start_and_defer_reply c i caller (record (reset_failure_history l) { request = device })

unfoldable pub handle_start : Config → Inputs → ℕ → LinkedDevice → State → Loop → Loop
handle_start c i caller device State.unpaired l =
    reply_to caller (refused (if l.pair_active then supervisor_busy else pairing_not_allowed)) l
handle_start c i caller device State.blocked l =
    reply_to caller (refused (if l.pair_active then supervisor_busy else supervisor_blocked)) l
handle_start c i caller device State.stopped l = start_device c i caller device l
handle_start c i caller device State.unconfigured l = start_device c i caller device l
handle_start c i caller device _ l = reply_to caller (refused supervisor_busy) l

abbrev pub is_blocked : State → Bool
is_blocked State.blocked = true
is_blocked _ = false

unfoldable pub handle_command : Config → Inputs → ℕ → Command → Loop → Loop
handle_command c i caller (start device) l = handle_start c i caller device l.snapshot.state l
handle_command c i caller retry_blocked l =
    if is_blocked l.snapshot.state
    then leave_blocked c i caller l.last_failure (reset_failure_history l)
    else reply_to caller (refused supervisor_blocked) l
handle_command c i caller (inputs_changed fingerprint) l =
    if is_blocked l.snapshot.state
    then if str_eq fingerprint "" || str_eq fingerprint l.snapshot.error_fingerprint
      then reply_to caller (refused fingerprint_unchanged) l
      else leave_blocked c i caller l.last_failure (reset_failure_history l)
    else reply_to caller (refused supervisor_blocked) l
handle_command c i caller begin_pair l =
    let (begun, reply) = begin_pairing c i l in reply_to caller reply begun
handle_command c i caller (sync ready) l = reply_to caller done (drain_ready_work c ready l)

-- A command that reaches a loop that is closing is refused.
abbrev pub ask : ℕ → Loop → Loop
ask caller l = record l { asked = caller ∷ l.asked }

unfoldable pub take_command : Config → Inputs → ℕ → Command → Loop → Loop
take_command c i caller request l =
    if l.closing
    then reply_to caller (refused supervisor_stopped) (ask caller l)
    else handle_command c i caller request (ask caller l)
