-- ===== src/Bridge/Supervisor/State.antt =====
-- internal/bridge/state.go and the types of supervisor.go: the loop's state, what the world answers, and
-- the commands. A time is a number of nanoseconds, and 0 is Go's zero time.
use om_tui.Common.{ℕ, Bool, Option, List, String}
use om_tui.Bridge.Types.{FailureClass, OpError}

pub data State : Type 0 where
  unconfigured unpaired stopped pairing connecting online degraded backoff : State
  repairing_credentials blocked stopping : State

pub record Policy : Type 0 where
  pub connect_timeout : ℕ
  pub probe_every : ℕ
  pub probe_timeout : ℕ
  pub liveness_timeout : ℕ
  pub min_backoff : ℕ
  pub max_backoff : ℕ
  pub max_same_fingerprint : ℕ

-- bridge.Snapshot without the account and the platform, which never change.
pub record Snapshot : Type 0 where
  pub state : State
  pub generation : ℕ
  pub last_event_at : ℕ
  pub last_probe_ok_at : ℕ
  pub liveness_deadline : ℕ
  pub retry_at : ℕ
  pub error_class : FailureClass
  pub error_fingerprint : String

-- timerPurpose and timerDeadline.
pub data Timer : Type 0 where
  no_timer : Timer
  connect_timer liveness_timer backoff_timer probe_timer pair_timer : ℕ → Timer

-- An error of a collaborator: none, one in which errors.As finds no OpError, or one in which it does.
pub data Cause : Type 0 where
  clean opaque : Cause
  carries : OpError → Cause

-- `has_run`: the result holds a Run, which is the one of its generation.
pub record StartResult : Type 0 where
  pub generation : ℕ
  pub has_run : Bool
  pub cause : Cause

-- startResults: nil, the channel of a worker that has not answered, or one that holds its answer.
pub data StartChannel : Type 0 where
  idle : StartChannel
  waiting : ℕ → StartChannel
  posted : StartResult → StartChannel

pub data SupervisorError : Type 0 where
  supervisor_stopped supervisor_busy supervisor_blocked pairer_unavailable : SupervisorError
  pairing_in_progress pairing_not_allowed pairing_rate_limited fingerprint_unchanged :
      SupervisorError

-- What a command's caller receives.
pub data Reply : Type 0 where
  done : Reply
  refused : SupervisorError → Reply
  failed : OpError → Reply

pub record Fence : Type 0 where
  pub generation : ℕ
  pub active : Bool

pub record LinkedDevice : Type 0 where
  pub remote_account_id : String
  pub device_id : String

-- supervisorLoop, with the supervisor's fence, closing flag and published snapshot. A channel or a run
-- that the source holds in a nilable field is a flag. The last four fields are not in the source: the
-- generations whose Start has returned a run, those whose run was stopped, the callers whose command was
-- taken, and the answers given.
pub record Loop : Type 0 where
  pub snapshot : Snapshot
  pub published : Snapshot
  pub timer : Timer
  pub request : LinkedDevice
  pub start_results : StartChannel
  pub start_timed_out : Bool
  pub start_canceled : Bool
  pub pending_start_reply : Option ℕ
  pub run : Bool
  pub ready : Bool
  pub done_open : Bool
  pub connect_deadline : ℕ
  pub liveness_baseline : ℕ
  pub transient_attempt : ℕ
  pub same_fingerprint : String
  pub same_failure_count : ℕ
  pub last_failure : OpError
  pub repair_failed : Bool
  pub probing : Bool
  pub probe_started : ℕ
  pub probe_timed_out : Bool
  pub repair_epoch : ℕ
  pub repairing : Bool
  pub pair_epoch : ℕ
  pub pair_active : Bool
  pub pair_expired : Bool
  pub pair_expires_at : ℕ
  pub pair_sink_open : Bool
  pub gate : Fence
  pub closing : Bool
  pub exited : Bool
  pub acquired : List ℕ
  pub stops : List ℕ
  pub asked : List ℕ
  pub replies : List (ℕ × Reply)

-- The supervisor's policy, and whether it has a CredentialRepairer and a Pairer.
pub record Config : Type 0 where
  pub policy : Policy
  pub repairs : Bool
  pub pairs : Bool

-- The clock's readings during one iteration, in the order of the code: at the loop's top, of the
-- handler's test, of the operation that begins, of its schedule, and the second one of a rate limit. `draw` is
-- Random.Int63n: none for a panic or a value below 0. `stop_called`: Stop has been called since.
pub record Inputs : Type 0 where
  pub due : ℕ
  pub check : ℕ
  pub begin : ℕ
  pub plan : ℕ
  pub floor : ℕ
  pub draw : ℕ → Option ℕ
  pub stop_called : Bool

pub data ActivityKind : Type 0 where
  event beat : ActivityKind

pub data PairEventKind : Type 0 where
  qr code blocked other : PairEventKind
