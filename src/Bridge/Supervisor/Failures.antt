-- ===== src/Bridge/Supervisor/Failures.antt =====
-- Failures: their classification, the repeated-fingerprint circuit, and the backoff with full jitter.
use om_tui.Common.{
  not, ◌&&◌, ℕ, zero, suc, ◌+◌, ◌*◌, ◌/◌, Bool, true, false, Option, none, some, String, str_eq,
  ltb, leb, ◌==◌, if◌then◌else◌,
}
use om_tui.Bridge.Types.{
  FailureClass, transient, credentials_expired, unpaired, unset, unlisted, unstated, OpError,
}
use om_tui.Bridge.Supervisor.State.{Policy, Cause, clean, opaque, carries, Loop}

-- OpError{}.
abbrev pub no_failure : OpError
no_failure = record {
  class = unset;
  operation = "";
  fingerprint = "";
  retry_at = none;
  dispatch = unstated;
}

abbrev pub default_class : FailureClass → FailureClass
default_class unset = transient
default_class class = class

abbrev pub default_text : String → String → String
default_text s d = if str_eq s "" then d else s

abbrev pub carried : Cause → OpError
carried clean = no_failure
carried opaque = no_failure
carried (carries failure) = failure

unfoldable pub classify_failure : Cause → String → String → OpError
classify_failure cause operation fallback =
    let failure = carried cause in
    record failure {
      class = default_class failure.class;
      operation = default_text failure.operation operation;
      fingerprint = default_text failure.fingerprint fallback;
    }

-- connectTimeoutFailure.
abbrev pub connect_timeout_failure : OpError
connect_timeout_failure = record no_failure {
  class = transient;
  operation = "connect";
  fingerprint = "connect_timeout";
}

-- A class that routeFailure does not list is transient.
abbrev pub known_class : FailureClass → FailureClass
known_class unset = transient
known_class (unlisted _) = transient
known_class class = class

abbrev pub is_transient : FailureClass → Bool
is_transient transient = true
is_transient _ = false

abbrev pub is_unpaired : FailureClass → Bool
is_unpaired unpaired = true
is_unpaired _ = false

abbrev pub is_expired : FailureClass → Bool
is_expired credentials_expired = true
is_expired _ = false

-- The loop of backoffCap after its test, with the rounds left.
unfoldable pub double_cap : ℕ → ℕ → ℕ → ℕ
double_cap zero maximum cap' = if ltb maximum cap' then maximum else cap'
double_cap (suc rounds) maximum cap' =
    let rest = double_cap rounds maximum (cap' * 2) in
    if ltb cap' maximum
    then (if ltb (maximum / 2) cap' then maximum else rest)
    else (if ltb maximum cap' then maximum else cap')

abbrev pub rounds_of : ℕ → ℕ
rounds_of zero = 0
rounds_of (suc n) = n

unfoldable pub backoff_cap : ℕ → ℕ → ℕ → ℕ
backoff_cap minimum maximum attempt = double_cap (rounds_of attempt) maximum minimum

abbrev pub in_range : ℕ → Option ℕ → Option ℕ
in_range bound none = none
in_range bound (some value) = if ltb value bound then some value else none

-- drawJitter; none for its error.
unfoldable pub draw_jitter : (ℕ → Option ℕ) → ℕ → Option ℕ
draw_jitter draw bound = if bound == 0 then none else in_range bound (draw bound)

unfoldable pub reset_failure_history : Loop → Loop
reset_failure_history l = record l {
  transient_attempt = 0;
  same_fingerprint = "";
  same_failure_count = 0;
  repair_failed = false;
  last_failure = no_failure;
  snapshot = record l.snapshot { retry_at = 0; error_class = unset; error_fingerprint = "" };
}

-- The new count of failures with the same fingerprint.
abbrev pub repeats : String → Loop → ℕ
repeats fingerprint l =
    if str_eq fingerprint l.same_fingerprint then l.same_failure_count + 1 else 1

-- recordFingerprint: whether the circuit opens.
unfoldable pub record_fingerprint : Policy → FailureClass → String → Loop → Loop × Bool
record_fingerprint policy class fingerprint l =
    if is_transient class
    then (l, false)
    else if str_eq fingerprint ""
    then (record l { same_fingerprint = ""; same_failure_count = 0 }, false)
    else (
      record l { same_fingerprint = fingerprint; same_failure_count = repeats fingerprint l },
      leb policy.max_same_fingerprint (repeats fingerprint l),
    )

-- validatePolicy: true for a nil error.
unfoldable pub validate_policy : Policy → Bool
validate_policy policy =
    not (policy.connect_timeout == 0)
    && not (policy.probe_every == 0)
    && not (policy.probe_timeout == 0)
    && not (policy.liveness_timeout == 0)
    && not (policy.min_backoff == 0)
    && leb policy.min_backoff policy.max_backoff
    && not (policy.max_same_fingerprint == 0)
