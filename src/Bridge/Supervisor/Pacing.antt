-- ===== src/Bridge/Supervisor/Pacing.antt =====
-- The pace of reconnects: the backoff cap in closed form, the bounds of a jittered delay, and the circuit.
use om_tui.Common.{ℕ, zero, suc, ◌+◌, ◌*◌, ◌≤◌, ◌<◌, ◌≡◌, true, some, ltb, if◌then◌else◌, arith}
use om_tui.Bridge.Types.{OpError, transient}
use om_tui.Bridge.Supervisor.State.{State, Loop, Config, Inputs, backoff_timer}
use om_tui.Bridge.Supervisor.Failures.{
  validate_policy, double_cap, backoff_cap, draw_jitter, record_fingerprint, reset_failure_history,
  known_class,
}
use native.Mathlib.Numerals.{add-one}
use om_tui.Bridge.Supervisor.Generations.{route_failure, route_class}

-- 2 to the power of n.
abbrev pub pow2 : ℕ → ℕ
pow2 zero = 1
pow2 (suc n) = 2 * pow2 n

abbrev pub lesser : ℕ → ℕ → ℕ
lesser a b = if ltb a b then a else b

le-pow2 : (k n : ℕ) → k ≤ k * pow2 n
le-pow2 k zero = omega arith
le-pow2 k (suc n) = grind (arith, le-pow2 k n)

assoc_two : (k p : ℕ) → k * 2 * p ≡ k * (2 * p)
assoc_two k p = grind arith

double_cap-lesser :
    (rounds maximum bound : ℕ)
    → bound ≤ maximum
    → double_cap rounds maximum bound ≡ lesser maximum (bound * pow2 rounds)
unfolding double_cap
double_cap-lesser zero maximum bound h = ground arith
double_cap-lesser (suc n) maximum bound h =
    ground
      (arith, double_cap-lesser n maximum (bound * 2), le-pow2 bound n, assoc_two bound (pow2 n))

-- The cap of the nth attempt is the least backoff, doubled n - 1 times, or the greatest backoff where that
-- is more, for any policy whose bounds are in order.
pub backoff_cap-lesser :
    (minimum maximum attempt : ℕ)
    → minimum ≤ maximum
    → backoff_cap minimum maximum (suc attempt) ≡ lesser maximum (minimum * pow2 attempt)
unfolding backoff_cap
backoff_cap-lesser minimum maximum attempt h = double_cap-lesser attempt maximum minimum h

backoff_cap-le :
    (minimum maximum attempt : ℕ)
    → minimum ≤ maximum
    → backoff_cap minimum maximum (attempt + 1) ≤ maximum
backoff_cap-le minimum maximum attempt h =
    rw add-one (ground (arith, backoff_cap-lesser minimum maximum attempt))

-- A transient failure, whatever failures came before, is retried after a delay that the random source
-- draws below the attempt's cap, and so before the greatest backoff has passed. The loop waits for exactly that
-- time, and does not block. The policy is one that validatePolicy accepts.
pub transient_backoff :
    (c : Config) (i : Inputs) (failure : OpError) (l : Loop) (delay : ℕ)
    → known_class failure.class ≡ transient
    → validate_policy c.policy ≡ true
    → i.draw (backoff_cap c.policy.min_backoff c.policy.max_backoff (l.transient_attempt + 1))
      ≡ some delay
    → delay < backoff_cap c.policy.min_backoff c.policy.max_backoff (l.transient_attempt + 1)
    → ((route_failure c i failure l).snapshot.state ≡ State.backoff)
      × ((route_failure c i failure l).snapshot.retry_at ≡ i.plan + delay)
      × ((route_failure c i failure l).timer ≡ backoff_timer (i.plan + delay))
      × ((route_failure c i failure l).transient_attempt ≡ l.transient_attempt + 1)
      × (i.plan + delay < i.plan + c.policy.max_backoff)
unfolding route_failure record_fingerprint reset_failure_history route_class draw_jitter
    validate_policy
transient_backoff c i failure l delay t h d b =
    ground (arith, backoff_cap-le c.policy.min_backoff c.policy.max_backoff l.transient_attempt)
