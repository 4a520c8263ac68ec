-- ===== src/Bridge/Supervisor/Circuit.antt =====
-- The repeated-fingerprint circuit over a row of failures.
use om_tui.Common.{
  ℕ, ◌+◌, ◌≤◌, ◌≡◌, Bool, true, false, str_eq, str_eq_refl, eq_iff, List, [], ◌∷◌, length, arith,
  if◌then◌else◌,
}
use om_tui.Bridge.Types.{FailureClass, transient, unpaired, unset, unlisted, OpError}
use om_tui.Bridge.Supervisor.State.{State, Loop, Config, Inputs}
use om_tui.Bridge.Supervisor.Failures.{
  validate_policy, record_fingerprint, reset_failure_history, repeats,
}
use om_tui.Bridge.Supervisor.Generations.{route_failure, route_class, begin_credential_repair}

-- A class that the circuit counts.
abbrev pub is_counted : FailureClass → Bool
is_counted transient = false
is_counted unpaired = false
is_counted unset = false
is_counted (unlisted _) = false
is_counted _ = true

-- The same failure, routed once for each reading of the inputs.
abbrev pub route_all : Config → OpError → List Inputs → Loop → Loop
route_all c failure [] l = l
route_all c failure (i ∷ rest) l = route_all c failure rest (route_failure c i failure l)

module _ (c : Config) (failure : OpError) where
  route_failure-counts :
      (i : Inputs) (l : Loop)
      → is_counted failure.class ≡ true
      → str_eq failure.fingerprint "" ≡ false
      → ((route_failure c i failure l).same_fingerprint ≡ failure.fingerprint)
        × ((route_failure c i failure l).same_failure_count ≡ repeats failure.fingerprint l)
  unfolding route_failure route_class begin_credential_repair record_fingerprint
      reset_failure_history
  route_failure-counts i l k f = ground arith

  route_failure-opens :
      (i : Inputs) (l : Loop)
      → is_counted failure.class ≡ true
      → str_eq failure.fingerprint "" ≡ false
      → c.policy.max_same_fingerprint ≤ repeats failure.fingerprint l
      → (route_failure c i failure l).snapshot.state ≡ State.blocked
  unfolding route_failure record_fingerprint
  route_failure-opens i l k f m = ground arith

  -- How often the failure has come in a row.
  abbrev streak : Loop → ℕ
  streak l = if str_eq failure.fingerprint l.same_fingerprint then l.same_failure_count else 0

  streak-route_failure :
      (i : Inputs) (l : Loop)
      → is_counted failure.class ≡ true
      → str_eq failure.fingerprint "" ≡ false
      → (streak (route_failure c i failure l) ≡ streak l + 1)
        × (repeats failure.fingerprint l ≡ streak l + 1)
  streak-route_failure i l k f = ground (
    arith,
    route_failure-counts i l,
    str_eq_refl failure.fingerprint,
    eq_iff failure.fingerprint (route_failure c i failure l).same_fingerprint,
  )

  route_all-opens :
      (i : Inputs) (rest : List Inputs) (l : Loop)
      → is_counted failure.class ≡ true
      → str_eq failure.fingerprint "" ≡ false
      → c.policy.max_same_fingerprint ≤ streak l + length (i ∷ rest)
      → (route_all c failure (i ∷ rest) l).snapshot.state ≡ State.blocked
  route_all-opens i [] l k f m =
      route_failure-opens i l k f (omega (arith, (streak-route_failure i l k f).1))
  route_all-opens i (j ∷ rest) l k f m =
      route_all-opens j rest (route_failure c i failure l) k f
        (omega (arith, (streak-route_failure i l k f).0))

-- Let a failure be of a class that is listed and neither transient nor unpaired, and let its
-- fingerprint not be empty. Routed one time after another, with nothing else handled between, as often as the
-- policy allows, it blocks the account, from any state of the loop and with any readings of the clock.
-- The policy is one that validatePolicy accepts.
pub circuit_opens :
    (c : Config) (failure : OpError) (inputs : List Inputs) (l : Loop)
    → is_counted failure.class ≡ true
    → str_eq failure.fingerprint "" ≡ false
    → validate_policy c.policy ≡ true
    → c.policy.max_same_fingerprint ≤ length inputs
    → (route_all c failure inputs l).snapshot.state ≡ State.blocked
unfolding validate_policy
circuit_opens c failure [] l k f p m = ground arith
circuit_opens c failure (i ∷ rest) l k f p m = route_all-opens c failure i rest l k f (omega arith)
