-- ===== src/Common/Results.antt =====
-- Go's pair of a value and an error, as one value.
use mathlib.Core.Path.{◌≡◌, refl}
use mathlib.Core.Logic.{◌⊎◌, inl, inr}

-- The sentinels of storage/sqlite/errors.go that the outbox returns, and its argument and clock
-- checks. Messages that wrap them are left out.
pub data Error : Type 0 where
  not_found lease_lost invalid_outbox_state idempotency_conflict : Error
  invalid_message constraint_violation carrier_missing : Error
  bad_argument bad_clock rows_affected token_source no_lease_token canceled storage_fault : Error

pub data Result {ℓ} (A : Type ℓ) : Type ℓ where
  -- No effect but the error; a value and a nil error.
  err : Error → Result A
  ok : A → Result A

module _ {ℓ κ} {A : Type ℓ} {B : Type κ} where
  infixl 5 ◌>>=◌
  -- `if err != nil { return err }` between two steps.
  abbrev pub ◌>>=◌ : Result A → (A → Result B) → Result B
  err failure >>= next = err failure
  ok value >>= next = next value

  -- A chain that succeeds has a first step that succeeds.
  pub bind-eq-ok :
      (first : Result A) (next : A → Result B) {result : B}
      → (first >>= next) ≡ ok result
      → (value : A) × (first ≡ ok value) × (next value ≡ ok result)
  bind-eq-ok (err failure) next same = cc
  bind-eq-ok (ok value) next same = (value, refl, same)

infixl 5 ◌>>◌
-- A check before a step.
abbrev pub ◌>>◌ {ℓ} : {A : Type ℓ} → Result (Unit {0}) → Result A → Result A
check >> step = check >>= (λ _. step)

pub Result-cases {ℓ} :
    {A : Type ℓ} (r : Result A) → ((a : A) × (r ≡ ok a)) ⊎ ((e : Error) × (r ≡ err e))
Result-cases (ok a) = inl (a, refl)
Result-cases (err e) = inr (e, refl)
