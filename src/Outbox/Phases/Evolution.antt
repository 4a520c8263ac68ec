-- ===== src/Outbox/Phases/Evolution.antt =====
-- How a statement, or a transaction of several, relates the rows before and after it.
use om_tui.Common.{
  ℕ, ◌≡◌, inl, inr, Bool, true, List, [], ◌∷◌, Result, ok, Bool-cases, arith, ◌++◌, subst,
  if◌then◌else◌,
}
use om_tui.Outbox.Types.{OutboxItem, Database}
use om_tui.Outbox.Tables.{update_where, violates, exec_update, exec_checked}
use om_tui.Outbox.Phases.{Evolves, Chain, Change, here, next}

pub Chain-trans : {r s t : OutboxItem} → Chain r s → Chain s t → Chain r t
Chain-trans c here = c
Chain-trans c (next d m) = next (Chain-trans c d) m

pub Chain-one : {r s : OutboxItem} → Change r s → Chain r s
Chain-one m = next here m

module _ (R : OutboxItem → OutboxItem → Type 0) (R-refl : (r : OutboxItem) → R r r) where
  pub Evolves-refl : (rows : List OutboxItem) → Evolves R rows rows
  Evolves-refl [] = tt
  Evolves-refl (r ∷ rows) = (R-refl r, Evolves-refl rows)

  pub Evolves-append : (rows new : List OutboxItem) → Evolves R rows (rows ++ new)
  Evolves-append [] new = tt
  Evolves-append (r ∷ rows) new = (R-refl r, Evolves-append rows new)

  module _ (p : OutboxItem → Bool) (f : OutboxItem → OutboxItem)
      (each : (r : OutboxItem) → p r ≡ true → R r (f r)) where
    one : (r : OutboxItem) → R r (if p r then f r else r)
    one r = elim (Bool-cases (p r)) [ inl e ↦ rw e (each r e) | inr e ↦ rw e (R-refl r) ]

    pub Evolves-update_where : (rows : List OutboxItem) → Evolves R rows (update_where p f rows)
    unfolding update_where
    Evolves-update_where [] = tt
    Evolves-update_where (r ∷ rows) = (one r, Evolves-update_where rows)

    pub Evolves-exec_update :
        (rows rows' : List OutboxItem) (n : ℕ)
        → exec_update p f rows ≡ ok (rows', n)
        → Evolves R rows rows'
    unfolding exec_update
    Evolves-exec_update rows rows' n h = elim (Bool-cases (violates p f rows)) [
      | inl e ↦ absurd (ground (arith, e))
      | inr e ↦ subst (Evolves R rows) (ground (arith, e)) (Evolves-update_where rows)
    ]

    pub Evolves-exec_checked :
        (require : ℕ → List OutboxItem → Result (Unit {0})) (db : Database)
        → Evolves R db.outbox (exec_checked require p f db).0.outbox
    unfolding exec_checked exec_update
    Evolves-exec_checked require db = elim (Bool-cases (violates p f db.outbox)) [
      | inl e ↦ rw (e, exec_checked, exec_update) (Evolves-refl db.outbox)
      | inr e ↦ rw (e, exec_checked, exec_update) (Evolves-update_where db.outbox)
    ]

module _ (R : OutboxItem → OutboxItem → Type 0) where
  pub Evolves-trans :
      ((r s t : OutboxItem) → R r s → R s t → R r t)
      → (xs ys zs : List OutboxItem) → Evolves R xs ys
      → Evolves R ys zs
      → Evolves R xs zs
  Evolves-trans trans [] ys zs h k = tt
  Evolves-trans trans (x ∷ xs) [] zs h k = absurd h
  Evolves-trans trans (x ∷ xs) (y ∷ ys) [] h k = absurd k
  Evolves-trans trans (x ∷ xs) (y ∷ ys) (z ∷ zs) h k =
      (trans x y z h.0 k.0, Evolves-trans trans xs ys zs h.1 k.1)
