-- ===== src/Outbox/Tables/Unique.antt =====
-- With outbox_id as the primary key, a statement whose WHERE clause names one ID is a point update:
-- its outcome and its effect are functions of the one row that the ID finds.
use om_tui.Common.{
  ℕ, ◌≡◌, refl, subst, Bool, true, false, not, ◌&&◌, List, [], ◌∷◌, Option, none, some, String,
  str_eq, eq_iff, is_some, Result, ok, err, Error, not_found, constraint_violation, any,
  if◌then◌else◌, arith, Bool-cases, inl, inr,
}
use om_tui.Outbox.Types.{OutboxItem}
use om_tui.Outbox.Checks.{row_check}
use om_tui.Outbox.Tables.{affected, violates, find_row, exists_row, update_where}

-- PRIMARY KEY (outbox_id).
abbrev pub HasUniqueIds : List OutboxItem → Type 0
HasUniqueIds [] = Unit {0}
HasUniqueIds (r ∷ rs) = (any (λ s. str_eq s.outbox_id r.outbox_id) rs ≡ false) × HasUniqueIds rs

-- What a checked point update returns; `lost` is the error of a row that the test refuses.
unfoldable pub verdict :
    Error → (OutboxItem → Bool) → (OutboxItem → OutboxItem) → Option OutboxItem → Result (Unit {0})
verdict lost p f none = err not_found
verdict lost p f (some r) =
    if p r then (if row_check (f r) then ok tt else err constraint_violation) else err lost

unfoldable pub updated :
    (OutboxItem → Bool) → (OutboxItem → OutboxItem) → Option OutboxItem → Option OutboxItem
updated p f none = none
updated p f (some r) = if p r && row_check (f r) then some (f r) else some r

unfoldable pub hits : (OutboxItem → Bool) → Option OutboxItem → ℕ
hits p none = 0
hits p (some r) = if p r then 1 else 0

unfoldable pub breaks : (OutboxItem → Bool) → (OutboxItem → OutboxItem) → Option OutboxItem → Bool
breaks p f none = false
breaks p f (some r) = p r && not (row_check (f r))

module _ (id : String) (p : OutboxItem → Bool) (f : OutboxItem → OutboxItem)
    (names : (r : OutboxItem) → p r ≡ true → r.outbox_id ≡ id)
    (keeps : (r : OutboxItem) → (f r).outbox_id ≡ r.outbox_id) where
  refuses : (r : OutboxItem) → str_eq r.outbox_id id ≡ false → p r ≡ false
  refuses r e = elim (Bool-cases (p r)) [
    | inl h ↦ absurd (ground (arith, names r h, eq_iff r.outbox_id id))
    | inr h ↦ h
  ]

  affected_none :
      (rows : List OutboxItem) → any (λ s. str_eq s.outbox_id id) rows ≡ false → affected p rows ≡ 0
  unfolding affected
  affected_none [] h = refl
  affected_none (r ∷ rows) h = ground (arith, affected_none rows, refuses r)

  violates_none :
      (rows : List OutboxItem)
      → any (λ s. str_eq s.outbox_id id) rows ≡ false
      → violates p f rows ≡ false
  unfolding violates
  violates_none [] h = refl
  violates_none (r ∷ rows) h = ground (arith, violates_none rows, refuses r)

  pub affected-hits :
      (rows : List OutboxItem) → HasUniqueIds rows → affected p rows ≡ hits p (find_row id rows)
  unfolding affected find_row hits
  affected-hits [] u = refl
  affected-hits (r ∷ rows) u = elim (Bool-cases (str_eq r.outbox_id id)) [
    | inl e ↦
        let same : r.outbox_id ≡ id = (eq_iff r.outbox_id id).0 e in
        let alone : affected p rows ≡ 0 =
          affected_none rows (subst (λ k. any (λ s. str_eq s.outbox_id k) rows ≡ false) same u.0) in
        ground (arith, e, alone)
    | inr e ↦ ground (arith, e, refuses r, affected-hits rows u.1)
  ]

  pub violates-breaks :
      (rows : List OutboxItem)
      → HasUniqueIds rows
      → violates p f rows ≡ breaks p f (find_row id rows)
  unfolding violates find_row breaks
  violates-breaks [] u = refl
  violates-breaks (r ∷ rows) u = elim (Bool-cases (str_eq r.outbox_id id)) [
    | inl e ↦
        let same : r.outbox_id ≡ id = (eq_iff r.outbox_id id).0 e in
        let alone : violates p f rows ≡ false =
          violates_none rows (subst (λ k. any (λ s. str_eq s.outbox_id k) rows ≡ false) same u.0) in
        ground (arith, e, alone)
    | inr e ↦ ground (arith, e, refuses r, violates-breaks rows u.1)
  ]

  -- The row at the ID after the update.
  pub find_row-updated :
      (rows : List OutboxItem)
      → violates p f rows ≡ false
      → find_row id (update_where p f rows) ≡ updated p f (find_row id rows)
  unfolding violates update_where find_row updated
  find_row-updated [] h = refl
  find_row-updated (r ∷ rows) h = ground (arith, keeps r, find_row-updated rows)

  -- The row at any other ID.
  pub find_row-other :
      (k : String) (rows : List OutboxItem)
      → str_eq k id ≡ false
      → find_row k (update_where p f rows) ≡ find_row k rows
  unfolding update_where find_row
  find_row-other k [] h = refl
  find_row-other k (r ∷ rows) h = ground (
    arith,
    keeps r,
    names r,
    find_row-other k rows,
    eq_iff r.outbox_id k,
    eq_iff k id,
    eq_iff r.outbox_id id,
  )

  -- The rows keep their IDs, so they stay unique.
  any-update_where :
      (k : String) (rows : List OutboxItem)
      → any (λ s. str_eq s.outbox_id k) (update_where p f rows)
        ≡ any (λ s. str_eq s.outbox_id k) rows
  unfolding update_where
  any-update_where k [] = refl
  any-update_where k (r ∷ rows) = ground (arith, keeps r, any-update_where k rows)

  pub update_where-HasUniqueIds :
      (rows : List OutboxItem) → HasUniqueIds rows → HasUniqueIds (update_where p f rows)
  unfolding update_where
  update_where-HasUniqueIds [] u = tt
  update_where-HasUniqueIds (r ∷ rows) u = (
    ground (arith, keeps r, u.0, any-update_where r.outbox_id rows),
    update_where-HasUniqueIds rows u.1,
  )

pub exists_row-find_row :
    (id : String) (rows : List OutboxItem) → exists_row id rows ≡ is_some (find_row id rows)
unfolding exists_row find_row
exists_row-find_row id [] = refl
exists_row-find_row id (r ∷ rows) = ground (arith, exists_row-find_row id rows)
