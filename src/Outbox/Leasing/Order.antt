-- ===== src/Outbox/Leasing/Order.antt =====
-- The ORDER BY of LeaseDue: what it keeps and how it orders.
use mathlib.Core.List.{Perm}
use mathlib.Core.List.Perm
use om_tui.Common.{
  filter, leb, Option, ℕ, ◌≡◌, refl, Bool, true, false, not, ◌&&◌, ◌||◌, none, some, List, [], ◌∷◌,
  String, ◌==◌, ltb, str_lt, arith, Bool-cases, inl, inr,
}
use om_tui.Outbox.Types.{OutboxState, queued, not_dispatched, OutboxItem}
use om_tui.Outbox.Leasing.{due, due_key, due_before, insert_by, order_by}

str_lt-asym : (s t : String) → str_lt s t ≡ true → str_lt t s ≡ false
unfolding str_lt
str_lt-asym String.[] String.[] h = refl
str_lt-asym String.[] (String.◌∷◌ d t) h = refl
str_lt-asym (String.◌∷◌ c s) String.[] h = cc
str_lt-asym (String.◌∷◌ c s) (String.◌∷◌ d t) h = ground (arith, str_lt-asym s t)

-- When a row is due: at its next attempt, or else at its schedule.
abbrev pub due_at : OutboxItem → ℕ
due_at r = elim r.next_attempt_at_ms [ none ↦ r.scheduled_for_ms | some t ↦ t ]

-- The time has come, or there is none to wait for.
abbrev pub has_come : ℕ → Option ℕ → Bool
has_come ms none = true
has_come ms (some t) = leb t ms

abbrev pub is_waiting : OutboxState → Bool
is_waiting queued = true
is_waiting not_dispatched = true
is_waiting _ = false

-- A row to lease: queued or not dispatched, past its schedule and its next attempt, and under no lease that
-- runs.
abbrev pub is_due_now : ℕ → OutboxItem → Bool
is_due_now ms r =
    is_waiting r.state
    && has_come ms (some r.scheduled_for_ms)
    && has_come ms r.next_attempt_at_ms
    && has_come ms r.lease_expires_at_ms

pub due_lem : (ms : ℕ) (r : OutboxItem) → due ms r ≡ is_due_now ms r
unfolding due
due_lem ms r = ground arith

pub filter-due :
    (ms : ℕ) (rows : List OutboxItem) → filter (due ms) rows ≡ filter (is_due_now ms) rows
filter-due ms [] = refl
filter-due ms (r ∷ rows) = ground (arith, due_lem ms r, filter-due ms rows)

-- By due time, then creation, then ID, ties allowed.
abbrev pub not_later : OutboxItem → OutboxItem → Bool
not_later a b =
    ltb (due_at a) (due_at b)
    || (due_at a == due_at b
        && (ltb a.created_at_ms b.created_at_ms
            || (a.created_at_ms == b.created_at_ms && not (str_lt b.outbox_id a.outbox_id))))

abbrev pub is_first : OutboxItem → List OutboxItem → Bool
is_first r [] = true
is_first r (x ∷ xs) = not_later r x

-- Each row is not later than the one behind it.
abbrev pub InOrder : List OutboxItem → Type 0
InOrder [] = Unit {0}
InOrder (r ∷ rs) = (is_first r rs ≡ true) × InOrder rs

due_key_lem : (r : OutboxItem) → due_key r ≡ due_at r
unfolding due_key
due_key_lem r = ground arith

before-not_later : (a b : OutboxItem) → due_before a b ≡ true → not_later a b ≡ true
unfolding due_before
before-not_later a b h =
    ground (arith, h, due_key_lem a, due_key_lem b, str_lt-asym a.outbox_id b.outbox_id)

not_before-not_later : (a b : OutboxItem) → due_before b a ≡ false → not_later a b ≡ true
unfolding due_before
not_before-not_later a b h = ground (arith, h, due_key_lem a, due_key_lem b)

insert_by-is_first :
    (a r : OutboxItem) (xs : List OutboxItem)
    → not_later a r ≡ true
    → is_first a xs ≡ true
    → is_first a (insert_by due_before r xs) ≡ true
unfolding insert_by
insert_by-is_first a r [] h k = h
insert_by-is_first a r (x ∷ xs) h k = elim (Bool-cases (due_before x r)) [
  | inl e ↦ rw e k
  | inr e ↦ rw e h
]

insert_by-InOrder :
    (r : OutboxItem) (xs : List OutboxItem) → InOrder xs → InOrder (insert_by due_before r xs)
unfolding insert_by
insert_by-InOrder r [] h = (refl, tt)
insert_by-InOrder r (x ∷ xs) h = elim (Bool-cases (due_before x r)) [
  | inl e ↦
      rw e (insert_by-is_first x r xs (before-not_later x r e) h.0, insert_by-InOrder r xs h.1)
  | inr e ↦ rw e (not_before-not_later r x e, h)
]

pub order_by-InOrder : (rows : List OutboxItem) → InOrder (order_by due_before rows)
unfolding order_by
order_by-InOrder [] = tt
order_by-InOrder (r ∷ rows) = insert_by-InOrder r (order_by due_before rows) (order_by-InOrder rows)

insert_by-Perm :
    (before : OutboxItem → OutboxItem → Bool) (r : OutboxItem) (xs : List OutboxItem)
    → Perm (insert_by before r xs) (r ∷ xs)
unfolding insert_by
insert_by-Perm before r [] = Perm.refl (r ∷ [])
insert_by-Perm before r (x ∷ xs) = elim (Bool-cases (before x r)) [
  | inl e ↦ rw e (Perm.trans (Perm.cons x (insert_by-Perm before r xs)) (Perm.swap r x xs))
  | inr e ↦ rw e (Perm.refl (r ∷ x ∷ xs))
]

pub order_by-Perm :
    (before : OutboxItem → OutboxItem → Bool) (rows : List OutboxItem)
    → Perm (order_by before rows) rows
unfolding order_by
order_by-Perm before [] = Perm.refl []
order_by-Perm before (r ∷ rows) =
    Perm.trans (insert_by-Perm before r (order_by before rows))
      (Perm.cons r (order_by-Perm before rows))
