-- ===== src/Outbox/History/Invariants.antt =====
-- What no history can undo: a row whose transport call may have been made is not called again.
use om_tui.Common.{
  ℕ, ◌≡◌, refl, sym, ap, subst, ◌∙◌, Bool, true, false, List, [], ◌∷◌, some, String, str_eq, ◌⊎◌,
  inl, inr, any, arith, Bool-cases, eq_iff,
}
use mathlib.Core.Bool.{false≢true}
use om_tui.Outbox.Types.{OutboxItem, Database}
use om_tui.Outbox.Tables.{find_row}
use om_tui.Outbox.Phases.{
  Phase, called, phase_of, Moves, SameIntent, Change, Chain, here, next, Evolves,
}
use om_tui.Outbox.Phases.Operations.{Moved, MayDisprove}
use om_tui.Outbox.History.{Call, disproves_row, Effect, moved, disproved, apply, run, apply-Effect}

pub SameIntent-trans : {r s t : OutboxItem} → SameIntent r s → SameIntent s t → SameIntent r t
SameIntent-trans a b = record {
  same_id = b.same_id ∙ a.same_id;
  same_account = b.same_account ∙ a.same_account;
  same_conversation = b.same_conversation ∙ a.same_conversation;
  same_kind = b.same_kind ∙ a.same_kind;
  same_key = b.same_key ∙ a.same_key;
  same_payload = b.same_payload ∙ a.same_payload;
  same_operation = b.same_operation ∙ a.same_operation;
  same_message = b.same_message ∙ a.same_message;
  same_request = b.same_request ∙ a.same_request;
  same_predecessor = b.same_predecessor ∙ a.same_predecessor;
  same_schedule = b.same_schedule ∙ a.same_schedule;
}

pub SameIntent-refl : (r : OutboxItem) → SameIntent r r
SameIntent-refl r = ground arith

module _ (R : OutboxItem → OutboxItem → Type 0)
    (same_id : (r s : OutboxItem) → R r s → s.outbox_id ≡ r.outbox_id) where
  -- The row that an ID names stays the row that it names.
  pub Evolves-find_row :
      (id : String) (xs ys : List OutboxItem) (r : OutboxItem)
      → Evolves R xs ys
      → find_row id xs ≡ some r
      → (s : OutboxItem) × (find_row id ys ≡ some s) × R r s
  unfolding find_row
  Evolves-find_row id [] ys r h f = cc
  Evolves-find_row id (x ∷ xs) [] r h f = absurd h
  Evolves-find_row id (x ∷ xs) (y ∷ ys) r h f = elim (Bool-cases (str_eq x.outbox_id id)) [
    | inl e ↦ (y, rw (same_id x y h.0, e), subst (λ z. R z y) (ground arith) h.0)
    | inr e ↦
        let (s, g, k) = Evolves-find_row id xs ys r h.1 (rw e at f) in
        (s, rw (same_id x y h.0, e) g, k)
  ]

pub find_row-id :
    (id : String) (xs : List OutboxItem) (r : OutboxItem)
    → find_row id xs ≡ some r
    → r.outbox_id ≡ id
unfolding find_row
find_row-id id [] r f = cc
find_row-id id (x ∷ xs) r f = ground (arith, eq_iff x.outbox_id id, find_row-id id xs r)

MayDisprove-id : (id : String) (r s : OutboxItem) → MayDisprove id r s → s.outbox_id ≡ r.outbox_id
MayDisprove-id id r s (inl e) = ap (λ (x : OutboxItem). x.outbox_id) (sym e)
MayDisprove-id id r s (inr (_, d)) = d.intent.same_id

pub Chain-SameIntent : {r s : OutboxItem} → Chain r s → SameIntent r s
Chain-SameIntent {r = r} here = SameIntent-refl r
Chain-SameIntent (next c m) = SameIntent-trans (Chain-SameIntent c) m.intent

safe_head :
    {A : Type 0} (id : String) (c : Call) (cs : List Call)
    → A ⊎ (any (disproves_row id) (c ∷ cs) ≡ false)
    → A ⊎ (disproves_row id c ≡ false)
safe_head id c cs (inl a) = inl a
safe_head id c cs (inr h) = inr (ground (arith, h))

safe_tail :
    {A : Type 0} (id : String) (c : Call) (cs : List Call)
    → A ⊎ (any (disproves_row id) (c ∷ cs) ≡ false)
    → A ⊎ (any (disproves_row id) cs ≡ false)
safe_tail id c cs (inl a) = inl a
safe_tail id c cs (inr h) = inr (ground (arith, h))

-- A set of phases that no move leaves and in which no move makes a transport call.
abbrev pub IsClosed : (Phase → Bool) → Type 0
IsClosed P = (p : Phase) (n : ℕ) (q : Phase) → Moves p n q → P p ≡ true → (n ≡ 0) × (P q ≡ true)

-- What holds of a row in such a set and of the same row later.
pub record Kept (P : Phase → Bool) (r s : OutboxItem) : Type 0 where
  pub intent : SameIntent r s
  pub inside : P (phase_of s) ≡ true
  pub calls : s.attempt_count ≡ r.attempt_count

module _ (P : Phase → Bool) (closed : IsClosed P) where
  Change-Kept : (r s : OutboxItem) → Change r s → P (phase_of r) ≡ true → Kept P r s
  Change-Kept r s c h =
      let (none_made, inside) = closed (phase_of r) c.calls (phase_of s) c.move h in
      record { intent = c.intent; inside = inside; calls = omega (arith, c.counted, none_made) }

  Chain-Kept : {r s : OutboxItem} → Chain r s → P (phase_of r) ≡ true → Kept P r s
  Chain-Kept {r = r} here h = record { intent = SameIntent-refl r; inside = h; calls = refl }
  Chain-Kept (next c m) h =
      let k = Chain-Kept c h in
      let k' = Change-Kept _ _ m k.inside in
      record {
        intent = SameIntent-trans k.intent k'.intent;
        inside = k'.inside;
        calls = k'.calls ∙ k.calls;
      }

  keeps_by_move :
      (id : String) (db db' : Database) (r : OutboxItem)
      → Moved db db'
      → find_row id db.outbox ≡ some r
      → P (phase_of r) ≡ true
      → (s : OutboxItem) × (find_row id db'.outbox ≡ some s) × Kept P r s
  keeps_by_move id db db' r m f h =
      let (s, g, c) =
        Evolves-find_row Chain (λ x y c. (Chain-SameIntent c).same_id) id db.outbox db'.outbox r m
          f in
      (s, g, Chain-Kept c h)

  keeps_by_disproof :
      (id id' : String) (r s : OutboxItem)
      → r.outbox_id ≡ id
      → P (phase_of r) ≡ true
      → (P called ≡ false) ⊎ (str_eq id' id ≡ false)
      → MayDisprove id' r s
      → Kept P r s
  keeps_by_disproof id id' r s e h safe (inl same) =
      subst (Kept P r) same (record { intent = SameIntent-refl r; inside = h; calls = refl })
  keeps_by_disproof id id' r s e h (inl shut) (inr (named, d)) =
      absurd (false≢true (sym shut ∙ subst (λ p. P p ≡ true) d.before h))
  keeps_by_disproof id id' r s e h (inr other) (inr (named, d)) =
      absurd (false≢true (sym other ∙ (eq_iff id' id).1 (sym named ∙ e)))

  step-Kept :
      (id : String) (c : Call) (db db' : Database) (r : OutboxItem)
      → Effect db db' c
      → find_row id db.outbox ≡ some r
      → P (phase_of r) ≡ true
      → (P called ≡ false) ⊎ (disproves_row id c ≡ false)
      → (s : OutboxItem) × (find_row id db'.outbox ≡ some s) × Kept P r s
  step-Kept id c db db' r (moved m) f h safe = keeps_by_move id db db' r m f h
  step-Kept id c db db' r (disproved id' token class code detail retry_at now m) f h safe =
      let (s, g, k) =
        Evolves-find_row (MayDisprove id') (MayDisprove-id id') id db.outbox db'.outbox r m f in
      (s, g, keeps_by_disproof id id' r s (find_row-id id db.outbox r f) h safe k)

  -- A row of the set stays in it, with its intent and its number of calls, through a history that does
  -- not disprove the row's call; if the set leaves `called` out, through every history.
  pub run-Kept :
      (id : String) (cs : List Call) (db : Database) (r : OutboxItem)
      → find_row id db.outbox ≡ some r
      → P (phase_of r) ≡ true
      → (P called ≡ false) ⊎ (any (disproves_row id) cs ≡ false)
      → (s : OutboxItem) × (find_row id (run cs db).outbox ≡ some s) × Kept P r s
  unfolding run
  run-Kept id [] db r f h safe =
      (r, f, record { intent = SameIntent-refl r; inside = h; calls = refl })
  run-Kept id (c ∷ cs) db r f h safe =
      let (s, g, k) =
        step-Kept id c db (apply c db) r (apply-Effect c db) f h (safe_head id c cs safe) in
      let (t, g', k') = run-Kept id cs (apply c db) s g k.inside (safe_tail id c cs safe) in
      (
        t,
        g',
        record {
          intent = SameIntent-trans k.intent k'.intent;
          inside = k'.inside;
          calls = k'.calls ∙ k.calls;
        },
      )
