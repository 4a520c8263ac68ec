-- ===== src/Outbox/Queries/Carrying.antt =====
-- What ListCarryable and ListCarryReview list, after any history of the outbox.
use om_tui.Common.{
  ◌≡◌, refl, subst, Bool, true, false, ◌&&◌, ◌||◌, List, [], ◌∷◌, some, String, any, ◌∙◌, filter,
  map, arith, str_eq, eq_iff, Bool-cases, inl, inr,
}
use om_tui.Outbox.Types.{OutboxItem, Database, is_pending}
use om_tui.Outbox.Tables.{find_row}
use om_tui.Outbox.Tables.Unique.{HasUniqueIds}
use om_tui.Outbox.Leasing.{order_by, insert_by}
use om_tui.Outbox.Queries.{
  CarryReviewIntent, carryable_intent, carryable_rows, review_rows, needs_review, list_carryable,
  list_carry_review,
}
use om_tui.Outbox.Phases.{Phase, called, unknown, unstored, phase_of}
use om_tui.Outbox.History.{Call, run, disproves_row}
use om_tui.Outbox.History.Delivery.{is_spent, called_at_most_once}

module _ (p : OutboxItem → Bool) where
  any-insert_by :
      (before : OutboxItem → OutboxItem → Bool) (r : OutboxItem) (rows : List OutboxItem)
      → any p (insert_by before r rows) ≡ p r || any p rows
  unfolding insert_by
  any-insert_by before r [] = refl
  any-insert_by before r (x ∷ rows) = ground (arith, any-insert_by before r rows)

  any-order_by :
      (before : OutboxItem → OutboxItem → Bool) (rows : List OutboxItem)
      → any p (order_by before rows) ≡ any p rows
  unfolding order_by
  any-order_by before [] = refl
  any-order_by before (r ∷ rows) =
      ground (arith, any-insert_by before r (order_by before rows), any-order_by before rows)

  any-filter :
      (q : OutboxItem → Bool) (rows : List OutboxItem)
      → any p (filter q rows) ≡ any (λ r. q r && p r) rows
  any-filter q [] = refl
  any-filter q (r ∷ rows) = ground (arith, any-filter q rows)

abbrev pub has_id : String → OutboxItem → Bool
has_id id r = str_eq r.outbox_id id

-- A test of the one row that has the ID.
none_has_id :
    (q : OutboxItem → Bool) (id : String) (rows : List OutboxItem)
    → any (has_id id) rows ≡ false
    → any (λ r. q r && has_id id r) rows ≡ false
none_has_id q id [] h = refl
none_has_id q id (r ∷ rows) h = ground (arith, none_has_id q id rows)

only_has_id :
    (q : OutboxItem → Bool) (id : String) (rows : List OutboxItem) (s : OutboxItem)
    → HasUniqueIds rows
    → find_row id rows ≡ some s
    → any (λ r. q r && has_id id r) rows ≡ q s
unfolding find_row
only_has_id q id [] s u f = cc
only_has_id q id (r ∷ rows) s u f = elim (Bool-cases (str_eq r.outbox_id id)) [
  | inl e ↦
      let same : r.outbox_id ≡ id = (eq_iff r.outbox_id id).0 e in
      let alone : any (λ x. q x && has_id id x) rows ≡ false =
        none_has_id q id rows
          (subst (λ k. any (λ x. str_eq x.outbox_id k) rows ≡ false) same u.0) in
      ground (arith, e, alone)
  | inr e ↦ ground (arith, e, only_has_id q id rows s u.1)
]

any-carryable_rows :
    (id : String) (db : Database) (s : OutboxItem)
    → HasUniqueIds db.outbox
    → find_row id db.outbox ≡ some s
    → any (has_id id) (carryable_rows db) ≡ is_pending s.state
unfolding carryable_rows
any-carryable_rows id db s u f =
    any-order_by (has_id id) _ _
    ∙ any-filter (has_id id) (λ r. is_pending r.state) db.outbox
    ∙ only_has_id (λ r. is_pending r.state) id db.outbox s u f

any-review_rows :
    (id : String) (db : Database) (s : OutboxItem)
    → HasUniqueIds db.outbox
    → find_row id db.outbox ≡ some s
    → any (has_id id) (review_rows db) ≡ needs_review s.state
unfolding review_rows
any-review_rows id db s u f =
    any-order_by (has_id id) _ _
    ∙ any-filter (has_id id) (λ r. needs_review r.state) db.outbox
    ∙ only_has_id (λ r. needs_review r.state) id db.outbox s u f

-- The two listings name a row with the ID.
abbrev pub carries : String → Database → Bool
carries id db = any (λ x. has_id id x.item) (list_carryable db)

abbrev pub reports : String → Database → Bool
reports id db = any (λ x. has_id id x.item) (list_carry_review db)

any-carryable_intent :
    (id : String) (db : Database) (rows : List OutboxItem)
    → any (λ x. has_id id x.item) (map (carryable_intent db) rows) ≡ any (has_id id) rows
unfolding carryable_intent
any-carryable_intent id db [] = refl
any-carryable_intent id db (r ∷ rows) = ground (arith, any-carryable_intent id db rows)

any-carry_review :
    (id : String) (db : Database) (f : OutboxItem → String) (rows : List OutboxItem)
    → any
        (λ (x : CarryReviewIntent). has_id id x.item)
        (map (λ r. record { item = r; remote_conversation_id = f r }) rows)
      ≡ any (has_id id) rows
any-carry_review id db f [] = refl
any-carry_review id db f (r ∷ rows) = ground (arith, any-carry_review id db f rows)

carries-is_pending :
    (id : String) (db : Database) (s : OutboxItem)
    → HasUniqueIds db.outbox
    → find_row id db.outbox ≡ some s
    → carries id db ≡ is_pending s.state
unfolding list_carryable
carries-is_pending id db s u f =
    any-carryable_intent id db (carryable_rows db) ∙ any-carryable_rows id db s u f

reports-needs_review :
    (id : String) (db : Database) (s : OutboxItem)
    → HasUniqueIds db.outbox
    → find_row id db.outbox ≡ some s
    → reports id db ≡ needs_review s.state
unfolding list_carry_review
reports-needs_review id db s u f =
    any-carry_review id db _ (review_rows db) ∙ any-review_rows id db s u f

-- A phase after the marker that no verdict has closed.
abbrev pub is_unsettled : Phase → Bool
is_unsettled called = true
is_unsettled unknown = true
is_unsettled unstored = true
is_unsettled _ = false

spent_pending : (s : OutboxItem) → is_spent (phase_of s) ≡ true → is_pending s.state ≡ false
spent_pending s h = ground arith

spent_review :
    (s : OutboxItem)
    → is_spent (phase_of s) ≡ true
    → needs_review s.state ≡ is_unsettled (phase_of s)
spent_review s h = ground arith

-- Let a row's transport call be marked, and let any history of repository calls follow that has no
-- MarkCalledNotDispatched for that row's ID, to a table with unique IDs. ListCarryable does not list the
-- row, and ListCarryReview lists it exactly if it is still dispatching, uncertain or store-failed.
pub list_carryable-unspent :
    (id : String) (cs : List Call) (db : Database) (r : OutboxItem)
    → HasUniqueIds (run cs db).outbox
    → find_row id db.outbox ≡ some r
    → phase_of r ≡ called
    → any (disproves_row id) cs ≡ false
    → (s : OutboxItem) × (find_row id (run cs db).outbox ≡ some s)
      × (carries id (run cs db) ≡ false)
      × (reports id (run cs db) ≡ is_unsettled (phase_of s))
list_carryable-unspent id cs db r u f h quiet =
    let (s, g, kept) = called_at_most_once id cs db r f h quiet in
    (
      s,
      g,
      carries-is_pending id (run cs db) s u g ∙ spent_pending s kept.inside,
      reports-needs_review id (run cs db) s u g ∙ spent_review s kept.inside,
    )
