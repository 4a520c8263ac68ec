-- ===== src/Outbox/Tables/Point.antt =====
-- What a checked statement that names one ID returns and does, as a function of the row that the ID
-- finds.
use om_tui.Common.{
  subst, ◌≡◌, refl, sym, Bool, true, false, List, String, str_eq, Result, err, Error,
  constraint_violation, arith, Bool-cases, Option-cases, inl, inr,
}
use om_tui.Outbox.Types.{OutboxItem, Database}
use om_tui.Outbox.Tables.{
  affected, violates, find_row, update_where, exec_checked, exec_update, require_mutation,
}
use om_tui.Outbox.Tables.Unique.{
  HasUniqueIds, verdict, updated, hits, breaks, affected-hits, violates-breaks, find_row-updated,
  find_row-other, update_where-HasUniqueIds, exists_row-find_row,
}

pub record PointUpdate (lost : Error) (id : String) (p : OutboxItem → Bool)
    (f : OutboxItem → OutboxItem) (db : Database) (o : Database × Result (Unit {0})) : Type 0 where
  pub result : o.1 ≡ verdict lost p f (find_row id db.outbox)
  pub row : find_row id o.0.outbox ≡ updated p f (find_row id db.outbox)
  pub others : (k : String) → str_eq k id ≡ false → find_row k o.0.outbox ≡ find_row k db.outbox
  pub unique : HasUniqueIds o.0.outbox

module _ (lost : Error) (id : String) (p : OutboxItem → Bool) (f : OutboxItem → OutboxItem)
    (names : (r : OutboxItem) → p r ≡ true → r.outbox_id ≡ id)
    (keeps : (r : OutboxItem) → (f r).outbox_id ≡ r.outbox_id) where
  require-verdict :
      (rows : List OutboxItem)
      → HasUniqueIds rows
      → violates p f rows ≡ false
      → require_mutation lost id (affected p rows) (update_where p f rows)
        ≡ verdict lost p f (find_row id rows)
  unfolding require_mutation verdict breaks hits updated
  require-verdict rows u v =
      let a = affected-hits id p f names keeps rows u in
      let b = violates-breaks id p f names keeps rows u in
      let c = find_row-updated id p f names keeps rows v in
      let d = exists_row-find_row id (update_where p f rows) in
      elim (Option-cases (find_row id rows)) [
        | inl e ↦ ground (arith, a, b, c, d, e, v)
        | inr (r, e) ↦ ground (arith, a, b, c, d, e, v)
      ]

  broken-verdict :
      (rows : List OutboxItem)
      → HasUniqueIds rows
      → violates p f rows ≡ true
      → (verdict lost p f (find_row id rows) ≡ err constraint_violation)
        × (updated p f (find_row id rows) ≡ find_row id rows)
  unfolding verdict breaks updated
  broken-verdict rows u v =
      let b = violates-breaks id p f names keeps rows u in
      elim (Option-cases (find_row id rows)) [
        | inl e ↦ ground (arith, b, e, v)
        | inr (r, e) ↦ ground (arith, b, e, v)
      ]

  exec_broken :
      (db : Database)
      → violates p f db.outbox ≡ true
      → exec_checked (require_mutation lost id) p f db ≡ (db, err constraint_violation)
  unfolding exec_checked exec_update
  exec_broken db v = ground arith

  exec_held :
      (db : Database)
      → violates p f db.outbox ≡ false
      → exec_checked (require_mutation lost id) p f db ≡ (
        record db { outbox = update_where p f db.outbox },
        require_mutation lost id (affected p db.outbox) (update_where p f db.outbox),
      )
  unfolding exec_checked exec_update
  exec_held db v = ground arith

  pub exec_checked-PointUpdate :
      (db : Database)
      → HasUniqueIds db.outbox
      → PointUpdate lost id p f db (exec_checked (require_mutation lost id) p f db)
  exec_checked-PointUpdate db u = elim (Bool-cases (violates p f db.outbox)) [
    | inl v ↦
        let (a, b) = broken-verdict db.outbox u v in
        subst (PointUpdate lost id p f db) (sym (exec_broken db v))
          (record { result = sym a; row = sym b; others = λ k d. refl; unique = u })
    | inr v ↦ subst (PointUpdate lost id p f db) (sym (exec_held db v)) (record {
      result = require-verdict db.outbox u v;
      row = find_row-updated id p f names keeps db.outbox v;
      others = λ k d. find_row-other id p f names keeps k db.outbox d;
      unique = update_where-HasUniqueIds id p f names keeps db.outbox u;
    })
  ]
