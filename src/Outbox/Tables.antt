-- ===== src/Outbox/Tables.antt =====
-- One SQL statement on the outbox table: UPDATE … WHERE with its count of rows, the reads by key, and
-- what requireLeaseMutation and requireStateMutation make of the count.
pub mod Unique
pub mod Point
use om_tui.Common.{
  ℕ, zero, suc, Bool, not, ◌&&◌, Option, List, map, String, Result, ok, err, Error, not_found,
  lease_lost, invalid_outbox_state, rows_affected, constraint_violation, str_eq, any, filter,
  length, find_first, if◌then◌else◌,
}
use om_tui.Outbox.Checks.{row_check}
use om_tui.Outbox.Types.{OutboxItem, Database}

-- `UPDATE outbox SET f WHERE p`.
unfoldable pub update_where :
    (OutboxItem → Bool) → (OutboxItem → OutboxItem) → List OutboxItem → List OutboxItem
update_where p f rows = map (λ r. if p r then f r else r) rows

-- `result.RowsAffected()`.
unfoldable pub affected : (OutboxItem → Bool) → List OutboxItem → ℕ
affected p rows = length (filter p rows)

-- `SELECT … WHERE outbox_id = ?`.
unfoldable pub find_row : String → List OutboxItem → Option OutboxItem
find_row id rows = find_first (λ r. str_eq r.outbox_id id) rows

unfoldable pub exists_row : String → List OutboxItem → Bool
exists_row id rows = any (λ r. str_eq r.outbox_id id) rows

unfoldable pub require_mutation : Error → String → ℕ → List OutboxItem → Result (Unit {0})
unfolding exists_row
require_mutation e id zero rows = if exists_row id rows then err e else err not_found
require_mutation e id (suc zero) rows = ok tt
require_mutation e id (suc (suc _)) rows = err rows_affected

-- requireLeaseMutationWithQueryer.
unfoldable pub require_lease_mutation : String → ℕ → List OutboxItem → Result (Unit {0})
unfolding require_mutation
require_lease_mutation id n rows = require_mutation lease_lost id n rows

-- requireStateMutation.
unfoldable pub require_state_mutation : String → ℕ → List OutboxItem → Result (Unit {0})
unfolding require_mutation
require_state_mutation id n rows = require_mutation invalid_outbox_state id n rows

-- Whether some row that the statement would change breaks a CHECK, which fails the whole statement.
unfoldable pub violates : (OutboxItem → Bool) → (OutboxItem → OutboxItem) → List OutboxItem → Bool
violates p f rows = any (λ r. p r && not (row_check (f r))) rows

-- One UPDATE: the table after it and the number of rows it changed.
unfoldable pub exec_update :
    (OutboxItem → Bool) → (OutboxItem → OutboxItem) → List OutboxItem → Result (List OutboxItem × ℕ)
exec_update p f rows =
    if violates p f rows
    then err constraint_violation
    else ok (update_where p f rows, affected p rows)

-- A statement outside a transaction, with the check of its count: the tables after it, and the error.
unfoldable pub exec_checked :
    (ℕ → List OutboxItem → Result (Unit {0}))
    → (OutboxItem → Bool)
    → (OutboxItem → OutboxItem)
    → Database
    → Database × Result (Unit {0})
exec_checked require p f db = elim (exec_update p f db.outbox) [
  | ok (rows, n) ↦ (record db { outbox = rows }, require n rows)
  | err e ↦ (db, err e)
]

unfoldable pub exec_leased :
    String
    → (OutboxItem → Bool)
    → (OutboxItem → OutboxItem)
    → Database
    → Database × Result (Unit {0})
exec_leased id p f db = exec_checked (require_lease_mutation id) p f db

unfoldable pub exec_state :
    String
    → (OutboxItem → Bool)
    → (OutboxItem → OutboxItem)
    → Database
    → Database × Result (Unit {0})
exec_state id p f db = exec_checked (require_state_mutation id) p f db
