-- ===== src/Outbox/Leasing.antt =====
-- LeaseDue and RecoverExpiredLeases: both are one transaction.
pub mod Recovery
pub mod Order
pub mod Rounds
pub mod Claims
use om_tui.Common.{
  ℕ, ◌+◌, Bool, ◌&&◌, ◌||◌, Option, none, some, List, [], ◌∷◌, String, Result, ok, err, ◌>>=◌,
  bad_argument, bad_clock, rows_affected, not_found, token_source, ◌==◌, leb, ltb, if◌then◌else◌,
  is_none, is_some, opt_leb, null_or_leb, coalesce, str_eq, str_lt, is_blank, filter, take,
}
use om_tui.Outbox.Types.{
  dispatching, not_dispatched, uncertain, OutboxItem, Database, LeaseRequest, RecoveredLeases,
  unix_milli, is_dispatching, is_pending,
}
use om_tui.Outbox.Tables.{exec_update, find_row}
use om_tui.Outbox.Transitions.{clear_lease, without_error}

-- The WHERE clause that LeaseDue's SELECT and its UPDATE share.
unfoldable pub due : ℕ → OutboxItem → Bool
due ms r =
    leb r.scheduled_for_ms ms
    && is_pending r.state
    && null_or_leb r.next_attempt_at_ms ms
    && null_or_leb r.lease_expires_at_ms ms

-- `COALESCE(next_attempt_at_ms, scheduled_for_ms)`.
unfoldable pub due_key : OutboxItem → ℕ
due_key r = coalesce r.next_attempt_at_ms r.scheduled_for_ms

-- `ORDER BY COALESCE(next_attempt_at_ms, scheduled_for_ms), created_at_ms, outbox_id`.
unfoldable pub due_before : OutboxItem → OutboxItem → Bool
due_before a b =
    ltb (due_key a) (due_key b)
    || (due_key a == due_key b
        && (ltb a.created_at_ms b.created_at_ms
            || (a.created_at_ms == b.created_at_ms && str_lt a.outbox_id b.outbox_id)))

unfoldable pub insert_by :
    (OutboxItem → OutboxItem → Bool) → OutboxItem → List OutboxItem → List OutboxItem
insert_by before r [] = r ∷ []
insert_by before r (x ∷ xs) =
    let rest = insert_by before r xs in if before x r then x ∷ rest else r ∷ x ∷ xs

unfoldable pub order_by : (OutboxItem → OutboxItem → Bool) → List OutboxItem → List OutboxItem
unfolding insert_by
order_by before [] = []
order_by before (r ∷ rs) = insert_by before r (order_by before rs)

-- The candidates of LeaseDue, as rows; the code reads their IDs only.
unfoldable pub candidates : ℕ → ℕ → List OutboxItem → List OutboxItem
candidates ms limit rows = take limit (order_by due_before (filter (due ms) rows))

unfoldable pub set_leased : String → String → ℕ → ℕ → OutboxItem → OutboxItem
set_leased owner token expires_ms ms r = record (without_error r) {
  state = dispatching;
  lease_owner = some owner;
  lease_token = some token;
  lease_expires_at_ms = some expires_ms;
  transport_called_at_ms = none;
  next_attempt_at_ms = none;
  updated_at_ms = ms;
}

-- `SELECT … WHERE outbox_id = ?` that must find a row.
unfoldable pub read_back : String → List OutboxItem → Result OutboxItem
read_back id rows = elim (find_row id rows) [ none ↦ err not_found | some r ↦ ok r ]

unfoldable pub claim_exactly : ℕ → String → List OutboxItem → Result (OutboxItem × List OutboxItem)
unfolding read_back
claim_exactly n id rows =
    if n == 1 then (do lease ← read_back id rows; ok (lease, rows)) else err rows_affected

-- One round of the loop: draw a token, claim the row if it is still due, read it back.
unfoldable pub claim :
    String
    → ℕ
    → ℕ
    → String
    → Option String
    → List OutboxItem
    → Result (OutboxItem × List OutboxItem)
unfolding claim_exactly
claim owner expires_ms ms id none rows = err token_source
claim owner expires_ms ms id (some token) rows = do
  (rows', n) ←
      exec_update (λ r. str_eq r.outbox_id id && due ms r) (set_leased owner token expires_ms ms)
        rows
  claim_exactly n id rows'

unfoldable pub claim_all :
    (ℕ → Option String)
    → String
    → ℕ
    → ℕ
    → ℕ
    → List OutboxItem
    → List OutboxItem
    → Result (List OutboxItem × List OutboxItem)
claim_all draw owner expires_ms ms i [] rows = ok ([], rows)
claim_all draw owner expires_ms ms i (c ∷ cs) rows = do
  (lease, rows') ← claim owner expires_ms ms c.outbox_id (draw i) rows
  (leases, rows'') ← claim_all draw owner expires_ms ms (i + 1) cs rows'
  ok (lease ∷ leases, rows'')

-- The argument checks of LeaseDue: the two times in milliseconds.
unfoldable pub lease_times : LeaseRequest → Result (ℕ × ℕ)
lease_times req =
    if is_blank req.owner || req.limit == 0 || req.duration == 0
    then err bad_argument
    else if unix_milli req.now == 0
    then err bad_clock
    else if leb (unix_milli (req.now + req.duration)) (unix_milli req.now)
    then err bad_argument
    else ok (unix_milli req.now, unix_milli (req.now + req.duration))

-- LeaseDue; `draw i` is what the i-th call of newOutboxLeaseToken returns. An error rolls back.
unfoldable pub lease_due :
    (ℕ → Option String) → LeaseRequest → Database → Database × Result (List OutboxItem)
lease_due draw req db = elim (lease_times req) [
  | err e ↦ (db, err e)
  | ok (ms, expires_ms) ↦
      elim (claim_all draw req.owner expires_ms ms 0 (candidates ms req.limit db.outbox)
        db.outbox) [
          | err e ↦ (db, err e)
          | ok (leases, rows) ↦ (record db { outbox = rows }, ok leases)
        ]
]

-- RecoverExpiredLeases.
unfoldable pub expired_before_call : ℕ → OutboxItem → Bool
expired_before_call ms r =
    is_dispatching r.state && opt_leb r.lease_expires_at_ms ms && is_none r.transport_called_at_ms

unfoldable pub expired_after_call : ℕ → OutboxItem → Bool
expired_after_call ms r =
    is_dispatching r.state && opt_leb r.lease_expires_at_ms ms && is_some r.transport_called_at_ms

unfoldable pub set_recovered : ℕ → OutboxItem → OutboxItem
set_recovered ms r = record (clear_lease r) {
  state = not_dispatched;
  next_attempt_at_ms = some ms;
  updated_at_ms = ms;
}

unfoldable pub set_lost : ℕ → OutboxItem → OutboxItem
set_lost ms r = record (clear_lease r) {
  state = uncertain;
  next_attempt_at_ms = none;
  updated_at_ms = ms;
}

unfoldable pub recover_rows : ℕ → List OutboxItem → Result (List OutboxItem × RecoveredLeases)
recover_rows ms rows = do
  (rows', pre) ← exec_update (expired_before_call ms) (set_recovered ms) rows
  (rows'', post) ← exec_update (expired_after_call ms) (set_lost ms) rows'
  ok (rows'', record { not_dispatched = pre; uncertain = post })

unfoldable pub recover_expired_leases : ℕ → Database → Database × Result RecoveredLeases
recover_expired_leases now db =
    if unix_milli now == 0
    then (db, err bad_clock)
    else elim (recover_rows (unix_milli now) db.outbox) [
      | err e ↦ (db, err e)
      | ok (rows, counts) ↦ (record db { outbox = rows }, ok counts)
    ]
