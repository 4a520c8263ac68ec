-- ===== src/Outbox/Confirming/Reconciling.antt =====
-- ReconcileConfirm: a result that arrives when the outcome has been lost.
use om_tui.Common.{
  ℕ, Bool, true, false, not, ◌&&◌, ◌||◌, Option, none, some, List, String, Result, ok, err, ◌>>=◌,
  bad_argument, rows_affected, ◌==◌, find_first, if◌then◌else◌, opt_is, str_eq, is_blank,
}
use om_tui.Outbox.Types.{
  OutboxState, uncertain, confirmed, store_failed, OutboxItem, Database, Message, ReconcileRequest,
  ReconcileOutcome, reconciled, enriched, noop, notfound, now_ms,
}
use om_tui.Outbox.Tables.{exec_update}
use om_tui.Outbox.Transitions.{without_error}
use om_tui.Outbox.Confirming.{repoint_local_message}

-- `LEFT JOIN messages AS m ON m.message_id = o.local_message_id`: the joined remote ID.
unfoldable pub local_remote_id : OutboxItem → List Message → Option String
local_remote_id r messages = elim r.local_message_id [
  | none ↦ none
  | some local ↦ elim (find_first (λ m. str_eq m.message_id local) messages) [
    | none ↦ none
    | some m ↦ some m.remote_message_id
  ]
]

unfoldable pub is_unsettled : OutboxState → Bool
is_unsettled uncertain = true
is_unsettled store_failed = true
is_unsettled _ = false

unfoldable pub is_confirmed : OutboxState → Bool
is_confirmed confirmed = true
is_confirmed _ = false

unfoldable pub reconcilable : String → OutboxItem → Bool
unfolding is_unsettled
reconcilable id r = str_eq r.outbox_id id && is_unsettled r.state

-- The columns that reconciliation writes; the lease columns are already clear.
unfoldable pub set_reconciled : String → ℕ → OutboxItem → OutboxItem
set_reconciled result ms r = record (without_error r) {
  state = confirmed;
  result_remote_id = some result;
  next_attempt_at_ms = none;
  updated_at_ms = ms;
}

unfoldable pub enrichable : String → OutboxItem → Bool
unfolding is_confirmed
enrichable id r =
    str_eq r.outbox_id id
    && is_confirmed r.state
    && opt_is r.result_remote_id r.transport_request_id

unfoldable pub set_enriched : String → ℕ → OutboxItem → OutboxItem
set_enriched result ms r = record (without_error r) {
  result_remote_id = some result;
  updated_at_ms = ms;
}

-- Whether the optimistic message still carries the request ID and the result is another.
unfoldable pub still_bound : ReconcileRequest → OutboxItem → List Message → Bool
still_bound req r messages =
    opt_is (local_remote_id r messages) req.transport_request_id
    && not (str_eq req.result_remote_id req.transport_request_id)

abbrev pub Reconciled : Type 0
Reconciled = Database × Result ReconcileOutcome

unfoldable pub repoint_reconciled : ReconcileRequest → OutboxItem → ℕ → Database → Result Database
repoint_reconciled req r now db = elim r.local_message_id [
  | none ↦ ok db
  | some local ↦
      repoint_local_message req.account_id r.conversation_id local req.transport_request_id
        req.result_remote_id now db
      >>= λ ms. ok (record db { messages = ms })
]

-- The arm of uncertain and store-failed rows: the row is confirmed, and its message repointed where it
-- still carries the request ID.
unfoldable pub settled_rows :
    ReconcileRequest → OutboxItem → ℕ → Database → List OutboxItem × ℕ → Result Database
unfolding repoint_reconciled
settled_rows req r repoint_now db (rows, n) =
    let db' = record db { outbox = rows } in
    let moved =
      if still_bound req r db.messages then repoint_reconciled req r repoint_now db' else ok db' in
    if n == 1 then moved else err rows_affected

unfoldable pub confirm_unsettled :
    ReconcileRequest → OutboxItem → ℕ → ℕ → Database → Result Database
unfolding settled_rows
confirm_unsettled req r now repoint_now db = do
  ms ← now_ms now
  changed ←
      exec_update (reconcilable r.outbox_id) (set_reconciled req.result_remote_id ms) db.outbox
  settled_rows req r repoint_now db changed

-- The arm of confirmed rows; `none` is an update that no row met.
unfoldable pub enriched_rows :
    ReconcileRequest → OutboxItem → ℕ → Database → List OutboxItem × ℕ → Result (Option Database)
unfolding repoint_reconciled
enriched_rows req r repoint_now db (rows, n) =
    let moved =
      (repoint_reconciled req r repoint_now (record db { outbox = rows }) >>= λ db'.
      ok (some db')) in
    if n == 0 then ok none else (if n == 1 then moved else err rows_affected)

unfoldable pub enrich : ReconcileRequest → OutboxItem → ℕ → ℕ → Database → Result (Option Database)
unfolding enriched_rows
enrich req r now repoint_now db = do
  ms ← now_ms now
  changed ← exec_update (enrichable r.outbox_id) (set_enriched req.result_remote_id ms) db.outbox
  enriched_rows req r repoint_now db changed

-- The outcomes that commit; all others roll back.
unfoldable pub settle : Database → Result Database → Reconciled
settle db (ok db') = (db', ok reconciled)
settle db (err e) = (db, err e)

unfoldable pub settle_enriched : Database → Result (Option Database) → Reconciled
settle_enriched db (ok none) = (db, ok noop)
settle_enriched db (ok (some db')) = (db', ok enriched)
settle_enriched db (err e) = (db, err e)

-- The switch on the state of the correlated row.
unfoldable pub reconcile_row : ReconcileRequest → OutboxItem → ℕ → ℕ → Database → Reconciled
unfolding confirm_unsettled enrich is_unsettled is_confirmed settle settle_enriched
reconcile_row req r now repoint_now db =
    if is_unsettled r.state
    then settle db (confirm_unsettled req r now repoint_now db)
    else if is_confirmed r.state
    then (if opt_is r.result_remote_id req.result_remote_id || not (still_bound req r db.messages)
        then (db, ok noop)
        else settle_enriched db (enrich req r now repoint_now db))
    else (db, ok noop)

-- The row that a result is correlated with: the account and the stable request ID.
unfoldable pub correlates : ReconcileRequest → OutboxItem → Bool
correlates req r =
    str_eq r.account_id req.account_id && str_eq r.transport_request_id req.transport_request_id

unfoldable pub reconcile_found :
    ReconcileRequest → ℕ → ℕ → Database → Option OutboxItem → Reconciled
reconcile_found req now repoint_now db none = (db, ok notfound)
reconcile_found req now repoint_now db (some r) = reconcile_row req r now repoint_now db

-- ReconcileConfirm.
unfoldable pub reconcile_confirm : ReconcileRequest → ℕ → ℕ → Database → Reconciled
unfolding reconcile_found
reconcile_confirm req now repoint_now db =
    if is_blank req.account_id || is_blank req.transport_request_id || is_blank req.result_remote_id
    then (db, err bad_argument)
    else reconcile_found req now repoint_now db (find_first (correlates req) db.outbox)
