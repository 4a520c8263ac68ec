-- ===== src/Outbox/Confirming.antt =====
-- Confirm and repointLocalMessage: a remote result reaches the outbox row and the
-- optimistic message in one transaction. A `now` argument is one reading of the repository's clock.
pub mod Reconciling
use om_tui.Common.{
  ℕ, Bool, true, false, not, ◌&&◌, ◌||◌, Option, none, some, List, map, String, Result, ok, err,
  ◌>>=◌, ◌>>◌, bad_argument, rows_affected, not_found, constraint_violation, ◌==◌, leb, any, filter,
  find_first, if◌then◌else◌, opt_is, str_eq, is_blank, sql_blank,
}
use om_tui.Outbox.Types.{
  OutboxState, uncertain, confirmed, store_failed, OutboxItem, Database, Message, Confirmation,
  ReconcileRequest, ReconcileOutcome, reconciled, enriched, noop, notfound, now_ms,
}
use om_tui.Outbox.Tables.{exec_update, find_row, require_lease_mutation}
use om_tui.Outbox.Transitions.{Outcome, called_by, set_confirmed, without_error}

-- The rows that keep a message from being deleted: the foreign keys of
-- migrations/0007_reactions_read.sql, which have no ON DELETE action.
unfoldable pub is_referenced : Message → Database → Bool
is_referenced m db =
    any (λ x. str_eq x.target_message_id m.message_id) db.reactions
    || any (λ x. str_eq x.last_read_message_id m.message_id) db.read_receipts
    || any
        (λ x.
          str_eq x.conversation_id m.conversation_id && opt_is x.last_read_message_id m.message_id)
        db.read_cursors

unfoldable pub has_remote_id : String → String → String → Message → Bool
has_remote_id account conversation remote m =
    str_eq m.account_id account
    && str_eq m.conversation_id conversation
    && str_eq m.remote_message_id remote

-- `DELETE FROM messages WHERE message_id = ?` of an echo that is not the local message.
unfoldable pub delete_echo : Message → Database → Result (List Message)
delete_echo m db =
    if is_referenced m db
    then err constraint_violation
    else ok (filter (λ x. not (str_eq x.message_id m.message_id)) db.messages)

unfoldable pub drop_collision : String → String → String → String → Database → Result (List Message)
unfolding has_remote_id
drop_collision account conversation local real db =
    elim (find_first (has_remote_id account conversation real) db.messages) [
      | none ↦ ok db.messages
      | some m ↦ if str_eq m.message_id local then ok db.messages else delete_echo m db
    ]

unfoldable pub set_remote_id : String → ℕ → Message → Message
set_remote_id real ms m = record m { remote_message_id = real; updated_at_ms = ms }

-- The constraints of the messages table that the UPDATE of a remote ID can break:
-- UNIQUE (account_id, conversation_id, remote_message_id) and the CHECKs of the columns it writes.
unfoldable pub remote_id_conflict : String → String → ℕ → List Message → Bool
unfolding has_remote_id
remote_id_conflict local real ms rows =
    any
      (λ m.
        str_eq m.message_id local
        && (not (leb m.created_at_ms ms)
            || sql_blank real
            || any
                (λ k.
                  not (str_eq k.message_id local)
                  && has_remote_id m.account_id m.conversation_id real k)
                rows))
      rows

unfoldable pub write_remote_id : String → String → ℕ → List Message → Result (List Message)
unfolding set_remote_id
write_remote_id local real ms rows =
    if remote_id_conflict local real ms rows
    then err constraint_violation
    else ok (map (λ m. if str_eq m.message_id local then set_remote_id real ms m else m) rows)

-- repointLocalMessage: the messages after it.
unfoldable pub repoint_local_message :
    String → String → String → String → String → ℕ → Database → Result (List Message)
unfolding write_remote_id
repoint_local_message account conversation local request real now db =
    if str_eq real request
    then ok db.messages
    else (now_ms now >>= λ ms. drop_collision account conversation local real db >>= λ rows.
        write_remote_id local real ms rows)

unfoldable pub set_confirmed_as : String → ℕ → OutboxItem → OutboxItem
set_confirmed_as result ms r = record (set_confirmed ms r) { result_remote_id = some result }

unfoldable pub repoint_row : String → ℕ → OutboxItem → Database → Result Database
repoint_row result now r db = elim r.local_message_id [
  | none ↦ ok db
  | some local ↦
      repoint_local_message r.account_id r.conversation_id local r.transport_request_id result now
        db
      >>= λ ms. ok (record db { messages = ms })
]

-- Read the confirmed row back and repoint its message.
unfoldable pub confirm_row : String → String → ℕ → Database → List OutboxItem → Result Database
unfolding repoint_row
confirm_row id result now db rows = elim (find_row id rows) [
  | none ↦ err not_found
  | some r ↦ repoint_row result now r (record db { outbox = rows })
]

-- The body of Confirm's transaction.
unfoldable pub confirm_tx : String → String → String → ℕ → ℕ → Database → Result Database
unfolding confirm_row
confirm_tx id token result ms now db = do
  (rows, n) ← exec_update (called_by id token) (set_confirmed_as result ms) db.outbox
  require_lease_mutation id n rows
  confirm_row id result now db rows

-- A transaction that fails leaves every table as it was.
abbrev pub commit : Database → Result Database → Outcome
commit db (ok db') = (db', ok tt)
commit db (err e) = (db, err e)

abbrev pub result_of : Confirmation → String
result_of c = if str_eq c.result_remote_id "" then c.transport_result_id else c.result_remote_id

-- Confirm; `now` and `repoint_now` are its two readings of the clock.
unfoldable pub confirm : Confirmation → ℕ → ℕ → Database → Outcome
unfolding confirm_tx
confirm c now repoint_now db =
    if is_blank (result_of c)
    then (db, err bad_argument)
    else commit db
        (now_ms now >>= λ ms. confirm_tx c.outbox_id c.lease_token (result_of c) ms repoint_now db)
