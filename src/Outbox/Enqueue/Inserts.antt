-- ===== src/Outbox/Enqueue/Inserts.antt =====
-- The INSERT statements of enqueue, with the constraints of the migrations that they can break.
use om_tui.Common.{
  ℕ, Bool, true, not, ◌&&◌, ◌||◌, Option, none, some, List, [], ◌∷◌, ◌++◌, String, Result, ok, err,
  constraint_violation, invalid_message, ◌==◌, leb, ltb, if◌then◌else◌, str_eq, sql_blank, any,
  str_length,
}
use om_tui.Outbox.Types.{
  queued, NewOutboxItem, OutboxItem, OutboxAttachment, OutboxReaction, OutboxReadReceipt, Message,
  Database,
}
use om_tui.Outbox.Checks.{row_check, opt_text}
use om_tui.Outbox.Transitions.{nullable_outbox_text}
use om_tui.Outbox.Enqueue.Validation.{is_message_of}

unfoldable pub new_row : NewOutboxItem → ℕ → ℕ → OutboxItem
new_row item scheduled_ms ms = record {
  outbox_id = item.outbox_id;
  account_id = item.account_id;
  conversation_id = item.conversation_id;
  kind = item.kind;
  idempotency_key = item.idempotency_key;
  payload_hash = item.payload_hash;
  operation = item.operation;
  state = queued;
  local_message_id = nullable_outbox_text item.local_message_id;
  transport_request_id = item.transport_request_id;
  send_again_of_outbox_id = nullable_outbox_text item.send_again_of_outbox_id;
  result_remote_id = none;
  error_class = none;
  error_code = none;
  error_detail = none;
  attempt_count = 0;
  lease_owner = none;
  lease_token = none;
  lease_expires_at_ms = none;
  transport_called_at_ms = none;
  scheduled_for_ms = scheduled_ms;
  next_attempt_at_ms = none;
  created_at_ms = ms;
  updated_at_ms = ms;
}

-- `WHERE account_id = ? AND idempotency_key = ?`.
unfoldable pub has_key : String → String → OutboxItem → Bool
has_key account key r = str_eq r.account_id account && str_eq r.idempotency_key key

-- The other unique keys of the table.
unfoldable pub same_identity : OutboxItem → OutboxItem → Bool
same_identity row r =
    str_eq r.outbox_id row.outbox_id
    || (str_eq r.account_id row.account_id
        && str_eq r.transport_request_id row.transport_request_id)

-- The foreign key of send_again_of_outbox_id, which the new row itself may satisfy.
predecessor_exists : Option String → List OutboxItem → Bool
predecessor_exists none rows = true
predecessor_exists (some id) rows = any (λ r. str_eq r.outbox_id id) rows

-- `INSERT … ON CONFLICT(account_id, idempotency_key) DO NOTHING`; `ok none` is the conflict. Which of
-- two broken unique keys SQLite reports first is the argument `key_first`.
unfoldable pub insert_outbox : Bool → OutboxItem → Database → Result (Option (List OutboxItem))
unfolding predecessor_exists
insert_outbox key_first row db =
    let taken = any (has_key row.account_id row.idempotency_key) db.outbox in
    let clash = any (same_identity row) db.outbox in
    if not (row_check row)
    then err constraint_violation
    else if taken && (key_first || not clash)
    then ok none
    else if clash
        || not (any (str_eq row.account_id) db.accounts)
        || not (predecessor_exists row.send_again_of_outbox_id (row ∷ db.outbox))
    then err constraint_violation
    else ok (some (db.outbox ++ row ∷ []))

conversation_exists : String → String → Database → Bool
conversation_exists account conversation db =
    any (λ c. str_eq c.account_id account && str_eq c.conversation_id conversation) db.conversations

sender_exists : String → Option String → Database → Bool
sender_exists account none db = true
sender_exists account (some id) db =
    any (λ x. str_eq x.account_id account && str_eq x.identity_id id) db.identities

message_clash : Message → Message → Bool
message_clash m k =
    str_eq k.message_id m.message_id
    || (str_eq k.account_id m.account_id
        && str_eq k.conversation_id m.conversation_id
        && str_eq k.remote_message_id m.remote_message_id)

message_allowed : Message → Database → Bool
unfolding conversation_exists sender_exists message_clash
message_allowed m db =
    not (sql_blank m.message_id)
    && not (sql_blank m.remote_message_id)
    && opt_text m.reply_to_remote_id
    && ltb 0 m.occurred_at_ms
    && not (any (message_clash m) db.messages)
    && conversation_exists m.account_id m.conversation_id db
    && sender_exists m.account_id m.sender_identity_id db

-- insertOutgoingMessage; every refused INSERT wraps ErrInvalidMessage.
unfoldable pub insert_outgoing_message :
    NewOutboxItem → Option Message → ℕ → Database → Result Database
unfolding message_allowed
insert_outgoing_message item none ms db = ok db
insert_outgoing_message item (some m) ms db =
    if is_message_of item m && message_allowed m db
    then ok (record db {
      messages = db.messages ++ record m { created_at_ms = ms; updated_at_ms = ms } ∷ [];
    })
    else err invalid_message

-- insertOutboxAttachment; its columns were checked before the transaction, and mime again here.
unfoldable pub insert_outbox_attachment :
    String → Option OutboxAttachment → ℕ → Database → Result Database
insert_outbox_attachment id none ms db = ok db
insert_outbox_attachment id (some a) ms db =
    if any (λ x. str_eq x.outbox_id id && x.ordinal == 0) db.attachments || sql_blank a.mime
    then err constraint_violation
    else ok (record db {
      attachments =
          db.attachments ++ record a { outbox_id = id; ordinal = 0; created_at_ms = ms } ∷ [];
    })

message_exists : String → Database → Bool
message_exists id db = any (λ m. str_eq m.message_id id) db.messages

-- insertOutboxReaction.
unfoldable pub insert_outbox_reaction :
    String → Option OutboxReaction → ℕ → Database → Result Database
unfolding message_exists
insert_outbox_reaction id none ms db = ok db
insert_outbox_reaction id (some x) ms db =
    if any (λ y. str_eq y.outbox_id id) db.reactions
      || sql_blank x.emoji
      || not (leb (str_length x.emoji) 64)
      || not (str_eq x.action "add" || str_eq x.action "remove" || str_eq x.action "switch")
      || not (message_exists x.target_message_id db)
    then err constraint_violation
    else ok (record db {
      reactions = db.reactions ++ record x { outbox_id = id; created_at_ms = ms } ∷ [];
    })

device_exists : String → Database → Bool
device_exists id db = any (λ d. str_eq d.device_id id) db.devices

-- insertOutboxReadReceipt.
unfoldable pub insert_outbox_read_receipt :
    String → Option OutboxReadReceipt → ℕ → Database → Result Database
unfolding message_exists device_exists
insert_outbox_read_receipt id none ms db = ok db
insert_outbox_read_receipt id (some x) ms db =
    if any (λ y. str_eq y.outbox_id id) db.read_receipts
      || x.read_at_ms == 0
      || not (device_exists x.device_id db)
      || not (message_exists x.last_read_message_id db)
    then err constraint_violation
    else ok (record db {
      read_receipts = db.read_receipts ++ record x { outbox_id = id; created_at_ms = ms } ∷ [];
    })
