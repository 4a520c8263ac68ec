-- ===== src/Outbox/Enqueue.antt =====
-- OutboxRepository.enqueue: one transaction that inserts an intent with its message and carriers, or
-- finds the intent that its idempotency key names already.
pub mod Validation
pub mod Inserts
pub mod Cursors
use om_tui.Common.{
  ℕ, Bool, true, false, not, ◌&&◌, ◌||◌, Option, none, some, List, String, Result, ok, err, ◌>>=◌,
  ◌>>◌, idempotency_conflict, not_found, if◌then◌else◌, str_eq, find_first, opt_is,
}
use om_tui.Outbox.Types.{
  OutboxKind, NewOutboxItem, OutboxItem, Message, Database, EnqueueDisposition, inserted, existing,
  now_ms, OutboxAttachment, OutboxReaction, OutboxReadReceipt, ReadCursor,
}
use Validation.{
  EnqueueCarriers, validate_new_outbox_item, validate_outbox_attachment_pair,
  scheduled_for_milliseconds, validate_existing_outgoing_pair, validate_existing_carrier,
}
use Inserts.{
  new_row, has_key, insert_outbox, insert_outgoing_message, insert_outbox_attachment,
  insert_outbox_reaction, insert_outbox_read_receipt,
}
use Cursors.{upsert_read_cursor}

-- sameSendAgainLink.
unfoldable pub same_send_again_link : Option String → String → Bool
same_send_again_link none incoming = str_eq incoming ""
same_send_again_link (some stored) incoming = str_eq stored incoming

unfoldable pub same_intent : NewOutboxItem → OutboxItem → Bool
unfolding same_send_again_link
same_intent item row =
    str_eq row.operation item.operation
    && str_eq row.conversation_id item.conversation_id
    && str_eq row.payload_hash item.payload_hash
    && same_send_again_link row.send_again_of_outbox_id item.send_again_of_outbox_id

abbrev pub Enqueued : Type 0
Enqueued = OutboxItem × EnqueueDisposition

validate_message_pair : OutboxItem → Option Message → Database → Result (Unit {0})
validate_message_pair row none db = ok tt
validate_message_pair row (some _) db = validate_existing_outgoing_pair row db

-- The arm of an existing row: nothing is written.
unfoldable pub replay :
    NewOutboxItem → Option Message → Option OutboxItem → Database → Result (Database × Enqueued)
unfolding validate_message_pair
replay item message none db = err not_found
replay item message (some row) db =
    if same_intent item row
    then (validate_message_pair row message db
        >> (validate_existing_carrier row db >> ok (db, (row, existing))))
    else err idempotency_conflict

-- The arm of a new row: its message and carriers follow in the same transaction.
unfoldable pub insert_all :
    NewOutboxItem
    → Option Message
    → EnqueueCarriers
    → ℕ
    → OutboxItem
    → Database
    → Result (Database × Enqueued)
insert_all item message c ms row db = do
  db₁ ← insert_outgoing_message item message ms db
  db₂ ← insert_outbox_attachment item.outbox_id c.attachment ms db₁
  db₃ ← insert_outbox_reaction item.outbox_id c.reaction ms db₂
  db₄ ← insert_outbox_read_receipt item.outbox_id c.read_receipt ms db₃
  db₅ ← upsert_read_cursor c.read_cursor db₄
  ok (db₅, (row, inserted))

unfoldable pub enqueue_row :
    NewOutboxItem
    → Option Message
    → EnqueueCarriers
    → ℕ
    → OutboxItem
    → Database
    → Option (List OutboxItem)
    → Result (Database × Enqueued)
unfolding replay insert_all
enqueue_row item message c ms row db none =
    replay item message (find_first (has_key item.account_id item.idempotency_key) db.outbox) db
enqueue_row item message c ms row db (some rows) =
    insert_all item message c ms row (record db { outbox = rows })

unfoldable pub enqueue_tx :
    Bool
    → NewOutboxItem
    → Option Message
    → EnqueueCarriers
    → ℕ
    → Database
    → Result (Database × Enqueued)
unfolding enqueue_row
enqueue_tx key_first item message c now db = do
  validate_new_outbox_item item
  validate_outbox_attachment_pair item c
  ms ← now_ms now
  scheduled ← scheduled_for_milliseconds item ms
  rows ← insert_outbox key_first (new_row item scheduled ms) db
  enqueue_row item message c ms (new_row item scheduled ms) db rows

abbrev pub commit_enqueue : Database → Result (Database × Enqueued) → Database × Result Enqueued
commit_enqueue db (ok (db', e)) = (db', ok e)
commit_enqueue db (err x) = (db, err x)

unfoldable pub enqueue :
    Bool
    → NewOutboxItem
    → Option Message
    → EnqueueCarriers
    → ℕ
    → Database
    → Database × Result Enqueued
unfolding enqueue_tx
enqueue key_first item message c now db =
    commit_enqueue db (enqueue_tx key_first item message c now db)

abbrev pub no_carriers : EnqueueCarriers
no_carriers = record { attachment = none; reaction = none; read_receipt = none; read_cursor = none }

-- Enqueue, and the four entry points for the kinds.
unfoldable pub enqueue_plain : Bool → NewOutboxItem → ℕ → Database → Database × Result Enqueued
enqueue_plain key_first item = enqueue key_first item none no_carriers

unfoldable pub enqueue_outgoing_message :
    Bool → NewOutboxItem → Message → ℕ → Database → Database × Result Enqueued
enqueue_outgoing_message key_first item message = enqueue key_first item (some message) no_carriers

unfoldable pub enqueue_outgoing_media_message :
    Bool → NewOutboxItem → Message → OutboxAttachment → ℕ → Database → Database × Result Enqueued
enqueue_outgoing_media_message key_first item message attachment =
    enqueue key_first item (some message) (record no_carriers { attachment = some attachment })

unfoldable pub enqueue_reaction :
    Bool → NewOutboxItem → OutboxReaction → ℕ → Database → Database × Result Enqueued
enqueue_reaction key_first item x =
    enqueue key_first item none (record no_carriers { reaction = some x })

unfoldable pub enqueue_read_receipt :
    Bool
    → NewOutboxItem
    → OutboxReadReceipt
    → ReadCursor
    → ℕ
    → Database
    → Database × Result Enqueued
enqueue_read_receipt key_first item receipt cursor =
    enqueue key_first item none
      (record no_carriers { read_receipt = some receipt; read_cursor = some cursor })
