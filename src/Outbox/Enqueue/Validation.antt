-- ===== src/Outbox/Enqueue/Validation.antt =====
-- validateNewOutboxItem, scheduledForMilliseconds, validateOutboxAttachmentPair and the checks that an
-- idempotent replay makes of the rows stored before.
use om_tui.Common.{
  ℕ, Bool, true, false, not, ◌&&◌, ◌||◌, Option, none, some, [], ◌∷◌, String, Result, ok, err,
  bad_argument, invalid_message, carrier_missing, ◌==◌, if◌then◌else◌, is_none, is_some, opt_is,
  str_eq, is_blank, any, find_first, str_length, all_hex, suc,
}
use om_tui.Common.Int.{ℤ, pos, negsuc, is_negative, is_zero}
use om_tui.Outbox.Types.{
  OutboxKind, media, reaction, read, other, NewOutboxItem, OutboxItem, OutboxAttachment,
  OutboxReaction, OutboxReadReceipt, ReadCursor, Message, MessageDirection, outgoing, MessageState,
  active, Database,
}

pub record EnqueueCarriers : Type 0 where
  pub attachment : Option OutboxAttachment
  pub reaction : Option OutboxReaction
  pub read_receipt : Option OutboxReadReceipt
  pub read_cursor : Option ReadCursor

abbrev is_other : OutboxKind → Bool
is_other other = true
is_other _ = false

unfoldable pub validate_new_outbox_item : NewOutboxItem → Result (Unit {0})
validate_new_outbox_item item =
    if any is_blank (
        item.outbox_id ∷ item.account_id ∷ item.conversation_id ∷ item.idempotency_key
        ∷ item.payload_hash ∷ item.operation ∷ item.transport_request_id ∷ [])
      || (not (str_eq item.send_again_of_outbox_id "") && is_blank item.send_again_of_outbox_id)
      || is_other item.kind
      || is_negative item.scheduled_for_ms
      || (is_some item.scheduled_for && not (is_zero item.scheduled_for_ms))
    then err bad_argument
    else ok tt

unfoldable pub positive_ms : ℕ → ℤ → Result ℕ
positive_ms now_ms (pos ℕ.zero) = if now_ms == 0 then err bad_argument else ok now_ms
positive_ms now_ms (pos (suc n)) = ok (suc n)
positive_ms now_ms (negsuc _) = err bad_argument

unfoldable pub scheduled_for_milliseconds : NewOutboxItem → ℕ → Result ℕ
unfolding positive_ms
scheduled_for_milliseconds item now_ms = elim item.scheduled_for [
  | none ↦ positive_ms now_ms item.scheduled_for_ms
  | some t ↦ positive_ms now_ms t
]

-- Which carriers a kind takes.
unfoldable pub carriers_fit : OutboxKind → EnqueueCarriers → Bool
carriers_fit media c =
    is_some c.attachment && is_none c.reaction && is_none c.read_receipt && is_none c.read_cursor
carriers_fit reaction c =
    is_some c.reaction && is_none c.attachment && is_none c.read_receipt && is_none c.read_cursor
carriers_fit read c =
    is_some c.read_receipt && is_some c.read_cursor && is_none c.attachment && is_none c.reaction
carriers_fit _ c =
    is_none c.attachment && is_none c.reaction && is_none c.read_receipt && is_none c.read_cursor

-- validateBlobHash.
valid_blob_hash : String → Bool
valid_blob_hash h = str_length h == 64 && all_hex h

attachment_fits : Option OutboxAttachment → Bool
unfolding valid_blob_hash
attachment_fits none = true
attachment_fits (some a) =
    valid_blob_hash a.blob_hash && not (a.size_bytes == 0) && not (is_blank a.mime)

-- validateOutboxAttachmentPair.
unfoldable pub validate_outbox_attachment_pair : NewOutboxItem → EnqueueCarriers → Result (Unit {0})
unfolding carriers_fit attachment_fits
validate_outbox_attachment_pair item c =
    if carriers_fit item.kind c && attachment_fits c.attachment then ok tt else err bad_argument

abbrev is_outgoing : MessageDirection → Bool
is_outgoing outgoing = true
is_outgoing _ = false

abbrev is_active : MessageState → Bool
is_active active = true
is_active _ = false

unfoldable pub is_request_bound_or_confirmed_remote_id : String → OutboxItem → Bool
is_request_bound_or_confirmed_remote_id remote item =
    str_eq remote item.transport_request_id || opt_is item.result_remote_id remote

unfoldable pub is_outgoing_pair : OutboxItem → Message → Bool
unfolding is_request_bound_or_confirmed_remote_id
is_outgoing_pair item m =
    str_eq m.account_id item.account_id
    && str_eq m.conversation_id item.conversation_id
    && is_outgoing m.direction
    && is_active m.state
    && is_request_bound_or_confirmed_remote_id m.remote_message_id item

pair_of : OutboxItem → Option Message → Result (Unit {0})
unfolding is_outgoing_pair
pair_of item none = err invalid_message
pair_of item (some m) = if is_outgoing_pair item m then ok tt else err invalid_message

unfoldable pub validate_existing_outgoing_pair : OutboxItem → Database → Result (Unit {0})
unfolding pair_of
validate_existing_outgoing_pair item db = elim item.local_message_id [
  | none ↦ err invalid_message
  | some local ↦ pair_of item (find_first (λ m. str_eq m.message_id local) db.messages)
]

-- validateExistingOutboxAttachment, …Reaction and …ReadReceipt, by the kind of the stored row.
unfoldable pub carrier_stored : OutboxKind → String → Database → Bool
carrier_stored media id db = any (λ a. str_eq a.outbox_id id && a.ordinal == 0) db.attachments
carrier_stored reaction id db = any (λ x. str_eq x.outbox_id id) db.reactions
carrier_stored read id db = any (λ x. str_eq x.outbox_id id) db.read_receipts
carrier_stored _ id db = true

unfoldable pub validate_existing_carrier : OutboxItem → Database → Result (Unit {0})
unfolding carrier_stored
validate_existing_carrier row db =
    if carrier_stored row.kind row.outbox_id db then ok tt else err carrier_missing

-- The checks of insertOutgoingMessage before its INSERT.
unfoldable pub is_message_of : NewOutboxItem → Message → Bool
is_message_of item m =
    is_outgoing m.direction
    && is_active m.state
    && not (str_eq item.local_message_id "")
    && str_eq m.message_id item.local_message_id
    && str_eq m.account_id item.account_id
    && str_eq m.conversation_id item.conversation_id
