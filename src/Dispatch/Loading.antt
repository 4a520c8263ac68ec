-- ===== src/Dispatch/Loading.antt =====
-- What a dispatch reads before it calls the transport: messageForLease, targetRefForLease, the
-- conversation, and the carriers. `none` is a failure.
use om_tui.Common.{
  Bool, ◌&&◌, ◌||◌, is_blank, Option, none, some, String, if◌then◌else◌, str_eq, find_first, ◌==◌,
}
use om_tui.Outbox.Types.{
  OutboxItem, Database, Message, Conversation, Identity, OutboxAttachment, OutboxReaction,
  OutboxReadReceipt,
}
use om_tui.Bridge.Types.{MessageRef}

-- messages.GetMessage.
unfoldable pub get_message : String → Database → Option Message
get_message id db = find_first (λ m. str_eq m.message_id id) db.messages

-- The message if it is of the item's account and conversation.
unfoldable pub matching : OutboxItem → Option Message → Option Message
matching item none = none
matching item (some m) =
    if str_eq m.account_id item.account_id && str_eq m.conversation_id item.conversation_id
    then some m
    else none

-- messageForLease.
unfoldable pub message_for_lease : Bool → OutboxItem → Database → Option Message
unfolding get_message matching
message_for_lease fault item db =
    if fault
    then none
    else elim item.local_message_id [ none ↦ none | some id ↦ matching item (get_message id db) ]

-- store.GetConversation.
unfoldable pub get_conversation : Bool → String → Database → Option Conversation
get_conversation fault id db =
    if fault then none else find_first (λ c. str_eq c.conversation_id id) db.conversations

-- A target, or the error code of targetRefForLease.
pub data Target : Type 0 where
  target : MessageRef → Target
  no_target : String → Target

abbrev ref_of : Message → String → MessageRef
ref_of m author = record {
  remote_id = m.remote_message_id;
  author_id = author;
  sent_at_ms = m.occurred_at_ms;
}

author_ref : OutboxItem → Message → Option Identity → Target
author_ref item m none = no_target "load_target_author"
author_ref item m (some x) =
    if str_eq x.account_id item.account_id
    then target (ref_of m x.canonical_value)
    else no_target "load_target_author"

sender_ref : Bool → OutboxItem → Message → Database → Target
unfolding author_ref
sender_ref fault item m db = elim m.sender_identity_id [
  | none ↦ target (ref_of m "")
  | some id ↦
      if fault
      then no_target "load_target_author"
      else author_ref item m (find_first (λ x. str_eq x.identity_id id) db.identities)
]

target_of : Bool → OutboxItem → Option Message → Database → Target
unfolding sender_ref
target_of author_fault item none db = no_target "load_target"
target_of author_fault item (some m) db = sender_ref author_fault item m db

-- targetRefForLease; the two faults are those of GetMessage and GetIdentity.
unfoldable pub target_ref_for_lease : Bool → Bool → OutboxItem → String → Database → Target
unfolding target_of get_message matching
target_ref_for_lease fault author_fault item id db =
    if fault
    then no_target "load_target"
    else target_of author_fault item (matching item (get_message id db)) db

-- GetOutboxAttachment, GetOutboxReaction and GetOutboxReadReceipt.
unfoldable pub get_outbox_attachment : Bool → String → Database → Option OutboxAttachment
get_outbox_attachment fault id db =
    if fault || is_blank id
    then none
    else find_first (λ a. str_eq a.outbox_id id && a.ordinal == 0) db.attachments

unfoldable pub get_outbox_reaction : Bool → String → Database → Option OutboxReaction
get_outbox_reaction fault id db =
    if fault || is_blank id then none else find_first (λ x. str_eq x.outbox_id id) db.reactions

unfoldable pub get_outbox_read_receipt : Bool → String → Database → Option OutboxReadReceipt
get_outbox_read_receipt fault id db =
    if fault || is_blank id then none else find_first (λ x. str_eq x.outbox_id id) db.read_receipts
