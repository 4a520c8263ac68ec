-- ===== src/Dispatch/Leases/Kinds.antt =====
-- The four dispatches: text, media, reactions and read receipts.
use om_tui.Common.{Option, none, some, [], String, err, no_lease_token}
use om_tui.Outbox.Types.{
  OutboxItem, Database, Conversation, Message, OutboxAttachment, OutboxReaction, OutboxReadReceipt,
}
use om_tui.Bridge.Types.{MessageRef}
use om_tui.Dispatch.Types.{
  World, Dispatched, Request, SendResult, sent, failed, SendError, Acquired, unavailable, refused,
  no_sender, leased, BlobOpen, opened, missing, broken,
}
use om_tui.Dispatch.Finalize.{
  uncalled, reject_pre_call, finish_message, finish_reaction, finish_read,
}
use om_tui.Dispatch.Types
use om_tui.Dispatch.Loading.{
  Target, message_for_lease, target, no_target, target_ref_for_lease, get_outbox_attachment,
  get_outbox_reaction, get_outbox_read_receipt,
}
use om_tui.Dispatch.Leases.{fail_before, acquire, or_fail, with_conversation, mark_and_call}

unfoldable pub with_token :
    OutboxItem → Database → (String → Dispatched) → Option String → Dispatched
with_token item db go none = record { db = db; calls = []; result = err no_lease_token }
with_token item db go (some token) = go token

unfoldable pub with_message :
    World → OutboxItem → String → Database → (Message → Dispatched) → Dispatched
unfolding or_fail
with_message w item token db go =
    or_fail w item token "load_message" db go (message_for_lease w.faults.load item db)

unfoldable pub text_request : OutboxItem → Message → Conversation → Request
text_request item m c =
    Types.send_text item.account_id c.remote_conversation_id m.body m.reply_to_remote_id
      item.transport_request_id

unfoldable pub dispatch_text_lease : World → OutboxItem → Database → Dispatched
unfolding with_token acquire with_message with_conversation mark_and_call text_request
dispatch_text_lease w item db =
    with_token item db
      (λ token. acquire w item token none db (
        with_message w item token db (λ m.
          with_conversation w item token "cross_account_conversation" db (λ c.
            mark_and_call w item token "send_text" finish_message (text_request item m c) db))))
      item.lease_token

unfoldable pub with_attachment :
    World → OutboxItem → String → Database → (OutboxAttachment → Dispatched) → Dispatched
unfolding or_fail
with_attachment w item token db go =
    or_fail w item token "load_media" db go
      (get_outbox_attachment w.faults.carrier item.outbox_id db)

unfoldable pub on_blob :
    World → OutboxItem → String → Database → (String → Dispatched) → BlobOpen → Dispatched
unfolding fail_before uncalled
on_blob w item token db go missing =
    uncalled (reject_pre_call w item token "misconfigured" "blob_missing" w.cause db)
on_blob w item token db go broken = fail_before w item token "open_blob" db
on_blob w item token db go (opened content) = go content

unfoldable pub with_blob :
    World → OutboxItem → String → Database → (String → Dispatched) → Dispatched
unfolding on_blob
with_blob w item token db go = on_blob w item token db go w.blob

unfoldable pub media_request :
    OutboxItem → Message → Conversation → OutboxAttachment → String → Request
media_request item m c a content =
    Types.send_media item.account_id c.remote_conversation_id content a.size_bytes a.filename a.mime
      m.body m.reply_to_remote_id item.transport_request_id

unfoldable pub dispatch_media_lease : World → OutboxItem → Database → Dispatched
unfolding with_token acquire with_message with_conversation with_attachment with_blob mark_and_call
    media_request
dispatch_media_lease w item db =
    with_token item db
      (λ token. acquire w item token (some "media_send_unsupported") db (
        with_message w item token db (λ m.
          with_conversation w item token "cross_account_conversation" db (λ c.
            with_attachment w item token db (λ a. with_blob w item token db (λ content.
              mark_and_call w item token "send_media" finish_message
                (media_request item m c a content) db))))))
      item.lease_token

unfoldable pub on_target :
    World → OutboxItem → String → Database → (MessageRef → Dispatched) → Target → Dispatched
unfolding fail_before
on_target w item token db go (no_target code) = fail_before w item token code db
on_target w item token db go (target ref) = go ref

unfoldable pub with_target :
    World → OutboxItem → String → String → Database → (MessageRef → Dispatched) → Dispatched
unfolding on_target
with_target w item token id db go =
    on_target w item token db go (target_ref_for_lease w.faults.target w.faults.author item id db)

unfoldable pub with_reaction :
    World → OutboxItem → String → Database → (OutboxReaction → Dispatched) → Dispatched
unfolding or_fail
with_reaction w item token db go =
    or_fail w item token "load_reaction" db go
      (get_outbox_reaction w.faults.carrier item.outbox_id db)

unfoldable pub reaction_request : OutboxItem → OutboxReaction → MessageRef → Conversation → Request
reaction_request item x ref c =
    Types.send_reaction item.account_id c.remote_conversation_id ref x.emoji x.action
      item.transport_request_id

unfoldable pub dispatch_reaction_lease : World → OutboxItem → Database → Dispatched
unfolding with_token acquire with_reaction with_target with_conversation mark_and_call
    reaction_request
dispatch_reaction_lease w item db =
    with_token item db
      (λ token. acquire w item token (some "reactions_unsupported") db (
        with_reaction w item token db (λ x. with_target w item token x.target_message_id db (λ ref.
          with_conversation w item token "load_conversation" db (λ c.
            mark_and_call w item token "reaction" finish_reaction (reaction_request item x ref c)
              db)))))
      item.lease_token

unfoldable pub with_receipt :
    World → OutboxItem → String → Database → (OutboxReadReceipt → Dispatched) → Dispatched
unfolding or_fail
with_receipt w item token db go =
    or_fail w item token "load_read_receipt" db go
      (get_outbox_read_receipt w.faults.carrier item.outbox_id db)

unfoldable pub read_request : OutboxItem → OutboxReadReceipt → MessageRef → Conversation → Request
read_request item x ref c =
    Types.mark_read item.account_id c.remote_conversation_id ref x.read_at_ms

unfoldable pub dispatch_read_lease : World → OutboxItem → Database → Dispatched
unfolding with_token acquire with_receipt with_target with_conversation mark_and_call read_request
dispatch_read_lease w item db =
    with_token item db
      (λ token. acquire w item token (some "read_receipts_unsupported") db (
        with_receipt w item token db (λ x.
          with_target w item token x.last_read_message_id db (λ ref.
            with_conversation w item token "load_conversation" db (λ c.
              mark_and_call w item token "read_receipt" finish_read (read_request item x ref c)
                db)))))
      item.lease_token
