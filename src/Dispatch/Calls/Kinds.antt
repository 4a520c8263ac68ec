-- ===== src/Dispatch/Calls/Kinds.antt =====
-- The transport calls of the four kinds of dispatch.
use om_tui.Common.{str_eq_refl, refl, Option, none, some, String}
use om_tui.Outbox.Types.{OutboxItem, Database, OutboxKind, text, media, reaction, read, other}
use om_tui.Outbox.Tables.Unique.{HasUniqueIds}
use om_tui.Dispatch.Types.{World, Dispatched}
use om_tui.Dispatch.Loading.{
  message_for_lease, get_outbox_attachment, get_outbox_reaction, get_outbox_read_receipt,
  target_ref_for_lease,
}
use om_tui.Dispatch.Finalize.{finish_message, finish_reaction, finish_read}
use om_tui.Dispatch.Endings.{finish_message-Ended, finish_reaction-Ended, finish_read-Ended}
use om_tui.Dispatch.Leases.{acquire}
use om_tui.Dispatch.Leases.Kinds.{
  with_message, with_attachment, with_blob, with_target, with_reaction, with_receipt,
  dispatch_text_lease, dispatch_media_lease, dispatch_reaction_lease, dispatch_read_lease,
  with_token, text_request, media_request, reaction_request, read_request,
}
use om_tui.Dispatch.Batch.{dispatch_lease, on_kind}
use om_tui.Dispatch.Calls.{
  CallsOnce, no_call, no_call_of, on_acquired-CallsOnce, or_fail-CallsOnce,
  with_conversation-CallsOnce, on_blob-CallsOnce, on_target-CallsOnce, mark_and_call-CallsOnce,
}

with_token-CallsOnce :
    (w : World) (item : OutboxItem) (db : Database) (go : String → Dispatched)
    (token : Option String)
    → ((t : String) → CallsOnce w item db (go t))
    → CallsOnce w item db (with_token item db go token)
unfolding with_token
with_token-CallsOnce w item db go none h = no_call refl
with_token-CallsOnce w item db go (some t) h = h t

module _ (w : World) (item : OutboxItem) (db : Database) (unique : HasUniqueIds db.outbox) where
  text-CallsOnce : CallsOnce w item db (dispatch_text_lease w item db)
  unfolding dispatch_text_lease acquire with_message text_request
  text-CallsOnce = with_token-CallsOnce w item db _ item.lease_token (λ t.
      on_acquired-CallsOnce w item t none db _ w.acquired (
        or_fail-CallsOnce w item t _ db _ (message_for_lease w.faults.load item db) (λ m.
          with_conversation-CallsOnce w item t _ db _ (λ c.
            mark_and_call-CallsOnce w item t "send_text" finish_message
              (finish_message-Ended item.outbox_id w item t) (text_request item m c)
              (str_eq_refl item.transport_request_id) db unique))))

  media-CallsOnce : CallsOnce w item db (dispatch_media_lease w item db)
  unfolding dispatch_media_lease acquire with_message with_attachment with_blob media_request
  media-CallsOnce = with_token-CallsOnce w item db _ item.lease_token (λ t.
      on_acquired-CallsOnce w item t (some "media_send_unsupported") db _ w.acquired (
        or_fail-CallsOnce w item t _ db _ (message_for_lease w.faults.load item db) (λ m.
          with_conversation-CallsOnce w item t _ db _ (λ c.
            or_fail-CallsOnce w item t _ db _
              (get_outbox_attachment w.faults.carrier item.outbox_id db)
              (λ a. on_blob-CallsOnce w item t db _ w.blob (λ content.
                mark_and_call-CallsOnce w item t "send_media" finish_message
                  (finish_message-Ended item.outbox_id w item t) (media_request item m c a content)
                  (str_eq_refl item.transport_request_id) db unique))))))

  reaction-CallsOnce : CallsOnce w item db (dispatch_reaction_lease w item db)
  unfolding dispatch_reaction_lease acquire with_reaction with_target reaction_request
  reaction-CallsOnce = with_token-CallsOnce w item db _ item.lease_token (λ t.
      on_acquired-CallsOnce w item t (some "reactions_unsupported") db _ w.acquired (
        or_fail-CallsOnce w item t _ db _ (get_outbox_reaction w.faults.carrier item.outbox_id db)
          (λ x.
            on_target-CallsOnce w item t db _
              (target_ref_for_lease w.faults.target w.faults.author item x.target_message_id db)
              (λ ref. with_conversation-CallsOnce w item t _ db _ (λ c.
                mark_and_call-CallsOnce w item t "reaction" finish_reaction
                  (finish_reaction-Ended item.outbox_id w item t) (reaction_request item x ref c)
                  (str_eq_refl item.transport_request_id) db unique)))))

  read-CallsOnce : CallsOnce w item db (dispatch_read_lease w item db)
  unfolding dispatch_read_lease acquire with_receipt with_target read_request
  read-CallsOnce = with_token-CallsOnce w item db _ item.lease_token (λ t.
      on_acquired-CallsOnce w item t (some "read_receipts_unsupported") db _ w.acquired (
        or_fail-CallsOnce w item t _ db _
          (get_outbox_read_receipt w.faults.carrier item.outbox_id db)
          (λ x.
            on_target-CallsOnce w item t db _
              (target_ref_for_lease w.faults.target w.faults.author item x.last_read_message_id db)
              (λ ref. with_conversation-CallsOnce w item t _ db _ (λ c.
                mark_and_call-CallsOnce w item t "read_receipt" finish_read
                  (finish_read-Ended item.outbox_id w item t) (read_request item x ref c) refl db
                  unique)))))

  on_kind-CallsOnce : (k : OutboxKind) → CallsOnce w item db (on_kind w item db k)
  unfolding on_kind
  on_kind-CallsOnce text = text-CallsOnce
  on_kind-CallsOnce media = media-CallsOnce
  on_kind-CallsOnce reaction = reaction-CallsOnce
  on_kind-CallsOnce read = read-CallsOnce
  on_kind-CallsOnce other =
      with_token-CallsOnce w item db _ item.lease_token (λ t. no_call_of w item t db _)

-- On a table with unique IDs, the dispatch of any leased item makes either no transport call, or exactly
-- one. The request of that call carries the intent's request ID (a read receipt carries none). When it is
-- made, the item's row bears the durable transport-call marker and counts one attempt more than before
-- the dispatch. And unless the result proves that the remote side never saw the call, all that the
-- dispatch does afterwards are repository calls of which none takes the row back to work.
pub dispatch_lease-CallsOnce :
    (w : World) (item : OutboxItem) (db : Database)
    → HasUniqueIds db.outbox
    → CallsOnce w item db (dispatch_lease w item db)
unfolding dispatch_lease
dispatch_lease-CallsOnce w item db unique = on_kind-CallsOnce w item db unique item.kind
