-- ===== src/Dispatch/Leases.antt =====
-- What dispatchTextLease, dispatchMediaLease, dispatchReactionLease and dispatchReadLease share: the
-- refused Acquire, the reads that must succeed, and the marked call with its ending.
pub mod Kinds
use om_tui.Common.{
  Bool, Option, none, some, [], ◌∷◌, String, ok, err, no_lease_token, canceled, if◌then◌else◌,
  str_eq, Error,
}
use om_tui.Outbox.Types.{
  OutboxItem, Database, Attempt, Conversation, Message, OutboxAttachment, OutboxReaction,
  OutboxReadReceipt,
}
use om_tui.Outbox.Transitions.{Outcome, mark_transport_called}
use om_tui.Bridge.Types.{MessageRef}
use om_tui.Dispatch.Types.{
  World, Dispatched, Request, SendResult, sent, failed, SendError, Acquired, unavailable, refused,
  no_sender, leased, BlobOpen, opened, missing, broken,
}
use om_tui.Dispatch.Finalize.{
  unless_fault, uncalled, release_unavailable_lease, mark_pre_call_failure, reject_pre_call,
  record_send_error, finish_message, finish_reaction, finish_read,
}
use om_tui.Dispatch.Types
use om_tui.Dispatch.Loading.{
  Target, message_for_lease, get_conversation, target, no_target, target_ref_for_lease,
  get_outbox_attachment, get_outbox_reaction, get_outbox_read_receipt,
}

-- A failure before the call that is retried after the retry delay, with class `transient`.
unfoldable pub fail_before : World → OutboxItem → String → String → Database → Dispatched
unfolding uncalled
fail_before w item token code db =
    uncalled (mark_pre_call_failure w item token "transient" code w.cause db)

-- After a failed Acquire: release the lease, then report a cancellation.
after_release : Bool → Outcome → Outcome
after_release stopped (db, err e) = (db, err e)
after_release stopped (db, ok _) = if stopped then (db, err canceled) else (db, ok tt)

unfoldable pub release_refused : World → OutboxItem → String → Database → Dispatched
unfolding after_release uncalled
release_refused w item token db =
    uncalled (after_release w.canceled_early (release_unavailable_lease w item token db))

-- An account that lacks the capability altogether is rejected under a code; text sends have none.
unfoldable pub on_unavailable : World → OutboxItem → String → Option String → Database → Dispatched
unfolding release_refused uncalled
on_unavailable w item token none db = release_refused w item token db
on_unavailable w item token (some code) db =
    if w.supported
    then release_refused w item token db
    else uncalled (reject_pre_call w item token "unsupported" code w.cause db)

unfoldable pub on_acquired :
    World → OutboxItem → String → Option String → Database → Dispatched → Acquired → Dispatched
unfolding on_unavailable release_refused uncalled
on_acquired w item token reject_as db go unavailable = on_unavailable w item token reject_as db
on_acquired w item token reject_as db go refused = release_refused w item token db
on_acquired w item token reject_as db go no_sender =
    uncalled (release_unavailable_lease w item token db)
on_acquired w item token reject_as db go leased = go

-- The outcome of one Acquire.
unfoldable pub acquire :
    World → OutboxItem → String → Option String → Database → Dispatched → Dispatched
unfolding on_acquired
acquire w item token reject_as db go = on_acquired w item token reject_as db go w.acquired

-- A read that must succeed; `code` is the error code of its failure.
unfoldable pub or_fail :
    {A : Type 0}
    → World
    → OutboxItem
    → String
    → String
    → Database
    → (A → Dispatched)
    → Option A
    → Dispatched
unfolding fail_before
or_fail w item token code db go none = fail_before w item token code db
or_fail w item token code db go (some a) = go a

-- GetConversation and its account check; `cross` is the error code of the latter.
unfoldable pub with_conversation :
    World → OutboxItem → String → String → Database → (Conversation → Dispatched) → Dispatched
unfolding or_fail fail_before
with_conversation w item token cross db go =
    or_fail w item token "load_conversation" db
      (λ c. if str_eq c.account_id item.account_id then go c else fail_before w item token cross db)
      (get_conversation w.faults.conversation item.conversation_id db)

abbrev pub attempt_of : World → OutboxItem → String → Attempt
attempt_of w item token = record {
  outbox_id = item.outbox_id;
  lease_token = token;
  attempt_token = w.attempt_token item.outbox_id token;
  connection_generation = w.generation;
  started_at = w.times.mark_now;
}

-- The end of a dispatch whose transport was called with `request` while the database was `db`.
unfoldable pub conclude :
    World
    → OutboxItem
    → String
    → String
    → (World → OutboxItem → String → String → Database → Outcome)
    → Request
    → Database
    → SendResult
    → Dispatched
conclude w item token code finish request db (sent remote) =
    let (db', r) = finish w item token remote db in
    record { db = db'; calls = (request, db) ∷ []; result = r }
conclude w item token code finish request db (failed e) =
    let (db', r) = record_send_error w item token e code db in
    record { db = db'; calls = (request, db) ∷ []; result = r }

-- A failed MarkTransportCalled: the lease is released only if the context was canceled.
unfoldable pub unmarked : World → OutboxItem → String → Error → Database → Dispatched
unfolding uncalled
unmarked w item token e db =
    if w.canceled_at_mark
    then uncalled ((release_unavailable_lease w item token db).0, err canceled)
    else uncalled (db, err e)

unfoldable pub after_mark :
    World
    → OutboxItem
    → String
    → String
    → (World → OutboxItem → String → String → Database → Outcome)
    → Request
    → Outcome
    → Dispatched
unfolding unmarked conclude
after_mark w item token code finish request (db, err e) = unmarked w item token e db
after_mark w item token code finish request (db, ok _) =
    conclude w item token code finish request db (w.send request)

-- The durable marker, then the transport call.
unfoldable pub mark_and_call :
    World
    → OutboxItem
    → String
    → String
    → (World → OutboxItem → String → String → Database → Outcome)
    → Request
    → Database
    → Dispatched
unfolding after_mark unless_fault
mark_and_call w item token code finish request db = after_mark w item token code finish request (
    unless_fault w.faults.mark db
      (mark_transport_called (attempt_of w item token) w.times.mark_now db))
