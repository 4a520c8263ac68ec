-- ===== src/Dispatch/Calls.antt =====
-- The transport calls of one dispatch: at most one, made after its durable marker, with the intent's
-- request ID.
pub mod Kinds
pub mod Repeats
use om_tui.Common.{
  ◌++◌, if◌then◌else◌, str_eq_refl, storage_fault, ℕ, ◌+◌, ◌≡◌, refl, ap, sym, ◌∙◌, Bool, true,
  false, not, ◌&&◌, Option, none, some, List, [], ◌∷◌, String, Result, ok, err, Error, arith, any,
  Bool-cases, Option-cases, inl, inr, is_blank, ◌==◌, str_eq, opt_is-some, opt_is,
}
use om_tui.Outbox.Types.{
  OutboxItem, Database, Conversation, Message, OutboxAttachment, OutboxReaction, OutboxReadReceipt,
  OutboxKind, text, media, reaction, read, other, is_dispatching, unix_milli, now_ms, Attempt,
}
use om_tui.Outbox.Tables.{find_row}
use om_tui.Outbox.Tables.Unique.{HasUniqueIds}
use om_tui.Outbox.Transitions.{Outcome, mark_transport_called, set_called, callable, owns}
use om_tui.Outbox.Fencing.{Use, calls, perform, is_accepted, allowed, change}
use om_tui.Outbox.Fencing.Refusals.{success}
use om_tui.Outbox.Phases.{phase_of, called}
use om_tui.Dispatch.Types
use om_tui.Bridge.Types.{MessageRef}
use om_tui.Dispatch.Types.{
  Acquired, BlobOpen, SendResult, World, Dispatched, Request, unavailable, refused, no_sender,
  leased, opened, missing, broken, sent, failed,
}
use om_tui.Dispatch.Loading.{
  get_conversation, message_for_lease, get_outbox_attachment, get_outbox_reaction,
  get_outbox_read_receipt, target_ref_for_lease, target, no_target, Target,
}
use om_tui.Dispatch.Finalize.{
  release_unavailable_lease, unless_fault, uncalled, record_send_error, finish_message,
  finish_reaction, finish_read,
}
use om_tui.Dispatch.Endings.{
  any-++, run-++, Ended, Ended-call, Ended-refl, proves_uncalled, finish_message-Ended,
  finish_reaction-Ended, finish_read-Ended, record_send_error-Ended,
}
use om_tui.Dispatch.Leases.{
  on_unavailable, on_acquired, or_fail, fail_before, acquire, release_refused, with_conversation,
  mark_and_call, after_mark, unmarked, conclude, attempt_of,
}
use om_tui.Dispatch.Leases.Kinds.{
  on_blob, on_target, with_message, with_attachment, with_blob, with_target, with_reaction,
  with_receipt, dispatch_text_lease, dispatch_media_lease, dispatch_reaction_lease,
  dispatch_read_lease, with_token, text_request, media_request, reaction_request, read_request,
}
use om_tui.Dispatch.Batch.{dispatch_lease, on_kind}
use om_tui.Outbox.History.{Call, run, disproves_row}
use om_tui.Outbox.History.Invariants.{Kept}
use om_tui.Outbox.History.Delivery.{is_spent, called_at_most_once}

-- The request carries the intent's request ID (a read receipt has none).
abbrev pub is_request_of : OutboxItem → Request → Bool
is_request_of item (Types.send_text _ _ _ _ id) = str_eq id item.transport_request_id
is_request_of item (Types.send_media _ _ _ _ _ _ _ _ id) = str_eq id item.transport_request_id
is_request_of item (Types.send_reaction _ _ _ _ _ id) = str_eq id item.transport_request_id
is_request_of item (Types.mark_read _ _ _ _) = true

-- Either no transport call was made, or exactly one was: when it was made, the item's row stood in the
-- database with the transport-call marker and with one attempt more than before the dispatch; the request
-- was the intent's; and unless the result proves that the remote side never saw the call, what followed
-- were repository calls that do not take the row back to work.
pub data CallsOnce (w : World) (item : OutboxItem) (db : Database) (d : Dispatched) : Type 0 where
  no_call : d.calls ≡ [] → CallsOnce w item db d
  one_call :
      (request : Request) (at : Database) (before row : OutboxItem)
      → d.calls ≡ (request, at) ∷ []
      → is_request_of item request ≡ true
      → find_row item.outbox_id db.outbox ≡ some before
      → find_row item.outbox_id at.outbox ≡ some row
      → phase_of row ≡ called
      → row.attempt_count ≡ before.attempt_count + 1
      → (proves_uncalled (w.send request) ≡ false → Ended item.outbox_id at d.db)
      → CallsOnce w item db d

accepted :
    (a : Attempt) (now : ℕ) (db : Database)
    → (mark_transport_called a now db).1 ≡ ok tt
    → (is_accepted (calls a) ≡ true) × ((unix_milli now == 0) ≡ false)
unfolding mark_transport_called now_ms
accepted a now db h = (ground arith, ground arith)

-- What a successful MarkTransportCalled has made durable.
pub mark_transport_called-called :
    (a : Attempt) (now : ℕ) (db : Database)
    → HasUniqueIds db.outbox
    → (mark_transport_called a now db).1 ≡ ok tt
    → (r : OutboxItem) × (find_row a.outbox_id db.outbox ≡ some r)
      × (find_row a.outbox_id (mark_transport_called a now db).0.outbox
          ≡ some (set_called (unix_milli now) r))
      × (phase_of (set_called (unix_milli now) r) ≡ called)
unfolding perform change allowed callable owns set_called
mark_transport_called-called a now db u h =
    let (k, n) = accepted a now db h in
    let (r, f, g, t) = success (calls a) now db u k n h in (r, f, t, ground arith)

-- The facts about the row when the transport was called.
pub record MarkedRow (item : OutboxItem) (db at : Database) : Type 0 where
  pub before : OutboxItem
  pub row : OutboxItem
  pub found : find_row item.outbox_id db.outbox ≡ some before
  pub kept : find_row item.outbox_id at.outbox ≡ some row
  pub marked : phase_of row ≡ called
  pub counted : row.attempt_count ≡ before.attempt_count + 1

module _ (w : World) (item : OutboxItem) (token : String) where
  pub no_call_of : (db : Database) (o : Outcome) → CallsOnce w item db (uncalled o)
  unfolding uncalled
  no_call_of db (db', r) = no_call refl

  fail_before-CallsOnce :
      (code : String) (db : Database) → CallsOnce w item db (fail_before w item token code db)
  unfolding fail_before
  fail_before-CallsOnce code db = no_call_of db _

  release_refused-CallsOnce :
      (db : Database) → CallsOnce w item db (release_refused w item token db)
  unfolding release_refused
  release_refused-CallsOnce db = no_call_of db _

  if-CallsOnce :
      (b : Bool) (db : Database) (x y : Dispatched)
      → CallsOnce w item db x
      → CallsOnce w item db y
      → CallsOnce w item db (if b then x else y)
  if-CallsOnce true db x y h k = h
  if-CallsOnce false db x y h k = k

  on_unavailable-CallsOnce :
      (reject_as : Option String) (db : Database)
      → CallsOnce w item db (on_unavailable w item token reject_as db)
  unfolding on_unavailable
  on_unavailable-CallsOnce none db = release_refused-CallsOnce db
  on_unavailable-CallsOnce (some code) db =
      if-CallsOnce w.supported db _ _ (release_refused-CallsOnce db) (no_call_of db _)

  pub on_acquired-CallsOnce :
      (reject_as : Option String) (db : Database) (go : Dispatched) (a : Acquired)
      → CallsOnce w item db go
      → CallsOnce w item db (on_acquired w item token reject_as db go a)
  unfolding on_acquired
  on_acquired-CallsOnce reject_as db go unavailable h = on_unavailable-CallsOnce reject_as db
  on_acquired-CallsOnce reject_as db go refused h = release_refused-CallsOnce db
  on_acquired-CallsOnce reject_as db go no_sender h = no_call_of db _
  on_acquired-CallsOnce reject_as db go leased h = h

  pub or_fail-CallsOnce :
      {A : Type 0} (code : String) (db : Database) (go : A → Dispatched) (o : Option A)
      → ((a : A) → CallsOnce w item db (go a))
      → CallsOnce w item db (or_fail w item token code db go o)
  unfolding or_fail
  or_fail-CallsOnce code db go none h = fail_before-CallsOnce code db
  or_fail-CallsOnce code db go (some a) h = h a

  pub with_conversation-CallsOnce :
      (cross : String) (db : Database) (go : Conversation → Dispatched)
      → ((c : Conversation) → CallsOnce w item db (go c))
      → CallsOnce w item db (with_conversation w item token cross db go)
  unfolding with_conversation
  with_conversation-CallsOnce cross db go h =
      or_fail-CallsOnce _ db _ (get_conversation w.faults.conversation item.conversation_id db)
        (λ c.
          if-CallsOnce (str_eq c.account_id item.account_id) db _ _ (h c)
            (fail_before-CallsOnce cross db))

  pub on_blob-CallsOnce :
      (db : Database) (go : String → Dispatched) (b : BlobOpen)
      → ((content : String) → CallsOnce w item db (go content))
      → CallsOnce w item db (on_blob w item token db go b)
  unfolding on_blob
  on_blob-CallsOnce db go missing h = no_call_of db _
  on_blob-CallsOnce db go broken h = fail_before-CallsOnce "open_blob" db
  on_blob-CallsOnce db go (opened content) h = h content

  pub on_target-CallsOnce :
      (db : Database) (go : MessageRef → Dispatched) (t : Target)
      → ((ref : MessageRef) → CallsOnce w item db (go ref))
      → CallsOnce w item db (on_target w item token db go t)
  unfolding on_target
  on_target-CallsOnce db go (no_target code) h = fail_before-CallsOnce code db
  on_target-CallsOnce db go (target ref) h = h ref

  module _ (code : String) (finish : World → OutboxItem → String → String → Database → Outcome)
      (ends : (remote : String) (at : Database)
        → Ended item.outbox_id at (finish w item token remote at).0)
      (request : Request) (is_its : is_request_of item request ≡ true) (db : Database) where
    conclude-CallsOnce :
        (at : Database) (result : SendResult)
        → w.send request ≡ result
        → MarkedRow item db at
        → CallsOnce w item db (conclude w item token code finish request at result)
    unfolding conclude
    conclude-CallsOnce at (sent remote) e m =
        one_call request at m.before m.row refl is_its m.found m.kept m.marked m.counted
          (λ _. ends remote at)
    conclude-CallsOnce at (failed x) e m =
        one_call request at m.before m.row refl is_its m.found m.kept m.marked m.counted
          (λ q. record_send_error-Ended item.outbox_id w item token x code at (rw e at q))

    after_mark-CallsOnce :
        (o : Outcome)
        → (o.1 ≡ ok tt → MarkedRow item db o.0)
        → CallsOnce w item db (after_mark w item token code finish request o)
    unfolding after_mark unmarked
    after_mark-CallsOnce (at, err e) m =
        if-CallsOnce w.canceled_at_mark db _ _ (no_call_of db _) (no_call_of db _)
    after_mark-CallsOnce (at, ok tt) m = conclude-CallsOnce at (w.send request) refl (m refl)

    faulted :
        (fault : Bool)
        → HasUniqueIds db.outbox
        → (unless_fault fault db
            (mark_transport_called (attempt_of w item token) w.times.mark_now db)).1
          ≡ ok tt
        → MarkedRow item db
            (unless_fault fault db
              (mark_transport_called (attempt_of w item token) w.times.mark_now db)).0
    unfolding unless_fault set_called
    faulted true u h = cc
    faulted false u h =
        let (r, f, g, p) =
          mark_transport_called-called (attempt_of w item token) w.times.mark_now db u h in
        record {
          before = r;
          row = set_called (unix_milli w.times.mark_now) r;
          found = f;
          kept = g;
          marked = p;
          counted = refl;
        }

    pub mark_and_call-CallsOnce :
        HasUniqueIds db.outbox
        → CallsOnce w item db (mark_and_call w item token code finish request db)
    unfolding mark_and_call
    mark_and_call-CallsOnce u = after_mark-CallsOnce _ (faulted w.faults.mark u)
