-- ===== src/Dispatch/Batch.antt =====
-- DispatchDue, releaseUntouched and reconcileStoreFailedDue: what the worker does with a batch.
use om_tui.Common.{
  ℕ, ◌+◌, Bool, Option, none, some, List, [], ◌∷◌, ◌++◌, String, Result, ok, err, bad_argument,
  canceled, storage_fault, if◌then◌else◌, opt_leb, ◌==◌,
}
use om_tui.Outbox.Types.{
  OutboxKind, text, media, reaction, read, other, OutboxItem, Database, LeaseRequest, unix_milli,
}
use om_tui.Outbox.Transitions.{release_unavailable}
use om_tui.Outbox.Leasing.{lease_due, recover_expired_leases}
use om_tui.Dispatch.Types.{World, Dispatched, Request}
use om_tui.Dispatch.Finalize.{unless_fault, uncalled, release_unavailable_lease}
use om_tui.Dispatch.Leases.Kinds.{
  dispatch_text_lease, dispatch_media_lease, dispatch_reaction_lease, dispatch_read_lease,
  with_token,
}

-- The switch on lease.Kind.
unfoldable pub on_kind : World → OutboxItem → Database → OutboxKind → Dispatched
unfolding uncalled with_token
on_kind w item db text = dispatch_text_lease w item db
on_kind w item db media = dispatch_media_lease w item db
on_kind w item db reaction = dispatch_reaction_lease w item db
on_kind w item db read = dispatch_read_lease w item db
on_kind w item db other =
    with_token item db (λ token. uncalled (release_unavailable_lease w item token db))
      item.lease_token

unfoldable pub dispatch_lease : World → OutboxItem → Database → Dispatched
unfolding on_kind
dispatch_lease w item db = on_kind w item db item.kind

-- What the loop of DispatchDue reads of the world in the round of one lease.
pub record Round : Type 0 where
  -- ctx.Err() at the head of the round.
  pub stopped : Bool
  -- `s.clock.Now()` in the test of the expiry, and the times of the recovery.
  pub now : ℕ
  pub recover_now : ℕ
  pub recover_fault : Bool
  -- The clock and the failure of this lease's release, if the loop ends before it.
  pub untouched_now : ℕ
  pub untouched_fault : Bool
  pub world : World

-- The result of the loop: the database, the transport calls, the number processed, the error.
pub record Batch : Type 0 where
  pub db : Database
  pub calls : List (Request × Database)
  pub processed : ℕ
  pub result : Result (Unit {0})

unfoldable pub release_one : Round → OutboxItem → Database → Database
release_one w item db = elim item.lease_token [
  | none ↦ db
  | some token ↦
      (unless_fault w.untouched_fault db
        (release_unavailable item.outbox_id token w.untouched_now db)).0
]

-- releaseUntouched, without the errors that it joins to the one that ended the loop.
unfoldable pub release_untouched : List (OutboxItem × Round) → Database → Database
unfolding release_one
release_untouched [] db = db
release_untouched ((item, w) ∷ leases) db = release_untouched leases (release_one w item db)

abbrev ended : Database → ℕ → Result (Unit {0}) → Batch
ended db processed result = record { db = db; calls = []; processed = processed; result = result }

-- `break` after the recovery of leases that expired during the loop.
recovered_batch : ℕ → Round → Database → Batch
recovered_batch processed w db =
    if w.recover_fault
    then ended db processed (err storage_fault)
    else let (db', recovered) = recover_expired_leases w.recover_now db in
      elim recovered [ ok _ ↦ ended db' processed (ok tt) | err e ↦ ended db' processed (err e) ]

-- The loop over the leases, each with what the world does in its round.
unfoldable pub dispatch_leases : ℕ → List (OutboxItem × Round) → Database → Batch
unfolding recovered_batch release_untouched
dispatch_leases processed [] db = ended db processed (ok tt)
dispatch_leases processed ((item, w) ∷ leases) db =
    if w.stopped
    then ended (release_untouched ((item, w) ∷ leases) db) processed (err canceled)
    else if opt_leb item.lease_expires_at_ms (unix_milli w.now)
    then recovered_batch processed w db
    else let d = dispatch_lease w.world item db in
      elim d.result [
        | err e ↦ record {
          db = release_untouched leases d.db;
          calls = d.calls;
          processed = processed;
          result = err e;
        }
        | ok _ ↦
            let rest = dispatch_leases (processed + 1) leases d.db in
            record {
              db = rest.db;
              calls = d.calls ++ rest.calls;
              processed = rest.processed;
              result = rest.result;
            }
      ]

-- Each lease with the round that the world plays for it.
unfoldable pub rounds : (ℕ → Round) → ℕ → List OutboxItem → List (OutboxItem × Round)
rounds w i [] = []
rounds w i (item ∷ items) = (item, w i) ∷ rounds w (i + 1) items

-- DispatchDue; the request carries workerOwner, the clock, the lease time and the limit.
unfoldable pub dispatch_due :
    (ℕ → Option String) → (ℕ → Round) → Bool → Bool → LeaseRequest → Database → Batch
unfolding dispatch_leases rounds
dispatch_due draw w lease_fault stopped req db =
    if req.limit == 0
    then ended db 0 (err bad_argument)
    else if lease_fault
    then ended db 0 (err (if stopped then canceled else storage_fault))
    else let (db', leased) = lease_due draw req db in
      elim leased [
        | err e ↦ ended db' 0 (err (if stopped then canceled else e))
        | ok leases ↦ dispatch_leases 0 (rounds w 0 leases) db'
      ]
