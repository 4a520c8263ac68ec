-- ===== src/Outbox/History.antt =====
-- Any sequence of calls of the repository, by any workers in any interleaving: each call is one
-- transaction or one statement, so a history is a list of them.
pub mod Invariants
pub mod Delivery
pub mod Keys
use om_tui.Common.{
  ℕ, ◌≡◌, refl, Bool, true, false, List, [], ◌∷◌, Option, none, some, String, str_eq, ◌⊎◌, inl, inr,
}
use om_tui.Outbox.Types.{
  NewOutboxItem, OutboxItem, Message, Database, LeaseRequest, Attempt, Confirmation,
  ReconcileRequest,
}
use om_tui.Outbox.Transitions.{
  mark_transport_called, mark_not_dispatched, mark_called_not_dispatched, release_unavailable,
  retry_not_dispatched, cancel, mark_uncertain, reject, confirm_without_result, mark_store_failed,
}
use om_tui.Outbox.Leasing.{lease_due, recover_expired_leases}
use om_tui.Outbox.Confirming.{confirm}
use om_tui.Outbox.Confirming.Reconciling.{reconcile_confirm}
use om_tui.Outbox.Enqueue.Validation.{EnqueueCarriers}
use om_tui.Outbox.Enqueue.{enqueue}
use om_tui.Outbox.Phases.Operations.{
  Moved, Follows, MayDisprove, mark_transport_called-Moved, mark_not_dispatched-Moved,
  release_unavailable-Moved, retry_not_dispatched-Moved, cancel-Moved, mark_uncertain-Moved,
  reject-Moved, confirm_without_result-Moved, mark_store_failed-Moved,
  mark_called_not_dispatched-Follows,
}
use om_tui.Outbox.Phases.Transactions.{lease_due-Moved, recover_expired_leases-Moved, confirm-Moved}
use om_tui.Outbox.Phases.Transactions.Reconciling.{reconcile_confirm-Moved}
use om_tui.Outbox.Idempotency.{enqueue-Moved}

-- The calls that change the database, with the times that their clocks read.
pub data Call : Type 0 where
  enqueues : Bool → NewOutboxItem → Option Message → EnqueueCarriers → ℕ → Call
  leases : (ℕ → Option String) → LeaseRequest → Call
  recovers : ℕ → Call
  marks_called : Attempt → ℕ → Call
  fails : String → String → String → String → String → ℕ → ℕ → Call
  disproves : String → String → String → String → String → ℕ → ℕ → Call
  releases : String → String → ℕ → Call
  retries : String → ℕ → Call
  cancels : String → ℕ → Call
  loses : String → String → String → String → String → ℕ → Call
  rejects : String → String → String → String → String → ℕ → Call
  finishes : String → String → ℕ → Call
  confirms : Confirmation → ℕ → ℕ → Call
  reconciles : ReconcileRequest → ℕ → ℕ → Call
  keeps_unstored : String → String → String → String → ℕ → Call

-- The database after a call, whatever the call returns.
unfoldable pub apply : Call → Database → Database
apply (enqueues first item m c now) db = (enqueue first item m c now db).0
apply (leases draw req) db = (lease_due draw req db).0
apply (recovers now) db = (recover_expired_leases now db).0
apply (marks_called a now) db = (mark_transport_called a now db).0
apply (fails id token class code detail retry_at now) db =
    (mark_not_dispatched id token class code detail retry_at now db).0
apply (disproves id token class code detail retry_at now) db =
    (mark_called_not_dispatched id token class code detail retry_at now db).0
apply (releases id token now) db = (release_unavailable id token now db).0
apply (retries id now) db = (retry_not_dispatched id now db).0
apply (cancels id now) db = (cancel id now db).0
apply (loses id token class code detail now) db =
    (mark_uncertain id token class code detail now db).0
apply (rejects id token class code detail now) db = (reject id token class code detail now db).0
apply (finishes id token now) db = (confirm_without_result id token now db).0
apply (confirms c now repoint_now) db = (confirm c now repoint_now db).0
apply (reconciles req now repoint_now) db = (reconcile_confirm req now repoint_now db).0
apply (keeps_unstored id token result detail now) db =
    (mark_store_failed id token result detail now db).0

unfoldable pub run : List Call → Database → Database
run [] db = db
run (c ∷ cs) db = run cs (apply c db)

-- MarkCalledNotDispatched for the row `id`: the one call that takes a called row back to work.
abbrev pub disproves_row : String → Call → Bool
disproves_row id (disproves id' _ _ _ _ _ _) = str_eq id' id
disproves_row id _ = false

-- What a call does to the rows: moves of the diagram, or the disproof of one row.
pub data Effect (db db' : Database) : Call → Type 0 where
  moved : {c : Call} → Moved db db' → Effect db db' c
  disproved :
      (id token class code detail : String) (retry_at now : ℕ)
      → Follows (MayDisprove id) db db'
      → Effect db db' (disproves id token class code detail retry_at now)

pub apply-Effect : (c : Call) (db : Database) → Effect db (apply c db) c
unfolding apply
apply-Effect (enqueues first item m c now) db = moved (enqueue-Moved first item m c now db)
apply-Effect (leases draw req) db = moved (lease_due-Moved draw req db)
apply-Effect (recovers now) db = moved (recover_expired_leases-Moved now db)
apply-Effect (marks_called a now) db = moved (mark_transport_called-Moved a now db)
apply-Effect (fails id token class code detail retry_at now) db =
    moved (mark_not_dispatched-Moved id token class code detail retry_at now db)
apply-Effect (disproves id token class code detail retry_at now) db =
    disproved id token class code detail retry_at now
      (mark_called_not_dispatched-Follows id token class code detail retry_at now db)
apply-Effect (releases id token now) db = moved (release_unavailable-Moved id token now db)
apply-Effect (retries id now) db = moved (retry_not_dispatched-Moved id now db)
apply-Effect (cancels id now) db = moved (cancel-Moved id now db)
apply-Effect (loses id token class code detail now) db =
    moved (mark_uncertain-Moved id token class code detail now db)
apply-Effect (rejects id token class code detail now) db =
    moved (reject-Moved id token class code detail now db)
apply-Effect (finishes id token now) db = moved (confirm_without_result-Moved id token now db)
apply-Effect (confirms c now repoint_now) db = moved (confirm-Moved c now repoint_now db)
apply-Effect (reconciles req now repoint_now) db =
    moved (reconcile_confirm-Moved req now repoint_now db)
apply-Effect (keeps_unstored id token result detail now) db =
    moved (mark_store_failed-Moved id token result detail now db)
