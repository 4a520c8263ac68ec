-- ===== src/Outbox/Phases.antt =====
-- An abstract view of one outbox row: the eight persisted states, with `dispatching` split in two at
-- the transport-call marker, and the moves between them. outbox.go has no such table; the operations
-- are shown to follow it.
pub mod Updates
pub mod Evolution
pub mod Operations
pub mod Transactions
pub mod Enqueueing
use om_tui.Common.{ℕ, ◌+◌, ◌≡◌, refl, Bool, true, false, Option, none, some, List, [], ◌∷◌, arith}
use om_tui.Outbox.Types.{
  OutboxState, queued, dispatching, not_dispatched, uncertain, confirmed, store_failed, rejected,
  canceled, OutboxItem,
}

pub data Phase : Type 0 where
  waiting leased called retrying unknown done unstored refused withdrawn : Phase

abbrev pub phase : OutboxState → Option ℕ → Phase
phase queued _ = waiting
phase dispatching none = leased
phase dispatching (some _) = called
phase not_dispatched _ = retrying
phase uncertain _ = unknown
phase confirmed _ = done
phase store_failed _ = unstored
phase rejected _ = refused
phase canceled _ = withdrawn

abbrev pub phase_of : OutboxItem → Phase
phase_of r = phase r.state r.transport_called_at_ms

-- `Moves p n q`: a row may go from phase p to phase q, at the cost of n transport calls. The one way
-- from `called` back to work is `Disproof`.
pub data Moves : Phase → ℕ → Phase → Type 0 where
  claim_new : Moves waiting 0 leased
  claim_retry : Moves retrying 0 leased
  call : Moves leased 1 called
  release : Moves leased 0 waiting
  fail : Moves leased 0 retrying
  reschedule : Moves retrying 0 retrying
  withdraw_new : Moves waiting 0 withdrawn
  withdraw_retry : Moves retrying 0 withdrawn
  lose : Moves called 0 unknown
  refuse_early : Moves leased 0 refused
  refuse_called : Moves called 0 refused
  finish : Moves called 0 done
  keep_unstored : Moves called 0 unstored
  settle_unknown : Moves unknown 0 done
  settle_unstored : Moves unstored 0 done
  enrich_done : Moves done 0 done

pub ruleset moves = (
  claim_new, claim_retry, call, release, fail, reschedule, withdraw_new, withdraw_retry, lose,
  refuse_early, refuse_called, finish, keep_unstored, settle_unknown, settle_unstored, enrich_done,
)

-- The columns that identify an intent, the stable request ID among them.
pub record SameIntent (r s : OutboxItem) : Type 0 where
  pub same_id : s.outbox_id ≡ r.outbox_id
  pub same_account : s.account_id ≡ r.account_id
  pub same_conversation : s.conversation_id ≡ r.conversation_id
  pub same_kind : s.kind ≡ r.kind
  pub same_key : s.idempotency_key ≡ r.idempotency_key
  pub same_payload : s.payload_hash ≡ r.payload_hash
  pub same_operation : s.operation ≡ r.operation
  pub same_message : s.local_message_id ≡ r.local_message_id
  pub same_request : s.transport_request_id ≡ r.transport_request_id
  pub same_predecessor : s.send_again_of_outbox_id ≡ r.send_again_of_outbox_id
  pub same_schedule : s.scheduled_for_ms ≡ r.scheduled_for_ms

-- One update of a row along the diagram.
pub record Change (r s : OutboxItem) : Type 0 where
  pub intent : SameIntent r s
  pub calls : ℕ
  pub move : Moves (phase_of r) calls (phase_of s)
  pub counted : s.attempt_count ≡ r.attempt_count + calls

-- A transport result that proves that nothing was sent.
pub record Disproof (r s : OutboxItem) : Type 0 where
  pub intent : SameIntent r s
  pub before : phase_of r ≡ called
  pub after : phase_of s ≡ retrying
  pub counted : s.attempt_count ≡ r.attempt_count

pub data Chain (r : OutboxItem) : OutboxItem → Type 0 where
  here : Chain r r
  next : {s t : OutboxItem} → Chain r s → Change s t → Chain r t

-- The rows of the second table are those of the first, each related by R, and then new ones.
abbrev pub Evolves : (OutboxItem → OutboxItem → Type 0) → List OutboxItem → List OutboxItem → Type 0
Evolves R [] ys = Unit
Evolves R (x ∷ xs) [] = ⊥
Evolves R (x ∷ xs) (y ∷ ys) = R x y × Evolves R xs ys
