-- ===== src/Outbox/Phases/Operations.antt =====
-- Every operation of the outbox moves every row along the diagram, or leaves it alone; the exception
-- is MarkCalledNotDispatched, which may also disprove a call of the row that it names.
use om_tui.Common.{
  ℕ, ◌≡◌, refl, ◌⊎◌, inl, inr, Bool, true, arith, String, if_elim, Result-cases, is_blank, ◌==◌,
  eq_iff,
}
use om_tui.Outbox.Types.{OutboxItem, Database, Attempt, now_ms, unix_milli}
use om_tui.Outbox.Tables.{exec_leased, exec_state}
use om_tui.Outbox.Transitions.{
  Outcome, with_now, owns, mark_transport_called, mark_not_dispatched_if, not_dispatchable,
  mark_not_dispatched, mark_called_not_dispatched, release_unavailable, retry_not_dispatched,
  cancel, mark_uncertain, reject, confirm_without_result, mark_store_failed,
}
use om_tui.Outbox.Phases.{Evolves, Chain, Disproof, here}
use om_tui.Outbox.Phases.Updates.{
  set_called-Change, set_not_dispatched-Change, set_not_dispatched-Disproof, set_released-Change,
  set_retry-Change, set_canceled-Change, set_uncertain-Change, set_rejected-Change,
  set_confirmed-Change, set_store_failed-Change,
}
use om_tui.Outbox.Phases.Evolution.{Chain-one, Evolves-refl, Evolves-exec_checked}

-- The rows after an operation, related to those before it.
abbrev pub Follows : (OutboxItem → OutboxItem → Type 0) → Database → Database → Type 0
Follows R db db' = Evolves R db.outbox db'.outbox

abbrev pub Moved : Database → Database → Type 0
Moved = Follows Chain

pub unmoved : (db : Database) → Moved db db
unmoved db = Evolves-refl Chain (λ r. here) db.outbox

with_now-Follows :
    (R : OutboxItem → OutboxItem → Type 0) (now : ℕ) (db : Database) (k : ℕ → Outcome)
    → Follows R db db
    → ((ms : ℕ) → Follows R db (k ms).0)
    → Follows R db (with_now now db k).0
with_now-Follows R now db k same each = elim (Result-cases (now_ms now)) [
  | inl (ms, e) ↦ rw (e, with_now) (each ms)
  | inr (x, e) ↦ rw (e, with_now) same
]

module _ (p : OutboxItem → Bool) (f : OutboxItem → OutboxItem)
    (each : (r : OutboxItem) → p r ≡ true → Chain r (f r)) where
  exec_leased-Moved : (id : String) (db : Database) → Moved db (exec_leased id p f db).0
  unfolding exec_leased
  exec_leased-Moved id db = Evolves-exec_checked Chain (λ r. here) p f each _ db

  exec_state-Moved : (id : String) (db : Database) → Moved db (exec_state id p f db).0
  unfolding exec_state
  exec_state-Moved id db = Evolves-exec_checked Chain (λ r. here) p f each _ db

pub mark_transport_called-Moved :
    (a : Attempt) (now : ℕ) (db : Database) → Moved db (mark_transport_called a now db).0
unfolding mark_transport_called
mark_transport_called-Moved a now db =
    if_elim (λ (o : Outcome). Moved db o.0) (is_blank a.outbox_id) (unmoved db)
      (if_elim (λ (o : Outcome). Moved db o.0) (is_blank a.lease_token) (unmoved db)
        (with_now-Follows Chain now db _ (unmoved db) (λ ms.
          exec_leased-Moved _ _ (λ r h. Chain-one (set_called-Change a ms r h)) a.outbox_id db)))

pub mark_not_dispatched-Moved :
    (id token class code detail : String) (retry_at now : ℕ) (db : Database)
    → Moved db (mark_not_dispatched id token class code detail retry_at now db).0
unfolding mark_not_dispatched mark_not_dispatched_if
mark_not_dispatched-Moved id token class code detail retry_at now db =
    if_elim (λ (o : Outcome). Moved db o.0) (unix_milli retry_at == 0) (unmoved db)
      (with_now-Follows Chain now db _ (unmoved db) (λ ms.
        exec_leased-Moved _ _
          (λ r h. Chain-one (set_not_dispatched-Change id token class code detail _ ms r h)) id db))

pub release_unavailable-Moved :
    (id token : String) (now : ℕ) (db : Database) → Moved db (release_unavailable id token now db).0
unfolding release_unavailable
release_unavailable-Moved id token now db =
    with_now-Follows Chain now db _ (unmoved db)
      (λ ms. exec_leased-Moved _ _ (λ r h. Chain-one (set_released-Change id token ms r h)) id db)

pub retry_not_dispatched-Moved :
    (id : String) (now : ℕ) (db : Database) → Moved db (retry_not_dispatched id now db).0
unfolding retry_not_dispatched
retry_not_dispatched-Moved id now db =
    with_now-Follows Chain now db _ (unmoved db)
      (λ ms. exec_state-Moved _ _ (λ r h. Chain-one (set_retry-Change id ms r h)) id db)

pub cancel-Moved : (id : String) (now : ℕ) (db : Database) → Moved db (cancel id now db).0
unfolding cancel
cancel-Moved id now db =
    with_now-Follows Chain now db _ (unmoved db)
      (λ ms. exec_state-Moved _ _ (λ r h. Chain-one (set_canceled-Change id ms r h)) id db)

pub mark_uncertain-Moved :
    (id token class code detail : String) (now : ℕ) (db : Database)
    → Moved db (mark_uncertain id token class code detail now db).0
unfolding mark_uncertain
mark_uncertain-Moved id token class code detail now db =
    with_now-Follows Chain now db _ (unmoved db) (λ ms.
      exec_leased-Moved _ _
        (λ r h. Chain-one (set_uncertain-Change id token class code detail ms r h)) id db)

pub reject-Moved :
    (id token class code detail : String) (now : ℕ) (db : Database)
    → Moved db (reject id token class code detail now db).0
unfolding reject
reject-Moved id token class code detail now db = with_now-Follows Chain now db _ (unmoved db) (λ ms.
    exec_leased-Moved _ _ (λ r h. Chain-one (set_rejected-Change id token class code detail ms r h))
      id db)

pub confirm_without_result-Moved :
    (id token : String) (now : ℕ) (db : Database)
    → Moved db (confirm_without_result id token now db).0
unfolding confirm_without_result
confirm_without_result-Moved id token now db =
    with_now-Follows Chain now db _ (unmoved db)
      (λ ms. exec_leased-Moved _ _ (λ r h. Chain-one (set_confirmed-Change id token ms r h)) id db)

pub mark_store_failed-Moved :
    (id token result detail : String) (now : ℕ) (db : Database)
    → Moved db (mark_store_failed id token result detail now db).0
unfolding mark_store_failed
mark_store_failed-Moved id token result detail now db =
    if_elim (λ (o : Outcome). Moved db o.0) (is_blank result) (unmoved db)
      (with_now-Follows Chain now db _ (unmoved db) (λ ms.
        exec_leased-Moved _ _
          (λ r h. Chain-one (set_store_failed-Change id token result detail ms r h)) id db))

-- What MarkCalledNotDispatched may do to the row of ID `id`, and to no other.
abbrev pub MayDisprove : String → OutboxItem → OutboxItem → Type 0
MayDisprove id r s = (r ≡ s) ⊎ ((r.outbox_id ≡ id) × Disproof r s)

not_dispatchable-id :
    (id token : String) (called : Bool) (r : OutboxItem)
    → not_dispatchable id token called r ≡ true
    → r.outbox_id ≡ id
unfolding not_dispatchable owns
not_dispatchable-id id token called r h = ground (arith, eq_iff r.outbox_id id)

pub mark_called_not_dispatched-Follows :
    (id token class code detail : String) (retry_at now : ℕ) (db : Database)
    → Follows
        (MayDisprove id)
        db
        (mark_called_not_dispatched id token class code detail retry_at now db).0
unfolding mark_called_not_dispatched mark_not_dispatched_if exec_leased
mark_called_not_dispatched-Follows id token class code detail retry_at now db =
    if_elim (λ (o : Outcome). Follows (MayDisprove id) db o.0) (unix_milli retry_at == 0) same
      (with_now-Follows (MayDisprove id) now db _ same (λ ms.
        Evolves-exec_checked (MayDisprove id) (λ r. inl refl) _ _
          (λ r h. inr (
            not_dispatchable-id id token true r h,
            set_not_dispatched-Disproof id token class code detail _ ms r h,
          ))
          _ db))
  where
    same : Follows (MayDisprove id) db db
    same = Evolves-refl (MayDisprove id) (λ r. inl refl) db.outbox
