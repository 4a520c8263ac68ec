-- ===== src/Outbox/Phases/Transactions.antt =====
-- The transactions of several statements, LeaseDue, RecoverExpiredLeases, Confirm and
-- ReconcileConfirm, move every row along the diagram.
pub mod Reconciling
use om_tui.Common.{
  ◌||◌, not, bad_argument, ◌>>=◌, if◌then◌else◌, opt_is, ℕ, ◌+◌, ◌≡◌, refl, subst, inl, inr, Bool,
  true, List, [], ◌∷◌, Result, ok, err, ◌>>=◌, arith, Option, none, some, String, if_elim,
  Result-cases, is_blank, ◌==◌, bind-eq-ok, Option-cases,
}
use om_tui.Outbox.Types.{
  OutboxItem, Database, LeaseRequest, RecoveredLeases, Confirmation, ReconcileRequest, now_ms,
  unix_milli, noop,
}
use om_tui.Outbox.Tables.{exec_update, find_row, require_lease_mutation}
use om_tui.Outbox.Leasing.{
  claim_exactly, claim, claim_all, candidates, lease_times, lease_due, recover_rows,
  recover_expired_leases,
}
use om_tui.Outbox.Confirming.{confirm_row, confirm, confirm_tx, commit, result_of, repoint_row}
use om_tui.Outbox.Confirming.Reconciling.{
  reconcile_found, settled_rows, enriched_rows, reconcilable, set_reconciled, enrichable,
  set_enriched, is_unsettled, is_confirmed, still_bound, Reconciled, settle, settle_enriched,
  reconcile_confirm, reconcile_row, confirm_unsettled, enrich, repoint_reconciled,
}
use om_tui.Outbox.Transitions.{Outcome}
use om_tui.Outbox.Phases.{Evolves, Chain, here}
use om_tui.Outbox.Phases.Updates.{
  set_leased-Change, set_recovered-Change, set_lost-Change, set_confirmed_as-Change,
  set_reconciled-Change, set_enriched-Change,
}
use om_tui.Outbox.Phases.Evolution.{
  Chain-one, Chain-trans, Evolves-refl, Evolves-trans, Evolves-exec_update,
}
use om_tui.Outbox.Phases.Operations.{Moved, unmoved}

rows_trans :
    (xs ys zs : List OutboxItem) → Evolves Chain xs ys → Evolves Chain ys zs → Evolves Chain xs zs
rows_trans = Evolves-trans Chain (λ r s t c d. Chain-trans c d)

pub updated :
    (p : OutboxItem → Bool) (f : OutboxItem → OutboxItem)
    → ((r : OutboxItem) → p r ≡ true → Chain r (f r))
    → (rows rows' : List OutboxItem) (n : ℕ) → exec_update p f rows ≡ ok (rows', n)
    → Evolves Chain rows rows'
updated p f each = Evolves-exec_update Chain (λ r. here) p f each

claim_exactly-rows :
    (n : ℕ) (id : String) (rows : List OutboxItem) (lease : OutboxItem) (rows' : List OutboxItem)
    → claim_exactly n id rows ≡ ok (lease, rows')
    → rows ≡ rows'
unfolding claim_exactly
claim_exactly-rows n id rows lease rows' h = ground arith

claim-Moves :
    (owner : String) (expires ms : ℕ) (id : String) (drawn : Option String) (rows : List OutboxItem)
    (lease : OutboxItem) (rows' : List OutboxItem)
    → claim owner expires ms id drawn rows ≡ ok (lease, rows')
    → Evolves Chain rows rows'
unfolding claim
claim-Moves owner expires ms id none rows lease rows' h = cc
claim-Moves owner expires ms id (some token) rows lease rows' h =
    let ((rows₁, n), e, k) = bind-eq-ok _ _ h in
    subst (Evolves Chain rows) (claim_exactly-rows n id rows₁ lease rows' k) (
      updated _ _
        (λ r d. Chain-one (set_leased-Change owner token expires ms r (ground (arith, d)))) rows
        rows₁ n e)

claim_all-Moves :
    (draw : ℕ → Option String) (owner : String) (expires ms i : ℕ) (cs rows : List OutboxItem)
    (leases rows' : List OutboxItem)
    → claim_all draw owner expires ms i cs rows ≡ ok (leases, rows')
    → Evolves Chain rows rows'
unfolding claim_all
claim_all-Moves draw owner expires ms i [] rows leases rows' h =
    subst (Evolves Chain rows) (ground (arith, h)) (Evolves-refl Chain (λ r. here) rows)
claim_all-Moves draw owner expires ms i (c ∷ cs) rows leases rows' h =
    let ((lease, rows₁), e, k) = bind-eq-ok _ _ h in
    let ((rest, rows₂), e', k') = bind-eq-ok _ _ k in
    subst (Evolves Chain rows) (ground (arith, k')) (
      rows_trans rows rows₁ rows₂
        (claim-Moves owner expires ms c.outbox_id (draw i) rows lease rows₁ e)
        (claim_all-Moves draw owner expires ms (i + 1) cs rows₁ rest rows₂ e'))

pub lease_due-Moved :
    (draw : ℕ → Option String) (req : LeaseRequest) (db : Database)
    → Moved db (lease_due draw req db).0
unfolding lease_due
lease_due-Moved draw req db = elim (Result-cases (lease_times req)) [
  | inr (x, e) ↦ rw (e, lease_due) (unmoved db)
  | inl ((ms, expires), e) ↦
      elim (Result-cases
        (claim_all draw req.owner expires ms 0 (candidates ms req.limit db.outbox) db.outbox)) [
          | inr (x, e') ↦ rw (e, e', lease_due) (unmoved db)
          | inl ((leases, rows), e') ↦
              rw (e, e', lease_due)
                (claim_all-Moves draw req.owner expires ms 0 _ db.outbox leases rows e')
        ]
]

recover_rows-Moves :
    (ms : ℕ) (rows rows' : List OutboxItem) {c : RecoveredLeases}
    → recover_rows ms rows ≡ ok (rows', c)
    → Evolves Chain rows rows'
unfolding recover_rows
recover_rows-Moves ms rows rows' h =
    let ((rows₁, n), e, k) = bind-eq-ok _ _ h in
    let ((rows₂, m), e', k') = bind-eq-ok _ _ k in
    subst (Evolves Chain rows) (ground (arith, k')) (
      rows_trans rows rows₁ rows₂
        (updated _ _ (λ r d. Chain-one (set_recovered-Change ms r d)) rows rows₁ n e)
        (updated _ _ (λ r d. Chain-one (set_lost-Change ms r d)) rows₁ rows₂ m e'))

pub recover_expired_leases-Moved :
    (now : ℕ) (db : Database) → Moved db (recover_expired_leases now db).0
unfolding recover_expired_leases
recover_expired_leases-Moved now db =
    if_elim (λ (o : Database × Result RecoveredLeases). Moved db o.0) (unix_milli now == 0)
      (unmoved db)
      (elim (Result-cases (recover_rows (unix_milli now) db.outbox)) [
        | inr (x, e) ↦ rw e (unmoved db)
        | inl ((rows, c), e) ↦ rw e (recover_rows-Moves (unix_milli now) db.outbox rows e)
      ])

repoint_row-outbox :
    (result : String) (now : ℕ) (r : OutboxItem) (db db' : Database)
    → repoint_row result now r db ≡ ok db'
    → db.outbox ≡ db'.outbox
unfolding repoint_row
repoint_row-outbox result now r db db' h = ground arith

pub repoint_reconciled-outbox :
    (req : ReconcileRequest) (r : OutboxItem) (now : ℕ) (db db' : Database)
    → repoint_reconciled req r now db ≡ ok db'
    → db.outbox ≡ db'.outbox
unfolding repoint_reconciled
repoint_reconciled-outbox req r now db db' h = ground arith

confirm_row-outbox :
    (id result : String) (now : ℕ) (db : Database) (rows : List OutboxItem) (db' : Database)
    → confirm_row id result now db rows ≡ ok db'
    → rows ≡ db'.outbox
unfolding confirm_row
confirm_row-outbox id result now db rows db' h = elim (Option-cases (find_row id rows)) [
  | inl gone ↦ absurd (ground (arith, gone))
  | inr (r, found) ↦
      repoint_row-outbox result now r (record db { outbox = rows }) db'
        (rw (found, confirm_row) at h)
]

confirm_tx-Moves :
    (id token result : String) (ms now : ℕ) (db db' : Database)
    → confirm_tx id token result ms now db ≡ ok db'
    → Moved db db'
unfolding confirm_tx
confirm_tx-Moves id token result ms now db db' h =
    let ((rows, n), e, k) = bind-eq-ok _ _ h in
    let (_, _, k') =
      bind-eq-ok (require_lease_mutation id n rows) (λ _. confirm_row id result now db rows) k in
    subst (Evolves Chain db.outbox) (confirm_row-outbox id result now db rows db' k') (
      updated _ _ (λ r d. Chain-one (set_confirmed_as-Change id token result ms r d)) db.outbox rows
        n e)

committed-Moves :
    (db : Database) (o : Result Database)
    → ((db' : Database) → o ≡ ok db' → Moved db db')
    → Moved db (commit db o).0
committed-Moves db (ok db') h = h db' refl
committed-Moves db (err e) h = unmoved db

pub confirm-Moved :
    (c : Confirmation) (now repoint_now : ℕ) (db : Database)
    → Moved db (confirm c now repoint_now db).0
unfolding confirm
confirm-Moved c now repoint_now db =
    if_elim (λ (o : Outcome). Moved db o.0) (is_blank (result_of c)) (unmoved db)
      (committed-Moves db _ (λ db' e.
        let (ms, _, k) =
          bind-eq-ok (now_ms now)
            (λ ms. confirm_tx c.outbox_id c.lease_token (result_of c) ms repoint_now db) e in
        confirm_tx-Moves c.outbox_id c.lease_token (result_of c) ms repoint_now db db' k))
