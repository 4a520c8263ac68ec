-- ===== src/Outbox/Phases/Transactions/Reconciling.antt =====
-- ReconcileConfirm moves rows along the diagram.
use om_tui.Common.{
  ◌||◌, not, bad_argument, ◌>>=◌, if◌then◌else◌, opt_is, ℕ, ◌≡◌, refl, subst, Bool, List, Result,
  ok, err, ◌>>=◌, arith, Option, none, some, if_elim, is_blank, bind-eq-ok,
}
use om_tui.Outbox.Types.{OutboxItem, Database, ReconcileRequest, now_ms, noop}
use om_tui.Outbox.Tables.{exec_update}
use om_tui.Outbox.Confirming.Reconciling.{
  reconcile_found, settled_rows, enriched_rows, reconcilable, set_reconciled, enrichable,
  set_enriched, is_unsettled, is_confirmed, still_bound, Reconciled, settle, settle_enriched,
  reconcile_confirm, reconcile_row, confirm_unsettled, enrich,
}
use om_tui.Outbox.Phases.{Evolves, Chain}
use om_tui.Outbox.Phases.Updates.{set_reconciled-Change, set_enriched-Change}
use om_tui.Outbox.Phases.Evolution.{Chain-one}
use om_tui.Outbox.Phases.Operations.{Moved, unmoved}
use om_tui.Outbox.Phases.Transactions.{updated, repoint_reconciled-outbox}

settled_rows-outbox :
    (req : ReconcileRequest) (r : OutboxItem) (now : ℕ) (db : Database) (rows : List OutboxItem)
    (n : ℕ) (db' : Database)
    → settled_rows req r now db (rows, n) ≡ ok db'
    → rows ≡ db'.outbox
unfolding settled_rows
settled_rows-outbox req r now db rows n db' h =
    ground (arith, repoint_reconciled-outbox req r now (record db { outbox = rows }) db')

confirm_unsettled-Moves :
    (req : ReconcileRequest) (r : OutboxItem) (now repoint_now : ℕ) (db db' : Database)
    → confirm_unsettled req r now repoint_now db ≡ ok db'
    → Moved db db'
unfolding confirm_unsettled
confirm_unsettled-Moves req r now repoint_now db db' h =
    let (ms, _, k) =
      bind-eq-ok (now_ms now)
        (λ ms.
          exec_update (reconcilable r.outbox_id) (set_reconciled req.result_remote_id ms) db.outbox
          >>= settled_rows req r repoint_now db)
        h in
    let ((rows, n), e, k') = bind-eq-ok _ (settled_rows req r repoint_now db) k in
    subst (Evolves Chain db.outbox) (settled_rows-outbox req r repoint_now db rows n db' k') (
      updated _ _ (λ x d. Chain-one (set_reconciled-Change r.outbox_id req.result_remote_id ms x d))
        db.outbox rows n e)

enriched_rows-outbox :
    (req : ReconcileRequest) (r : OutboxItem) (now : ℕ) (db : Database) (rows : List OutboxItem)
    (n : ℕ) (db' : Database)
    → enriched_rows req r now db (rows, n) ≡ ok (some db')
    → rows ≡ db'.outbox
unfolding enriched_rows
enriched_rows-outbox req r now db rows n db' h =
    ground (arith, repoint_reconciled-outbox req r now (record db { outbox = rows }) db')

enrich-Moves :
    (req : ReconcileRequest) (r : OutboxItem) (now repoint_now : ℕ) (db db' : Database)
    → enrich req r now repoint_now db ≡ ok (some db')
    → Moved db db'
unfolding enrich
enrich-Moves req r now repoint_now db db' h =
    let (ms, _, k) =
      bind-eq-ok (now_ms now)
        (λ ms.
          exec_update (enrichable r.outbox_id) (set_enriched req.result_remote_id ms) db.outbox
          >>= enriched_rows req r repoint_now db)
        h in
    let ((rows, n), e, k') = bind-eq-ok _ (enriched_rows req r repoint_now db) k in
    subst (Evolves Chain db.outbox) (enriched_rows-outbox req r repoint_now db rows n db' k') (
      updated _ _ (λ x d. Chain-one (set_enriched-Change r.outbox_id req.result_remote_id ms x d))
        db.outbox rows n e)

settle-Moves :
    (db : Database) (o : Result Database)
    → ((db' : Database) → o ≡ ok db' → Moved db db')
    → Moved db (settle db o).0
unfolding settle
settle-Moves db (ok db') h = h db' refl
settle-Moves db (err e) h = unmoved db

settle_enriched-Moves :
    (db : Database) (o : Result (Option Database))
    → ((db' : Database) → o ≡ ok (some db') → Moved db db')
    → Moved db (settle_enriched db o).0
unfolding settle_enriched
settle_enriched-Moves db (ok none) h = unmoved db
settle_enriched-Moves db (ok (some db')) h = h db' refl
settle_enriched-Moves db (err e) h = unmoved db

if-Moves :
    (db : Database) (b : Bool) (x y : Reconciled)
    → Moved db x.0
    → Moved db y.0
    → Moved db (if b then x else y).0
if-Moves db b x y = if_elim (λ (o : Reconciled). Moved db o.0) b {x = x} {y = y}

reconcile_row-Moves :
    (req : ReconcileRequest) (r : OutboxItem) (now repoint_now : ℕ) (db : Database)
    → Moved db (reconcile_row req r now repoint_now db).0
unfolding reconcile_row
reconcile_row-Moves req r now repoint_now db =
    if-Moves db (is_unsettled r.state) _ _
      (settle-Moves db _ (confirm_unsettled-Moves req r now repoint_now db))
      (if-Moves db (is_confirmed r.state) _ _
        (if-Moves db
          (opt_is r.result_remote_id req.result_remote_id || not (still_bound req r db.messages))
          (db, ok noop) _ (unmoved db)
          (settle_enriched-Moves db _ (enrich-Moves req r now repoint_now db)))
        (unmoved db))

correlated-Moves :
    (req : ReconcileRequest) (now repoint_now : ℕ) (db : Database) (found : Option OutboxItem)
    → Moved db (reconcile_found req now repoint_now db found).0
unfolding reconcile_found
correlated-Moves req now repoint_now db none = unmoved db
correlated-Moves req now repoint_now db (some r) = reconcile_row-Moves req r now repoint_now db

pub reconcile_confirm-Moved :
    (req : ReconcileRequest) (now repoint_now : ℕ) (db : Database)
    → Moved db (reconcile_confirm req now repoint_now db).0
unfolding reconcile_confirm
reconcile_confirm-Moved req now repoint_now db =
    if-Moves db
      (is_blank req.account_id
        || is_blank req.transport_request_id
        || is_blank req.result_remote_id)
      (db, err bad_argument) _ (unmoved db) (correlated-Moves req now repoint_now db _)
