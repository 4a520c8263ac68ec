-- ===== src/Outbox/Fencing/Refusals.antt =====
-- Fencing by lease tokens: which statements of a lease holder are refused, and which cannot be.
use om_tui.Common.{
  ℕ, ◌≡◌, refl, sym, ◌∙◌, Bool, true, false, ◌&&◌, some, ◌==◌, opt_is, ok, err, lease_lost, arith,
  Option-cases, inl, inr, opt_gtb, is_none, is_some, leb,
}
use om_tui.Outbox.Types.{OutboxItem, Database, is_dispatching, unix_milli}
use om_tui.Outbox.Checks.{row_check}
use om_tui.Outbox.Tables.{find_row}
use om_tui.Outbox.Tables.Unique.{HasUniqueIds, verdict, updated}
use om_tui.Outbox.Fencing.RowChecks.{change_checks}
use om_tui.Outbox.Transitions.{
  owns, set_not_dispatched, set_released, set_uncertain, set_rejected, set_confirmed,
  set_store_failed, callable, not_dispatchable, releasable, called_by,
}
use om_tui.Outbox.Fencing.{
  Use, calls, fails, disproves, releases, loses, rejects, finishes, keeps_unstored, id_of, token_of,
  perform, is_accepted, allowed, change, allowed-owns, perform-PointUpdate,
}

-- On a table with unique IDs, with arguments that are not refused and a clock after the epoch, a
-- statement of a lease holder whose row is no longer dispatching, or holds another token, returns
-- lease_lost and leaves the row as it was.
pub stale_lease_refused :
    (u : Use) (now : ℕ) (db : Database) (r : OutboxItem)
    → HasUniqueIds db.outbox
    → is_accepted u ≡ true
    → (unix_milli now == 0) ≡ false
    → find_row (id_of u) db.outbox ≡ some r
    → is_dispatching r.state && opt_is r.lease_token (token_of u) ≡ false
    → ((perform u now db).1 ≡ err lease_lost)
      × (find_row (id_of u) (perform u now db).0.outbox ≡ some r)
unfolding verdict updated owns
stale_lease_refused u now db r unique h n f stale =
    let point = perform-PointUpdate u now db unique h n in
    let shut : allowed u (unix_milli now) r ≡ false =
      allowed-owns u (unix_milli now) r (ground arith) in
    (ground (arith, point.result, f, shut), ground (arith, point.row, f, shut))

-- Every statement but MarkTransportCalled ends the lease.
abbrev pub ends_lease : Use → Bool
ends_lease (calls _) = false
ends_lease _ = true

change_ends :
    (u : Use) (ms : ℕ) (r : OutboxItem)
    → ends_lease u ≡ true
    → is_dispatching (change u ms r).state ≡ false
unfolding change set_not_dispatched set_released set_uncertain set_rejected set_confirmed
    set_store_failed
change_ends (calls a) ms r h = cc
change_ends (fails _ _ class code detail at) ms r h = refl
change_ends (disproves _ _ class code detail at) ms r h = refl
change_ends (releases _ _) ms r h = refl
change_ends (loses _ _ class code detail) ms r h = refl
change_ends (rejects _ _ class code detail) ms r h = refl
change_ends (finishes _ _) ms r h = refl
change_ends (keeps_unstored _ _ result detail) ms r h = refl

-- What a successful statement says of the row before and after it.
pub success :
    (u : Use) (now : ℕ) (db : Database)
    → HasUniqueIds db.outbox
    → is_accepted u ≡ true
    → (unix_milli now == 0) ≡ false
    → (perform u now db).1 ≡ ok tt
    → (r : OutboxItem) × (find_row (id_of u) db.outbox ≡ some r)
      × (allowed u (unix_milli now) r ≡ true)
      × (find_row (id_of u) (perform u now db).0.outbox ≡ some (change u (unix_milli now) r))
unfolding verdict updated
success u now db unique h n s =
    let point = perform-PointUpdate u now db unique h n in
    elim (Option-cases (find_row (id_of u) db.outbox)) [
      | inl e ↦ absurd (ground (arith, point.result, e, s))
      | inr (r, e) ↦
          (r, e, ground (arith, point.result, e, s), ground (arith, point.row, point.result, e, s))
    ]

-- On a table with unique IDs, with arguments that are not refused and clocks after the epoch, let a
-- statement that ends the lease succeed. The next statement of a lease holder for the same row, with this
-- token or another, returns lease_lost and changes nothing of the row.
pub lease_spent_once :
    (u v : Use) (now later : ℕ) (db : Database)
    → HasUniqueIds db.outbox
    → is_accepted u ≡ true
    → is_accepted v ≡ true
    → (unix_milli now == 0) ≡ false
    → (unix_milli later == 0) ≡ false
    → ends_lease u ≡ true
    → id_of v ≡ id_of u
    → (perform u now db).1 ≡ ok tt
    → ((perform v later (perform u now db).0).1 ≡ err lease_lost)
      × (find_row (id_of u) (perform v later (perform u now db).0).0.outbox
          ≡ find_row (id_of u) (perform u now db).0.outbox)
lease_spent_once u v now later db unique hu hv n m ends same s =
    let point = perform-PointUpdate u now db unique hu n in
    let (r, f, g, a) = success u now db unique hu n s in
    let (lost, kept) =
      stale_lease_refused v later (perform u now db).0 (change u (unix_milli now) r) point.unique hv
        m (rw same a) (ground (arith, change_ends u (unix_milli now) r ends)) in
    (lost, (rw same at kept) ∙ sym a)

-- The marker that the statement asks for, on a lease that is still its holder's.
abbrev pub fits : Use → ℕ → OutboxItem → Bool
fits (calls _) ms r = opt_gtb r.lease_expires_at_ms ms && is_none r.transport_called_at_ms
fits (fails _ _ _ _ _ _) ms r = is_none r.transport_called_at_ms
fits (releases _ _) ms r = is_none r.transport_called_at_ms
fits (rejects _ _ _ _ _) ms r = true
fits _ ms r = is_some r.transport_called_at_ms

fits-allowed :
    (u : Use) (ms : ℕ) (r : OutboxItem)
    → owns (id_of u) (token_of u) r ≡ true
    → fits u ms r ≡ true
    → allowed u ms r ≡ true
unfolding allowed callable not_dispatchable releasable called_by
fits-allowed (calls a) ms r h g = ground arith
fits-allowed (fails _ _ class code detail at) ms r h g = ground arith
fits-allowed (disproves _ _ class code detail at) ms r h g = ground arith
fits-allowed (releases _ _) ms r h g = ground arith
fits-allowed (loses _ _ class code detail) ms r h g = ground arith
fits-allowed (rejects _ _ class code detail) ms r h g = h
fits-allowed (finishes _ _) ms r h g = ground arith
fits-allowed (keeps_unstored _ _ result detail) ms r h g = ground arith

-- On a table with unique IDs, with arguments that are not refused and a clock after the epoch, a holder
-- whose token is on the dispatching row, whose row bears or lacks the marker as the statement asks (and,
-- for the marker itself, has time left), and whose clock is not before the row's creation, succeeds if
-- the stored row passes the CHECKs: the statement returns no error, and the row at the ID is the changed
-- row.
pub holder_succeeds :
    (u : Use) (now : ℕ) (db : Database) (r : OutboxItem)
    → HasUniqueIds db.outbox
    → is_accepted u ≡ true
    → (unix_milli now == 0) ≡ false
    → find_row (id_of u) db.outbox ≡ some r
    → owns (id_of u) (token_of u) r ≡ true
    → fits u (unix_milli now) r ≡ true
    → leb r.created_at_ms (unix_milli now) ≡ true
    → row_check r ≡ true
    → ((perform u now db).1 ≡ ok tt)
      × (find_row (id_of u) (perform u now db).0.outbox ≡ some (change u (unix_milli now) r))
unfolding verdict updated owns
holder_succeeds u now db r unique h n f o g l c =
    let point = perform-PointUpdate u now db unique h n in
    let open_ = fits-allowed u (unix_milli now) r o g in
    let checks = change_checks u (unix_milli now) r h n l (ground arith) c in
    (ground (arith, point.result, f, open_, checks), ground (arith, point.row, f, open_, checks))
