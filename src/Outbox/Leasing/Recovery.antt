-- ===== src/Outbox/Leasing/Recovery.antt =====
-- RecoverExpiredLeases as one pass over the rows.
use om_tui.Common.{
  ℕ, ◌≡◌, refl, Bool, true, false, ◌&&◌, List, [], ◌∷◌, any, All, arith, ok, leb, opt_leb, is_none,
  is_some, none, some, if◌then◌else◌, map, ◌==◌, length, filter,
}
use om_tui.Outbox.Types.{
  not_dispatched, uncertain, OutboxItem, Database, is_dispatching, unix_milli,
}
use om_tui.Outbox.Checks.{row_check, times_check, identity_check, text_check}
use om_tui.Outbox.Checks.Parts.{phase_ok, row_parts, row_join}
use om_tui.Outbox.Tables.{update_where, violates, affected, exec_update}
use om_tui.Outbox.Leasing.{
  expired_before_call, expired_after_call, set_recovered, set_lost, recover_rows,
  recover_expired_leases,
}

-- The row's lease is over.
unfoldable pub is_expired : ℕ → OutboxItem → Bool
is_expired ms r = is_dispatching r.state && opt_leb r.lease_expires_at_ms ms

abbrev pub lost_before_call : ℕ → OutboxItem → Bool
lost_before_call ms r = is_expired ms r && is_none r.transport_called_at_ms

abbrev pub lost_after_call : ℕ → OutboxItem → Bool
lost_after_call ms r = is_expired ms r && is_some r.transport_called_at_ms

-- What recovery makes of a row: a lease that expired before the transport call goes back to work and is
-- due now, one that expired after it becomes uncertain and is never due. Both lose the lease and the
-- marker; what the row asks for, its attempts and its last error stay.
unfoldable pub recovered : ℕ → OutboxItem → OutboxItem
recovered ms r =
    if is_expired ms r
    then record r {
      state = if is_none r.transport_called_at_ms then not_dispatched else uncertain;
      next_attempt_at_ms = if is_none r.transport_called_at_ms then some ms else none;
      lease_owner = none;
      lease_token = none;
      lease_expires_at_ms = none;
      transport_called_at_ms = none;
      updated_at_ms = ms;
    }
    else r

-- The stored row passes the CHECKs, and the clock is not before its creation.
abbrev pub IsReady : ℕ → OutboxItem → Type 0
IsReady ms r = (row_check r ≡ true) × (leb r.created_at_ms ms ≡ true)

module _ (ms : ℕ) (positive : (ms == 0) ≡ false) where
  recovered_checks : (r : OutboxItem) → IsReady ms r → row_check (set_recovered ms r) ≡ true
  unfolding set_recovered times_check identity_check text_check phase_ok
  recovered_checks r h =
      let (_, t, i, x) = row_parts r h.0 in
      row_join (set_recovered ms r) refl (ground (arith, h.1, t)) i (ground (arith, x))

  lost_checks : (r : OutboxItem) → IsReady ms r → row_check (set_lost ms r) ≡ true
  unfolding set_lost times_check identity_check text_check phase_ok
  lost_checks r h =
      let (_, t, i, x) = row_parts r h.0 in
      row_join (set_lost ms r) refl (ground (arith, h.1, t)) i (ground (arith, x))

  first_holds :
      (rows : List OutboxItem)
      → All (IsReady ms) rows
      → violates (expired_before_call ms) (set_recovered ms) rows ≡ false
  unfolding violates
  first_holds [] h = refl
  first_holds (r ∷ rows) h = ground (arith, recovered_checks r h.0, first_holds rows h.1)

  then_holds :
      (rows : List OutboxItem)
      → All (IsReady ms) rows
      → violates
          (expired_after_call ms)
          (set_lost ms)
          (update_where (expired_before_call ms) (set_recovered ms) rows)
        ≡ false
  unfolding violates update_where expired_before_call expired_after_call set_recovered
  then_holds [] h = refl
  then_holds (r ∷ rows) h = ground (arith, lost_checks r h.0, then_holds rows h.1)

  both :
      (rows : List OutboxItem)
      → update_where
          (expired_after_call ms)
          (set_lost ms)
          (update_where (expired_before_call ms) (set_recovered ms) rows)
        ≡ map (recovered ms) rows
  unfolding update_where expired_before_call expired_after_call set_recovered set_lost recovered
      is_expired
  both [] = refl
  both (r ∷ rows) = ground (arith, both rows)

  recovered_count :
      (rows : List OutboxItem)
      → affected (expired_before_call ms) rows ≡ length (filter (lost_before_call ms) rows)
  unfolding affected expired_before_call is_expired
  recovered_count [] = refl
  recovered_count (r ∷ rows) = ground (arith, recovered_count rows)

  lost_count :
      (rows : List OutboxItem)
      → affected
          (expired_after_call ms)
          (update_where (expired_before_call ms) (set_recovered ms) rows)
        ≡ length (filter (lost_after_call ms) rows)
  unfolding affected update_where expired_before_call expired_after_call set_recovered is_expired
  lost_count [] = refl
  lost_count (r ∷ rows) = ground (arith, lost_count rows)

  recover_rows-map :
      (rows : List OutboxItem)
      → All (IsReady ms) rows
      → recover_rows ms rows
        ≡ ok (
          map (recovered ms) rows,
          record {
            not_dispatched = length (filter (lost_before_call ms) rows);
            uncertain = length (filter (lost_after_call ms) rows);
          },
        )
  unfolding recover_rows exec_update
  recover_rows-map rows h = ground (
    arith,
    first_holds rows h,
    then_holds rows h,
    both rows,
    recovered_count rows,
    lost_count rows,
  )

  none_expired : (rows : List OutboxItem) → any (is_expired ms) (map (recovered ms) rows) ≡ false
  unfolding is_expired recovered
  none_expired [] = refl
  none_expired (r ∷ rows) = ground (arith, none_expired rows)

-- On stored rows that pass the CHECKs, with a clock that is after the epoch and not before any row's
-- creation, RecoverExpiredLeases succeeds. It changes exactly the rows whose lease is over: to
-- not_dispatched, due now, where the transport was not called, and to uncertain, with no next attempt,
-- where it was; either way the lease and the marker are gone, the update time is the clock, and the
-- row's other columns stay. It counts both, and leaves no lease that is over.
pub recover_expired_leases-map :
    (now : ℕ) (db : Database)
    → (unix_milli now == 0) ≡ false
    → All (IsReady (unix_milli now)) db.outbox
    → (recover_expired_leases now db ≡ (
      record db { outbox = map (recovered (unix_milli now)) db.outbox },
      ok (record {
        not_dispatched = length (filter (lost_before_call (unix_milli now)) db.outbox);
        uncertain = length (filter (lost_after_call (unix_milli now)) db.outbox);
      }),
    ))
      × (any (is_expired (unix_milli now)) (recover_expired_leases now db).0.outbox ≡ false)
unfolding recover_expired_leases
recover_expired_leases-map now db n h =
    let m = recover_rows-map (unix_milli now) n db.outbox h in
    let z = none_expired (unix_milli now) n db.outbox in (ground (arith, m), ground (arith, m, z))
