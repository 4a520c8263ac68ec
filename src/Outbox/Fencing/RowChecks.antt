-- ===== src/Outbox/Fencing/RowChecks.antt =====
-- What a lease holder's statement writes passes the CHECKs of the table.
use om_tui.Common.{ℕ, ◌≡◌, refl, true, false, ◌==◌, leb, arith, sql_blank-is_blank}
use om_tui.Outbox.Types.{OutboxItem, is_dispatching}
use om_tui.Outbox.Checks.Parts.{phase_ok, row_parts, row_join}
use om_tui.Outbox.Checks.{row_check, times_check, text_check, identity_check}
use om_tui.Outbox.Transitions.{
  set_not_dispatched, set_released, set_uncertain, set_rejected, set_confirmed, set_store_failed,
  set_called,
}
use om_tui.Outbox.Fencing.{
  Use, calls, fails, disproves, releases, loses, rejects, finishes, keeps_unstored, is_accepted,
  change,
}

change_times :
    (u : Use) (ms : ℕ) (r : OutboxItem)
    → is_accepted u ≡ true
    → (ms == 0) ≡ false
    → leb r.created_at_ms ms ≡ true
    → times_check r ≡ true
    → times_check (change u ms r) ≡ true
unfolding change times_check set_called set_not_dispatched set_released set_uncertain set_rejected
    set_confirmed set_store_failed
change_times (calls a) ms r k n l c = ground arith
change_times (fails _ _ class code detail at) ms r k n l c = ground arith
change_times (disproves _ _ class code detail at) ms r k n l c = ground arith
change_times (releases _ _) ms r k n l c = ground arith
change_times (loses _ _ class code detail) ms r k n l c = ground arith
change_times (rejects _ _ class code detail) ms r k n l c = ground arith
change_times (finishes _ _) ms r k n l c = ground arith
change_times (keeps_unstored _ _ result detail) ms r k n l c = ground arith

change_phase :
    (u : Use) (ms : ℕ) (r : OutboxItem)
    → is_dispatching r.state ≡ true
    → phase_ok r ≡ true
    → phase_ok (change u ms r) ≡ true
unfolding change phase_ok set_called set_not_dispatched set_released set_uncertain set_rejected
    set_confirmed set_store_failed
change_phase (calls a) ms r d c = ground arith
change_phase (fails _ _ class code detail at) ms r d c = refl
change_phase (disproves _ _ class code detail at) ms r d c = refl
change_phase (releases _ _) ms r d c = refl
change_phase (loses _ _ class code detail) ms r d c = refl
change_phase (rejects _ _ class code detail) ms r d c = refl
change_phase (finishes _ _) ms r d c = refl
change_phase (keeps_unstored _ _ result detail) ms r d c = refl

change_text :
    (u : Use) (ms : ℕ) (r : OutboxItem)
    → is_accepted u ≡ true
    → text_check r ≡ true
    → text_check (change u ms r) ≡ true
unfolding change text_check set_called set_not_dispatched set_released set_uncertain set_rejected
    set_confirmed set_store_failed
change_text (calls a) ms r k c = c
change_text (fails _ _ class code detail at) ms r k c = ground arith
change_text (disproves _ _ class code detail at) ms r k c = ground arith
change_text (releases _ _) ms r k c = ground arith
change_text (loses _ _ class code detail) ms r k c = ground arith
change_text (rejects _ _ class code detail) ms r k c = ground arith
change_text (finishes _ _) ms r k c = ground arith
change_text (keeps_unstored _ _ result detail) ms r k c = ground (arith, sql_blank-is_blank result)

change_identity :
    (u : Use) (ms : ℕ) (r : OutboxItem)
    → identity_check r ≡ true
    → identity_check (change u ms r) ≡ true
unfolding change identity_check set_called set_not_dispatched set_released set_uncertain
    set_rejected set_confirmed set_store_failed
change_identity (calls a) ms r c = c
change_identity (fails _ _ class code detail at) ms r c = c
change_identity (disproves _ _ class code detail at) ms r c = c
change_identity (releases _ _) ms r c = c
change_identity (loses _ _ class code detail) ms r c = c
change_identity (rejects _ _ class code detail) ms r c = c
change_identity (finishes _ _) ms r c = c
change_identity (keeps_unstored _ _ result detail) ms r c = c

-- The changed row passes the CHECKs, unless the clock has gone back past the row's creation.
pub change_checks :
    (u : Use) (ms : ℕ) (r : OutboxItem)
    → is_accepted u ≡ true
    → (ms == 0) ≡ false
    → leb r.created_at_ms ms ≡ true
    → is_dispatching r.state ≡ true
    → row_check r ≡ true
    → row_check (change u ms r) ≡ true
change_checks u ms r k n l d c =
    let (a, b, e, f) = row_parts r c in
    row_join (change u ms r) (change_phase u ms r d a) (change_times u ms r k n l b)
      (change_identity u ms r e) (change_text u ms r k f)
