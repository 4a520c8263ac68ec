-- ===== src/Outbox/Checks/Parts.antt =====
-- The CHECKs of a row, part by part.
use om_tui.Common.{◌≡◌, Bool, true, arith}
use om_tui.Outbox.Types.{OutboxItem}
use om_tui.Outbox.Checks.{row_check, phase_check, times_check, text_check, identity_check}

-- The parts of a row's CHECKs.
unfoldable pub phase_ok : OutboxItem → Bool
phase_ok r =
    phase_check r.state r.lease_owner r.lease_token r.lease_expires_at_ms r.transport_called_at_ms
      r.next_attempt_at_ms

pub row_parts :
    (r : OutboxItem)
    → row_check r ≡ true
    → (phase_ok r ≡ true)
      × (times_check r ≡ true)
      × (identity_check r ≡ true)
      × (text_check r ≡ true)
unfolding row_check phase_ok
row_parts r h = (ground arith, ground arith, ground arith, ground arith)

pub row_join :
    (r : OutboxItem)
    → phase_ok r ≡ true
    → times_check r ≡ true
    → identity_check r ≡ true
    → text_check r ≡ true
    → row_check r ≡ true
unfolding row_check phase_ok
row_join r a b c d = ground arith
