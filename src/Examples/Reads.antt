-- ===== src/Examples/Reads.antt =====
-- Reads of a small outbox.
use om_tui.Common.{ℕ, ◌≡◌, ◌+◌, ◌≤◌, refl, false, [], ◌∷◌, List, str_eq, sql_blank, some, arith}
use om_tui.Outbox.Types.{OutboxItem}
use om_tui.Outbox.Leasing.{
  due, recover_expired_leases, recover_rows, expired_before_call, expired_after_call, set_lost,
  set_recovered,
}
use om_tui.Outbox.Phases.{phase_of}
use om_tui.Outbox.History.{Call, recovers, cancels, run}
use om_tui.Outbox.Tables.{find_row, exec_update, violates, update_where, affected}
use om_tui.Outbox.Checks.{row_check, times_check, identity_check, text_check}
use om_tui.Outbox.Queries.{earliest_due}
use om_tui.Outbox.Queries.Schedule.{next_poll_delay, next_poll_delay-wakes}
use om_tui.Outbox.Queries.Carrying.{carries, reports, is_unsettled, list_carryable-unspent}
use om_tui.Examples.Rows.{queued_row, called_row, confirmed_row, db_of}

abbrev delay : ℕ
delay =
    next_poll_delay 250 1000 false 2000000 (earliest_due (db_of (confirmed_row ∷ queued_row ∷ [])))

next_poll_delay-wakes_example : (250 ≤ delay) × (delay ≤ 1000) × (2000000 + delay ≤ 5000000)
unfolding due
next_poll_delay-wakes_example =
    next_poll_delay-wakes 250 1000 2000000 5000000 (db_of (confirmed_row ∷ queued_row ∷ []))
      (omega arith) (omega arith) refl

-- The lease of a called row expires, and a recovery and a cancellation follow.
abbrev lost : List Call
lost = recovers 200000000 ∷ cancels "o1" 200000000 ∷ []

list_carryable-unspent_example :
    (s : OutboxItem) × (find_row "o1" (run lost (db_of (called_row ∷ []))).outbox ≡ some s)
    × (carries "o1" (run lost (db_of (called_row ∷ []))) ≡ false)
    × (reports "o1" (run lost (db_of (called_row ∷ []))) ≡ is_unsettled (phase_of s))
unfolding find_row str_eq recover_expired_leases recover_rows exec_update violates update_where
    affected expired_before_call expired_after_call set_lost set_recovered row_check times_check
    identity_check text_check sql_blank run om_tui.Outbox.History.apply
    om_tui.Outbox.Transitions.cancel om_tui.Outbox.Types.now_ms om_tui.Outbox.Tables.exec_state
    om_tui.Outbox.Tables.exec_checked om_tui.Outbox.Transitions.cancelable
list_carryable-unspent_example =
    list_carryable-unspent "o1" lost (db_of (called_row ∷ [])) called_row (refl, tt) refl refl refl
