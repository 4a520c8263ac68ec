-- ===== src/Examples/Statements.antt =====
-- Single statements, a recovery, a lease batch and an enqueue on a small outbox.
use mathlib.Core.List.{Perm}
use om_tui.Common.{
  take, filter, ◌≡◌, refl, ◌≤◌, false, some, [], ◌∷◌, ok, err, lease_lost, str_eq, is_blank,
  sql_blank, str_lt, any, map, length, List,
}
use om_tui.Outbox.Types.{OutboxItem, Database}
use om_tui.Outbox.Checks.{row_check, times_check, text_check, identity_check}
use om_tui.Outbox.Tables.{find_row, affected, exec_update, violates, update_where}
use om_tui.Outbox.Tables.Unique.{HasUniqueIds}
use om_tui.Outbox.Tables.Point.{PointUpdate}
use om_tui.Outbox.Transitions.{owns}
use om_tui.Outbox.Fencing.{
  Use, calls, loses, releases, perform, allowed, change, perform-PointUpdate,
}
use om_tui.Outbox.Fencing.Refusals.{stale_lease_refused, lease_spent_once, holder_succeeds}
use om_tui.Outbox.Leasing.{
  recover_expired_leases, lease_due, candidates, lease_times, due, claim_all, claim, set_leased,
  due_before, order_by, insert_by, due_key, claim_exactly, read_back,
}
use om_tui.Outbox.Leasing.Recovery.{
  recovered, is_expired, lost_before_call, lost_after_call, recover_expired_leases-map,
}
use om_tui.Outbox.Leasing.Order.{InOrder, is_due_now}
use om_tui.Outbox.Leasing.Rounds.{leased_as}
use om_tui.Outbox.Leasing.Claims.{AllLeased, lease_due-AllLeased}
use om_tui.Examples.Rows.{
  queued_row, leased_row, called_row, later_row, db_of, attempt, lease_request,
}

abbrev two_rows : List OutboxItem
two_rows = leased_row ∷ later_row ∷ []

perform-PointUpdate_example :
    PointUpdate lease_lost "o1"
      (allowed (calls attempt) 10)
      (change (calls attempt) 10)
      (db_of two_rows)
      (perform (calls attempt) 10000000 (db_of two_rows))
unfolding str_eq is_blank
perform-PointUpdate_example =
    perform-PointUpdate (calls attempt) 10000000 (db_of two_rows) (refl, (refl, tt)) refl refl

stale_lease_refused_example :
    ((perform (releases "o1" "old") 10000000 (db_of two_rows)).1 ≡ err lease_lost)
    × (find_row "o1" (perform (releases "o1" "old") 10000000 (db_of two_rows)).0.outbox
        ≡ some leased_row)
unfolding str_eq find_row
stale_lease_refused_example =
    stale_lease_refused (releases "o1" "old") 10000000 (db_of two_rows) leased_row
      (refl, (refl, tt)) refl refl refl refl

holder_succeeds_example :
    ((perform (calls attempt) 10000000 (db_of two_rows)).1 ≡ ok tt)
    × (find_row "o1" (perform (calls attempt) 10000000 (db_of two_rows)).0.outbox
        ≡ some (change (calls attempt) 10 leased_row))
unfolding str_eq find_row is_blank owns row_check times_check identity_check sql_blank text_check
holder_succeeds_example =
    holder_succeeds (calls attempt) 10000000 (db_of two_rows) leased_row (refl, (refl, tt)) refl
      refl refl refl refl refl refl

abbrev timeout : Use
timeout = loses "o1" "token" "unknown" "timeout" ""

abbrev release : Use
release = releases "o1" "token"

lease_spent_once_example :
    ((perform release 12000000 (perform timeout 10000000 (db_of (called_row ∷ []))).0).1
      ≡ err lease_lost)
    × (find_row "o1"
          (perform release 12000000 (perform timeout 10000000 (db_of (called_row ∷ []))).0).0.outbox
        ≡ find_row "o1" (perform timeout 10000000 (db_of (called_row ∷ []))).0.outbox)
unfolding str_eq find_row owns row_check times_check identity_check sql_blank text_check
lease_spent_once_example =
    lease_spent_once timeout release 10000000 12000000 (db_of (called_row ∷ [])) (refl, tt) refl
      refl refl refl refl refl
      (holder_succeeds timeout 10000000 (db_of (called_row ∷ [])) called_row (refl, tt) refl refl
        refl refl refl refl refl).0

recover_expired_leases-map_example :
    (recover_expired_leases 100000000 (db_of two_rows) ≡ (
      record (db_of two_rows) { outbox = map (recovered 100) two_rows },
      ok (record {
        not_dispatched = length (filter (lost_before_call 100) two_rows);
        uncertain = length (filter (lost_after_call 100) two_rows);
      }),
    ))
    × (any (is_expired 100) (recover_expired_leases 100000000 (db_of two_rows)).0.outbox ≡ false)
unfolding row_check times_check identity_check sql_blank text_check
recover_expired_leases-map_example =
    recover_expired_leases-map 100000000 (db_of two_rows) refl ((refl, refl), ((refl, refl), tt))

abbrev lease_taken : OutboxItem
lease_taken = leased_as "worker" "fresh" 90 10 queued_row

abbrev two_waiting : Database
two_waiting = db_of (queued_row ∷ later_row ∷ [])

lease_due-AllLeased_example :
    (queue : List OutboxItem) × Perm queue (filter (is_due_now 10) two_waiting.outbox)
    × InOrder queue
    × AllLeased
        (λ _. some "fresh")
        "worker"
        90
        10
        two_waiting.outbox
        (lease_due (λ _. some "fresh") lease_request two_waiting).0.outbox
        0
        (take 1 queue)
        (lease_taken ∷ [])
    × (length (lease_taken ∷ []) ≤ 1)
    × HasUniqueIds (lease_due (λ _. some "fresh") lease_request two_waiting).0.outbox
unfolding lease_due str_eq lease_times is_blank claim_all candidates order_by due due_before due_key
    str_lt claim exec_update violates row_check set_leased times_check identity_check sql_blank
    text_check claim_exactly insert_by read_back affected find_row update_where
lease_due-AllLeased_example =
    lease_due-AllLeased (λ _. some "fresh") lease_request two_waiting (lease_taken ∷ [])
      (refl, (refl, tt)) refl
