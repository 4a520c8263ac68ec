-- ===== src/Examples/Deliveries.antt =====
-- Histories and dispatches on a small outbox.
use om_tui.Common.{
  ◌⊎◌, ◌≡◌, refl, true, false, none, some, [], ◌∷◌, ok, List, String, str_eq, is_blank,
}
use om_tui.Outbox.Types.{OutboxItem, Database, inserted}
use om_tui.Outbox.Tables.{find_row}
use om_tui.Outbox.Phases.{done, retrying}
use om_tui.Bridge.Types.{transient, not_called}
use om_tui.Dispatch.Types.{SendError}
use om_tui.Dispatch.Finalize.{record_send_error}
use om_tui.Dispatch.Verdicts.{Recorded, record_send_error-Recorded}
use om_tui.Outbox.History.{Call, leases, recovers, retries, cancels, run}
use om_tui.Outbox.History.Invariants.{Kept}
use om_tui.Outbox.History.Delivery.{
  is_spent, is_unknown_or_done, stays, called_at_most_once, uncertain_never_retried, verdict_stands,
}
use om_tui.Outbox.Idempotency.{Replayed, Added, enqueue_tx-cases}
use om_tui.Outbox.History.Keys.{OnlyReplays, enqueued_once}
use om_tui.Outbox.Enqueue.Inserts.{new_row}
use om_tui.Outbox.Enqueue.{enqueue, no_carriers}
use om_tui.Dispatch.Batch.{dispatch_lease}
use om_tui.Dispatch.Calls.{CallsOnce}
use om_tui.Dispatch.Calls.Kinds.{dispatch_lease-CallsOnce}
use om_tui.Dispatch.Calls.Repeats.{never_called_again}
use om_tui.Examples.Rows.{
  leased_row, called_row, uncertain_row, confirmed_row, db_of, lease_request, timing_out, request,
  conversation, message,
}
use om_tui.Dispatch.Leases.Kinds.{text_request}
use om_tui.Outbox.Transitions.{set_called, mark_transport_called}

-- A worker recovers, cancels, retries and leases.
abbrev restless : List Call
restless =
    recovers 200000000
    ∷ cancels "o1" 200000000
    ∷ retries "o1" 200000000
    ∷ leases (λ _. some "again") lease_request
    ∷ []

called_at_most_once_example :
    (s : OutboxItem) × (find_row "o1" (run restless (db_of (called_row ∷ []))).outbox ≡ some s)
    × Kept is_spent called_row s
unfolding find_row str_eq
called_at_most_once_example =
    called_at_most_once "o1" restless (db_of (called_row ∷ [])) called_row refl refl refl

uncertain_never_retried_example :
    (s : OutboxItem) × (find_row "o1" (run restless (db_of (uncertain_row ∷ []))).outbox ≡ some s)
    × Kept is_unknown_or_done uncertain_row s
unfolding find_row str_eq
uncertain_never_retried_example =
    uncertain_never_retried "o1" restless (db_of (uncertain_row ∷ [])) uncertain_row refl refl

verdict_stands_example :
    (s : OutboxItem) × (find_row "o1" (run restless (db_of (confirmed_row ∷ []))).outbox ≡ some s)
    × Kept (stays done) confirmed_row s
unfolding find_row str_eq
verdict_stands_example =
    verdict_stands "o1" restless (db_of (confirmed_row ∷ [])) confirmed_row done refl refl

abbrev leased_db : Database
leased_db = db_of (leased_row ∷ [])

dispatch_lease-CallsOnce_example :
    CallsOnce timing_out leased_row leased_db (dispatch_lease timing_out leased_row leased_db)
unfolding str_eq
dispatch_lease-CallsOnce_example =
    dispatch_lease-CallsOnce timing_out leased_row leased_db (refl, tt)

abbrev marked_db : Database
marked_db = db_of (set_called 10 leased_row ∷ [])

never_called_again_example :
    (row s : OutboxItem) × (find_row "o1" marked_db.outbox ≡ some row)
    × (find_row "o1" (run restless (dispatch_lease timing_out leased_row leased_db).db).outbox
        ≡ some s)
    × Kept is_spent row s
unfolding str_eq dispatch_lease om_tui.Dispatch.Leases.Kinds.dispatch_text_lease
    om_tui.Dispatch.Loading.message_for_lease om_tui.Dispatch.Loading.get_conversation
    mark_transport_called is_blank om_tui.Outbox.Types.now_ms om_tui.Outbox.Tables.exec_leased
    om_tui.Outbox.Tables.exec_checked om_tui.Outbox.Tables.exec_update om_tui.Outbox.Tables.violates
    om_tui.Outbox.Transitions.callable om_tui.Outbox.Transitions.owns set_called
    om_tui.Outbox.Checks.row_check om_tui.Outbox.Checks.times_check
    om_tui.Outbox.Checks.identity_check om_tui.Common.sql_blank om_tui.Outbox.Checks.text_check
    om_tui.Outbox.Tables.affected om_tui.Outbox.Tables.update_where
    om_tui.Outbox.Tables.require_lease_mutation text_request
never_called_again_example =
    never_called_again timing_out leased_row leased_db
      (text_request leased_row message conversation) marked_db restless (refl, tt) refl refl refl

enqueued_once_example :
    OnlyReplays request
      (run restless (enqueue true request none no_carriers 10000000 (db_of [])).0)
      (enqueue false request none no_carriers 20000000
        (run restless (enqueue true request none no_carriers 10000000 (db_of [])).0))
unfolding enqueue str_eq is_blank om_tui.Outbox.Types.now_ms om_tui.Outbox.Checks.row_check
    om_tui.Outbox.Checks.times_check om_tui.Outbox.Checks.identity_check om_tui.Common.sql_blank
    om_tui.Outbox.Checks.text_check om_tui.Outbox.Enqueue.Validation.validate_new_outbox_item
    om_tui.Outbox.Enqueue.Validation.validate_outbox_attachment_pair
    om_tui.Outbox.Enqueue.Validation.scheduled_for_milliseconds
    om_tui.Outbox.Enqueue.Inserts.insert_outbox om_tui.Outbox.Enqueue.Inserts.new_row
    om_tui.Outbox.Enqueue.Inserts.insert_outgoing_message
    om_tui.Outbox.Enqueue.Inserts.insert_outbox_attachment
    om_tui.Outbox.Enqueue.Inserts.insert_outbox_reaction
    om_tui.Outbox.Enqueue.Inserts.insert_outbox_read_receipt
    om_tui.Outbox.Enqueue.Cursors.upsert_read_cursor om_tui.Outbox.Enqueue.Inserts.has_key
    om_tui.Outbox.Enqueue.Inserts.same_identity om_tui.Outbox.Enqueue.enqueue_row
    om_tui.Outbox.Enqueue.enqueue_tx om_tui.Outbox.Enqueue.insert_all
enqueued_once_example =
    enqueued_once true false request request none none no_carriers no_carriers 10000000 20000000
      (db_of []) (new_row request 10 10, inserted) restless refl refl refl

abbrev refused_connection : SendError
refused_connection = record {
  op = some (record {
    class = transient;
    operation = "dial";
    fingerprint = "refused";
    retry_at = none;
    dispatch = not_called;
  });
  text = "connection refused";
  is_context = false;
}

record_send_error-Recorded_example : Recorded "o1" retrying (
    record_send_error timing_out called_row "token" refused_connection "send_text"
      (db_of (called_row ∷ [])))
unfolding str_eq find_row om_tui.Outbox.Transitions.owns om_tui.Outbox.Checks.row_check
    om_tui.Outbox.Checks.times_check om_tui.Outbox.Checks.identity_check om_tui.Common.sql_blank
    om_tui.Outbox.Checks.text_check
record_send_error-Recorded_example =
    record_send_error-Recorded timing_out called_row "token" refused_connection "send_text"
      (db_of (called_row ∷ [])) called_row (refl, tt) refl refl refl refl refl refl refl refl

enqueue_tx-cases_example :
    Replayed request
      (db_of [])
      (db_of (new_row request 10 10 ∷ []))
      (new_row request 10 10, inserted)
    ⊎ Added request 10000000
        (db_of [])
        (db_of (new_row request 10 10 ∷ []))
        (new_row request 10 10, inserted)
unfolding str_eq is_blank om_tui.Outbox.Types.now_ms om_tui.Outbox.Checks.row_check
    om_tui.Outbox.Checks.times_check om_tui.Outbox.Checks.identity_check om_tui.Common.sql_blank
    om_tui.Outbox.Checks.text_check om_tui.Outbox.Enqueue.Validation.validate_new_outbox_item
    om_tui.Outbox.Enqueue.Validation.validate_outbox_attachment_pair
    om_tui.Outbox.Enqueue.Validation.scheduled_for_milliseconds
    om_tui.Outbox.Enqueue.Inserts.insert_outbox om_tui.Outbox.Enqueue.Inserts.new_row
    om_tui.Outbox.Enqueue.Inserts.insert_outgoing_message
    om_tui.Outbox.Enqueue.Inserts.insert_outbox_attachment
    om_tui.Outbox.Enqueue.Inserts.insert_outbox_reaction
    om_tui.Outbox.Enqueue.Inserts.insert_outbox_read_receipt
    om_tui.Outbox.Enqueue.Cursors.upsert_read_cursor om_tui.Outbox.Enqueue.Inserts.has_key
    om_tui.Outbox.Enqueue.Inserts.same_identity om_tui.Outbox.Enqueue.enqueue_row
    om_tui.Outbox.Enqueue.enqueue_tx om_tui.Outbox.Enqueue.insert_all
enqueue_tx-cases_example =
    enqueue_tx-cases true request none no_carriers 10000000 (db_of [])
      (db_of (new_row request 10 10 ∷ [])) (new_row request 10 10, inserted) refl
