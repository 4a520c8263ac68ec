-- ===== src/Dispatch/Finalize.antt =====
-- The endings of a dispatch: release, pre-call failure, rejection, the classification of a send error,
-- and the confirmation of a result. The change signal to waiters is left out.
use om_tui.Common.{
  ◌+◌, Bool, true, false, ◌&&◌, none, some, [], String, ok, err, storage_fault, if◌then◌else◌,
  is_blank, str_eq, coalesce,
}
use om_tui.Outbox.Types.{OutboxItem, Database, Confirmation}
use om_tui.Outbox.Transitions.{
  Outcome, mark_not_dispatched, mark_called_not_dispatched, release_unavailable, mark_uncertain,
  reject, confirm_without_result, mark_store_failed,
}
use om_tui.Outbox.Confirming.{confirm}
use om_tui.Bridge.Types.{
  FailureClass, transient, rate_limited, credentials_expired, unpaired, reauth_required,
  upgrade_required, misconfigured, unsupported, unset, unlisted, DispatchCertainty, not_called,
  uncertain_dispatch, OpError,
}
use om_tui.Dispatch.Types.{SendError, World, Dispatched}

-- A database call that the world may make fail without an effect.
unfoldable pub unless_fault : Bool → Database → Outcome → Outcome
unless_fault fault db o = if fault then (db, err storage_fault) else o

-- An outcome without a transport call.
unfoldable pub uncalled : Outcome → Dispatched
uncalled (db, r) = record { db = db; calls = []; result = r }

unfoldable pub release_unavailable_lease : World → OutboxItem → String → Database → Outcome
release_unavailable_lease w item token db =
    unless_fault w.faults.finish db
      (release_unavailable item.outbox_id token w.times.release_now db)

-- markPreCallFailure, at `s.clock.Now().Add(s.retryDelay)`.
unfoldable pub mark_pre_call_failure :
    World → OutboxItem → String → String → String → String → Database → Outcome
mark_pre_call_failure w item token class code cause db = unless_fault w.faults.finish db (
    mark_not_dispatched item.outbox_id token class code cause (w.times.retry_base + w.retry_delay)
      w.times.final_now db)

unfoldable pub reject_pre_call :
    World → OutboxItem → String → String → String → String → Database → Outcome
reject_pre_call w item token class code cause db =
    unless_fault w.faults.finish db
      (reject item.outbox_id token class code cause w.times.final_now db)

unfoldable pub class_name : FailureClass → String
class_name transient = "transient"
class_name rate_limited = "rate_limited"
class_name credentials_expired = "credentials_expired"
class_name unpaired = "unpaired"
class_name reauth_required = "reauth_required"
class_name upgrade_required = "upgrade_required"
class_name misconfigured = "misconfigured"
class_name unsupported = "unsupported"
class_name unset = "unknown"
class_name (unlisted name) = name

unfoldable pub retryable_failure : FailureClass → Bool
retryable_failure transient = true
retryable_failure rate_limited = true
retryable_failure credentials_expired = true
retryable_failure _ = false

unfoldable pub terminal_failure : FailureClass → Bool
terminal_failure unpaired = true
terminal_failure reauth_required = true
terminal_failure upgrade_required = true
terminal_failure misconfigured = true
terminal_failure unsupported = true
terminal_failure _ = false

abbrev pub is_not_called : DispatchCertainty → Bool
is_not_called not_called = true
is_not_called _ = false

abbrev pub is_uncertain : DispatchCertainty → Bool
is_uncertain uncertain_dispatch = true
is_uncertain _ = false

-- `if opErr.Operation != "" { code = opErr.Operation }`.
abbrev pub code_of : OpError → String → String
code_of e default = if str_eq e.operation "" then default else e.operation

-- `if contextError(sendErr) { code = "timeout" }`.
abbrev pub timeout_code : SendError → String → String
timeout_code e code = if e.is_context then "timeout" else code

unfoldable pub mark_send_uncertain :
    World → OutboxItem → String → String → String → SendError → Database → Outcome
mark_send_uncertain w item token class code e db =
    unless_fault w.faults.finish db
      (mark_uncertain item.outbox_id token class code e.text w.times.final_now db)

-- The classified branch of recordSendError.
unfoldable pub record_op_error :
    World → OutboxItem → String → SendError → String → OpError → Database → Outcome
unfolding mark_send_uncertain retryable_failure terminal_failure class_name
record_op_error w item token e default op db =
    if is_uncertain op.dispatch
    then mark_send_uncertain w item token (class_name op.class) (code_of op default) e db
    else if terminal_failure op.class
    then unless_fault w.faults.finish db (
        reject item.outbox_id token (class_name op.class) (code_of op default) e.text
          w.times.final_now db)
    else if retryable_failure op.class && is_not_called op.dispatch
    then unless_fault w.faults.finish db (
        mark_called_not_dispatched item.outbox_id token (class_name op.class) (code_of op default)
          e.text (coalesce op.retry_at (w.times.retry_base + w.retry_delay)) w.times.final_now db)
    else mark_send_uncertain w item token (class_name op.class)
        (timeout_code e (code_of op default)) e db

-- recordSendError.
unfoldable pub record_send_error :
    World → OutboxItem → String → SendError → String → Database → Outcome
unfolding record_op_error mark_send_uncertain
record_send_error w item token e default db = elim e.op [
  | none ↦ mark_send_uncertain w item token "unknown" (timeout_code e default) e db
  | some op ↦ record_op_error w item token e default op db
]

-- MarkStoreFailed after a failed Confirm; its own failure is returned with the first.
unfoldable pub store_after : World → OutboxItem → String → String → Outcome → Outcome
store_after w item token remote (db, ok _) = (db, ok tt)
store_after w item token remote (db, err e) =
    unless_fault w.faults.store db
      (mark_store_failed item.outbox_id token remote (w.error_text e) w.times.store_now db)

abbrev pub confirmation_of : OutboxItem → String → String → Confirmation
confirmation_of item token remote = record {
  outbox_id = item.outbox_id;
  lease_token = token;
  result_remote_id = remote;
  transport_result_id = "";
}

unfoldable pub confirm_result : World → OutboxItem → String → String → Database → Outcome
unfolding store_after unless_fault
confirm_result w item token remote db = store_after w item token remote (
    unless_fault w.faults.confirm db
      (confirm (confirmation_of item token remote) w.times.final_now w.times.repoint_now db))

-- The ending of a text or media send that returned no error.
unfoldable pub finish_message : World → OutboxItem → String → String → Database → Outcome
unfolding confirm_result
finish_message w item token remote db =
    if is_blank remote
    then unless_fault w.faults.finish db (
        mark_uncertain item.outbox_id token "unknown" "missing_remote_message_id"
          "transport returned success without a remote message ID" w.times.final_now db)
    else confirm_result w item token remote db

-- The ending of a reaction: an empty result is a valid confirmation.
unfoldable pub finish_reaction : World → OutboxItem → String → String → Database → Outcome
unfolding confirm_result
finish_reaction w item token remote db =
    if is_blank remote
    then unless_fault w.faults.finish db
        (confirm_without_result item.outbox_id token w.times.final_now db)
    else confirm_result w item token remote db

unfoldable pub finish_read : World → OutboxItem → String → String → Database → Outcome
finish_read w item token remote db =
    unless_fault w.faults.finish db
      (confirm_without_result item.outbox_id token w.times.final_now db)
