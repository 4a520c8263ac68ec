-- ===== src/Outbox/Transitions.antt =====
-- The single-statement operations of OutboxRepository: each WHERE clause is a test on a row, each SET
-- list a record update. `now` is what the repository's clock reads.
use om_tui.Common.{
  ℕ, ◌+◌, Bool, true, false, ◌&&◌, Option, none, some, String, Result, ok, err, bad_argument, ◌==◌,
  if◌then◌else◌, is_none, is_some, opt_is, opt_gtb, str_eq, is_blank,
}
use om_tui.Outbox.Types.{
  OutboxState, queued, not_dispatched, uncertain, confirmed, store_failed, rejected, canceled,
  OutboxItem, Database, Attempt, unix_milli, now_ms, is_dispatching, is_pending,
}
use om_tui.Outbox.Tables.{exec_leased, exec_state}

-- nullableOutboxText.
abbrev pub nullable_outbox_text : String → Option String
nullable_outbox_text s = if str_eq s "" then none else some s

abbrev pub Outcome : Type 0
Outcome = Database × Result (Unit {0})

-- A statement that stands after `r.nowMS`.
abbrev pub with_now : ℕ → Database → (ℕ → Outcome) → Outcome
with_now now db k = elim (now_ms now) [ ok ms ↦ k ms | err e ↦ (db, err e) ]

-- `outbox_id = ? AND state = 'dispatching' AND lease_token = ?`.
unfoldable pub owns : String → String → OutboxItem → Bool
owns id token r = str_eq r.outbox_id id && is_dispatching r.state && opt_is r.lease_token token

-- The columns that every end of a lease clears.
abbrev pub clear_lease : OutboxItem → OutboxItem
clear_lease r = record r {
  lease_owner = none;
  lease_token = none;
  lease_expires_at_ms = none;
  transport_called_at_ms = none;
}

abbrev pub with_error : String → String → String → OutboxItem → OutboxItem
with_error class code detail r = record r {
  error_class = nullable_outbox_text class;
  error_code = nullable_outbox_text code;
  error_detail = nullable_outbox_text detail;
}

abbrev pub without_error : OutboxItem → OutboxItem
without_error r = record r { error_class = none; error_code = none; error_detail = none }

-- MarkTransportCalled.
unfoldable pub callable : Attempt → ℕ → OutboxItem → Bool
callable a ms r =
    owns a.outbox_id a.lease_token r
    && opt_gtb r.lease_expires_at_ms ms
    && is_none r.transport_called_at_ms

unfoldable pub set_called : ℕ → OutboxItem → OutboxItem
set_called ms r = record r {
  transport_called_at_ms = some ms;
  attempt_count = r.attempt_count + 1;
  updated_at_ms = ms;
}

unfoldable pub mark_transport_called : Attempt → ℕ → Database → Outcome
mark_transport_called a now db =
    if is_blank a.outbox_id
    then (db, err bad_argument)
    else if is_blank a.lease_token
    then (db, err bad_argument)
    else with_now now db (λ ms. exec_leased a.outbox_id (callable a ms) (set_called ms) db)

-- markNotDispatched, for either value of `called`.
unfoldable pub not_dispatchable : String → String → Bool → OutboxItem → Bool
not_dispatchable id token called r =
    owns id token r
    && (if called then is_some r.transport_called_at_ms else is_none r.transport_called_at_ms)

unfoldable pub set_not_dispatched : String → String → String → ℕ → ℕ → OutboxItem → OutboxItem
set_not_dispatched class code detail retry_ms ms r =
    record (with_error class code detail (clear_lease r)) {
      state = not_dispatched;
      next_attempt_at_ms = some retry_ms;
      updated_at_ms = ms;
    }

unfoldable pub mark_not_dispatched_if :
    Bool → String → String → String → String → String → ℕ → ℕ → Database → Outcome
mark_not_dispatched_if called id token class code detail retry_at now db =
    if unix_milli retry_at == 0
    then (db, err bad_argument)
    else with_now now db (λ ms.
      exec_leased id (not_dispatchable id token called)
        (set_not_dispatched class code detail (unix_milli retry_at) ms) db)

unfoldable pub mark_not_dispatched :
    String → String → String → String → String → ℕ → ℕ → Database → Outcome
mark_not_dispatched = mark_not_dispatched_if false

unfoldable pub mark_called_not_dispatched :
    String → String → String → String → String → ℕ → ℕ → Database → Outcome
mark_called_not_dispatched = mark_not_dispatched_if true

-- ReleaseUnavailable.
unfoldable pub releasable : String → String → OutboxItem → Bool
releasable id token r = owns id token r && is_none r.transport_called_at_ms

unfoldable pub set_released : ℕ → OutboxItem → OutboxItem
set_released ms r = record (clear_lease r) {
  state = queued;
  next_attempt_at_ms = none;
  updated_at_ms = ms;
}

unfoldable pub release_unavailable : String → String → ℕ → Database → Outcome
release_unavailable id token now db =
    with_now now db (λ ms. exec_leased id (releasable id token) (set_released ms) db)

-- RetryNotDispatched.
abbrev is_not_dispatched : OutboxState → Bool
is_not_dispatched not_dispatched = true
is_not_dispatched _ = false

unfoldable pub retryable : String → OutboxItem → Bool
retryable id r = str_eq r.outbox_id id && is_not_dispatched r.state

unfoldable pub set_retry : ℕ → OutboxItem → OutboxItem
set_retry ms r = record r { next_attempt_at_ms = some ms; updated_at_ms = ms }

unfoldable pub retry_not_dispatched : String → ℕ → Database → Outcome
retry_not_dispatched id now db =
    with_now now db (λ ms. exec_state id (retryable id) (set_retry ms) db)

-- Cancel.
unfoldable pub cancelable : String → OutboxItem → Bool
cancelable id r = str_eq r.outbox_id id && is_pending r.state

unfoldable pub set_canceled : ℕ → OutboxItem → OutboxItem
set_canceled ms r = record r { state = canceled; next_attempt_at_ms = none; updated_at_ms = ms }

unfoldable pub cancel : String → ℕ → Database → Outcome
cancel id now db = with_now now db (λ ms. exec_state id (cancelable id) (set_canceled ms) db)

-- MarkUncertain, and the test that MarkStoreFailed and both confirmations share with it.
unfoldable pub called_by : String → String → OutboxItem → Bool
called_by id token r = owns id token r && is_some r.transport_called_at_ms

unfoldable pub set_uncertain : String → String → String → ℕ → OutboxItem → OutboxItem
set_uncertain class code detail ms r = record (with_error class code detail (clear_lease r)) {
  state = uncertain;
  next_attempt_at_ms = none;
  updated_at_ms = ms;
}

unfoldable pub mark_uncertain : String → String → String → String → String → ℕ → Database → Outcome
mark_uncertain id token class code detail now db =
    with_now now db
      (λ ms. exec_leased id (called_by id token) (set_uncertain class code detail ms) db)

-- Reject.
unfoldable pub set_rejected : String → String → String → ℕ → OutboxItem → OutboxItem
set_rejected class code detail ms r = record (with_error class code detail (clear_lease r)) {
  state = rejected;
  next_attempt_at_ms = none;
  updated_at_ms = ms;
}

unfoldable pub reject : String → String → String → String → String → ℕ → Database → Outcome
reject id token class code detail now db =
    with_now now db (λ ms. exec_leased id (owns id token) (set_rejected class code detail ms) db)

-- ConfirmWithoutResult.
unfoldable pub set_confirmed : ℕ → OutboxItem → OutboxItem
set_confirmed ms r = record (without_error (clear_lease r)) {
  state = confirmed;
  next_attempt_at_ms = none;
  updated_at_ms = ms;
}

unfoldable pub confirm_without_result : String → String → ℕ → Database → Outcome
confirm_without_result id token now db =
    with_now now db (λ ms. exec_leased id (called_by id token) (set_confirmed ms) db)

-- MarkStoreFailed.
unfoldable pub set_store_failed : String → String → ℕ → OutboxItem → OutboxItem
set_store_failed result detail ms r = record (clear_lease r) {
  state = store_failed;
  result_remote_id = some result;
  error_detail = nullable_outbox_text detail;
  next_attempt_at_ms = none;
  updated_at_ms = ms;
}

unfoldable pub mark_store_failed : String → String → String → String → ℕ → Database → Outcome
mark_store_failed id token result detail now db =
    if is_blank result
    then (db, err bad_argument)
    else with_now now db
        (λ ms. exec_leased id (called_by id token) (set_store_failed result detail ms) db)
