-- ===== src/Dispatch/Verdicts.antt =====
-- What recordSendError makes of a called row, as a table over the failure's class and certainty.
use om_tui.Common.{
  ℕ, ◌+◌, ◌≡◌, refl, true, false, ◌&&◌, none, some, String, Option, ok, ◌==◌, leb, arith,
  Bool-cases, Option-cases, inl, inr, coalesce, is_some,
}
use om_tui.Outbox.Types.{OutboxItem, Database, unix_milli}
use om_tui.Outbox.Checks.{row_check}
use om_tui.Outbox.Tables.{find_row}
use om_tui.Outbox.Tables.Unique.{HasUniqueIds}
use om_tui.Outbox.Transitions.{Outcome, owns, set_uncertain, set_rejected, set_not_dispatched}
use om_tui.Outbox.Fencing.{
  Use, loses, rejects, disproves, perform, change, is_accepted, id_of, token_of,
}
use om_tui.Outbox.Fencing.Refusals.{holder_succeeds, fits}
use om_tui.Outbox.Phases.{Phase, unknown, refused, retrying, phase_of}
use om_tui.Bridge.Types.{
  OpError, FailureClass, transient, rate_limited, credentials_expired, unpaired, reauth_required,
  upgrade_required, misconfigured, unsupported, DispatchCertainty, not_called, uncertain_dispatch,
}
use om_tui.Dispatch.Types.{World, SendError}
use om_tui.Dispatch.Finalize.{
  unless_fault, mark_send_uncertain, record_op_error, record_send_error, retryable_failure,
  terminal_failure, is_not_called, is_uncertain, class_name, code_of,
}

-- The table: an uncertain failure is never resolved, five classes end the intent, three are retried where
-- the remote side never saw the call, and everything else is uncertain.
abbrev pub verdict_of : FailureClass → DispatchCertainty → Phase
verdict_of _ uncertain_dispatch = unknown
verdict_of unpaired _ = refused
verdict_of reauth_required _ = refused
verdict_of upgrade_required _ = refused
verdict_of misconfigured _ = refused
verdict_of unsupported _ = refused
verdict_of transient not_called = retrying
verdict_of rate_limited not_called = retrying
verdict_of credentials_expired not_called = retrying
verdict_of _ _ = unknown

abbrev pub error_verdict : Option OpError → Phase
error_verdict none = unknown
error_verdict (some op) = verdict_of op.class op.dispatch

verdict_uncertain :
    (c : FailureClass) (d : DispatchCertainty) → is_uncertain d ≡ true → verdict_of c d ≡ unknown
verdict_uncertain c d h = ground arith

verdict_terminal :
    (c : FailureClass) (d : DispatchCertainty)
    → is_uncertain d ≡ false
    → terminal_failure c ≡ true
    → verdict_of c d ≡ refused
unfolding terminal_failure
verdict_terminal c d h k = ground arith

verdict_retryable :
    (c : FailureClass) (d : DispatchCertainty)
    → retryable_failure c && is_not_called d ≡ true
    → verdict_of c d ≡ retrying
unfolding retryable_failure
verdict_retryable c d h = ground arith

verdict_else :
    (c : FailureClass) (d : DispatchCertainty)
    → is_uncertain d ≡ false
    → terminal_failure c ≡ false
    → retryable_failure c && is_not_called d ≡ false
    → verdict_of c d ≡ unknown
unfolding retryable_failure terminal_failure
verdict_else c d h k l = ground arith

-- When a failure of the call is tried again.
abbrev pub retry_time : World → Option OpError → ℕ
retry_time w none = w.times.retry_base + w.retry_delay
retry_time w (some op) = coalesce op.retry_at (w.times.retry_base + w.retry_delay)

-- An outcome without error after which the ID names a row in the phase.
pub record Recorded (id : String) (p : Phase) (o : Outcome) : Type 0 where
  pub succeeded : o.1 ≡ ok tt
  pub row : OutboxItem
  pub found : find_row id o.0.outbox ≡ some row
  pub in_phase : phase_of row ≡ p

module _ (w : World) (item : OutboxItem) (token : String) (db : Database) (r : OutboxItem)
    (unique : HasUniqueIds db.outbox) (no_fault : w.faults.finish ≡ false)
    (clock : (unix_milli w.times.final_now == 0) ≡ false)
    (found : find_row item.outbox_id db.outbox ≡ some r)
    (owned : owns item.outbox_id token r ≡ true) (marked : is_some r.transport_called_at_ms ≡ true)
    (young : leb r.created_at_ms (unix_milli w.times.final_now) ≡ true)
    (sound : row_check r ≡ true) where
  performed :
      (u : Use)
      → id_of u ≡ item.outbox_id
      → token_of u ≡ token
      → is_accepted u ≡ true
      → fits u (unix_milli w.times.final_now) r ≡ true
      → (p : Phase) → phase_of (change u (unix_milli w.times.final_now) r) ≡ p
      → Recorded item.outbox_id p (unless_fault w.faults.finish db (perform u w.times.final_now db))
  unfolding unless_fault
  performed u same_id same_token accepted fit p after =
      let (done, at) =
        holder_succeeds u w.times.final_now db r unique accepted clock (rw same_id found)
          (rw (same_id, same_token) owned) fit young sound in
      rw no_fault (record {
        succeeded = done;
        row = change u (unix_milli w.times.final_now) r;
        found = rw same_id at at;
        in_phase = after;
      })

  lost :
      (class code : String) (e : SendError)
      → Recorded item.outbox_id unknown (mark_send_uncertain w item token class code e db)
  unfolding mark_send_uncertain perform change set_uncertain
  lost class code e =
      performed (loses item.outbox_id token class code e.text) refl refl refl marked unknown refl

  classified :
      (e : SendError) (default : String) (op : OpError)
      → (unix_milli (coalesce op.retry_at (w.times.retry_base + w.retry_delay)) == 0) ≡ false
      → Recorded item.outbox_id
          (verdict_of op.class op.dispatch)
          (record_op_error w item token e default op db)
  unfolding record_op_error perform change set_rejected set_not_dispatched
  classified e default op later = elim (Bool-cases (is_uncertain op.dispatch)) [
    | inl u ↦ rw (u, verdict_uncertain op.class op.dispatch u) (lost _ _ e)
    | inr u ↦ elim (Bool-cases (terminal_failure op.class)) [
      | inl t ↦
          rw (u, t, verdict_terminal op.class op.dispatch u t)
            (performed
              (rejects item.outbox_id token (class_name op.class) (code_of op default) e.text) refl
              refl refl refl refused refl)
      | inr t ↦ elim (Bool-cases (retryable_failure op.class && is_not_called op.dispatch)) [
        | inl k ↦
            rw (u, t, k, verdict_retryable op.class op.dispatch k)
              (performed
                (disproves item.outbox_id token (class_name op.class) (code_of op default) e.text
                  (coalesce op.retry_at (w.times.retry_base + w.retry_delay)))
                refl refl (ground (arith, later)) marked retrying refl)
        | inr k ↦ rw (u, t, k, verdict_else op.class op.dispatch u t k) (lost _ _ e)
      ]
    ]
  ]

  error_recorded :
      (e : SendError) (default : String)
      → (unix_milli (retry_time w e.op) == 0) ≡ false
      → Recorded item.outbox_id (error_verdict e.op) (record_send_error w item token e default db)
  unfolding record_send_error
  error_recorded e default later = elim (Option-cases e.op) [
    | inl n ↦ rw n (lost _ _ e)
    | inr (op, n) ↦ rw n (classified e default op (rw n at later))
  ]

-- Let a worker whose token is on the called row record a send error, on a table with unique IDs, with no
-- storage fault, a clock after the epoch that is not before the row's creation, a row that passes the
-- CHECKs, and a retry time after the epoch. The recording succeeds, and the
-- row at the item's ID is then in the phase that the table has for the failure's class and certainty;
-- an error without a class makes it uncertain.
pub record_send_error-Recorded :
    (w : World) (item : OutboxItem) (token : String) (e : SendError) (default : String)
    (db : Database) (r : OutboxItem)
    → HasUniqueIds db.outbox
    → w.faults.finish ≡ false
    → (unix_milli w.times.final_now == 0) ≡ false
    → find_row item.outbox_id db.outbox ≡ some r
    → owns item.outbox_id token r ≡ true
    → is_some r.transport_called_at_ms ≡ true
    → leb r.created_at_ms (unix_milli w.times.final_now) ≡ true
    → row_check r ≡ true
    → (unix_milli (retry_time w e.op) == 0) ≡ false
    → Recorded item.outbox_id (error_verdict e.op) (record_send_error w item token e default db)
record_send_error-Recorded w item token e default db r unique quiet clock found owned marked young
      sound later =
    error_recorded w item token db r unique quiet clock found owned marked young sound e default
      later
