-- ===== src/Dispatch/Endings.antt =====
-- How a dispatch ends a lease, as repository calls: which of them can take the row back to work.
use om_tui.Common.{
  Bool-cases, Option-cases, inl, inr, is_blank, none, some, ◌&&◌, ◌∙◌, ◌++◌, ap, sym, ◌≡◌, refl,
  Bool, true, false, List, [], ◌∷◌, String, ok, err, arith, any,
}
use om_tui.Outbox.Types.{OutboxItem, Database}
use om_tui.Outbox.Transitions.{Outcome, mark_uncertain, reject, confirm_without_result}
use om_tui.Outbox.Confirming.{confirm}
use om_tui.Outbox.History.{
  loses, rejects, finishes, confirms, keeps_unstored, Call, disproves_row, apply, run,
}
use om_tui.Bridge.Types.{OpError}
use om_tui.Dispatch.Types.{SendError, SendResult, sent, failed, World}
use om_tui.Dispatch.Finalize.{
  mark_send_uncertain, record_op_error, record_send_error, store_after, finish_message,
  finish_reaction, finish_read, retryable_failure, terminal_failure, is_not_called, is_uncertain,
  class_name, code_of, confirmation_of, unless_fault, confirm_result,
}

pub run-++ : (xs ys : List Call) (db : Database) → run (xs ++ ys) db ≡ run ys (run xs db)
unfolding run
run-++ [] ys db = refl
run-++ (x ∷ xs) ys db = run-++ xs ys (apply x db)

pub any-++ :
    (id : String) (xs ys : List Call)
    → any (disproves_row id) xs ≡ false
    → any (disproves_row id) ys ≡ false
    → any (disproves_row id) (xs ++ ys) ≡ false
any-++ id [] ys h k = k
any-++ id (x ∷ xs) ys h k = ground (arith, any-++ id xs ys)

-- A database that repository calls have made of another, none of them a MarkCalledNotDispatched of the
-- row `id`.
pub record Ended (id : String) (db db' : Database) : Type 0 where
  pub made : List Call
  pub reached : db' ≡ run made db
  pub quiet : any (disproves_row id) made ≡ false

module _ (id : String) where
  pub Ended-refl : (db : Database) → Ended id db db
  unfolding run
  Ended-refl db = record { made = []; reached = refl; quiet = refl }

  -- One call that may fail without an effect.
  pub Ended-call :
      (fault : Bool) (c : Call) (db : Database) (o : Outcome)
      → o.0 ≡ apply c db
      → disproves_row id c ≡ false
      → Ended id db (unless_fault fault db o).0
  unfolding unless_fault run
  Ended-call true c db o e q = Ended-refl db
  Ended-call false c db o e q = record { made = c ∷ []; reached = e; quiet = ground (arith, q) }

  Ended-trans : (db db' db'' : Database) → Ended id db db' → Ended id db' db'' → Ended id db db''
  Ended-trans db db' db'' a b = record {
    made = a.made ++ b.made;
    reached = b.reached ∙ ap (run b.made) a.reached ∙ sym (run-++ a.made b.made db);
    quiet = any-++ id a.made b.made a.quiet b.quiet;
  }

  -- A confirmation, and the store failure that records its failure.
  store_after-Ended :
      (w : World) (item : OutboxItem) (token remote : String) (db : Database) (o : Outcome)
      → Ended id db o.0
      → Ended id db (store_after w item token remote o).0
  unfolding store_after apply
  store_after-Ended w item token remote db (db', ok _) h = h
  store_after-Ended w item token remote db (db', err e) h = Ended-trans db db' _ h (
      Ended-call w.faults.store
        (keeps_unstored item.outbox_id token remote (w.error_text e) w.times.store_now) db' _ refl
        refl)

  pub confirm_result-Ended :
      (w : World) (item : OutboxItem) (token remote : String) (db : Database)
      → Ended id db (confirm_result w item token remote db).0
  unfolding confirm_result apply
  confirm_result-Ended w item token remote db = store_after-Ended w item token remote db _ (
      Ended-call w.faults.confirm
        (confirms (confirmation_of item token remote) w.times.final_now w.times.repoint_now) db
        (confirm (confirmation_of item token remote) w.times.final_now w.times.repoint_now db) refl
        refl)

  pub finish_message-Ended :
      (w : World) (item : OutboxItem) (token remote : String) (db : Database)
      → Ended id db (finish_message w item token remote db).0
  unfolding finish_message apply
  finish_message-Ended w item token remote db = elim (Bool-cases (is_blank remote)) [
    | inl e ↦ rw e (
        Ended-call w.faults.finish
          (loses item.outbox_id token "unknown" "missing_remote_message_id"
            "transport returned success without a remote message ID" w.times.final_now)
          db
          (mark_uncertain item.outbox_id token "unknown" "missing_remote_message_id"
            "transport returned success without a remote message ID" w.times.final_now db)
          refl refl)
    | inr e ↦ rw e (confirm_result-Ended w item token remote db)
  ]

  pub finish_reaction-Ended :
      (w : World) (item : OutboxItem) (token remote : String) (db : Database)
      → Ended id db (finish_reaction w item token remote db).0
  unfolding finish_reaction apply
  finish_reaction-Ended w item token remote db = elim (Bool-cases (is_blank remote)) [
    | inl e ↦ rw e (
        Ended-call w.faults.finish (finishes item.outbox_id token w.times.final_now) db
          (confirm_without_result item.outbox_id token w.times.final_now db) refl refl)
    | inr e ↦ rw e (confirm_result-Ended w item token remote db)
  ]

  pub finish_read-Ended :
      (w : World) (item : OutboxItem) (token remote : String) (db : Database)
      → Ended id db (finish_read w item token remote db).0
  unfolding finish_read apply
  finish_read-Ended w item token remote db =
      Ended-call w.faults.finish (finishes item.outbox_id token w.times.final_now) db
        (confirm_without_result item.outbox_id token w.times.final_now db) refl refl

-- The result of a send that proves that the remote side has not seen the call.
abbrev pub proves_uncalled : SendResult → Bool
proves_uncalled (sent _) = false
proves_uncalled (failed e) = elim e.op [
  | none ↦ false
  | some op ↦ retryable_failure op.class && is_not_called op.dispatch
]

module _ (id : String) (w : World) (item : OutboxItem) (token : String) (e : SendError)
    (default : String) where
  mark_send_uncertain-Ended :
      (class code : String) (db : Database)
      → Ended id db (mark_send_uncertain w item token class code e db).0
  unfolding mark_send_uncertain apply
  mark_send_uncertain-Ended class code db =
      Ended-call id w.faults.finish (loses item.outbox_id token class code e.text w.times.final_now)
        db (mark_uncertain item.outbox_id token class code e.text w.times.final_now db) refl refl

  record_op_error-Ended :
      (op : OpError) (db : Database)
      → retryable_failure op.class && is_not_called op.dispatch ≡ false
      → Ended id db (record_op_error w item token e default op db).0
  unfolding record_op_error apply
  record_op_error-Ended op db h = elim (Bool-cases (is_uncertain op.dispatch)) [
    | inl u ↦ rw u (mark_send_uncertain-Ended _ _ db)
    | inr u ↦ elim (Bool-cases (terminal_failure op.class)) [
      | inl t ↦
          rw (u, t)
            (Ended-call id w.faults.finish
              (rejects item.outbox_id token (class_name op.class) (code_of op default) e.text
                w.times.final_now)
              db
              (reject item.outbox_id token (class_name op.class) (code_of op default) e.text
                w.times.final_now db)
              refl refl)
      | inr t ↦ rw (u, t, h) (mark_send_uncertain-Ended _ _ db)
    ]
  ]

  -- A send error that does not prove that the call was not made never takes the row back to work.
  pub record_send_error-Ended :
      (db : Database)
      → proves_uncalled (failed e) ≡ false
      → Ended id db (record_send_error w item token e default db).0
  unfolding record_send_error
  record_send_error-Ended db h = elim (Option-cases e.op) [
    | inl n ↦ rw n (mark_send_uncertain-Ended _ _ db)
    | inr (op, n) ↦ rw n (record_op_error-Ended op db (rw n at h))
  ]
