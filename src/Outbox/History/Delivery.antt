-- ===== src/Outbox/History/Delivery.antt =====
-- What the outbox promises about delivery over every history of repository calls, by any number of
-- workers: at most one transport call unless it is disproved, and verdicts that are not undone.
use om_tui.Common.{◌≡◌, refl, ap, Bool, true, false, List, some, String, inl, inr, any, arith}
use om_tui.Outbox.Types.{OutboxItem, Database}
use om_tui.Outbox.Tables.{find_row}
use om_tui.Outbox.Phases.{
  Phase, called, unknown, done, unstored, refused, withdrawn, phase_of, claim_new,
}
use om_tui.Outbox.History.{Call, disproves_row, run}
use om_tui.Outbox.History.Invariants.{IsClosed, Kept, run-Kept}

-- The phases after the transport-call marker: the remote side may have acted.
abbrev pub is_spent : Phase → Bool
is_spent called = true
is_spent unknown = true
is_spent done = true
is_spent unstored = true
is_spent refused = true
is_spent _ = false

is_spent-IsClosed : IsClosed is_spent
is_spent-IsClosed p n q claim_new h = cc
is_spent-IsClosed p n q _ h = ground arith

-- Once a row's transport call has been marked, let any history of repository calls follow that has no
-- MarkCalledNotDispatched for that row's ID. The ID still names a row, of the same intent and request
-- ID, with the same number of attempts, and its phase is called, uncertain, confirmed, store-failed or
-- rejected.
pub called_at_most_once :
    (id : String) (cs : List Call) (db : Database) (r : OutboxItem)
    → find_row id db.outbox ≡ some r
    → phase_of r ≡ called
    → any (disproves_row id) cs ≡ false
    → (s : OutboxItem) × (find_row id (run cs db).outbox ≡ some s) × Kept is_spent r s
called_at_most_once id cs db r f h quiet =
    run-Kept is_spent is_spent-IsClosed id cs db r f (ap is_spent h) (inr quiet)

-- Unknown, or confirmed.
abbrev pub is_unknown_or_done : Phase → Bool
is_unknown_or_done unknown = true
is_unknown_or_done done = true
is_unknown_or_done _ = false

is_unknown_or_done-IsClosed : IsClosed is_unknown_or_done
is_unknown_or_done-IsClosed p n q claim_new h = cc
is_unknown_or_done-IsClosed p n q _ h = ground arith

-- After any history at all, a row that was uncertain is uncertain or confirmed, is the same intent, and
-- has made no further attempt: nothing retries it.
pub uncertain_never_retried :
    (id : String) (cs : List Call) (db : Database) (r : OutboxItem)
    → find_row id db.outbox ≡ some r
    → phase_of r ≡ unknown
    → (s : OutboxItem) × (find_row id (run cs db).outbox ≡ some s) × Kept is_unknown_or_done r s
uncertain_never_retried id cs db r f h =
    run-Kept is_unknown_or_done is_unknown_or_done-IsClosed id cs db r f (ap is_unknown_or_done h)
      (inl refl)

-- `stays p q`: p is one of the three verdicts, and q is p.
abbrev pub stays : Phase → Phase → Bool
stays done done = true
stays refused refused = true
stays withdrawn withdrawn = true
stays _ _ = false

stays-IsClosed : (v : Phase) → IsClosed (stays v)
stays-IsClosed v p n q claim_new h = ground arith
stays-IsClosed v p n q _ h = ground arith

stays_called : (v : Phase) → stays v called ≡ false
stays_called done = refl
stays_called _ = refl

-- After any history at all, a row that was confirmed, rejected or canceled is still that, is the same
-- intent, and has made no further attempt.
pub verdict_stands :
    (id : String) (cs : List Call) (db : Database) (r : OutboxItem) (v : Phase)
    → find_row id db.outbox ≡ some r
    → stays v (phase_of r) ≡ true
    → (s : OutboxItem) × (find_row id (run cs db).outbox ≡ some s) × Kept (stays v) r s
verdict_stands id cs db r v f h =
    run-Kept (stays v) (stays-IsClosed v) id cs db r f h (inl (stays_called v))
