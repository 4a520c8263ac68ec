-- ===== src/Outbox/Phases/Updates.antt =====
-- Each SET list of outbox.go, on a row that its WHERE clause meets, is one move of the diagram.
use om_tui.Common.{ℕ, ◌≡◌, refl, true, false, String, arith}
use om_tui.Outbox.Types.{OutboxItem, Attempt}
use om_tui.Outbox.Transitions.{
  owns, callable, set_called, not_dispatchable, set_not_dispatched, releasable, set_released,
  retryable, set_retry, cancelable, set_canceled, called_by, set_uncertain, set_rejected,
  set_confirmed, set_store_failed,
}
use om_tui.Outbox.Leasing.{
  due, set_leased, expired_before_call, set_recovered, expired_after_call, set_lost,
}
use om_tui.Outbox.Confirming.{set_confirmed_as}
use om_tui.Outbox.Confirming.Reconciling.{reconcilable, set_reconciled, enrichable, set_enriched}
use om_tui.Outbox.Phases.{Change, Disproof, moves}

pub set_called-Change :
    (a : Attempt) (ms : ℕ) (r : OutboxItem) → callable a ms r ≡ true → Change r (set_called ms r)
unfolding callable owns set_called
set_called-Change a ms r h = record {
  intent = ground arith;
  calls = 1;
  move = grind (arith, moves);
  counted = refl;
}

pub set_not_dispatched-Change :
    (id token class code detail : String) (retry ms : ℕ) (r : OutboxItem)
    → not_dispatchable id token false r ≡ true
    → Change r (set_not_dispatched class code detail retry ms r)
unfolding not_dispatchable owns set_not_dispatched
set_not_dispatched-Change id token class code detail retry ms r h = record {
  intent = ground arith;
  calls = 0;
  move = grind (arith, moves);
  counted = omega arith;
}

pub set_released-Change :
    (id token : String) (ms : ℕ) (r : OutboxItem)
    → releasable id token r ≡ true
    → Change r (set_released ms r)
unfolding releasable owns set_released
set_released-Change id token ms r h = record {
  intent = ground arith;
  calls = 0;
  move = grind (arith, moves);
  counted = omega arith;
}

pub set_retry-Change :
    (id : String) (ms : ℕ) (r : OutboxItem) → retryable id r ≡ true → Change r (set_retry ms r)
unfolding retryable set_retry
set_retry-Change id ms r h = record {
  intent = ground arith;
  calls = 0;
  move = grind (arith, moves);
  counted = omega arith;
}

pub set_canceled-Change :
    (id : String) (ms : ℕ) (r : OutboxItem) → cancelable id r ≡ true → Change r (set_canceled ms r)
unfolding cancelable set_canceled
set_canceled-Change id ms r h = record {
  intent = ground arith;
  calls = 0;
  move = grind (arith, moves);
  counted = omega arith;
}

pub set_uncertain-Change :
    (id token class code detail : String) (ms : ℕ) (r : OutboxItem)
    → called_by id token r ≡ true
    → Change r (set_uncertain class code detail ms r)
unfolding called_by owns set_uncertain
set_uncertain-Change id token class code detail ms r h = record {
  intent = ground arith;
  calls = 0;
  move = grind (arith, moves);
  counted = omega arith;
}

pub set_rejected-Change :
    (id token class code detail : String) (ms : ℕ) (r : OutboxItem)
    → owns id token r ≡ true
    → Change r (set_rejected class code detail ms r)
unfolding owns set_rejected
set_rejected-Change id token class code detail ms r h = record {
  intent = ground arith;
  calls = 0;
  move = grind (arith, moves);
  counted = omega arith;
}

pub set_confirmed-Change :
    (id token : String) (ms : ℕ) (r : OutboxItem)
    → called_by id token r ≡ true
    → Change r (set_confirmed ms r)
unfolding called_by owns set_confirmed
set_confirmed-Change id token ms r h = record {
  intent = ground arith;
  calls = 0;
  move = grind (arith, moves);
  counted = omega arith;
}

pub set_confirmed_as-Change :
    (id token result : String) (ms : ℕ) (r : OutboxItem)
    → called_by id token r ≡ true
    → Change r (set_confirmed_as result ms r)
unfolding called_by owns set_confirmed_as set_confirmed
set_confirmed_as-Change id token result ms r h = record {
  intent = ground arith;
  calls = 0;
  move = grind (arith, moves);
  counted = omega arith;
}

pub set_store_failed-Change :
    (id token result detail : String) (ms : ℕ) (r : OutboxItem)
    → called_by id token r ≡ true
    → Change r (set_store_failed result detail ms r)
unfolding called_by owns set_store_failed
set_store_failed-Change id token result detail ms r h = record {
  intent = ground arith;
  calls = 0;
  move = grind (arith, moves);
  counted = omega arith;
}

pub set_leased-Change :
    (owner token : String) (expires ms : ℕ) (r : OutboxItem)
    → due ms r ≡ true
    → Change r (set_leased owner token expires ms r)
unfolding due set_leased
set_leased-Change owner token expires ms r h = record {
  intent = ground arith;
  calls = 0;
  move = grind (arith, moves);
  counted = omega arith;
}

pub set_recovered-Change :
    (ms : ℕ) (r : OutboxItem) → expired_before_call ms r ≡ true → Change r (set_recovered ms r)
unfolding expired_before_call set_recovered
set_recovered-Change ms r h = record {
  intent = ground arith;
  calls = 0;
  move = grind (arith, moves);
  counted = omega arith;
}

pub set_lost-Change :
    (ms : ℕ) (r : OutboxItem) → expired_after_call ms r ≡ true → Change r (set_lost ms r)
unfolding expired_after_call set_lost
set_lost-Change ms r h = record {
  intent = ground arith;
  calls = 0;
  move = grind (arith, moves);
  counted = omega arith;
}

pub set_reconciled-Change :
    (id result : String) (ms : ℕ) (r : OutboxItem)
    → reconcilable id r ≡ true
    → Change r (set_reconciled result ms r)
unfolding reconcilable set_reconciled
set_reconciled-Change id result ms r h = record {
  intent = ground arith;
  calls = 0;
  move = grind (arith, moves);
  counted = omega arith;
}

pub set_enriched-Change :
    (id result : String) (ms : ℕ) (r : OutboxItem)
    → enrichable id r ≡ true
    → Change r (set_enriched result ms r)
unfolding enrichable set_enriched
set_enriched-Change id result ms r h = record {
  intent = ground arith;
  calls = 0;
  move = grind (arith, moves);
  counted = omega arith;
}

pub set_not_dispatched-Disproof :
    (id token class code detail : String) (retry ms : ℕ) (r : OutboxItem)
    → not_dispatchable id token true r ≡ true
    → Disproof r (set_not_dispatched class code detail retry ms r)
unfolding not_dispatchable owns set_not_dispatched
set_not_dispatched-Disproof id token class code detail retry ms r h = record {
  intent = ground arith;
  before = ground arith;
  after = ground arith;
  counted = refl;
}
