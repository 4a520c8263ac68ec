-- ===== src/Bridge/Supervisor/Accounts/Routing.antt =====
-- The routing of a failure leaves the books as they are.
use om_tui.Common.{ℕ, ◌+◌, Bool, Option, none, some, arith, if_elim, str_eq, String}
use om_tui.Bridge.Types.{FailureClass, transient, credentials_expired, OpError}
use om_tui.Bridge.Supervisor.State.{Policy, Loop, Config, Inputs}
use om_tui.Bridge.Supervisor.Failures.{
  known_class, is_transient, is_unpaired, record_fingerprint, reset_failure_history,
}
use om_tui.Bridge.Supervisor.Generations.{
  back_off, note_failure, route_failure, route_class, begin_credential_repair,
}
use om_tui.Bridge.Supervisor.Accounts.{SameBooks}

SameBooks-trans : (l l' l'' : Loop) → SameBooks l l' → SameBooks l' l'' → SameBooks l l''
SameBooks-trans l l' l'' s t = ground arith

pub begin_credential_repair-SameBooks :
    (c : Config) (failure : OpError) (l : Loop) → SameBooks l (begin_credential_repair c failure l)
unfolding begin_credential_repair
begin_credential_repair-SameBooks c failure l =
    if_elim (SameBooks l) c.repairs (ground arith) (ground arith)

back_off-SameBooks : (i : Inputs) (delay : Option ℕ) (l : Loop) → SameBooks l (back_off i delay l)
back_off-SameBooks i none l = ground arith
back_off-SameBooks i (some delay) l = ground arith

route_class-SameBooks :
    (c : Config) (i : Inputs) (class : FailureClass) (failure : OpError) (l : Loop)
    → SameBooks l (route_class c i class failure l)
unfolding route_class
route_class-SameBooks c i transient failure l =
    SameBooks-trans l (record l { transient_attempt = l.transient_attempt + 1 }) _ (ground arith)
      (back_off-SameBooks i _ (record l { transient_attempt = l.transient_attempt + 1 }))
route_class-SameBooks c i credentials_expired failure l =
    begin_credential_repair-SameBooks c failure l
route_class-SameBooks c i _ failure l = ground arith

record_fingerprint-SameBooks :
    (policy : Policy) (class : FailureClass) (fingerprint : String) (l : Loop)
    → SameBooks l (record_fingerprint policy class fingerprint l).0
unfolding record_fingerprint
record_fingerprint-SameBooks policy class fingerprint l =
    if_elim (λ (r : Loop × Bool). SameBooks l r.0) (is_transient class) (ground arith)
      (if_elim (λ (r : Loop × Bool). SameBooks l r.0) (str_eq fingerprint "") (ground arith)
        (ground arith))

-- The arms of the test of recordFingerprint's result.
pub route_failure-SameBooks :
    (c : Config) (i : Inputs) (failure : OpError) (l : Loop)
    → SameBooks l (route_failure c i failure l)
unfolding route_failure reset_failure_history
route_failure-SameBooks c i failure l =
    let known = record failure { class = known_class failure.class } in
    let noted = note_failure known l in
    let recorded = record_fingerprint c.policy known.class known.fingerprint noted in
    let kept =
      SameBooks-trans l noted recorded.0 (ground arith)
        (record_fingerprint-SameBooks c.policy known.class known.fingerprint noted) in
    if_elim (SameBooks l) (is_unpaired known.class) (ground arith) (
      if_elim (SameBooks l) recorded.1 (SameBooks-trans l recorded.0 _ kept (ground arith)) (
        SameBooks-trans l recorded.0 _ kept
          (route_class-SameBooks c i known.class known recorded.0)))
