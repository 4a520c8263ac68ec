-- ===== src/Bridge/Supervisor/Soundness/Routing.antt =====
-- A failure is routed from a loop whose connection is gone.
-- A failure is routed from a loop whose connection is gone.
use om_tui.Common.{
  ℕ, ◌+◌, ◌≡◌, Bool, true, false, Option, none, some, String, str_eq, if_elim, if_cases, arith,
}
use om_tui.Bridge.Types.{
  FailureClass, transient, rate_limited, credentials_expired, unpaired, reauth_required,
  upgrade_required, misconfigured, unsupported, unset, unlisted, OpError,
}
use om_tui.Bridge.Supervisor.State.{State, Policy, Reply, Loop, Config, Inputs, idle, no_timer}
use om_tui.Bridge.Supervisor.Failures.{
  record_fingerprint, reset_failure_history, connect_timeout_failure, known_class, is_transient,
  is_unpaired,
}
use om_tui.Bridge.Supervisor.Generations.{
  publish, enter, route_failure, route_class, back_off, note_failure, rest_unpaired,
  begin_credential_repair, retire_current, clear_generation_context, resolve_pending_start,
  handle_connect_timeout,
}
use om_tui.Bridge.Supervisor.Soundness.{IsSound}

-- The classes that the second switch of routeFailure lists.
abbrev pub is_listed : FailureClass → Bool
is_listed unpaired = false
is_listed unset = false
is_listed (unlisted _) = false
is_listed _ = true

-- A generation that is over, with nothing left but to route its failure.
pub record IsRetired (l : Loop) : Type 0 where
  pub fenced : l.gate.generation ≡ l.snapshot.generation
  pub no_run : l.run ≡ false
  pub no_start : l.start_results ≡ idle
  pub no_probe : l.probing ≡ false
  pub fence_closed : l.gate.active ≡ false
  pub timerless : l.timer ≡ no_timer
  pub not_repairing : l.repairing ≡ false
  pub not_pairing : l.pair_active ≡ false
  pub alive : l.exited ≡ false

block-IsSound : (l : Loop) → IsRetired l → IsSound (publish (enter State.blocked l))
block-IsSound l r = ground arith

begin_credential_repair-IsSound :
    (c : Config) (failure : OpError) (l : Loop)
    → IsRetired l
    → IsSound (begin_credential_repair c failure l)
unfolding begin_credential_repair
begin_credential_repair-IsSound c failure l r =
    if_cases IsSound c.repairs (λ _. ground arith) (λ _. ground arith)

back_off-IsSound :
    (i : Inputs) (delay : Option ℕ) (l : Loop) → IsRetired l → IsSound (back_off i delay l)
back_off-IsSound i none l r = ground arith
back_off-IsSound i (some delay) l r = ground arith

counted-IsRetired :
    (l : Loop) → IsRetired l → IsRetired (record l { transient_attempt = l.transient_attempt + 1 })
counted-IsRetired l r = ground arith

route_class-IsSound :
    (c : Config) (i : Inputs) (class : FailureClass) (failure : OpError) (l : Loop)
    → is_listed class ≡ true
    → IsRetired l
    → IsSound (route_class c i class failure l)
unfolding route_class
route_class-IsSound c i transient failure l k r =
    back_off-IsSound i _ (record l { transient_attempt = l.transient_attempt + 1 })
      (counted-IsRetired l r)
route_class-IsSound c i rate_limited failure l k r = ground arith
route_class-IsSound c i credentials_expired failure l k r =
    begin_credential_repair-IsSound c failure l r
route_class-IsSound c i reauth_required failure l k r = block-IsSound l r
route_class-IsSound c i upgrade_required failure l k r = block-IsSound l r
route_class-IsSound c i misconfigured failure l k r = block-IsSound l r
route_class-IsSound c i unsupported failure l k r = block-IsSound l r
route_class-IsSound c i unpaired failure l k r = cc
route_class-IsSound c i unset failure l k r = cc
route_class-IsSound c i (unlisted name) failure l k r = cc

-- What the loop has recorded of a failure leaves it retired.
record_fingerprint-IsRetired :
    (policy : Policy) (class : FailureClass) (fingerprint : String) (l : Loop)
    → IsRetired l
    → IsRetired (record_fingerprint policy class fingerprint l).0
unfolding record_fingerprint
record_fingerprint-IsRetired policy class fingerprint l r =
    if_elim (λ (p : Loop × Bool). IsRetired p.0) (is_transient class) r
      (if_elim (λ (p : Loop × Bool). IsRetired p.0) (str_eq fingerprint "") (ground arith)
        (ground arith))

note_failure-IsRetired :
    (failure : OpError) (l : Loop) → IsRetired l → IsRetired (note_failure failure l)
note_failure-IsRetired failure l r = ground arith

rest_unpaired-IsSound :
    (failure : OpError) (l : Loop)
    → IsRetired l
    → IsSound (rest_unpaired failure (reset_failure_history l))
unfolding reset_failure_history
rest_unpaired-IsSound failure l r = ground arith

pub known_class-listed :
    (class : FailureClass)
    → is_unpaired (known_class class) ≡ false
    → is_listed (known_class class) ≡ true
known_class-listed class h = ground arith

pub route_failure-IsSound :
    (c : Config) (i : Inputs) (failure : OpError) (l : Loop)
    → IsRetired l
    → IsSound (route_failure c i failure l)
unfolding route_failure
route_failure-IsSound c i failure l r =
    let known = record failure { class = known_class failure.class } in
    let noted = note_failure known l in
    let recorded = record_fingerprint c.policy known.class known.fingerprint noted in
    let retired = note_failure-IsRetired known l r in
    let kept = record_fingerprint-IsRetired c.policy known.class known.fingerprint noted retired in
    if_cases IsSound (is_unpaired known.class) (λ _. rest_unpaired-IsSound known noted retired)
      (λ other. if_elim IsSound recorded.1 (block-IsSound recorded.0 kept) (
        route_class-IsSound c i known.class known recorded.0
          (known_class-listed failure.class other) kept))

pub retire_current-IsRetired :
    (l : Loop)
    → l.gate.generation ≡ l.snapshot.generation
    → l.start_results ≡ idle
    → l.timer ≡ no_timer
    → l.repairing ≡ false
    → l.pair_active ≡ false
    → l.exited ≡ false
    → IsRetired (retire_current l)
unfolding retire_current clear_generation_context
retire_current-IsRetired l f s t r p a = ground arith

pub clear_generation_context-IsRetired :
    (l : Loop)
    → l.gate.generation ≡ l.snapshot.generation
    → l.run ≡ false
    → l.start_results ≡ idle
    → l.probing ≡ false
    → l.timer ≡ no_timer
    → l.repairing ≡ false
    → l.pair_active ≡ false
    → l.exited ≡ false
    → IsRetired (clear_generation_context l)
unfolding clear_generation_context
clear_generation_context-IsRetired l f n s b t r p a = ground arith

pub resolve_pending_start-IsSound :
    (reply : Reply) (l : Loop) → IsSound l → IsSound (resolve_pending_start reply l)
unfolding resolve_pending_start
resolve_pending_start-IsSound reply l s = ground arith

pub route_failure-retire_current-IsSound :
    (c : Config) (i : Inputs) (failure : OpError) (l : Loop)
    → l.gate.generation ≡ l.snapshot.generation
    → l.start_results ≡ idle
    → l.timer ≡ no_timer
    → l.repairing ≡ false
    → l.pair_active ≡ false
    → l.exited ≡ false
    → IsSound (route_failure c i failure (retire_current l))
route_failure-retire_current-IsSound c i failure l f s t r p a =
    route_failure-IsSound c i failure (retire_current l) (retire_current-IsRetired l f s t r p a)

pub handle_connect_timeout-IsSound :
    (c : Config) (i : Inputs) (l : Loop) → IsSound l → IsSound (handle_connect_timeout c i l)
unfolding handle_connect_timeout
handle_connect_timeout-IsSound c i l s = ground (
  arith,
  route_failure-retire_current-IsSound c i connect_timeout_failure (record l { timer = no_timer }),
)
