-- ===== src/Bridge/Supervisor/Snapshots/Routing.antt =====
-- The routing of a failure publishes what it decides.
use om_tui.Common.{
  ℕ, ◌≡◌, ◌+◌, refl, true, false, Option, none, some, if_elim, if_cases, arith, String,
}
use om_tui.Bridge.Types.{
  FailureClass, transient, rate_limited, credentials_expired, unpaired, reauth_required,
  upgrade_required, misconfigured, unsupported, unset, unlisted, OpError,
}
use om_tui.Bridge.Supervisor.State.{Loop, Config, Inputs, Policy, no_timer, Reply}
use om_tui.Bridge.Supervisor.Failures.{
  reset_failure_history, connect_timeout_failure, known_class, record_fingerprint, is_unpaired,
}
use om_tui.Bridge.Supervisor.Generations.{
  begin_credential_repair, route_failure, route_class, back_off, note_failure,
  handle_connect_timeout, retire_current, resolve_pending_start, clear_generation_context,
}
use om_tui.Bridge.Supervisor.Soundness.Routing.{is_listed, known_class-listed}
use om_tui.Bridge.Supervisor.Snapshots.{IsPublished}

pub begin_credential_repair-IsPublished :
    (c : Config) (failure : OpError) (l : Loop)
    → l.closing ≡ false
    → IsPublished (begin_credential_repair c failure l)
unfolding begin_credential_repair
begin_credential_repair-IsPublished c failure l g =
    if_elim IsPublished c.repairs (record { going = g; published = refl })
      (record { going = g; published = refl })

pub back_off-IsPublished :
    (i : Inputs) (delay : Option ℕ) (l : Loop)
    → l.closing ≡ false
    → IsPublished (back_off i delay l)
back_off-IsPublished i none l g = record { going = g; published = refl }
back_off-IsPublished i (some delay) l g = record { going = g; published = refl }

pub route_class-IsPublished :
    (c : Config) (i : Inputs) (class : FailureClass) (failure : OpError) (l : Loop)
    → is_listed class ≡ true
    → l.closing ≡ false
    → IsPublished (route_class c i class failure l)
unfolding route_class
route_class-IsPublished c i transient failure l k g =
    back_off-IsPublished i _ (record l { transient_attempt = l.transient_attempt + 1 }) g
route_class-IsPublished c i rate_limited failure l k g = record { going = g; published = refl }
route_class-IsPublished c i credentials_expired failure l k g =
    begin_credential_repair-IsPublished c failure l g
route_class-IsPublished c i reauth_required failure l k g = record { going = g; published = refl }
route_class-IsPublished c i upgrade_required failure l k g = record { going = g; published = refl }
route_class-IsPublished c i misconfigured failure l k g = record { going = g; published = refl }
route_class-IsPublished c i unsupported failure l k g = record { going = g; published = refl }
route_class-IsPublished c i unpaired failure l k g = cc
route_class-IsPublished c i unset failure l k g = cc
route_class-IsPublished c i (unlisted name) failure l k g = cc

pub record_fingerprint-going :
    (policy : Policy) (class : FailureClass) (fingerprint : String) (l : Loop)
    → l.closing ≡ false
    → (record_fingerprint policy class fingerprint l).0.closing ≡ false
unfolding record_fingerprint
record_fingerprint-going policy class fingerprint l g = ground arith

pub route_failure-IsPublished :
    (c : Config) (i : Inputs) (failure : OpError) (l : Loop)
    → l.closing ≡ false
    → IsPublished (route_failure c i failure l)
unfolding route_failure reset_failure_history
route_failure-IsPublished c i failure l g =
    let known = record failure { class = known_class failure.class } in
    let noted = note_failure known l in
    let recorded = record_fingerprint c.policy known.class known.fingerprint noted in
    let kept = record_fingerprint-going c.policy known.class known.fingerprint noted g in
    if_cases IsPublished (is_unpaired known.class) (λ _. record { going = g; published = refl })
      (λ other.
        if_elim IsPublished recorded.1 (record { going = kept; published = refl })
          (route_class-IsPublished c i known.class known recorded.0
            (known_class-listed failure.class other) kept))

pub retire_current-IsPublished : (l : Loop) → IsPublished l → IsPublished (retire_current l)
unfolding retire_current clear_generation_context
retire_current-IsPublished l p = ground arith

pub handle_connect_timeout-IsPublished :
    (c : Config) (i : Inputs) (l : Loop)
    → IsPublished l
    → IsPublished (handle_connect_timeout c i l)
unfolding handle_connect_timeout
handle_connect_timeout-IsPublished c i l p =
    let gone = record l { timer = no_timer } in
    ground (
      arith,
      route_failure-IsPublished c i connect_timeout_failure (retire_current gone),
      retire_current-IsPublished gone,
    )

pub resolve_pending_start-IsPublished :
    (reply : Reply) (l : Loop) → IsPublished l → IsPublished (resolve_pending_start reply l)
unfolding resolve_pending_start
resolve_pending_start-IsPublished reply l p = ground arith
