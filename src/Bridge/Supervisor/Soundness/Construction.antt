-- ===== src/Bridge/Supervisor/Soundness/Construction.antt =====
-- Every supervisor that NewSupervisor returns is sound, and its queues keep their bounds.
use om_tui.Common.{◌≡◌, ◌⊎◌, inl, inr, true, Option, none, some, List, arith, refl, subst, sym}
use om_tui.Bridge.Supervisor.State.{State, Loop, Config, Inputs}
use om_tui.Bridge.Supervisor.Loop.{Event}
use om_tui.Bridge.Supervisor.Loop.Run.{steps, new_loop}
use om_tui.Bridge.Supervisor.Failures.{validate_policy}
use om_tui.Bridge.Supervisor.Entry.{Construction, running, new_supervisor, launch, apply_options}
use om_tui.Bridge.Supervisor.Soundness.{Status}
use om_tui.Bridge.Supervisor.Soundness.Histories.{history-Status}

launch-running :
    (o : Option State) (l : Loop)
    → launch o ≡ running l
    → (initial : State) × (l ≡ new_loop initial)
      × ((initial ≡ State.stopped) ⊎ (initial ≡ State.unpaired))
launch-running none l e = cc
launch-running (some State.stopped) l e = (State.stopped, cc, inl refl)
launch-running (some State.unpaired) l e = (State.unpaired, cc, inr refl)
launch-running (some _) l e = cc

new_supervisor-running :
    (a : Construction) (l : Loop)
    → new_supervisor a ≡ running l
    → (launch (apply_options a.initial State.stopped) ≡ running l)
      × (validate_policy a.policy ≡ true)
unfolding new_supervisor
new_supervisor-running a l e = ground arith

-- A supervisor that NewSupervisor returns, whatever its arguments and options, has a policy that validatePolicy
-- accepts. After any commands, collaborators'
-- results, deadlines, clock readings and jitter draws, its fields are those that its state calls for. Connecting
-- has exactly one of a Start of the current generation, under the connect deadline or canceled by it,
-- and a run under that deadline; online has a run and a liveness check no later than the liveness
-- deadline; degraded has a run and a probe with its deadline, or one that exceeded it; backoff has no
-- connection and its timer, unless Stop was called; repairing has no connection and a repair, unless Stop was
-- called; pairing has a Pairer that has not expired and no timer but the code's expiry; unpaired,
-- stopped and blocked have no connection, no timer and no repair; the fence belongs to the current
-- generation and is open exactly to a run and to a Start that is in time. Once the loop has returned it
-- is stopped, with no run, no timer, no probe, repair or pairing, a closed fence and no caller
-- waiting; a start result that was posted and not received is not looked at.
pub new_supervisor-Status :
    (a : Construction) (c : Config) (history : List (Inputs × Event)) (l : Loop)
    → new_supervisor a ≡ running l
    → (validate_policy a.policy ≡ true) × Status (steps c history l).exited (steps c history l)
new_supervisor-Status a c history l made =
    let (launched, valid) = new_supervisor-running a l made in
    let (initial, same, allowed) =
      launch-running (apply_options a.initial State.stopped) l launched in
    (
      valid,
      subst (λ (x : Loop). Status (steps c history x).exited (steps c history x)) (sym same)
          (history-Status c initial history allowed),
    )
