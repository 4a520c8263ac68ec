-- ===== src/Bridge/Supervisor/Soundness/Histories.antt =====
-- A whole history of the loop, from NewSupervisor to the end of shutdown.
use om_tui.Bridge.Supervisor.State.{
  StartChannel, idle, waiting, posted, Reply, refused, supervisor_stopped, no_timer,
}
use om_tui.Bridge.Supervisor.Generations.{
  retire_current, clear_generation_context, resolve_pending_start,
}
use om_tui.Bridge.Supervisor.Loop.Run.{rest}
use om_tui.Common.{
  none, ◌≡◌, Bool, true, false, ℕ, ◌≡◌, refl, Bool, true, false, if_elim, if_cases, ◌⊎◌, List, [],
  ◌∷◌, arith,
}
use om_tui.Bridge.Supervisor.State.{Loop, Config, Inputs, Cause, State}
use om_tui.Bridge.Supervisor.Generations.{
  retire_current, resolve_pending_start, clear_generation_context,
}
use om_tui.Bridge.Supervisor.Connecting.{finish_start}
use om_tui.Bridge.Supervisor.Loop.{
  enforce_due_deadline, ask, take_command, Event, command, work, start_result, start_returns,
  Command,
}
use om_tui.Bridge.Supervisor.Loop.Run.{
  select, step, steps, iteration, proceed, joined_run, joined_cause, shutdown, new_loop,
  select_unless_due,
}
use om_tui.Bridge.Supervisor.Soundness.{IsSound, AtRest, Status}
use om_tui.Bridge.Supervisor.Soundness.Connecting.{receive_start-IsSound, finish_start-IsSound}
use om_tui.Bridge.Supervisor.Soundness.Arms.{perform_work-IsSound, enforce_due_deadline-IsSound}
use om_tui.Bridge.Supervisor.Soundness.Commands.{handle_command-IsSound}

take_command-IsSound :
    (c : Config) (i : Inputs) (caller : ℕ) (request : Command) (l : Loop)
    → IsSound l
    → IsSound (take_command c i caller request l)
unfolding take_command
take_command-IsSound c i caller request l s =
    if_elim IsSound l.closing (ground arith)
      (handle_command-IsSound c i caller request (ask caller l) (ground arith))

select-IsSound :
    (c : Config) (i : Inputs) (e : Event) (l : Loop) → IsSound l → IsSound (select c i e l)
unfolding select
select-IsSound c i (command caller request) l s = take_command-IsSound c i caller request l s
select-IsSound c i (work w) l s = perform_work-IsSound c i w l s
select-IsSound c i start_result l s = receive_start-IsSound c i l.start_results l s refl
select-IsSound c i (start_returns has_run cause) l s = s

-- A loop whose connection is closed.
record IsClosed (l : Loop) : Type 0 where
  no_run : l.run ≡ false
  fence_closed : l.gate.active ≡ false
  timerless : l.timer ≡ no_timer

retire_current-IsClosed :
    (l : Loop)
    → l.gate.generation ≡ l.snapshot.generation
    → l.timer ≡ no_timer
    → IsClosed (retire_current l)
unfolding retire_current clear_generation_context
retire_current-IsClosed l f t = ground arith

finish_start-IsClosed :
    (has_run : Bool) (cause : Cause) (channel : StartChannel) (l : Loop)
    → IsClosed l
    → IsClosed (finish_start has_run cause channel l)
unfolding finish_start
finish_start-IsClosed has_run cause idle l h = h
finish_start-IsClosed has_run cause (waiting generation) l h = ground arith
finish_start-IsClosed has_run cause (posted result) l h = h

resolve_pending_start-IsClosed :
    (reply : Reply) (l : Loop)
    → IsClosed l
    → IsClosed (resolve_pending_start reply l)
      × ((resolve_pending_start reply l).pending_start_reply ≡ none)
unfolding resolve_pending_start
resolve_pending_start-IsClosed reply l h = ground arith

shutdown-AtRest :
    (has_run : Bool) (cause : Cause) (l : Loop) → IsSound l → AtRest (shutdown has_run cause l)
unfolding shutdown
shutdown-AtRest has_run cause l s =
    let begun = record (rest State.stopping l) { timer = no_timer; pair_sink_open = false } in
    let retired = retire_current begun in
    let joined = finish_start has_run cause retired.start_results retired in
    let closed = resolve_pending_start-IsClosed (refused supervisor_stopped) joined (
      finish_start-IsClosed has_run cause retired.start_results retired
        (retire_current-IsClosed begun s.fenced refl)) in
    record {
      resting = refl;
      timerless = closed.0.timerless;
      no_run = closed.0.no_run;
      no_probe = refl;
      no_repair = refl;
      no_pairing = refl;
      fence_closed = closed.0.fence_closed;
      nobody_waits = closed.1;
    }

select_unless_due-IsSound :
    (c : Config) (i : Inputs) (e : Event) (r : Loop × Bool)
    → IsSound r.0
    → IsSound (select_unless_due c i e r)
select_unless_due-IsSound c i e (l, true) s = s
select_unless_due-IsSound c i e (l, false) s = select-IsSound c i e l s

pub Status-alive : (l : Loop) → IsSound l → Status l.exited l
Status-alive l s = ground arith

pub alive-Status : (l : Loop) → Status l.exited l → l.exited ≡ false → IsSound l
alive-Status l s e = ground arith

shutdown-Status :
    (has_run : Bool) (cause : Cause) (l : Loop)
    → IsSound l
    → Status (shutdown has_run cause l).exited (shutdown has_run cause l)
unfolding shutdown
shutdown-Status has_run cause l s = unfold shutdown in shutdown-AtRest has_run cause l s

abbrev Carried : Loop → Type 0
Carried l = Status l.exited l

iteration-Status :
    (c : Config) (i : Inputs) (e : Event) (l : Loop) → IsSound l → Carried (iteration c i e l)
unfolding iteration
iteration-Status c i e l s =
    let begun = record l { closing = i.stop_called } in
    let checked = enforce_due_deadline c i begun in
    if_cases Carried l.closing (λ _. shutdown-Status (joined_run e) (joined_cause e) l s)
      (λ open_loop. Status-alive (select_unless_due c i e checked) (
        select_unless_due-IsSound c i e checked
          (enforce_due_deadline-IsSound c i begun (ground arith))))

proceed-Status :
    (c : Config) (i : Inputs) (e : Event) (l : Loop) → IsSound l → Carried (proceed c i e l)
unfolding proceed
proceed-Status c i (start_returns has_run cause) l s =
    if_elim Carried l.closing (iteration-Status c i (start_returns has_run cause) l s) (
      Status-alive (finish_start has_run cause l.start_results l)
        (finish_start-IsSound has_run cause l.start_results l s refl))
proceed-Status c i (command caller request) l s = iteration-Status c i (command caller request) l s
proceed-Status c i (work w) l s = iteration-Status c i (work w) l s
proceed-Status c i start_result l s = iteration-Status c i start_result l s

pub step-Status :
    (c : Config) (i : Inputs) (e : Event) (l : Loop) → Carried l → Carried (step c i e l)
unfolding step
step-Status c i e l s =
    if_cases Carried l.exited (λ _. s) (λ going. proceed-Status c i e l (alive-Status l s going))

pub steps-Status :
    (c : Config) (history : List (Inputs × Event)) (l : Loop)
    → Status l.exited l
    → Status (steps c history l).exited (steps c history l)
unfolding steps
steps-Status c [] l s = s
steps-Status c ((i, e) ∷ rest) l s = steps-Status c rest (step c i e l) (step-Status c i e l s)

pub new_loop-IsSound :
    (initial : State)
    → (initial ≡ State.stopped) ⊎ (initial ≡ State.unpaired)
    → IsSound (new_loop initial)
unfolding new_loop
new_loop-IsSound initial allowed = ground arith

-- A history from a new loop.
pub history-Status :
    (c : Config) (initial : State) (history : List (Inputs × Event))
    → (initial ≡ State.stopped) ⊎ (initial ≡ State.unpaired)
    → Status (steps c history (new_loop initial)).exited (steps c history (new_loop initial))
history-Status c initial history allowed =
    steps-Status c history (new_loop initial)
      (Status-alive (new_loop initial) (new_loop-IsSound initial allowed))
