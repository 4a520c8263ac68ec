-- ===== src/Bridge/Supervisor/Snapshots/Histories.antt =====
-- What Snapshot() returns over whole histories.
use om_tui.Common.{◌≡◌, ◌⊎◌, refl, Bool, true, false, if_elim, if_cases, List, [], ◌∷◌, arith}
use om_tui.Bridge.Supervisor.State.{
  Loop, Config, Inputs, StartChannel, idle, waiting, posted, Cause, State,
}
use om_tui.Bridge.Supervisor.Connecting.{finish_start}
use om_tui.Bridge.Supervisor.Loop.{
  enforce_due_deadline, ask, take_command, Event, command, work, start_result, start_returns,
}
use om_tui.Bridge.Supervisor.Loop.Run.{
  select, select_unless_due, iteration, proceed, step, steps, new_loop,
}
use om_tui.Bridge.Supervisor.Soundness.{IsSound, Status}
use om_tui.Bridge.Supervisor.Soundness.Arms.{enforce_due_deadline-IsSound}
use om_tui.Bridge.Supervisor.Soundness.Histories.{
  step-Status, alive-Status, Status-alive, new_loop-IsSound,
}
use om_tui.Bridge.Supervisor.Snapshots.{IsPublished}
use om_tui.Bridge.Supervisor.Snapshots.Handlers.{receive_start-IsPublished}
use om_tui.Bridge.Supervisor.Snapshots.Commands.{
  enforce_due_deadline-IsPublished, perform_work-IsPublished, handle_command-IsPublished,
}

select-IsPublished :
    (c : Config) (i : Inputs) (e : Event) (l : Loop)
    → IsSound l
    → IsPublished l
    → IsPublished (select c i e l)
unfolding select take_command
select-IsPublished c i (command caller request) l s p =
    if_elim IsPublished l.closing (record { going = p.going; published = p.published })
      (handle_command-IsPublished c i caller request (ask caller l) (ground arith)
        (record { going = p.going; published = p.published }))
select-IsPublished c i (work w) l s p = perform_work-IsPublished c i w l p
select-IsPublished c i start_result l s p = receive_start-IsPublished c i l.start_results l p
select-IsPublished c i (start_returns has_run cause) l s p = p

finish_start-IsPublished :
    (has_run : Bool) (cause : Cause) (channel : StartChannel) (l : Loop)
    → IsPublished l
    → IsPublished (finish_start has_run cause channel l)
unfolding finish_start
finish_start-IsPublished has_run cause idle l p = p
finish_start-IsPublished has_run cause (waiting generation) l p = ground arith
finish_start-IsPublished has_run cause (posted result) l p = p

select_unless_due-IsPublished :
    (c : Config) (i : Inputs) (e : Event) (r : Loop × Bool)
    → IsSound r.0
    → IsPublished r.0
    → IsPublished (select_unless_due c i e r)
select_unless_due-IsPublished c i e (l, true) s p = p
select_unless_due-IsPublished c i e (l, false) s p = select-IsPublished c i e l s p

iteration-IsPublished :
    (c : Config) (i : Inputs) (e : Event) (l : Loop)
    → i.stop_called ≡ false
    → IsSound l
    → IsPublished l
    → IsPublished (iteration c i e l)
unfolding iteration
iteration-IsPublished c i e l n s p =
    let begun = record l { closing = i.stop_called } in
    let checked = enforce_due_deadline c i begun in
    if_cases IsPublished l.closing (λ closed. cc)
      (λ _.
        select_unless_due-IsPublished c i e checked
          (enforce_due_deadline-IsSound c i begun (ground arith))
          (enforce_due_deadline-IsPublished c i begun
            (record { going = n; published = p.published })))

proceed-IsPublished :
    (c : Config) (i : Inputs) (e : Event) (l : Loop)
    → i.stop_called ≡ false
    → IsSound l
    → IsPublished l
    → IsPublished (proceed c i e l)
unfolding proceed
proceed-IsPublished c i (start_returns has_run cause) l n s p =
    if_elim IsPublished l.closing (iteration-IsPublished c i (start_returns has_run cause) l n s p)
      (finish_start-IsPublished has_run cause l.start_results l p)
proceed-IsPublished c i (command caller request) l n s p =
    iteration-IsPublished c i (command caller request) l n s p
proceed-IsPublished c i (work w) l n s p = iteration-IsPublished c i (work w) l n s p
proceed-IsPublished c i start_result l n s p = iteration-IsPublished c i start_result l n s p

step-IsPublished :
    (c : Config) (i : Inputs) (e : Event) (l : Loop)
    → i.stop_called ≡ false
    → Status l.exited l
    → IsPublished l
    → IsPublished (step c i e l)
unfolding step
step-IsPublished c i e l n s p =
    if_cases IsPublished l.exited (λ _. p)
      (λ going. proceed-IsPublished c i e l n (alive-Status l s going) p)

-- No iteration of the history meets a call of Stop.
abbrev pub Unstopped : List (Inputs × Event) → Type 0
Unstopped [] = Unit
Unstopped ((i, _) ∷ rest) = (i.stop_called ≡ false) × Unstopped rest

steps-IsPublished :
    (c : Config) (history : List (Inputs × Event)) (l : Loop)
    → Unstopped history
    → Status l.exited l
    → IsPublished l
    → IsPublished (steps c history l)
unfolding steps
steps-IsPublished c [] l n s p = p
steps-IsPublished c ((i, e) ∷ rest) l n s p =
    steps-IsPublished c rest (step c i e l) n.1 (step-Status c i e l s)
      (step-IsPublished c i e l n.0 s p)

-- Between two iterations Snapshot() returns exactly the loop's snapshot, at any point of a history in
-- which Stop has not been called: no handler forgets to publish what it changes.
pub snapshot_published :
    (c : Config) (initial : State) (history : List (Inputs × Event))
    → (initial ≡ State.stopped) ⊎ (initial ≡ State.unpaired)
    → Unstopped history
    → (steps c history (new_loop initial)).published ≡ (steps c history (new_loop initial)).snapshot
unfolding new_loop
snapshot_published c initial history allowed unstopped =
    (steps-IsPublished c history (new_loop initial) unstopped
      (Status-alive (new_loop initial) (new_loop-IsSound initial allowed))
      (record { going = refl; published = refl })).published
