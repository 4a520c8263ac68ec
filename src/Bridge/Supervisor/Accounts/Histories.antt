-- ===== src/Bridge/Supervisor/Accounts/Histories.antt =====
-- The books over whole histories, and what shutdown leaves.
use om_tui.Common.{ℕ, ◌≡◌, ◌⊎◌, refl, Bool, true, false, List, [], ◌∷◌, arith, if_elim, if_cases}
use om_tui.Bridge.Supervisor.State.{
  Loop, Config, Inputs, no_timer, Cause, State, refused, supervisor_stopped,
}
use om_tui.Bridge.Supervisor.Generations.{retire_current}
use om_tui.Bridge.Supervisor.Connecting.{finish_start}
use om_tui.Bridge.Supervisor.Loop.{
  Event, command, work, start_result, start_returns, enforce_due_deadline,
}
use om_tui.Bridge.Supervisor.Loop.Run.{
  select, select_unless_due, rest, joined_run, joined_cause, shutdown, iteration, proceed, step,
  steps, new_loop,
}
use om_tui.Bridge.Supervisor.Soundness.{IsSound, Status}
use om_tui.Bridge.Supervisor.Soundness.Arms.{enforce_due_deadline-IsSound}
use om_tui.Bridge.Supervisor.Soundness.Histories.{
  step-Status, alive-Status, Status-alive, new_loop-IsSound,
}
use om_tui.Bridge.Supervisor.Accounts.{Books}
use om_tui.Bridge.Supervisor.Accounts.Runs.{
  retire_current-Books, retire_current-IsCurrent, resolve_pending_start-Books, receive_start-Books,
  finish_start-Books,
}
use om_tui.Bridge.Supervisor.Accounts.Arms.{perform_work-Books, enforce_due_deadline-Books}
use om_tui.Bridge.Supervisor.Accounts.Runs.{IsSound-IsCurrent}
use om_tui.Bridge.Supervisor.Accounts.Commands.{take_command-Books}

module _ (g caller : ℕ) where
  abbrev A : Loop → Type 0
  A l = Books g caller 0 l

  select-Books :
      (c : Config) (i : Inputs) (e : Event) (l : Loop) → IsSound l → A l → A (select c i e l)
  unfolding select
  select-Books c i (command who request) l s b = take_command-Books g caller who c i request l b
  select-Books c i (work w) l s b = perform_work-Books g caller 0 c i w l b
  select-Books c i start_result l s b =
      receive_start-Books g caller 0 c i l.start_results l s b refl
  select-Books c i (start_returns has_run cause) l s b = b

  select_unless_due-Books :
      (c : Config) (i : Inputs) (e : Event) (r : Loop × Bool)
      → IsSound r.0
      → A r.0
      → A (select_unless_due c i e r)
  select_unless_due-Books c i e (l, true) s b = b
  select_unless_due-Books c i e (l, false) s b = select-Books c i e l s b

  shutdown-Books :
      (has_run : Bool) (cause : Cause) (l : Loop) → IsSound l → A l → A (shutdown has_run cause l)
  unfolding shutdown
  shutdown-Books has_run cause l s b =
      let begun = record (rest State.stopping l) { timer = no_timer; pair_sink_open = false } in
      let retired = retire_current begun in
      let joined = finish_start has_run cause retired.start_results retired in
      ground (
        arith,
        resolve_pending_start-Books g caller 0 (refused supervisor_stopped) joined,
        finish_start-Books g caller 0 has_run cause retired.start_results retired,
        retire_current-IsCurrent begun,
        IsSound-IsCurrent l s,
        retire_current-Books g caller 0 begun,
      )

  iteration-Books :
      (c : Config) (i : Inputs) (e : Event) (l : Loop) → IsSound l → A l → A (iteration c i e l)
  unfolding iteration
  iteration-Books c i e l s b =
      let begun = record l { closing = i.stop_called } in
      let checked = enforce_due_deadline c i begun in
      if_cases A l.closing (λ _. shutdown-Books (joined_run e) (joined_cause e) l s b)
        (λ open_loop.
          select_unless_due-Books c i e checked
            (enforce_due_deadline-IsSound c i begun (ground arith))
            (enforce_due_deadline-Books g caller 0 c i begun (ground arith)))

  proceed-Books :
      (c : Config) (i : Inputs) (e : Event) (l : Loop) → IsSound l → A l → A (proceed c i e l)
  unfolding proceed
  proceed-Books c i (start_returns has_run cause) l s b =
      if_elim A l.closing (iteration-Books c i (start_returns has_run cause) l s b) (
        finish_start-Books g caller 0 has_run cause l.start_results l b refl
          (IsSound-IsCurrent l s))
  proceed-Books c i (command who request) l s b = iteration-Books c i (command who request) l s b
  proceed-Books c i (work w) l s b = iteration-Books c i (work w) l s b
  proceed-Books c i start_result l s b = iteration-Books c i start_result l s b

  step-Books :
      (c : Config) (i : Inputs) (e : Event) (l : Loop) → Status l.exited l → A l → A (step c i e l)
  unfolding step
  step-Books c i e l s b =
      if_cases A l.exited (λ _. b) (λ going. proceed-Books c i e l (alive-Status l s going) b)

  steps-Books :
      (c : Config) (history : List (Inputs × Event)) (l : Loop)
      → Status l.exited l
      → A l
      → A (steps c history l)
  unfolding steps
  steps-Books c [] l s b = b
  steps-Books c ((i, e) ∷ rest) l s b =
      steps-Books c rest (step c i e l) (step-Status c i e l s) (step-Books c i e l s b)

  new_loop-Books : (initial : State) → A (new_loop initial)
  unfolding new_loop
  new_loop-Books initial = ground arith

  pub history-Books :
      (c : Config) (initial : State) (history : List (Inputs × Event))
      → (initial ≡ State.stopped) ⊎ (initial ≡ State.unpaired)
      → A (steps c history (new_loop initial))
  history-Books c initial history allowed =
      steps-Books c history (new_loop initial)
        (Status-alive (new_loop initial) (new_loop-IsSound initial allowed))
        (new_loop-Books initial)
