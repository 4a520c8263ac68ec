-- ===== src/Bridge/Supervisor/Accounts/Promises.antt =====
-- What the books promise: Run.Stop at most once for a generation, no run left behind, one answer for each
-- command; and the run that shutdown drops.
use om_tui.Common.{ℕ, ◌+◌, ◌≡◌, ◌≤◌, ◌<◌, ◌⊎◌, Bool, true, false, List, arith}
use om_tui.Bridge.Supervisor.State.{State, Loop, Config, Inputs, StartResult, posted, Cause}
use om_tui.Bridge.Supervisor.Generations.{
  retire_current, clear_generation_context, resolve_pending_start,
}
use om_tui.Bridge.Supervisor.Connecting.{finish_start}
use om_tui.Bridge.Supervisor.Loop.{Event}
use om_tui.Bridge.Supervisor.Loop.Run.{shutdown, steps, new_loop}
use om_tui.Bridge.Supervisor.Soundness.{IsSound, AtRest, Status}
use om_tui.Bridge.Supervisor.Soundness.Histories.{history-Status, alive-Status}
use om_tui.Bridge.Supervisor.Accounts.{count, callers, held, posted_run, allowance, waits}
use om_tui.Bridge.Supervisor.Accounts.Histories.{history-Books}

allowance-le : (generation : ℕ) (l : Loop) → allowance generation l ≤ 1
allowance-le generation l = ground arith

-- Only the current generation has a run that is not stopped.
held-earlier :
    (generation : ℕ) (l : Loop)
    → IsSound l
    → generation < l.snapshot.generation
    → held generation l ≡ 0
held-earlier generation l s earlier = ground arith

held-AtRest :
    (generation : ℕ) (l : Loop)
    → AtRest l
    → held generation l ≡ posted_run generation l.start_results
held-AtRest generation l r = ground arith

waits-AtRest : (caller : ℕ) (l : Loop) → AtRest l → waits caller l.pending_start_reply ≡ 0
waits-AtRest caller l r = ground arith

exited-AtRest : (l : Loop) → Status l.exited l → l.exited ≡ true → AtRest l
exited-AtRest l s e = ground arith

module _ (c : Config) (initial : State) (history : List (Inputs × Event))
    (allowed : (initial ≡ State.stopped) ⊎ (initial ≡ State.unpaired)) where
  abbrev now : Loop
  now = steps c history (new_loop initial)

  -- Whatever commands, results, deadlines and cancellations a supervisor meets, Lifecycle.Start hands over
  -- at most one run for a generation, and Run.Stop is called at most once for it, and never for a
  -- generation without a run.
  pub stopped_once :
      (generation : ℕ)
      → (count generation now.acquired ≤ 1)
        × (count generation now.stops ≤ count generation now.acquired)
  stopped_once generation =
      let b = (history-Books generation 0 c initial history allowed).balanced in
      omega (arith, b.runs, b.once, allowance-le generation now)

  -- While the loop runs, every run that was handed over for an earlier generation has been stopped.
  pub earlier_runs_stopped :
      (generation : ℕ)
      → generation < now.snapshot.generation
      → now.exited ≡ false
      → count generation now.stops ≡ count generation now.acquired
  earlier_runs_stopped generation earlier going =
      let b = (history-Books generation 0 c initial history allowed).balanced in
      let s = alive-Status now (history-Status c initial history allowed) going in
      omega (arith, b.runs, held-earlier generation now s earlier)

  -- Once the loop has returned, every run that a Start handed over has been stopped, unless its result
  -- waits in the channel that the loop did not receive from any more.
  pub final_runs :
      (generation : ℕ)
      → now.exited ≡ true
      → count generation now.acquired
        ≡ count generation now.stops + posted_run generation now.start_results
  final_runs generation over =
      let b = (history-Books generation 0 c initial history allowed).balanced in
      let r = exited-AtRest now (history-Status c initial history allowed) over in
      omega (arith, b.runs, held-AtRest generation now r)

  -- Once the loop has returned, every caller has received exactly one answer for each command that the
  -- loop took from it, deferred Start calls included.
  pub answered_once :
      (caller : ℕ) → now.exited ≡ true → count caller (callers now.replies) ≡ count caller now.asked
  answered_once caller over =
      let b = (history-Books 0 caller c initial history allowed).balanced in
      let r = exited-AtRest now (history-Status c initial history allowed) over in
      omega (arith, b.answers, waits-AtRest caller now r)

-- shutdown leaves a start result that has already been posted in its channel: the run that it holds is not
-- stopped, for any state of the loop with no run of its own, and whatever joins.
pub shutdown-posted :
    (has_run : Bool) (cause : Cause) (result : StartResult) (l : Loop)
    → l.start_results ≡ posted result
    → l.run ≡ false
    → ((shutdown has_run cause l).stops ≡ l.stops)
      × ((shutdown has_run cause l).start_results ≡ posted result)
      × ((shutdown has_run cause l).exited ≡ true)
unfolding shutdown retire_current clear_generation_context resolve_pending_start finish_start
shutdown-posted has_run cause result l e n = ground arith
