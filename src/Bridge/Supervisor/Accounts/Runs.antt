-- ===== src/Bridge/Supervisor/Accounts/Runs.antt =====
-- The books under the operations on a connection.
use om_tui.Common.{
  ℕ, ◌≡◌, ◌||◌, Bool, true, false, Option, none, some, arith, if_elim, if_cases, leb,
}
use om_tui.Bridge.Types.{OpError}
use om_tui.Bridge.Supervisor.State.{
  Loop, Config, Inputs, StartChannel, idle, waiting, posted, no_timer, Cause, StartResult, Reply,
  done, failed,
}
use om_tui.Bridge.Supervisor.Failures.{connect_timeout_failure, classify_failure}
use om_tui.Bridge.Supervisor.Generations.{
  is_idle, route_failure, retire_current, clear_generation_context, resolve_pending_start,
  handle_connect_timeout,
}
use om_tui.Bridge.Supervisor.Connecting.{
  handle_ready, handle_run_done, spoiled, settle_start, handle_start_result, receive_start,
  install_run, discard, nil_run_failure, finish_start,
}
use om_tui.Bridge.Supervisor.Probing.{is_clean, refresh_liveness_deadline, schedule_liveness_check}
use om_tui.Bridge.Supervisor.Soundness.{IsSound, start_is_for}
use om_tui.Bridge.Supervisor.Accounts.{IsBalanced, Books, SameBooks-IsBalanced, SameBooks-Books}
use om_tui.Bridge.Supervisor.Accounts.Routing.{route_failure-SameBooks}

-- A result in the channel is the current generation's, and there is no run beside it.
posted-current :
    (result : StartResult) (l : Loop)
    → IsSound l
    → l.start_results ≡ posted result
    → (l.run ≡ false) × (result.generation ≡ l.snapshot.generation)
posted-current result l s e = ground arith

-- An outstanding Start is the current generation's.
abbrev pub IsCurrent : Loop → Type 0
IsCurrent l = (is_idle l.start_results || start_is_for l.snapshot.generation l.start_results) ≡ true

pub IsSound-IsCurrent : (l : Loop) → IsSound l → IsCurrent l
IsSound-IsCurrent l s = ground arith

pub retire_current-IsCurrent : (l : Loop) → IsCurrent l → IsCurrent (retire_current l)
unfolding retire_current clear_generation_context
retire_current-IsCurrent l h = ground arith

module _ (g caller owed : ℕ) where
  abbrev B : Loop → Type 0
  B l = IsBalanced g caller owed l

  abbrev A : Loop → Type 0
  A l = Books g caller owed l

  pub route_failure-IsBalanced :
      (c : Config) (i : Inputs) (failure : OpError) (l : Loop)
      → B l
      → B (route_failure c i failure l)
  route_failure-IsBalanced c i failure l b =
      SameBooks-IsBalanced g caller owed l (route_failure c i failure l)
        (route_failure-SameBooks c i failure l) b

  pub retire_current-IsBalanced : (l : Loop) → B l → B (retire_current l)
  unfolding retire_current clear_generation_context
  retire_current-IsBalanced l b = ground arith

  pub route_failure-Books :
      (c : Config) (i : Inputs) (failure : OpError) (l : Loop)
      → A l
      → A (route_failure c i failure l)
  route_failure-Books c i failure l b =
      SameBooks-Books g caller owed l (route_failure c i failure l)
        (route_failure-SameBooks c i failure l) b

  pub retire_current-Books : (l : Loop) → A l → A (retire_current l)
  unfolding retire_current clear_generation_context
  retire_current-Books l b = ground arith

  pub handle_connect_timeout-Books :
      (c : Config) (i : Inputs) (l : Loop) → A l → A (handle_connect_timeout c i l)
  unfolding handle_connect_timeout
  handle_connect_timeout-Books c i l b =
      let gone = record l { timer = no_timer } in
      ground (
        arith,
        route_failure-Books c i connect_timeout_failure (retire_current gone),
        retire_current-Books gone,
      )

  pub handle_run_done-Books :
      (c : Config) (i : Inputs) (cause : Cause) (l : Loop) → A l → A (handle_run_done c i cause l)
  unfolding handle_run_done
  handle_run_done-Books c i cause l b =
      let gone = record l { timer = no_timer; done_open = false } in
      ground (
        arith,
        handle_connect_timeout-Books c i l,
        route_failure-Books c i (classify_failure (spoiled cause) "run" "run_completed")
            (retire_current gone),
        retire_current-Books gone,
      )

  pub handle_ready-Books :
      (c : Config) (i : Inputs) (finished : Option Cause) (l : Loop)
      → A l
      → A (handle_ready c i finished l)
  unfolding handle_ready refresh_liveness_deadline schedule_liveness_check
  handle_ready-Books c i none l b = ground (arith, handle_connect_timeout-Books c i l)
  handle_ready-Books c i (some cause) l b =
      ground (arith, handle_connect_timeout-Books c i l, handle_run_done-Books c i cause l)

  pub resolve_pending_start-Books :
      (reply : Reply) (l : Loop) → B l → A (resolve_pending_start reply l)
  unfolding resolve_pending_start
  resolve_pending_start-Books reply l b = ground arith

  fail_start-Books :
      (c : Config) (i : Inputs) (failure : OpError) (l : Loop)
      → B l
      → A (resolve_pending_start (failed failure) (route_failure c i failure l))
  fail_start-Books c i failure l b =
      resolve_pending_start-Books (failed failure) (route_failure c i failure l)
        (route_failure-IsBalanced c i failure l b)

  connect_timeout-IsBalanced :
      (c : Config) (i : Inputs) (l : Loop) → B l → B (handle_connect_timeout c i l)
  unfolding handle_connect_timeout
  connect_timeout-IsBalanced c i l b =
      let gone = record l { timer = no_timer } in
      ground (
        arith,
        route_failure-IsBalanced c i connect_timeout_failure (retire_current gone),
        retire_current-IsBalanced gone,
      )

  cleared-IsBalanced : (l : Loop) → B l → B (clear_generation_context l)
  unfolding clear_generation_context
  cleared-IsBalanced l b = ground arith

  untimed-IsBalanced : (l : Loop) → B l → B (record l { timer = no_timer })
  untimed-IsBalanced l b = ground arith

  -- The result leaves the channel: its run is stopped or installed.
  module _ (c : Config) (i : Inputs) (result : StartResult) (l : Loop) where
    abbrev opened : Loop
    opened = record l { start_results = idle; start_timed_out = false }

    discarded-IsBalanced : B l → l.start_results ≡ posted result → B (discard result opened)
    discarded-IsBalanced b e = ground arith

    moved_in-IsBalanced :
        B l
        → l.start_results ≡ posted result
        → l.run ≡ false
        → result.generation ≡ l.snapshot.generation
        → result.has_run ≡ true
        → B (install_run opened)
    unfolding install_run
    moved_in-IsBalanced b e n g r = ground arith

    empty-IsBalanced : B l → l.start_results ≡ posted result → result.has_run ≡ false → B opened
    empty-IsBalanced b e r = ground arith

    settle_start-Books :
        B l
        → l.start_results ≡ posted result
        → l.run ≡ false
        → result.generation ≡ l.snapshot.generation
        → A (settle_start c i result l.start_timed_out opened)
    unfolding settle_start
    settle_start-Books b e n h =
        let untimed = record opened { timer = no_timer } in
        let installed = install_run opened in
        let failure = classify_failure result.cause "start" "start_failed" in
        if_elim A l.start_timed_out
          (fail_start-Books c i connect_timeout_failure
            (clear_generation_context (discard result opened))
            (cleared-IsBalanced (discard result opened) (discarded-IsBalanced b e)))
          (if_elim A (is_clean result.cause)
            (if_cases A result.has_run
              (λ has.
                if_elim A (leb l.connect_deadline i.check)
                  (resolve_pending_start-Books (failed connect_timeout_failure)
                    (handle_connect_timeout c i installed)
                    (connect_timeout-IsBalanced c i installed (moved_in-IsBalanced b e n h has)))
                  (resolve_pending_start-Books done installed (moved_in-IsBalanced b e n h has)))
              (λ has. fail_start-Books c i nil_run_failure (clear_generation_context untimed) (
                cleared-IsBalanced untimed (untimed-IsBalanced opened (empty-IsBalanced b e has)))))
            (fail_start-Books c i failure _ (
              retire_current-IsBalanced _ (
                untimed-IsBalanced _ (
                  if_cases B result.has_run (λ has. moved_in-IsBalanced b e n h has)
                    (λ has. empty-IsBalanced b e has))))))

  pub receive_start-Books :
      (c : Config) (i : Inputs) (channel : StartChannel) (l : Loop)
      → IsSound l
      → A l
      → l.start_results ≡ channel
      → A (receive_start c i channel l)
  unfolding receive_start handle_start_result
  receive_start-Books c i idle l s b e = b
  receive_start-Books c i (waiting generation) l s b e = b
  receive_start-Books c i (posted result) l s b e =
      let facts = posted-current result l s e in
      ground (arith, settle_start-Books c i result l b.balanced e facts.0 facts.1, facts)

  pub finish_start-Books :
      (has_run : Bool) (cause : Cause) (channel : StartChannel) (l : Loop)
      → A l
      → l.start_results ≡ channel
      → IsCurrent l
      → A (finish_start has_run cause channel l)
  unfolding finish_start
  finish_start-Books has_run cause idle l b e h = b
  finish_start-Books has_run cause (waiting generation) l b e h = ground arith
  finish_start-Books has_run cause (posted result) l b e h = b
