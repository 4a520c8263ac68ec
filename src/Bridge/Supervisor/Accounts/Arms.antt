-- ===== src/Bridge/Supervisor/Accounts/Arms.antt =====
-- The books under the select's arms, the due deadlines and the commands.
use om_tui.Common.{ℕ, false, List, [], ◌∷◌, arith, if_elim, if_cases, String}
use om_tui.Bridge.Supervisor.State.{
  Loop, Config, Inputs, no_timer, Cause, ActivityKind, PairEventKind, qr, code, blocked, other,
  LinkedDevice, Timer, connect_timer, liveness_timer, backoff_timer, probe_timer, pair_timer,
}
use om_tui.Bridge.Supervisor.Failures.{reset_failure_history, classify_failure}
use om_tui.Bridge.Supervisor.Generations.{start_generation, retire_current}
use om_tui.Bridge.Supervisor.Probing.{
  begin_probe, probe_timeout_failure, handle_probe_result, refresh_liveness_deadline,
  schedule_liveness_check, handle_activity, handle_repair_result,
}
use om_tui.Bridge.Supervisor.Pairing.{
  expire_pairing, handle_pair_event, expire_if_due, handle_pair_result,
}
use om_tui.Bridge.Supervisor.Loop.{
  fire, enforce_due_deadline, Work, activity, run_done, readiness, probe_result, repair_result,
  pair_event, pair_result, tick, perform_work, round, drain_ready_work,
}
use om_tui.Bridge.Supervisor.Accounts.{Books, SameBooks, SameBooks-Books}
use om_tui.Bridge.Supervisor.Accounts.Runs.{
  route_failure-Books, retire_current-Books, handle_connect_timeout-Books, handle_run_done-Books,
  handle_ready-Books,
}

handle_activity-SameBooks :
    (c : Config) (i : Inputs) (generation : ℕ) (kind : ActivityKind) (time : ℕ) (l : Loop)
    → SameBooks l (handle_activity c i generation kind time l)
unfolding handle_activity reset_failure_history refresh_liveness_deadline schedule_liveness_check
handle_activity-SameBooks c i generation ActivityKind.event time l = ground arith
handle_activity-SameBooks c i generation ActivityKind.beat time l = ground arith

handle_pair_event-SameBooks :
    (i : Inputs) (epoch : ℕ) (kind : PairEventKind) (expires_at : ℕ) (message : String) (l : Loop)
    → SameBooks l (handle_pair_event i epoch kind expires_at message l)
unfolding handle_pair_event expire_pairing
handle_pair_event-SameBooks i epoch qr expires_at message l = ground arith
handle_pair_event-SameBooks i epoch code expires_at message l = ground arith
handle_pair_event-SameBooks i epoch blocked expires_at message l = ground arith
handle_pair_event-SameBooks i epoch other expires_at message l = ground arith

handle_pair_result-SameBooks :
    (i : Inputs) (epoch : ℕ) (cause : Cause) (device : LinkedDevice) (l : Loop)
    → SameBooks l (handle_pair_result i epoch cause device l)
unfolding handle_pair_result expire_pairing expire_if_due classify_failure
handle_pair_result-SameBooks i epoch cause device l = ground arith

module _ (g caller owed : ℕ) where
  abbrev A : Loop → Type 0
  A l = Books g caller owed l

  pub start_generation-Books :
      (c : Config) (i : Inputs) (l : Loop) → A l → A (start_generation c i l).0
  unfolding start_generation
  start_generation-Books c i l b = ground arith

  handle_probe_result-Books :
      (c : Config) (i : Inputs) (generation alive_at : ℕ) (cause : Cause) (l : Loop)
      → A l
      → A (handle_probe_result c i generation alive_at cause l)
  unfolding handle_probe_result reset_failure_history refresh_liveness_deadline
      schedule_liveness_check
  handle_probe_result-Books c i generation alive_at cause l b =
      let answered = record l { probing = false; probe_timed_out = false; timer = no_timer } in
      let failure = classify_failure cause "probe" "probe_failed" in
      ground (
        arith,
        route_failure-Books g caller owed c i probe_timeout_failure (retire_current answered),
        route_failure-Books g caller owed c i failure (retire_current answered),
        retire_current-Books g caller owed answered,
      )

  handle_repair_result-Books :
      (c : Config) (i : Inputs) (epoch : ℕ) (cause : Cause) (l : Loop)
      → A l
      → A (handle_repair_result c i epoch cause l)
  unfolding handle_repair_result
  handle_repair_result-Books c i epoch cause l b =
      ground
        (arith, start_generation-Books c i (record l { repairing = false; repair_failed = false }))

  fire-Books : (c : Config) (i : Inputs) (timer : Timer) (l : Loop) → A l → A (fire c i timer l)
  unfolding fire begin_probe schedule_liveness_check expire_pairing
  fire-Books c i no_timer l b = b
  fire-Books c i (connect_timer t) l b = handle_connect_timeout-Books g caller owed c i l b
  fire-Books c i (liveness_timer t) l b = ground arith
  fire-Books c i (backoff_timer t) l b = ground (arith, start_generation-Books c i l)
  fire-Books c i (probe_timer t) l b = ground arith
  fire-Books c i (pair_timer t) l b = ground arith

  pub enforce_due_deadline-Books :
      (c : Config) (i : Inputs) (l : Loop) → A l → A (enforce_due_deadline c i l).0
  unfolding enforce_due_deadline
  enforce_due_deadline-Books c i l b =
      ground (arith, fire-Books c i l.timer (record l { timer = no_timer }))

  pub perform_work-Books :
      (c : Config) (i : Inputs) (w : Work) (l : Loop) → A l → A (perform_work c i w l)
  unfolding perform_work
  perform_work-Books c i (activity generation kind time) l b =
      SameBooks-Books g caller owed l (handle_activity c i generation kind time l)
        (handle_activity-SameBooks c i generation kind time l) b
  perform_work-Books c i (run_done cause) l b =
      if_elim A l.done_open (handle_run_done-Books g caller owed c i cause l b) b
  perform_work-Books c i (readiness finished) l b =
      if_elim A l.ready (handle_ready-Books g caller owed c i finished l b) b
  perform_work-Books c i (probe_result generation alive_at cause) l b =
      handle_probe_result-Books c i generation alive_at cause l b
  perform_work-Books c i (repair_result epoch cause) l b =
      handle_repair_result-Books c i epoch cause l b
  perform_work-Books c i (pair_event epoch kind expires_at message) l b =
      SameBooks-Books g caller owed l (handle_pair_event i epoch kind expires_at message l)
        (handle_pair_event-SameBooks i epoch kind expires_at message l) b
  perform_work-Books c i (pair_result epoch cause device) l b =
      SameBooks-Books g caller owed l (handle_pair_result i epoch cause device l)
        (handle_pair_result-SameBooks i epoch cause device l) b
  perform_work-Books c i tick l b = b

  round-Books : (c : Config) (i : Inputs) (w : Work) (l : Loop) → A l → A (round c i w l)
  unfolding round
  round-Books c i w l b =
      let checked = enforce_due_deadline c i l in
      if_cases A checked.1 (λ _. enforce_due_deadline-Books c i l b)
        (λ _. perform_work-Books c i w l b)

  pub drain_ready_work-Books :
      (c : Config) (ready : List (Inputs × Work)) (l : Loop) → A l → A (drain_ready_work c ready l)
  unfolding drain_ready_work
  drain_ready_work-Books c [] l b = b
  drain_ready_work-Books c ((i, w) ∷ rest) l b =
      drain_ready_work-Books c rest (round c i w l) (round-Books c i w l b)
