-- ===== src/Bridge/Supervisor/Accounts/Commands.antt =====
-- The books under the commands and over whole histories.
use om_tui.Common.{ℕ, arith, if_elim, str_eq, ◌==◌, if◌then◌else◌, ◌||◌}
use om_tui.Bridge.Types.{OpError}
use om_tui.Bridge.Supervisor.State.{Loop, Config, Inputs, State, Reply, done, LinkedDevice}
use om_tui.Bridge.Supervisor.Failures.{reset_failure_history, is_expired}
use om_tui.Bridge.Supervisor.Generations.{start_generation, begin_credential_repair, publish, enter}
use om_tui.Bridge.Supervisor.Pairing.{begin_pairing}
use om_tui.Bridge.Supervisor.Loop.{
  drain_ready_work, reply_to, start_and_defer_reply, leave_blocked, start_device, handle_start,
  handle_command, Command, start, retry_blocked, inputs_changed, begin_pair, sync, is_blocked, ask,
  take_command,
}
use om_tui.Bridge.Supervisor.Accounts.{Books, SameBooks-Books}
use om_tui.Bridge.Supervisor.Accounts.Routing.{begin_credential_repair-SameBooks}
use om_tui.Bridge.Supervisor.Accounts.Arms.{drain_ready_work-Books}

-- The answer that a command's caller is owed.
abbrev pub due_to : ℕ → ℕ → ℕ
due_to caller who = if caller == who then 1 else 0

module _ (g caller who : ℕ) where
  abbrev Owing : Loop → Type 0
  Owing l = Books g caller (due_to caller who) l

  abbrev Settled : Loop → Type 0
  Settled l = Books g caller 0 l

  reply_to-Books : (reply : Reply) (l : Loop) → Owing l → Settled (reply_to who reply l)
  reply_to-Books reply l b = ground arith

  start_and_defer_reply-Books :
      (c : Config) (i : Inputs) (l : Loop) → Owing l → Settled (start_and_defer_reply c i who l)
  unfolding start_and_defer_reply start_generation
  start_and_defer_reply-Books c i l b = ground arith

  reset_failure_history-Books : (l : Loop) → Owing l → Owing (reset_failure_history l)
  unfolding reset_failure_history
  reset_failure_history-Books l b = ground arith

  leave_blocked-Books :
      (c : Config) (i : Inputs) (failure : OpError) (l : Loop)
      → Owing l
      → Settled (leave_blocked c i who failure l)
  unfolding leave_blocked
  leave_blocked-Books c i failure l b =
      if_elim Settled (is_expired failure.class)
        (reply_to-Books done (begin_credential_repair c failure l) (
          SameBooks-Books g caller (due_to caller who) l (begin_credential_repair c failure l)
            (begin_credential_repair-SameBooks c failure l) b))
        (if_elim Settled (str_eq failure.operation "pair")
          (reply_to-Books done (publish (enter State.unpaired l)) (ground arith))
          (start_and_defer_reply-Books c i l b))

  start_device-Books :
      (c : Config) (i : Inputs) (device : LinkedDevice) (l : Loop)
      → Owing l
      → Settled (start_device c i who device l)
  unfolding start_device
  start_device-Books c i device l b =
      let asked = record (reset_failure_history l) { request = device } in
      if_elim Settled l.pair_active (reply_to-Books _ l b)
        (start_and_defer_reply-Books c i asked (ground (arith, reset_failure_history-Books l b)))

  handle_start-Books :
      (c : Config) (i : Inputs) (device : LinkedDevice) (l : Loop) (state : State)
      → Owing l
      → Settled (handle_start c i who device state l)
  unfolding handle_start
  handle_start-Books c i device l State.stopped b = start_device-Books c i device l b
  handle_start-Books c i device l State.unconfigured b = start_device-Books c i device l b
  handle_start-Books c i device l State.unpaired b = reply_to-Books _ l b
  handle_start-Books c i device l _ b = reply_to-Books _ l b

  handle_command-Books :
      (c : Config) (i : Inputs) (request : Command) (l : Loop)
      → Owing l
      → Settled (handle_command c i who request l)
  unfolding handle_command begin_pairing
  handle_command-Books c i (start device) l b = handle_start-Books c i device l l.snapshot.state b
  handle_command-Books c i retry_blocked l b =
      if_elim Settled (is_blocked l.snapshot.state)
        (leave_blocked-Books c i l.last_failure (reset_failure_history l)
          (reset_failure_history-Books l b))
        (reply_to-Books _ l b)
  handle_command-Books c i (inputs_changed fingerprint) l b =
      if_elim Settled (is_blocked l.snapshot.state)
        (if_elim Settled (str_eq fingerprint "" || str_eq fingerprint l.snapshot.error_fingerprint)
          (reply_to-Books _ l b)
          (leave_blocked-Books c i l.last_failure (reset_failure_history l)
            (reset_failure_history-Books l b)))
        (reply_to-Books _ l b)
  handle_command-Books c i begin_pair l b = ground arith
  handle_command-Books c i (sync ready) l b =
      reply_to-Books done (drain_ready_work c ready l)
        (drain_ready_work-Books g caller (due_to caller who) c ready l b)

  pub take_command-Books :
      (c : Config) (i : Inputs) (request : Command) (l : Loop)
      → Settled l
      → Settled (take_command c i who request l)
  unfolding take_command
  take_command-Books c i request l b =
      if_elim Settled l.closing (ground arith)
        (handle_command-Books c i request (ask who l) (ground arith))
