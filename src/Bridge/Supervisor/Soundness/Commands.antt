-- ===== src/Bridge/Supervisor/Soundness/Commands.antt =====
-- The commands keep the loop sound.
use om_tui.Common.{ℕ, ◌≡◌, refl, false, arith}
use om_tui.Bridge.Types.{OpError}
use om_tui.Bridge.Supervisor.State.{Loop, Config, Inputs, State, Reply, done, LinkedDevice}
use om_tui.Bridge.Supervisor.Failures.{reset_failure_history}
use om_tui.Bridge.Supervisor.Generations.{start_generation, begin_credential_repair}
use om_tui.Bridge.Supervisor.Pairing.{begin_pairing}
use om_tui.Bridge.Supervisor.Loop.{
  drain_ready_work, reply_to, start_and_defer_reply, leave_blocked, start_device, handle_start,
  handle_command, Command, start, retry_blocked, inputs_changed, begin_pair, sync,
}
use om_tui.Bridge.Supervisor.Soundness.{IsSound}
use om_tui.Bridge.Supervisor.Soundness.Arms.{drain_ready_work-IsSound}

pub reply_to-IsSound :
    (caller : ℕ) (reply : Reply) (l : Loop) → IsSound l → IsSound (reply_to caller reply l)
reply_to-IsSound caller reply l s = ground arith

pub start_and_defer_reply-IsSound :
    (c : Config) (i : Inputs) (caller : ℕ) (l : Loop)
    → IsSound l
    → l.repairing ≡ false
    → l.pair_active ≡ false
    → l.probing ≡ false
    → IsSound (start_and_defer_reply c i caller l)
unfolding start_and_defer_reply start_generation
start_and_defer_reply-IsSound c i caller l s r p b = ground arith

pub leave_blocked-IsSound :
    (c : Config) (i : Inputs) (caller : ℕ) (failure : OpError) (l : Loop)
    → IsSound l
    → l.snapshot.state ≡ State.blocked
    → IsSound (leave_blocked c i caller failure l)
unfolding leave_blocked begin_credential_repair
leave_blocked-IsSound c i caller failure l s b =
    ground (arith, start_and_defer_reply-IsSound c i caller l)

pub start_device-IsSound :
    (c : Config) (i : Inputs) (caller : ℕ) (device : LinkedDevice) (l : Loop)
    → IsSound l
    → l.repairing ≡ false
    → l.probing ≡ false
    → IsSound (start_device c i caller device l)
unfolding start_device reset_failure_history
start_device-IsSound c i caller device l s r p = ground (
  arith,
  start_and_defer_reply-IsSound c i caller (record (reset_failure_history l) { request = device }),
)

pub handle_start-IsSound :
    (c : Config) (i : Inputs) (caller : ℕ) (device : LinkedDevice) (l : Loop) (state : State)
    → IsSound l
    → l.snapshot.state ≡ state
    → IsSound (handle_start c i caller device state l)
unfolding handle_start
handle_start-IsSound c i caller device l State.stopped s e =
    ground (arith, start_device-IsSound c i caller device l)
handle_start-IsSound c i caller device l State.unconfigured s e = ground (arith)
handle_start-IsSound c i caller device l State.unpaired s e = reply_to-IsSound _ _ l s
handle_start-IsSound c i caller device l _ s e = reply_to-IsSound _ _ l s

pub handle_command-IsSound :
    (c : Config) (i : Inputs) (caller : ℕ) (request : Command) (l : Loop)
    → IsSound l
    → IsSound (handle_command c i caller request l)
unfolding handle_command reset_failure_history begin_pairing
handle_command-IsSound c i caller (start device) l s =
    handle_start-IsSound c i caller device l l.snapshot.state s refl
handle_command-IsSound c i caller retry_blocked l s =
    ground (arith, leave_blocked-IsSound c i caller l.last_failure (reset_failure_history l))
handle_command-IsSound c i caller (inputs_changed fingerprint) l s =
    ground (arith, leave_blocked-IsSound c i caller l.last_failure (reset_failure_history l))
handle_command-IsSound c i caller begin_pair l s = ground arith
handle_command-IsSound c i caller (sync ready) l s =
    reply_to-IsSound caller done (drain_ready_work c ready l) (drain_ready_work-IsSound c ready l s)
