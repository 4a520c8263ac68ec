-- ===== src/Bridge/Supervisor/Soundness.antt =====
-- What the loop's fields are in each state, and that every step keeps it so.
pub mod Routing
pub mod Connecting
pub mod Arms
pub mod Commands
pub mod Histories
pub mod Fencing
pub mod Blocked
pub mod Construction
use om_tui.Common.{
  ℕ, ◌≤◌, ◌≡◌, Option, Bool, true, false, not, ◌&&◌, ◌||◌, none, ◌==◌, if◌then◌else◌,
}
use om_tui.Bridge.Supervisor.State.{
  State, Timer, no_timer, connect_timer, liveness_timer, backoff_timer, probe_timer, pair_timer,
  StartChannel, idle, waiting, posted, Loop,
}

-- The generation that an outstanding Start is for.
abbrev pub start_is_for : ℕ → StartChannel → Bool
start_is_for generation idle = false
start_is_for generation (waiting g) = g == generation
start_is_for generation (posted result) = result.generation == generation

abbrev pub is_connect_timer : ℕ → Timer → Bool
is_connect_timer deadline (connect_timer t) = t == deadline
is_connect_timer deadline _ = false

abbrev pub is_no_timer : Timer → Bool
is_no_timer no_timer = true
is_no_timer _ = false

abbrev pub is_backoff_timer : Timer → Bool
is_backoff_timer (backoff_timer _) = true
is_backoff_timer _ = false

abbrev pub is_probe_timer : Timer → Bool
is_probe_timer (probe_timer _) = true
is_probe_timer _ = false

-- No timer while no code was offered, and the code's expiry after that.
abbrev pub is_pair_timer : ℕ → Timer → Bool
is_pair_timer expires_at (pair_timer t) = t == expires_at
is_pair_timer expires_at no_timer = true
is_pair_timer expires_at _ = false

-- A liveness check that comes no later than a deadline.
abbrev pub ChecksBy : ℕ → Timer → Type 0
ChecksBy deadline (liveness_timer t) = t ≤ deadline
ChecksBy deadline _ = ⊥

-- No connection attempt: no run, no Start, no probe, and a closed fence.
abbrev pub NoConnection : Loop → Type 0
NoConnection l =
    (l.run ≡ false) × (l.start_results ≡ idle) × (l.probing ≡ false) × (l.gate.active ≡ false)

-- A run of the current generation whose adapter may use the sink.
abbrev pub Running : Loop → Type 0
Running l =
    (l.run ≡ true)
    × (l.start_results ≡ idle)
    × (l.gate.active ≡ true)
    × (l.repairing ≡ false)
    × (l.pair_active ≡ false)

-- A Start of the current generation. One that exceeded the deadline is canceled, behind a closed fence and
-- with no timer.
abbrev pub Starting : Loop → Type 0
Starting l =
    (start_is_for l.snapshot.generation l.start_results ≡ true)
    × (l.run ≡ false)
    × (l.gate.active ≡ not l.start_timed_out)
    × (l.start_canceled ≡ l.start_timed_out)
    × (l.repairing ≡ false)
    × (l.pair_active ≡ false)
    × ((if l.start_timed_out
          then is_no_timer l.timer
          else is_connect_timer l.connect_deadline l.timer)
        ≡ true)

abbrev pub Connecting : StartChannel → Loop → Type 0
Connecting idle l = Running l × (is_connect_timer l.connect_deadline l.timer ≡ true)
Connecting _ l = Starting l

-- A loop that is closing may have dropped a timer or a repair that it no longer needs.
abbrev pub Expects : State → Loop → Type 0
Expects State.unconfigured l = ⊥
Expects State.stopping l = ⊥
Expects State.stopped l =
    NoConnection l × (l.timer ≡ no_timer) × (l.repairing ≡ false) × (l.pair_active ≡ false)
Expects State.blocked l =
    NoConnection l × (l.timer ≡ no_timer) × (l.repairing ≡ false) × (l.pair_active ≡ false)
Expects State.unpaired l =
    NoConnection l
    × (l.timer ≡ no_timer)
    × (l.repairing ≡ false)
    × ((not l.pair_active || l.pair_expired) ≡ true)
Expects State.pairing l =
    NoConnection l
    × (l.repairing ≡ false)
    × (l.pair_active ≡ true)
    × (l.pair_expired ≡ false)
    × (is_pair_timer l.pair_expires_at l.timer ≡ true)
Expects State.connecting l = (l.probing ≡ false) × Connecting l.start_results l
Expects State.online l =
    Running l × (l.probing ≡ false) × ChecksBy l.snapshot.liveness_deadline l.timer
Expects State.degraded l =
    Running l
    × (l.probing ≡ true)
    × ((if l.probe_timed_out then is_no_timer l.timer else is_probe_timer l.timer) ≡ true)
Expects State.backoff l =
    NoConnection l
    × (l.repairing ≡ false)
    × (l.pair_active ≡ false)
    × ((l.closing || is_backoff_timer l.timer) ≡ true)
Expects State.repairing_credentials l =
    NoConnection l
    × (l.timer ≡ no_timer)
    × (l.pair_active ≡ false)
    × ((l.closing || l.repairing) ≡ true)

pub record IsSound (l : Loop) : Type 0 where
  -- The fence is that of the current generation.
  pub fenced : l.gate.generation ≡ l.snapshot.generation
  pub expected : Expects l.snapshot.state l
  -- The loop has not returned.
  pub alive : l.exited ≡ false

-- After shutdown the loop itself waits for nothing, and no adapter can use the sink. A start result that was
-- posted and not received may still be in its channel.
pub record AtRest (l : Loop) : Type 0 where
  pub resting : l.snapshot.state ≡ State.stopped
  pub timerless : l.timer ≡ no_timer
  pub no_run : l.run ≡ false
  pub no_probe : l.probing ≡ false
  pub no_repair : l.repairing ≡ false
  pub no_pairing : l.pair_active ≡ false
  pub fence_closed : l.gate.active ≡ false
  pub nobody_waits : l.pending_start_reply ≡ none

-- A loop before and after the end of its run.
abbrev pub Status : Bool → Loop → Type 0
Status true l = AtRest l
Status false l = IsSound l
