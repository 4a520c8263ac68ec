-- ===== src/Bridge/Supervisor/Soundness/Fencing.antt =====
-- The fence of the generations: which sink calls pass at any point of a history.
use om_tui.Common.{ℕ, ◌≡◌, ◌⊎◌, Bool, true, false, String, List, arith, eq_iff}
use om_tui.Bridge.Supervisor.State.{State, Loop, Config, Inputs}
use om_tui.Bridge.Supervisor.Loop.{Event}
use om_tui.Bridge.Supervisor.Loop.Run.{steps, new_loop}
use om_tui.Bridge.Supervisor.Sink.{append, forward, heartbeat}
use om_tui.Bridge.Supervisor.Soundness.{Status}
use om_tui.Bridge.Supervisor.Soundness.Histories.{history-Status}

-- A connection attempt of this generation that has not failed: a Start in time, or a run.
abbrev pub Admits : ℕ → Loop → Type 0
Admits generation l =
    (generation ≡ l.snapshot.generation)
    × (l.exited ≡ false)
    × ((l.snapshot.state ≡ State.connecting)
        ⊎ ((l.snapshot.state ≡ State.online) ⊎ (l.snapshot.state ≡ State.degraded)))

open_fence-Admits :
    (generation : ℕ) (l : Loop)
    → Status l.exited l
    → l.gate.active ≡ true
    → l.gate.generation ≡ generation
    → Admits generation l
open_fence-Admits generation l s a g = ground arith

module _ (c : Config) (initial : State) (history : List (Inputs × Event))
    (allowed : (initial ≡ State.stopped) ⊎ (initial ≡ State.unpaired)) where
  abbrev now : Loop
  now = steps c history (new_loop initial)

  -- A record reaches the durable sink, at any point of a history, only from the sink of the current
  -- generation, for this account and with that generation on the record, while the loop runs and is
  -- connecting, online or degraded.
  pub append-forwarded :
      (account : String) (generation : ℕ) (record_account : String) (record_generation : ℕ)
      (has_sink fails : Bool)
      → (append account now.gate generation record_account record_generation has_sink
          fails).forwarded
        ≡ true
      → (record_account ≡ account) × (record_generation ≡ generation) × Admits generation now
  unfolding append forward
  append-forwarded account generation record_account record_generation has_sink fails f =
      let s = history-Status c initial history allowed in
      ground (arith, eq_iff record_account account, open_fence-Admits generation now s)

  -- A heartbeat moves the liveness deadline only as long as its own generation is the current one, and only
  -- while the loop runs and is connecting, online or degraded.
  heartbeat-Admits :
      (generation beat_generation : ℕ)
      → heartbeat now.gate generation beat_generation ≡ true
      → (beat_generation ≡ generation) × Admits generation now
  unfolding heartbeat
  heartbeat-Admits generation beat_generation f =
      let s = history-Status c initial history allowed in
      ground (arith, open_fence-Admits generation now s)
