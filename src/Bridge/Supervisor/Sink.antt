-- ===== src/Bridge/Supervisor/Sink.antt =====
-- The sink of one generation behind the fence: AppendIngress, EmitEphemeral and Beat. The queue of activities
-- drops what does not fit, so whether it takes one is an input.
use om_tui.Common.{ℕ, Bool, true, false, not, ◌&&◌, ◌||◌, String, str_eq, ◌==◌, if◌then◌else◌}
use om_tui.Bridge.Supervisor.State.{Fence}

pub data SinkResult : Type 0 where
  accepted stale_generation downstream_failed : SinkResult

-- What a call did: whether the durable sink was called, whether an activity was offered to the loop, and
-- the caller's result.
pub record Delivery : Type 0 where
  pub forwarded : Bool
  pub offered : Bool
  pub result : SinkResult

abbrev pub stale : Delivery
stale = record { forwarded = false; offered = false; result = stale_generation }

abbrev pub is_current : ℕ → Fence → Bool
is_current generation gate = gate.active && gate.generation == generation

-- generationSink.forward. `has_sink`: the supervisor has a ConnectionSink; `fails`: it returns an error.
unfoldable pub forward : Fence → ℕ → Bool → Bool → Delivery
forward gate generation has_sink fails =
    if is_current generation gate
    then if has_sink && fails
      then record { forwarded = true; offered = false; result = downstream_failed }
      else record { forwarded = has_sink; offered = true; result = accepted }
    else stale

-- AppendIngress and EmitEphemeral, on a record's account and generation.
unfoldable pub append : String → Fence → ℕ → String → ℕ → Bool → Bool → Delivery
append account gate generation record_account record_generation has_sink fails =
    if not (str_eq record_account account) || not (record_generation == generation)
    then stale
    else forward gate generation has_sink fails

-- Beat: whether the activity is offered.
unfoldable pub heartbeat : Fence → ℕ → ℕ → Bool
heartbeat gate generation beat_generation =
    beat_generation == generation && is_current generation gate
