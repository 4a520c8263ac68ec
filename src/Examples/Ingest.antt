-- ===== src/Examples/Ingest.antt =====
-- A projection that finds the database busy twice.
use om_tui.Common.{ℕ, Bool, ◌+◌, ◌≤◌, ◌≡◌, true, false, ◌↔◌, if◌then◌else◌, leb}
use om_tui.Ingest.Retrying.{Fault, no_fault, busy, Ended, retry_transient, retry_transient-Ended}
use om_tui.Ingest.Events.{
  DecodedEvent, message_event, validate_decoded_event, Carries, validate_decoded_event-Carries,
}

abbrev busy_twice : ℕ → ℕ × Fault
busy_twice n = (n + 1, if leb n 1 then busy else no_fault)

-- The wait after the second busy call is canceled.
abbrev second_wait : ℕ → Bool
second_wait n = leb 1 n

retry_transient-Ended_example :
    (retries : ℕ) × (retries ≤ 3)
    × Ended 3 retries busy_twice second_wait 0 0 (retry_transient busy_twice second_wait 0)
retry_transient-Ended_example = retry_transient-Ended busy_twice second_wait 0

abbrev reply : DecodedEvent
reply = record {
  kind = message_event;
  has_conversation = false;
  has_message = true;
  has_message_mutation = false;
  has_reaction = false;
  has_receipt = false;
}

validate_decoded_event-Carries_example :
    (validate_decoded_event reply ≡ true) ↔ Carries message_event reply
validate_decoded_event-Carries_example = validate_decoded_event-Carries reply
