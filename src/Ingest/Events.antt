-- ===== src/Ingest/Events.antt =====
-- internal/ingest/worker.go: validateDecodedEvent, against the contract of bridge.Event.
use om_tui.Common.{ℕ, ◌+◌, ◌≡◌, ◌↔◌, Bool, true, false, String, ◌==◌, if◌then◌else◌, arith}

pub data EventKind : Type 0 where
  conversation_event message_event message_mutation_event reaction_event receipt_event : EventKind
  unknown_event : String → EventKind

-- bridge.Event: which of its payloads are not nil.
pub record DecodedEvent : Type 0 where
  pub kind : EventKind
  pub has_conversation : Bool
  pub has_message : Bool
  pub has_message_mutation : Bool
  pub has_reaction : Bool
  pub has_receipt : Bool

abbrev pub one_if : Bool → ℕ
one_if b = if b then 1 else 0

unfoldable pub payloads : DecodedEvent → ℕ
payloads e =
    one_if e.has_conversation
    + one_if e.has_message
    + one_if e.has_message_mutation
    + one_if e.has_reaction
    + one_if e.has_receipt

abbrev pub has_own_payload : DecodedEvent → EventKind → Bool
has_own_payload e conversation_event = e.has_conversation
has_own_payload e message_event = e.has_message
has_own_payload e message_mutation_event = e.has_message_mutation
has_own_payload e reaction_event = e.has_reaction
has_own_payload e receipt_event = e.has_receipt
has_own_payload e (unknown_event _) = false

abbrev pub Payloads : DecodedEvent → Bool → Bool → Bool → Bool → Bool → Type 0
Payloads e conversation message mutation reaction receipt =
    (e.has_conversation ≡ conversation)
    × (e.has_message ≡ message)
    × (e.has_message_mutation ≡ mutation)
    × (e.has_reaction ≡ reaction)
    × (e.has_receipt ≡ receipt)

-- True for a nil error.
unfoldable pub validate_decoded_event : DecodedEvent → Bool
validate_decoded_event e = if payloads e == 1 then has_own_payload e e.kind else false

-- The contract of bridge.Event: exactly one payload, that of the kind.
abbrev pub Carries : EventKind → DecodedEvent → Type 0
Carries conversation_event e = Payloads e true false false false false
Carries message_event e = Payloads e false true false false false
Carries message_mutation_event e = Payloads e false false true false false
Carries reaction_event e = Payloads e false false false true false
Carries receipt_event e = Payloads e false false false false true
Carries (unknown_event _) e = ⊥

-- A decoded event passes exactly when it meets the contract of bridge.Event: its kind is known, the payload
-- of that kind is there, and no other is.
pub validate_decoded_event-Carries :
    (e : DecodedEvent) → (validate_decoded_event e ≡ true) ↔ Carries e.kind e
unfolding validate_decoded_event payloads
validate_decoded_event-Carries e = (λ h. ground arith, λ h. ground arith)
