-- ===== src/Outbox/Types.antt =====
-- The rows and requests of internal/storage/sqlite/outbox.go (and of messages.go, models.go and
-- read_cursors.go as far as the outbox reads or writes them). A pointer is an Option. Times are
-- nanoseconds since the Unix epoch, with every earlier instant at 0; columns are milliseconds.
use om_tui.Common.{
  ℕ, ◌/◌, Bool, true, false, Option, List, String, Result, ok, err, bad_clock, ◌==◌, if◌then◌else◌,
}
use om_tui.Common.Int.{ℤ}

pub data OutboxKind : Type 0 where
  text media reaction read : OutboxKind
  -- Any other string.
  other : OutboxKind

pub data OutboxState : Type 0 where
  queued dispatching not_dispatched uncertain confirmed store_failed rejected canceled : OutboxState

pub data EnqueueDisposition : Type 0 where
  inserted existing : EnqueueDisposition

pub record NewOutboxItem : Type 0 where
  pub outbox_id : String
  pub account_id : String
  pub conversation_id : String
  pub kind : OutboxKind
  pub idempotency_key : String
  pub payload_hash : String
  pub operation : String
  pub local_message_id : String
  pub transport_request_id : String
  pub send_again_of_outbox_id : String
  -- The UnixMilli of a time; `none` is the zero time.
  pub scheduled_for : Option ℤ
  pub scheduled_for_ms : ℤ

pub record OutboxItem : Type 0 where
  pub outbox_id : String
  pub account_id : String
  pub conversation_id : String
  pub kind : OutboxKind
  pub idempotency_key : String
  pub payload_hash : String
  pub operation : String
  pub state : OutboxState
  pub local_message_id : Option String
  pub transport_request_id : String
  pub send_again_of_outbox_id : Option String
  pub result_remote_id : Option String
  pub error_class : Option String
  pub error_code : Option String
  pub error_detail : Option String
  pub attempt_count : ℕ
  pub lease_owner : Option String
  pub lease_token : Option String
  pub lease_expires_at_ms : Option ℕ
  pub transport_called_at_ms : Option ℕ
  pub scheduled_for_ms : ℕ
  pub next_attempt_at_ms : Option ℕ
  pub created_at_ms : ℕ
  pub updated_at_ms : ℕ

pub record OutboxAttachment : Type 0 where
  pub outbox_id : String
  pub blob_hash : String
  pub mime : String
  pub filename : String
  pub ordinal : ℕ
  pub size_bytes : ℕ
  pub created_at_ms : ℕ

pub record OutboxReaction : Type 0 where
  pub outbox_id : String
  pub target_message_id : String
  pub emoji : String
  pub action : String
  pub created_at_ms : ℕ

pub record OutboxReadReceipt : Type 0 where
  pub outbox_id : String
  pub device_id : String
  pub last_read_message_id : String
  pub read_at_ms : ℕ
  pub created_at_ms : ℕ

pub record ReadCursor : Type 0 where
  pub account_id : String
  pub device_id : String
  pub conversation_id : String
  pub last_read_message_id : Option String
  pub last_read_at_ms : ℕ
  pub source_updated_at_ms : Option ℕ
  pub updated_at_ms : ℕ

pub data MessageDirection : Type 0 where
  incoming outgoing : MessageDirection

pub data MessageState : Type 0 where
  active edited deleted : MessageState

pub record Message : Type 0 where
  pub message_id : String
  pub conversation_id : String
  pub account_id : String
  pub remote_message_id : String
  pub sender_identity_id : Option String
  pub direction : MessageDirection
  pub body : String
  pub reply_to_remote_id : Option String
  pub state : MessageState
  pub occurred_at_ms : ℕ
  pub created_at_ms : ℕ
  pub updated_at_ms : ℕ

-- The columns of a conversation that the outbox and the dispatcher read.
pub record Conversation : Type 0 where
  pub conversation_id : String
  pub account_id : String
  pub remote_conversation_id : String

-- The columns of an identity that the dispatcher reads.
pub record Identity : Type 0 where
  pub identity_id : String
  pub account_id : String
  pub canonical_value : String

pub record Device : Type 0 where
  pub device_id : String
  pub account_id : String

-- The tables that one outbox transaction reads or writes.
pub record Database : Type 0 where
  pub outbox : List OutboxItem
  pub messages : List Message
  pub attachments : List OutboxAttachment
  pub reactions : List OutboxReaction
  pub read_receipts : List OutboxReadReceipt
  pub read_cursors : List ReadCursor
  pub conversations : List Conversation
  pub identities : List Identity
  pub devices : List Device
  -- The keys of the accounts table.
  pub accounts : List String

pub record LeaseRequest : Type 0 where
  pub owner : String
  pub now : ℕ
  pub duration : ℕ
  pub limit : ℕ

pub record Attempt : Type 0 where
  pub outbox_id : String
  pub lease_token : String
  pub attempt_token : String
  pub connection_generation : ℕ
  pub started_at : ℕ

pub record Confirmation : Type 0 where
  pub outbox_id : String
  pub lease_token : String
  pub result_remote_id : String
  pub transport_result_id : String

pub record ReconcileRequest : Type 0 where
  pub account_id : String
  pub transport_request_id : String
  pub result_remote_id : String

pub data ReconcileOutcome : Type 0 where
  reconciled enriched noop notfound : ReconcileOutcome

pub record RecoveredLeases : Type 0 where
  pub not_dispatched : ℕ
  pub uncertain : ℕ

-- time.Time.UnixMilli.
abbrev pub unix_milli : ℕ → ℕ
unix_milli t = t / 1000000

-- `r.nowMS`: the repository's clock, in milliseconds, refused where it is not positive.
unfoldable pub now_ms : ℕ → Result ℕ
now_ms now = if unix_milli now == 0 then err bad_clock else ok (unix_milli now)

abbrev pub is_dispatching : OutboxState → Bool
is_dispatching dispatching = true
is_dispatching _ = false

-- `state IN ('queued', 'not_dispatched')`.
abbrev pub is_pending : OutboxState → Bool
is_pending queued = true
is_pending not_dispatched = true
is_pending _ = false
