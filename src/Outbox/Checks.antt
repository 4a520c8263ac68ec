-- ===== src/Outbox/Checks.antt =====
-- The CHECK constraints of internal/storage/sqlite/migrations/0005_outbox.sql on one outbox row.
pub mod Parts
use om_tui.Common.{
  ℕ, Bool, true, false, not, ◌&&◌, Option, none, some, String, leb, ltb, is_none, is_some,
  sql_blank,
}
use om_tui.Outbox.Types.{OutboxKind, other, OutboxState, dispatching, not_dispatched, OutboxItem}

-- A nullable column that must be positive.
abbrev pub opt_positive : Option ℕ → Bool
opt_positive none = true
opt_positive (some n) = ltb 0 n

-- A nullable text column with `trim(column) <> ''`.
abbrev pub opt_text : Option String → Bool
opt_text none = true
opt_text (some t) = not (sql_blank t)

-- The lease columns are set exactly while the row is dispatching, and only then may the
-- transport-call marker be set; a row that waits for a retry has its time.
abbrev pub phase_check :
    OutboxState → Option String → Option String → Option ℕ → Option ℕ → Option ℕ → Bool
phase_check dispatching owner token expires called next =
    is_some owner && is_some token && is_some expires
phase_check not_dispatched owner token expires called next =
    is_none owner && is_none token && is_none expires && is_none called && is_some next
phase_check _ owner token expires called next =
    is_none owner && is_none token && is_none expires && is_none called

unfoldable pub times_check : OutboxItem → Bool
times_check r =
    opt_positive r.lease_expires_at_ms
    && opt_positive r.transport_called_at_ms
    && ltb 0 r.scheduled_for_ms
    && opt_positive r.next_attempt_at_ms
    && ltb 0 r.created_at_ms
    && leb r.created_at_ms r.updated_at_ms

abbrev pub is_known_kind : OutboxKind → Bool
is_known_kind other = false
is_known_kind _ = true

-- The text columns that no operation but the insertion writes.
unfoldable pub identity_check : OutboxItem → Bool
identity_check r =
    not (sql_blank r.outbox_id)
    && not (sql_blank r.conversation_id)
    && not (sql_blank r.idempotency_key)
    && not (sql_blank r.payload_hash)
    && not (sql_blank r.operation)
    && opt_text r.local_message_id
    && not (sql_blank r.transport_request_id)
    && is_known_kind r.kind

unfoldable pub text_check : OutboxItem → Bool
text_check r = opt_text r.result_remote_id && opt_text r.lease_owner && opt_text r.lease_token

unfoldable pub row_check : OutboxItem → Bool
row_check r =
    phase_check r.state r.lease_owner r.lease_token r.lease_expires_at_ms r.transport_called_at_ms
      r.next_attempt_at_ms
    && times_check r
    && identity_check r
    && text_check r
