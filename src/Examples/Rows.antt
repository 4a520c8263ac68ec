-- ===== src/Examples/Rows.antt =====
-- The rows, requests and worlds of the examples.
use om_tui.Common.{ℕ, true, false, none, some, List, [], ◌∷◌}
use om_tui.Common.Int.{pos}
use om_tui.Outbox.Types.{
  OutboxItem, NewOutboxItem, Database, Conversation, Message, queued, dispatching, uncertain,
  confirmed, text, outgoing, active, Attempt, LeaseRequest,
}
use om_tui.Dispatch.Types.{World, Times, Faults, leased, missing, failed}

abbrev pub queued_row : OutboxItem
queued_row = record {
  outbox_id = "o1";
  account_id = "acc";
  conversation_id = "conv";
  kind = text;
  idempotency_key = "key";
  payload_hash = "hash";
  operation = "text";
  state = queued;
  local_message_id = some "m1";
  transport_request_id = "req";
  send_again_of_outbox_id = none;
  result_remote_id = none;
  error_class = none;
  error_code = none;
  error_detail = none;
  attempt_count = 0;
  lease_owner = none;
  lease_token = none;
  lease_expires_at_ms = none;
  transport_called_at_ms = none;
  scheduled_for_ms = 1;
  next_attempt_at_ms = none;
  created_at_ms = 1;
  updated_at_ms = 1;
}

abbrev pub leased_row : OutboxItem
leased_row = record queued_row {
  state = dispatching;
  lease_owner = some "worker";
  lease_token = some "token";
  lease_expires_at_ms = some 90;
}

abbrev pub called_row : OutboxItem
called_row = record leased_row { transport_called_at_ms = some 5; attempt_count = 1 }

abbrev pub uncertain_row : OutboxItem
uncertain_row = record queued_row { state = uncertain; attempt_count = 1 }

abbrev pub confirmed_row : OutboxItem
confirmed_row = record queued_row { state = confirmed; attempt_count = 1 }

-- A second intent, behind the first.
abbrev pub later_row : OutboxItem
later_row = record queued_row {
  outbox_id = "o2";
  idempotency_key = "key2";
  transport_request_id = "req2";
}

abbrev pub message : Message
message = record {
  message_id = "m1";
  conversation_id = "conv";
  account_id = "acc";
  remote_message_id = "req";
  sender_identity_id = none;
  direction = outgoing;
  body = "hello";
  reply_to_remote_id = none;
  state = active;
  occurred_at_ms = 1;
  created_at_ms = 1;
  updated_at_ms = 1;
}

abbrev pub conversation : Conversation
conversation = record {
  conversation_id = "conv";
  account_id = "acc";
  remote_conversation_id = "remote";
}

abbrev pub db_of : List OutboxItem → Database
db_of rows = record {
  outbox = rows;
  messages = message ∷ [];
  attachments = [];
  reactions = [];
  read_receipts = [];
  read_cursors = [];
  conversations = conversation ∷ [];
  identities = [];
  devices = [];
  accounts = "acc" ∷ [];
}

abbrev pub attempt : Attempt
attempt = record {
  outbox_id = "o1";
  lease_token = "token";
  attempt_token = "t";
  connection_generation = 1;
  started_at = 10000000;
}

abbrev pub lease_request : LeaseRequest
lease_request = record { owner = "worker"; now = 10000000; duration = 80000000; limit = 1 }

abbrev pub no_faults : Faults
no_faults = record {
  load = false;
  carrier = false;
  conversation = false;
  target = false;
  author = false;
  mark = false;
  confirm = false;
  store = false;
  finish = false;
}

abbrev pub all_at : ℕ → Times
all_at t = record {
  retry_base = t;
  mark_now = t;
  release_now = t;
  final_now = t;
  repoint_now = t;
  store_now = t;
}

-- A world whose send times out, which proves nothing.
abbrev pub timing_out : World
timing_out = record {
  acquired = leased;
  supported = true;
  canceled_early = false;
  canceled_at_mark = false;
  blob = missing;
  times = all_at 10000000;
  faults = no_faults;
  retry_delay = 1000000;
  cause = "";
  error_text = λ _. "";
  generation = 1;
  attempt_token = λ _ t. t;
  send = λ _. failed (record { op = none; text = "timeout"; is_context = true });
}

abbrev pub request : NewOutboxItem
request = record {
  outbox_id = "o9";
  account_id = "acc";
  conversation_id = "conv";
  kind = text;
  idempotency_key = "key";
  payload_hash = "hash";
  operation = "text";
  local_message_id = "";
  transport_request_id = "req9";
  send_again_of_outbox_id = "";
  scheduled_for = none;
  scheduled_for_ms = pos 0;
}
