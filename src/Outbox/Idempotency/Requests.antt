-- ===== src/Outbox/Idempotency/Requests.antt =====
-- The row of an enqueue, found or added, against the request.
use om_tui.Common.{
  eq_iff, str_eq, ◌&&◌, String, Bool-cases, suc, ◌<◌, sym, arith, if◌then◌else◌, Option-cases, ℕ,
  ◌≡◌, refl, subst, true, List, [], ◌∷◌, ok, Option, none, some, inl, inr, find_first,
}
use om_tui.Outbox.Types.{queued, unix_milli, NewOutboxItem, OutboxItem, now_ms}
use om_tui.Common.Int.{ℤ, pos, negsuc, is_zero}
use om_tui.Outbox.Enqueue.Validation.{positive_ms, scheduled_for_milliseconds}
use om_tui.Outbox.Enqueue.Inserts.{new_row, has_key}
use om_tui.Outbox.Enqueue.{same_intent, same_send_again_link}

-- The row bears the request's key and is of the same intent.
pub record SameRequest (item : NewOutboxItem) (row : OutboxItem) : Type 0 where
  pub account : row.account_id ≡ item.account_id
  pub key : row.idempotency_key ≡ item.idempotency_key
  pub operation : row.operation ≡ item.operation
  pub conversation : row.conversation_id ≡ item.conversation_id
  pub payload : row.payload_hash ≡ item.payload_hash
  pub predecessor :
      (elim row.send_again_of_outbox_id [ none ↦ "" | some id ↦ id ]) ≡ item.send_again_of_outbox_id

find_first-has_key :
    (account key : String) (rows : List OutboxItem) (row : OutboxItem)
    → find_first (has_key account key) rows ≡ some row
    → has_key account key row ≡ true
find_first-has_key account key [] row f = cc
find_first-has_key account key (r ∷ rows) row f = elim (Bool-cases (has_key account key r)) [
  | inl e ↦
      let same : r ≡ row = ground (arith, e, f) in subst (λ x. has_key account key x ≡ true) same e
  | inr e ↦ find_first-has_key account key rows row (ground (arith, e, f))
]

same_send_again_link_lem :
    (stored : Option String) (incoming : String)
    → same_send_again_link stored incoming ≡ true
    → (elim stored [ none ↦ "" | some id ↦ id ]) ≡ incoming
unfolding same_send_again_link
same_send_again_link_lem none incoming h = sym ((eq_iff incoming "").0 h)
same_send_again_link_lem (some id) incoming h = (eq_iff id incoming).0 h

pub found-SameRequest :
    (item : NewOutboxItem) (rows : List OutboxItem) (row : OutboxItem)
    → find_first (has_key item.account_id item.idempotency_key) rows ≡ some row
    → same_intent item row ≡ true
    → SameRequest item row
unfolding same_intent has_key
found-SameRequest item rows row f h =
    let keyed = find_first-has_key item.account_id item.idempotency_key rows row f in
    let alike : str_eq row.operation item.operation
          && str_eq row.conversation_id item.conversation_id
          && str_eq row.payload_hash item.payload_hash
          && same_send_again_link row.send_again_of_outbox_id item.send_again_of_outbox_id
        ≡ true =
      h in
    record {
      account = (eq_iff row.account_id item.account_id).0 (ground (arith, keyed));
      key = (eq_iff row.idempotency_key item.idempotency_key).0 (ground (arith, keyed));
      operation = (eq_iff row.operation item.operation).0 (ground (arith, alike));
      conversation = (eq_iff row.conversation_id item.conversation_id).0 (ground (arith, alike));
      payload = (eq_iff row.payload_hash item.payload_hash).0 (ground (arith, alike));
      predecessor =
          same_send_again_link_lem row.send_again_of_outbox_id item.send_again_of_outbox_id
            (ground (arith, alike));
    }

-- The time that the request is scheduled for: scheduled_for where it is set.
abbrev pub asked_time : NewOutboxItem → ℤ
asked_time item = elim item.scheduled_for [ none ↦ item.scheduled_for_ms | some t ↦ t ]

-- The row asks for what the request asks for, and has never been leased, called or failed.
pub record Fresh (item : NewOutboxItem) (row : OutboxItem) : Type 0 where
  pub id : row.outbox_id ≡ item.outbox_id
  pub account : row.account_id ≡ item.account_id
  pub conversation : row.conversation_id ≡ item.conversation_id
  pub kind : row.kind ≡ item.kind
  pub key : row.idempotency_key ≡ item.idempotency_key
  pub payload : row.payload_hash ≡ item.payload_hash
  pub operation : row.operation ≡ item.operation
  pub request : row.transport_request_id ≡ item.transport_request_id
  pub queued : row.state ≡ queued
  pub no_attempt : row.attempt_count ≡ 0
  pub no_owner : row.lease_owner ≡ none
  pub no_token : row.lease_token ≡ none
  pub no_expiry : row.lease_expires_at_ms ≡ none
  pub no_call : row.transport_called_at_ms ≡ none
  pub no_next_attempt : row.next_attempt_at_ms ≡ none
  pub no_error : row.error_class ≡ none
  pub no_result : row.result_remote_id ≡ none

pub new_row-Fresh :
    (item : NewOutboxItem) (scheduled_ms ms : ℕ) → Fresh item (new_row item scheduled_ms ms)
unfolding new_row
new_row-Fresh item scheduled_ms ms = record {
  id = refl;
  account = refl;
  conversation = refl;
  kind = refl;
  key = refl;
  payload = refl;
  operation = refl;
  request = refl;
  queued = refl;
  no_attempt = refl;
  no_owner = refl;
  no_token = refl;
  no_expiry = refl;
  no_call = refl;
  no_next_attempt = refl;
  no_error = refl;
  no_result = refl;
}

-- When the row is due and how old it is: a schedule of 0 stands for the clock.
pub record Timed (item : NewOutboxItem) (now : ℕ) (row : OutboxItem) : Type 0 where
  pub due_time :
      pos row.scheduled_for_ms
      ≡ (if is_zero (asked_time item) then pos (unix_milli now) else asked_time item)
  pub due_after_epoch : 0 < row.scheduled_for_ms
  pub creation : row.created_at_ms ≡ unix_milli now
  pub update : row.updated_at_ms ≡ unix_milli now

positive_ms-asked :
    (asked : ℤ) (ms scheduled_ms : ℕ)
    → positive_ms ms asked ≡ ok scheduled_ms
    → (pos scheduled_ms ≡ (if is_zero asked then pos ms else asked)) × (0 < scheduled_ms)
unfolding positive_ms
positive_ms-asked (pos ℕ.zero) ms scheduled_ms h = (ground (arith, h), ground (arith, h))
positive_ms-asked (pos (suc n)) ms scheduled_ms h = (ground (arith, h), ground (arith, h))
positive_ms-asked (negsuc n) ms scheduled_ms h = cc

scheduled-asked :
    (item : NewOutboxItem) (ms scheduled_ms : ℕ)
    → scheduled_for_milliseconds item ms ≡ ok scheduled_ms
    → positive_ms ms (asked_time item) ≡ ok scheduled_ms
unfolding scheduled_for_milliseconds
scheduled-asked item ms scheduled_ms h = elim (Option-cases item.scheduled_for) [
  | inl n ↦ rw n (rw n at h)
  | inr (t, n) ↦ rw n (rw n at h)
]

pub new_row-Timed :
    (item : NewOutboxItem) (now scheduled_ms ms : ℕ)
    → now_ms now ≡ ok ms
    → scheduled_for_milliseconds item ms ≡ ok scheduled_ms
    → Timed item now (new_row item scheduled_ms ms)
unfolding new_row now_ms
new_row-Timed item now scheduled_ms ms h k =
    let at : ms ≡ unix_milli now = ground (arith, h) in
    let (same, positive) =
      positive_ms-asked (asked_time item) ms scheduled_ms
        (scheduled-asked item ms scheduled_ms k) in
    record {
      due_time =
          subst
            (λ (m : ℕ).
              pos scheduled_ms ≡ (if is_zero (asked_time item) then pos m else asked_time item))
            at same;
      due_after_epoch = positive;
      creation = at;
      update = at;
    }
