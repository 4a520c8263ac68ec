-- ===== src/Outbox/Queries.antt =====
-- The queries on the outbox that write nothing: FindByID, FindByTransportRequestID, FindStoreFailedDue,
-- EarliestDue, ListCarryable, ListCarryReview, ListPending, ListConfirmedSince and
-- LatestStateForLocalMessage. A LEFT JOIN on a key is the first row of the joined table, or none.
pub mod Schedule
pub mod Carrying
use om_tui.Common.{
  ℕ, Bool, true, false, ◌&&◌, ◌||◌, Option, none, some, List, [], ◌∷◌, String, Result, ok, err,
  not_found, bad_argument, ◌==◌, ltb, if◌then◌else◌, str_eq, str_lt, opt_is, filter, take, map,
  find_first,
}
use om_tui.Outbox.Types.{
  OutboxState, queued, dispatching, not_dispatched, uncertain, confirmed, store_failed, OutboxKind,
  OutboxItem, Database, Message, Conversation, OutboxAttachment, OutboxReaction, is_pending,
}
use om_tui.Outbox.Tables.{find_row}
use om_tui.Outbox.Leasing.{due_key, due_before, order_by}

-- FindByID.
unfoldable pub find_by_id : String → Database → Result OutboxItem
find_by_id id db = elim (find_row id db.outbox) [ none ↦ err not_found | some r ↦ ok r ]

-- FindByTransportRequestID.
unfoldable pub find_by_transport_request_id : String → String → Database → Result OutboxItem
find_by_transport_request_id account request db =
    elim (find_first (λ r. str_eq r.account_id account && str_eq r.transport_request_id request)
      db.outbox) [ none ↦ err not_found | some r ↦ ok r ]

-- `ORDER BY k, outbox_id` and `ORDER BY k DESC, outbox_id DESC`.
unfoldable pub before_by : (OutboxItem → ℕ) → OutboxItem → OutboxItem → Bool
before_by k a b = ltb (k a) (k b) || (k a == k b && str_lt a.outbox_id b.outbox_id)

unfoldable pub after_by : (OutboxItem → ℕ) → OutboxItem → OutboxItem → Bool
unfolding before_by
after_by k a b = before_by k b a

abbrev pub is_store_failed : OutboxState → Bool
is_store_failed store_failed = true
is_store_failed _ = false

-- FindStoreFailedDue.
unfoldable pub find_store_failed_due : ℕ → Database → Result (List OutboxItem)
find_store_failed_due limit db =
    if limit == 0
    then err bad_argument
    else ok (
        take limit (
          order_by (before_by (λ r. r.updated_at_ms))
            (filter (λ r. is_store_failed r.state) db.outbox)))

-- EarliestDue: MIN over the pending rows, in milliseconds.
unfoldable pub least : ℕ → Option ℕ → ℕ
least n none = n
least n (some m) = if ltb m n then m else n

unfoldable pub earliest_key : List OutboxItem → Option ℕ
unfolding least
earliest_key [] = none
earliest_key (r ∷ rows) =
    let rest = earliest_key rows in
    if is_pending r.state then some (least (due_key r) rest) else rest

unfoldable pub earliest_due : Database → Option ℕ
unfolding earliest_key
earliest_due db = earliest_key db.outbox

-- ListCarryable, and the joins that scanCarryableIntent reads.
pub record CarryableIntent : Type 0 where
  pub item : OutboxItem
  pub conversation : Option Conversation
  pub message : Option Message
  pub attachment : Option OutboxAttachment

unfoldable pub conversation_of : Database → OutboxItem → Option Conversation
conversation_of db r =
    find_first (λ c. str_eq c.account_id r.account_id && str_eq c.conversation_id r.conversation_id)
      db.conversations

unfoldable pub carryable_intent : Database → OutboxItem → CarryableIntent
unfolding conversation_of
carryable_intent db r = record {
  item = r;
  conversation = conversation_of db r;
  message =
      find_first
        (λ m.
          opt_is r.local_message_id m.message_id
          && str_eq m.account_id r.account_id
          && str_eq m.conversation_id r.conversation_id)
        db.messages;
  attachment = find_first (λ a. str_eq a.outbox_id r.outbox_id && a.ordinal == 0) db.attachments;
}

unfoldable pub carryable_rows : Database → List OutboxItem
unfolding before_by
carryable_rows db =
    order_by (before_by (λ r. r.created_at_ms)) (filter (λ r. is_pending r.state) db.outbox)

unfoldable pub list_carryable : Database → List CarryableIntent
unfolding carryable_rows carryable_intent
list_carryable db = map (carryable_intent db) (carryable_rows db)

-- ListCarryReview.
abbrev pub needs_review : OutboxState → Bool
needs_review uncertain = true
needs_review dispatching = true
needs_review store_failed = true
needs_review _ = false

pub record CarryReviewIntent : Type 0 where
  pub item : OutboxItem
  pub remote_conversation_id : String

remote_of : Option Conversation → String
remote_of none = ""
remote_of (some c) = c.remote_conversation_id

unfoldable pub review_rows : Database → List OutboxItem
unfolding before_by
review_rows db =
    order_by (before_by (λ r. r.created_at_ms)) (filter (λ r. needs_review r.state) db.outbox)

unfoldable pub list_carry_review : Database → List CarryReviewIntent
unfolding review_rows conversation_of remote_of
list_carry_review db =
    map (λ r. record { item = r; remote_conversation_id = remote_of (conversation_of db r) })
      (review_rows db)

-- ListPending and ListConfirmedSince.
pub record PendingRow : Type 0 where
  pub item : OutboxItem
  pub message : Option Message
  pub attachment : Option OutboxAttachment
  pub reaction : Option OutboxReaction

unfoldable pub pending_row : Database → OutboxItem → PendingRow
pending_row db r = record {
  item = r;
  message = find_first (λ m. opt_is r.local_message_id m.message_id) db.messages;
  attachment = find_first (λ a. str_eq a.outbox_id r.outbox_id && a.ordinal == 0) db.attachments;
  reaction = find_first (λ x. str_eq x.outbox_id r.outbox_id) db.reactions;
}

-- `state IN ('queued','dispatching','not_dispatched','uncertain','store_failed')`.
abbrev pub in_tray : OutboxState → Bool
in_tray s = is_pending s || needs_review s

-- An empty ID does not filter.
abbrev filters : String → String → Bool
filters wanted id = str_eq wanted "" || str_eq id wanted

unfoldable pub list_pending : String → String → ℕ → Database → Result (List PendingRow)
unfolding pending_row
list_pending account conversation limit db =
    if limit == 0
    then err bad_argument
    else ok (
        map (pending_row db) (
          take limit (
            order_by due_before (
              filter
                (λ r.
                  in_tray r.state
                  && filters account r.account_id
                  && filters conversation r.conversation_id)
                db.outbox))))

abbrev is_confirmed_state : OutboxState → Bool
is_confirmed_state confirmed = true
is_confirmed_state _ = false

unfoldable pub list_confirmed_since : ℕ → ℕ → Database → Result (List PendingRow)
unfolding pending_row before_by
list_confirmed_since since_ms limit db =
    if limit == 0
    then err bad_argument
    else ok (
        map (pending_row db) (
          take limit (
            order_by (before_by (λ r. r.updated_at_ms)) (
              filter (λ r. is_confirmed_state r.state && ltb since_ms r.updated_at_ms) db.outbox))))

-- LatestStateForLocalMessage.
first_state : List OutboxItem → Option OutboxState
first_state [] = none
first_state (r ∷ _) = some r.state

unfoldable pub latest_state_for_local_message : String → String → Database → Option OutboxState
unfolding first_state after_by
latest_state_for_local_message account message db = first_state (
    order_by (after_by (λ r. r.created_at_ms))
      (filter (λ r. str_eq r.account_id account && opt_is r.local_message_id message) db.outbox))
