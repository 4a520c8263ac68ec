-- ===== src/Outbox/Idempotency.antt =====
-- What a successful enqueue has done: found the intent that its key names, or added one new row.
pub mod Requests
use om_tui.Common.{
  sym, ℕ, ◌≡◌, refl, subst, Bool, true, false, List, [], ◌∷◌, ◌++◌, Result, ok, err, Option, none,
  some, bind-eq-ok, ◌∙◌, ◌⊎◌, inl, inr, any, find_first,
}
use om_tui.Outbox.Types.{inserted, existing, NewOutboxItem, OutboxItem, Message, Database, now_ms}
use om_tui.Outbox.Enqueue.Validation.{
  EnqueueCarriers, validate_new_outbox_item, validate_outbox_attachment_pair,
  scheduled_for_milliseconds,
}
use om_tui.Outbox.Enqueue.Inserts.{new_row, has_key, same_identity, insert_outbox}
use om_tui.Outbox.Enqueue.{same_intent, Enqueued, enqueue_row, enqueue_tx, enqueue, commit_enqueue}
use om_tui.Outbox.Phases.{Evolves, Chain, here}
use om_tui.Outbox.Phases.Evolution.{Evolves-append}
use om_tui.Outbox.Phases.Operations.{Moved, unmoved}
use om_tui.Outbox.Phases.Enqueueing.{insert_all-rows, insert_outbox-rows, replay-unchanged}
use Requests.{SameRequest, found-SameRequest, Fresh, Timed, new_row-Fresh, new_row-Timed}

-- The key was in use for the same intent, and nothing was written.
pub record Replayed (item : NewOutboxItem) (db db' : Database) (e : Enqueued) : Type 0 where
  pub unchanged : db ≡ db'
  pub found : find_first (has_key item.account_id item.idempotency_key) db.outbox ≡ some e.0
  pub same : same_intent item e.0 ≡ true
  pub request : SameRequest item e.0
  pub disposition : e.1 ≡ existing

-- The key was free, and one queued row stands behind the others.
pub record Added (item : NewOutboxItem) (now : ℕ) (db db' : Database) (e : Enqueued) : Type 0 where
  pub scheduled_ms : ℕ
  pub ms : ℕ
  pub fresh : Fresh item e.0
  pub timed : Timed item now e.0
  pub row : e.0 ≡ new_row item scheduled_ms ms
  pub rows : db.outbox ++ e.0 ∷ [] ≡ db'.outbox
  pub key_free : any (has_key item.account_id item.idempotency_key) db.outbox ≡ false
  pub identity_free : any (same_identity e.0) db.outbox ≡ false
  pub disposition : e.1 ≡ inserted

enqueue_row-cases :
    (key_first : Bool) (item : NewOutboxItem) (m : Option Message) (c : EnqueueCarriers)
    (now scheduled_ms ms : ℕ) (db db' : Database) (e : Enqueued) (rows : Option (List OutboxItem))
    → now_ms now ≡ ok ms
    → scheduled_for_milliseconds item ms ≡ ok scheduled_ms
    → insert_outbox key_first (new_row item scheduled_ms ms) db ≡ ok rows
    → enqueue_row item m c ms (new_row item scheduled_ms ms) db rows ≡ ok (db', e)
    → Replayed item db db' e ⊎ Added item now db db' e
unfolding enqueue_row
enqueue_row-cases key_first item m c now scheduled_ms ms db db' e none t s i h =
    let (u, f, same, d) = replay-unchanged item m _ db db' e h in
    inl (record {
      unchanged = u;
      found = f;
      same = same;
      request = found-SameRequest item db.outbox e.0 f same;
      disposition = d;
    })
enqueue_row-cases key_first item m c now scheduled_ms ms db db' e (some rows) t s i h =
    let (kept, row, d) = insert_all-rows item m c ms _ (record db { outbox = rows }) db' e h in
    let (added, apart, free) =
      insert_outbox-rows key_first (new_row item scheduled_ms ms) db rows i in
    inr (record {
      scheduled_ms = scheduled_ms;
      ms = ms;
      fresh = subst (Fresh item) (sym row) (new_row-Fresh item scheduled_ms ms);
      timed = subst (Timed item now) (sym row) (new_row-Timed item now scheduled_ms ms t s);
      row = row;
      rows = rw row (added ∙ kept);
      key_free = unfold new_row in free;
      identity_free = rw row apart;
      disposition = d;
    })

-- The transaction of an enqueue that succeeds has done one of two things. Either the account's key was in
-- use: nothing was written, and the row that bears the key, of the same operation, conversation, payload
-- hash and predecessor, is returned as existing. Or the key was free, and so were the row's other unique
-- keys: one row stands behind the others, and is returned as inserted. It is queued with no attempt,
-- lease, marker, error or result, and bears the request's ID, account, conversation, kind, key, payload hash,
-- operation and transport request ID. It is created now, and due at the time that the request is
-- scheduled for, or now where that is 0; the due time is after the epoch.
pub enqueue_tx-cases :
    (key_first : Bool) (item : NewOutboxItem) (m : Option Message) (c : EnqueueCarriers) (now : ℕ)
    (db db' : Database) (e : Enqueued)
    → enqueue_tx key_first item m c now db ≡ ok (db', e)
    → Replayed item db db' e ⊎ Added item now db db' e
unfolding enqueue_tx
enqueue_tx-cases key_first item m c now db db' e h =
    let (_, _, k) = bind-eq-ok (validate_new_outbox_item item) _ h in
    let (_, _, k₁) = bind-eq-ok (validate_outbox_attachment_pair item c) _ k in
    let (ms, t, k₂) = bind-eq-ok (now_ms now) _ k₁ in
    let (scheduled_ms, s, k₃) = bind-eq-ok (scheduled_for_milliseconds item ms) _ k₂ in
    let (rows, i, k₄) =
      bind-eq-ok (insert_outbox key_first (new_row item scheduled_ms ms) db) _ k₃ in
    enqueue_row-cases key_first item m c now scheduled_ms ms db db' e rows t s i k₄

enqueued-Moved :
    (key_first : Bool) (item : NewOutboxItem) (m : Option Message) (c : EnqueueCarriers) (now : ℕ)
    (db : Database) (o : Result (Database × Enqueued))
    → enqueue_tx key_first item m c now db ≡ o
    → Moved db (commit_enqueue db o).0
enqueued-Moved key_first item m c now db (err x) h = unmoved db
enqueued-Moved key_first item m c now db (ok (db', e)) h =
    elim (enqueue_tx-cases key_first item m c now db db' e h) [
      | inl r ↦ subst (Moved db) r.unchanged (unmoved db)
      | inr a ↦
          subst (Evolves Chain db.outbox) a.rows (Evolves-append Chain (λ r. here) db.outbox _)
    ]

pub enqueue-Moved :
    (key_first : Bool) (item : NewOutboxItem) (m : Option Message) (c : EnqueueCarriers) (now : ℕ)
    (db : Database)
    → Moved db (enqueue key_first item m c now db).0
unfolding enqueue
enqueue-Moved key_first item m c now db = enqueued-Moved key_first item m c now db _ refl
