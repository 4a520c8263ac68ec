-- ===== src/Outbox/Phases/Enqueueing.antt =====
-- Enqueue adds at most one row, at the end, and leaves every row that is there alone.
use om_tui.Common.{
  any, true, false, ℕ, ◌≡◌, Bool, List, [], ◌∷◌, ◌++◌, Result, ok, arith, Option, none, some,
  bind-eq-ok, String, ◌∙◌,
}
use om_tui.Outbox.Types.{
  inserted, existing, NewOutboxItem, OutboxItem, Message, Database, OutboxAttachment,
  OutboxReaction, OutboxReadReceipt, ReadCursor,
}
use om_tui.Outbox.Enqueue.Validation.{EnqueueCarriers}
use om_tui.Outbox.Enqueue.Inserts.{
  has_key, same_identity, insert_outbox, insert_outgoing_message, insert_outbox_attachment,
  insert_outbox_reaction, insert_outbox_read_receipt,
}
use om_tui.Outbox.Enqueue.Cursors.{upsert_read_cursor}
use om_tui.Outbox.Enqueue.{same_intent, Enqueued, replay, insert_all}

-- A step that leaves the outbox table alone.
abbrev KeepsRows : Database → Result Database → Type 0
KeepsRows db o = (db' : Database) → o ≡ ok db' → db.outbox ≡ db'.outbox

insert_outgoing_message-KeepsRows :
    (item : NewOutboxItem) (m : Option Message) (ms : ℕ) (db : Database)
    → KeepsRows db (insert_outgoing_message item m ms db)
unfolding insert_outgoing_message
insert_outgoing_message-KeepsRows item none ms db db' h = ground arith
insert_outgoing_message-KeepsRows item (some m) ms db db' h = ground arith

insert_outbox_attachment-KeepsRows :
    (id : String) (a : Option OutboxAttachment) (ms : ℕ) (db : Database)
    → KeepsRows db (insert_outbox_attachment id a ms db)
unfolding insert_outbox_attachment
insert_outbox_attachment-KeepsRows id none ms db db' h = ground arith
insert_outbox_attachment-KeepsRows id (some a) ms db db' h = ground arith

insert_outbox_reaction-KeepsRows :
    (id : String) (x : Option OutboxReaction) (ms : ℕ) (db : Database)
    → KeepsRows db (insert_outbox_reaction id x ms db)
unfolding insert_outbox_reaction
insert_outbox_reaction-KeepsRows id none ms db db' h = ground arith
insert_outbox_reaction-KeepsRows id (some x) ms db db' h = ground arith

insert_outbox_read_receipt-KeepsRows :
    (id : String) (x : Option OutboxReadReceipt) (ms : ℕ) (db : Database)
    → KeepsRows db (insert_outbox_read_receipt id x ms db)
unfolding insert_outbox_read_receipt
insert_outbox_read_receipt-KeepsRows id none ms db db' h = ground arith
insert_outbox_read_receipt-KeepsRows id (some x) ms db db' h = ground arith

upsert_read_cursor-KeepsRows :
    (c : Option ReadCursor) (db : Database) → KeepsRows db (upsert_read_cursor c db)
unfolding upsert_read_cursor
upsert_read_cursor-KeepsRows none db db' h = ground arith
upsert_read_cursor-KeepsRows (some c) db db' h = ground arith

-- The rows after the insertion of the carriers, and the row that is returned.
pub insert_all-rows :
    (item : NewOutboxItem) (m : Option Message) (c : EnqueueCarriers) (ms : ℕ) (row : OutboxItem)
    (db db' : Database) (e : Enqueued)
    → insert_all item m c ms row db ≡ ok (db', e)
    → (db.outbox ≡ db'.outbox) × (e.0 ≡ row) × (e.1 ≡ inserted)
unfolding insert_all
insert_all-rows item m c ms row db db' e h =
    let (db₁, e₁, k₁) = bind-eq-ok (insert_outgoing_message item m ms db) _ h in
    let (db₂, e₂, k₂) =
      bind-eq-ok (insert_outbox_attachment item.outbox_id c.attachment ms db₁) _ k₁ in
    let (db₃, e₃, k₃) = bind-eq-ok (insert_outbox_reaction item.outbox_id c.reaction ms db₂) _ k₂ in
    let (db₄, e₄, k₄) =
      bind-eq-ok (insert_outbox_read_receipt item.outbox_id c.read_receipt ms db₃) _ k₃ in
    let (db₅, e₅, k₅) = bind-eq-ok (upsert_read_cursor c.read_cursor db₄) _ k₄ in
    (
      insert_outgoing_message-KeepsRows item m ms db db₁ e₁
          ∙ (insert_outbox_attachment-KeepsRows item.outbox_id c.attachment ms db₁ db₂ e₂
              ∙ (insert_outbox_reaction-KeepsRows item.outbox_id c.reaction ms db₂ db₃ e₃
                  ∙ (insert_outbox_read_receipt-KeepsRows item.outbox_id c.read_receipt ms db₃ db₄
                        e₄
                      ∙ (upsert_read_cursor-KeepsRows c.read_cursor db₄ db₅ e₅
                          ∙ ground (arith, k₅))))),
      ground (arith, k₅),
      ground (arith, k₅),
    )

pub insert_outbox-rows :
    (key_first : Bool) (row : OutboxItem) (db : Database) (rows : List OutboxItem)
    → insert_outbox key_first row db ≡ ok (some rows)
    → (db.outbox ++ row ∷ [] ≡ rows)
      × (any (same_identity row) db.outbox ≡ false)
      × (any (has_key row.account_id row.idempotency_key) db.outbox ≡ false)
unfolding insert_outbox
insert_outbox-rows key_first row db rows h = (ground arith, ground arith, ground arith)

pub replay-unchanged :
    (item : NewOutboxItem) (m : Option Message) (found : Option OutboxItem) (db db' : Database)
    (e : Enqueued)
    → replay item m found db ≡ ok (db', e)
    → (db ≡ db') × (found ≡ some e.0) × (same_intent item e.0 ≡ true) × (e.1 ≡ existing)
unfolding replay
replay-unchanged item m none db db' e h = cc
replay-unchanged item m (some row) db db' e h =
    (ground arith, ground arith, ground arith, ground arith)
