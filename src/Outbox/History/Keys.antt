-- ===== src/Outbox/History/Keys.antt =====
-- An idempotency key, once used, names one intent for ever.
use om_tui.Common.{
  ℕ, ◌≡◌, refl, Bool, true, Option, some, List, [], ◌∷◌, String, str_eq_refl, inl, inr, subst, any,
  ◌++◌, arith, Result, ok, err, find_first,
}
use om_tui.Outbox.Types.{OutboxItem, NewOutboxItem, Message, Database, existing}
use om_tui.Outbox.Phases.{SameIntent, Evolves, Chain}
use om_tui.Outbox.Phases.Operations.{MayDisprove}
use om_tui.Outbox.Enqueue.{enqueue, enqueue_tx, Enqueued, same_intent, commit_enqueue}
use om_tui.Outbox.Enqueue.Inserts.{has_key, new_row}
use om_tui.Outbox.Enqueue.Validation.{EnqueueCarriers}
use om_tui.Outbox.Idempotency.{enqueue_tx-cases}
use om_tui.Outbox.History.{Call, Effect, moved, disproved, apply, run, apply-Effect}
use om_tui.Outbox.History.Invariants.{Chain-SameIntent, SameIntent-refl}

module _ (account key : String) where
  Evolves-any_key :
      (R : OutboxItem → OutboxItem → Type 0)
      → ((r s : OutboxItem) → R r s → SameIntent r s)
      → (xs ys : List OutboxItem) → Evolves R xs ys
      → any (has_key account key) xs ≡ true
      → any (has_key account key) ys ≡ true
  unfolding has_key
  Evolves-any_key R same [] ys h f = cc
  Evolves-any_key R same (x ∷ xs) [] h f = absurd h
  Evolves-any_key R same (x ∷ xs) (y ∷ ys) h f =
      let k = same x y h.0 in
      ground (arith, k.same_account, k.same_key, Evolves-any_key R same xs ys h.1)

  MayDisprove-SameIntent : (id : String) (r s : OutboxItem) → MayDisprove id r s → SameIntent r s
  MayDisprove-SameIntent id r s (inl e) = rw e (SameIntent-refl s)
  MayDisprove-SameIntent id r s (inr (_, d)) = d.intent

  step-any_key :
      (c : Call) (db db' : Database)
      → Effect db db' c
      → any (has_key account key) db.outbox ≡ true
      → any (has_key account key) db'.outbox ≡ true
  step-any_key c db db' (moved m) f =
      Evolves-any_key Chain (λ r s c. Chain-SameIntent c) db.outbox db'.outbox m f
  step-any_key c db db' (disproved id _ _ _ _ _ _ m) f =
      Evolves-any_key (MayDisprove id) (MayDisprove-SameIntent id) db.outbox db'.outbox m f

  pub run-any_key :
      (cs : List Call) (db : Database)
      → any (has_key account key) db.outbox ≡ true
      → any (has_key account key) (run cs db).outbox ≡ true
  unfolding run
  run-any_key [] db f = f
  run-any_key (c ∷ cs) db f =
      run-any_key cs (apply c db) (step-any_key c db (apply c db) (apply-Effect c db) f)

find_first-any :
    (p : OutboxItem → Bool) (xs : List OutboxItem) (r : OutboxItem)
    → find_first p xs ≡ some r
    → any p xs ≡ true
find_first-any p [] r h = cc
find_first-any p (x ∷ xs) r h = ground (arith, find_first-any p xs r)

find_first-holds :
    (p : OutboxItem → Bool) (xs : List OutboxItem) (r : OutboxItem)
    → find_first p xs ≡ some r
    → p r ≡ true
find_first-holds p [] r h = cc
find_first-holds p (x ∷ xs) r h = ground (arith, find_first-holds p xs r)

any-last :
    (p : OutboxItem → Bool) (xs : List OutboxItem) (r : OutboxItem)
    → p r ≡ true
    → any p (xs ++ r ∷ []) ≡ true
any-last p [] r h = ground arith
any-last p (x ∷ xs) r h = ground (arith, any-last p xs r h)

-- What an enqueue does where its key is in use.
pub record OnlyReplays (item : NewOutboxItem) (db : Database) (o : Database × Result Enqueued)
    : Type 0 where
  pub unchanged : db ≡ o.0
  pub returned :
      (e : Enqueued)
      → o.1 ≡ ok e
      → (find_first (has_key item.account_id item.idempotency_key) db.outbox ≡ some e.0)
        × (same_intent item e.0 ≡ true)
        × (e.1 ≡ existing)

module _ (key_first : Bool) (item : NewOutboxItem) (m : Option Message) (c : EnqueueCarriers)
    (now : ℕ) where
  replays :
      (db : Database) (o : Result (Database × Enqueued))
      → enqueue_tx key_first item m c now db ≡ o
      → any (has_key item.account_id item.idempotency_key) db.outbox ≡ true
      → OnlyReplays item db (commit_enqueue db o)
  replays db (err x) h used = record { unchanged = refl; returned = λ e k. cc }
  replays db (ok (db', e)) h used = elim (enqueue_tx-cases key_first item m c now db db' e h) [
    | inl r ↦ record {
      unchanged = r.unchanged;
      returned = λ e' k.
          let same : e ≡ e' = cc in
          subst
            (λ (x : Enqueued).
              (find_first (has_key item.account_id item.idempotency_key) db.outbox ≡ some x.0)
              × (same_intent item x.0 ≡ true)
              × (x.1 ≡ existing))
            same (r.found, r.same, r.disposition);
    }
    | inr a ↦ absurd (ground (arith, a.key_free, used))
  ]

  key_used_once :
      (cs : List Call) (db : Database)
      → any (has_key item.account_id item.idempotency_key) db.outbox ≡ true
      → OnlyReplays item (run cs db) (enqueue key_first item m c now (run cs db))
  unfolding enqueue
  key_used_once cs db used =
      replays (run cs db) _ refl (run-any_key item.account_id item.idempotency_key cs db used)

  new_row-has_key :
      (scheduled_ms ms : ℕ)
      → has_key item.account_id item.idempotency_key (new_row item scheduled_ms ms) ≡ true
  unfolding has_key new_row
  new_row-has_key scheduled_ms ms =
      ground (arith, str_eq_refl item.account_id, str_eq_refl item.idempotency_key)

  keyed :
      (db : Database) (o : Result (Database × Enqueued)) (e : Enqueued)
      → enqueue_tx key_first item m c now db ≡ o
      → (commit_enqueue db o).1 ≡ ok e
      → any (has_key item.account_id item.idempotency_key) (commit_enqueue db o).0.outbox ≡ true
  keyed db (err x) e h k = cc
  keyed db (ok (db', e')) e h k = elim (enqueue_tx-cases key_first item m c now db db' e' h) [
    | inl r ↦
        subst (λ (x : Database). any (has_key item.account_id item.idempotency_key) x.outbox ≡ true)
          r.unchanged (find_first-any _ db.outbox e'.0 r.found)
    | inr a ↦
        subst (λ xs. any (has_key item.account_id item.idempotency_key) xs ≡ true) a.rows
          (any-last _ db.outbox e'.0 (rw a.row (new_row-has_key a.scheduled_ms a.ms)))
  ]

  -- An enqueue that returns no error leaves its key in use.
  enqueue-any_key :
      (db : Database) (e : Enqueued)
      → (enqueue key_first item m c now db).1 ≡ ok e
      → any
          (has_key item.account_id item.idempotency_key)
          (enqueue key_first item m c now db).0.outbox
        ≡ true
  unfolding enqueue
  enqueue-any_key db e h = keyed db _ e refl h

-- Let an enqueue return no error, and let any history of repository calls follow. Every further enqueue
-- under the same account and idempotency key, of whatever content, leaves the database as it is; and if
-- it returns no error, it returns the row that bears the key, as existing, and that row has the operation,
-- conversation, payload hash and predecessor that were asked for.
pub enqueued_once :
    (first first' : Bool) (item item' : NewOutboxItem) (m m' : Option Message)
    (c c' : EnqueueCarriers) (now later : ℕ) (db : Database) (e : Enqueued) (cs : List Call)
    → (enqueue first item m c now db).1 ≡ ok e
    → item'.account_id ≡ item.account_id
    → item'.idempotency_key ≡ item.idempotency_key
    → OnlyReplays item'
        (run cs (enqueue first item m c now db).0)
        (enqueue first' item' m' c' later (run cs (enqueue first item m c now db).0))
enqueued_once first first' item item' m m' c c' now later db e cs h same_account same_key =
    key_used_once first' item' m' c' later cs (enqueue first item m c now db).0
      (rw (same_account, same_key) (enqueue-any_key first item m c now db e h))
