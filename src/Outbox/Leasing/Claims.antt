-- ===== src/Outbox/Leasing/Claims.antt =====
-- What the leases that LeaseDue returns were and are.
use mathlib.Core.List.{Perm}
use om_tui.Common.{
  ◌∙◌, take, Result-cases, filter, suc, ℕ, ◌+◌, ◌≤◌, ◌≡◌, refl, sym, ap, Option, List, [], ◌∷◌,
  String, inl, inr, arith, ok, bind-eq-ok, length, length-take-le, subst,
}
use om_tui.Outbox.Types.{OutboxItem, Database, LeaseRequest, unix_milli}
use om_tui.Outbox.Tables.Unique.{HasUniqueIds}
use om_tui.Outbox.Leasing.{
  order_by, due_before, due, claim, claim_all, candidates, lease_times, lease_due,
}
use om_tui.Outbox.Leasing.Order.{
  is_due_now, due_lem, filter-due, InOrder, order_by-InOrder, order_by-Perm,
}
use om_tui.Outbox.Leasing.Rounds.{Leased, Claiming, claim_lem, lease_not_due}

-- The leases, each of the row at its place, with the tokens drawn from the i-th on.
pub AllLeased :
    (ℕ → Option String)
    → String
    → ℕ
    → ℕ
    → List OutboxItem
    → List OutboxItem
    → ℕ
    → List OutboxItem
    → List OutboxItem
    → Type 0
AllLeased draw owner e ms rows rows' i [] [] = Unit
AllLeased draw owner e ms rows rows' i (c ∷ cs) (l ∷ ls) =
    Leased (draw i) owner e ms rows rows' c.outbox_id l
    × AllLeased draw owner e ms rows rows' (i + 1) cs ls
AllLeased draw owner e ms rows rows' i _ _ = ⊥

AllLeased-widen :
    (draw : ℕ → Option String) (owner : String) (e ms : ℕ) (rows rows₁ rows' : List OutboxItem)
    (i : ℕ) (cs ls : List OutboxItem)
    → Claiming ms rows rows₁
    → AllLeased draw owner e ms rows₁ rows' i cs ls
    → AllLeased draw owner e ms rows rows' i cs ls
unfolding AllLeased
AllLeased-widen draw owner e ms rows rows₁ rows' i [] [] c h = tt
AllLeased-widen draw owner e ms rows rows₁ rows' i (x ∷ cs) (l ∷ ls) c (one, all) = (
  record {
    before = one.before;
    token = one.token;
    drew = one.drew;
    stored = c.kept x.outbox_id one.before one.stored (due_lem ms one.before ∙ one.was_due);
    was_due = one.was_due;
    made = one.made;
    held = one.held;
  },
  AllLeased-widen draw owner e ms rows rows₁ rows' (i + 1) cs ls c all,
)
AllLeased-widen draw owner e ms rows rows₁ rows' i (x ∷ cs) [] c h = absurd h
AllLeased-widen draw owner e ms rows rows₁ rows' i [] (l ∷ ls) c h = absurd h

held_later :
    (drawn : Option String) (owner : String) (e ms : ℕ) (rows rows₁ rows' : List OutboxItem)
    (id : String) (l : OutboxItem)
    → Leased drawn owner e ms rows rows₁ id l
    → Claiming ms rows₁ rows'
    → Leased drawn owner e ms rows rows' id l
held_later drawn owner e ms rows rows₁ rows' id l one c = record {
  before = one.before;
  token = one.token;
  drew = one.drew;
  stored = one.stored;
  was_due = one.was_due;
  made = one.made;
  held =
      c.keeps id l one.held (ap (due ms) one.made ∙ lease_not_due owner one.token e ms one.before);
}

Claiming-trans :
    (ms : ℕ) (rows rows₁ rows' : List OutboxItem)
    → Claiming ms rows rows₁
    → Claiming ms rows₁ rows'
    → Claiming ms rows rows'
Claiming-trans ms rows rows₁ rows' a b = record {
  keeps = λ k l f h. b.keeps k l (a.keeps k l f h) h;
  kept = λ k l f h. a.kept k l (b.kept k l f h) h;
}

-- What a batch of rounds has done between two tables.
record Batch (draw : ℕ → Option String) (owner : String) (e ms : ℕ) (rows rows' : List OutboxItem)
    (i : ℕ) (cs leases : List OutboxItem) : Type 0 where
  leased : AllLeased draw owner e ms rows rows' i cs leases
  unique : HasUniqueIds rows'
  claiming : Claiming ms rows rows'

claim_all-Batch :
    (draw : ℕ → Option String) (owner : String) (e ms i : ℕ)
    (cs rows leases rows' : List OutboxItem)
    → HasUniqueIds rows
    → claim_all draw owner e ms i cs rows ≡ ok (leases, rows')
    → Batch draw owner e ms rows rows' i cs leases
unfolding claim_all AllLeased
claim_all-Batch draw owner e ms i [] rows leases rows' u h =
    let same : [] ≡ leases = cc in
    let same_rows : rows ≡ rows' = cc in
    let done : Batch draw owner e ms rows rows i [] [] = record {
      leased = tt;
      unique = u;
      claiming = record { keeps = λ k l f n. f; kept = λ k l f d. f };
    } in
    subst (λ xs. Batch draw owner e ms rows rows' i [] xs) same
      (subst (λ xs. Batch draw owner e ms rows xs i [] []) same_rows done)
claim_all-Batch draw owner e ms i (c ∷ cs) rows leases rows' u h =
    let ((lease, rows₁), a, k) = bind-eq-ok (claim owner e ms c.outbox_id (draw i) rows) _ h in
    let ((leases', rows₂), b, k') = bind-eq-ok (claim_all draw owner e ms (i + 1) cs rows₁) _ k in
    let (one, u₁, first) = claim_lem owner e ms c.outbox_id (draw i) rows lease rows₁ u a in
    let later = claim_all-Batch draw owner e ms (i + 1) cs rows₁ leases' rows₂ u₁ b in
    let same : lease ∷ leases' ≡ leases = cc in
    let same_rows : rows₂ ≡ rows' = cc in
    let done : Batch draw owner e ms rows rows₂ i (c ∷ cs) (lease ∷ leases') = record {
      leased = (
        held_later (draw i) owner e ms rows rows₁ rows₂ c.outbox_id lease one later.claiming,
        AllLeased-widen draw owner e ms rows rows₁ rows₂ (i + 1) cs leases' first later.leased,
      );
      unique = later.unique;
      claiming = Claiming-trans ms rows rows₁ rows₂ first later.claiming;
    } in
    subst (λ xs. Batch draw owner e ms rows rows' i (c ∷ cs) xs) same
      (subst (λ xs. Batch draw owner e ms rows xs i (c ∷ cs) (lease ∷ leases')) same_rows done)

AllLeased-length :
    (draw : ℕ → Option String) (owner : String) (e ms : ℕ) (rows rows' : List OutboxItem) (i : ℕ)
    (cs leases : List OutboxItem)
    → AllLeased draw owner e ms rows rows' i cs leases
    → length leases ≡ length cs
unfolding AllLeased
AllLeased-length draw owner e ms rows rows' i [] [] h = refl
AllLeased-length draw owner e ms rows rows' i (c ∷ cs) (l ∷ ls) h =
    ap suc (AllLeased-length draw owner e ms rows rows' (i + 1) cs ls h.1)
AllLeased-length draw owner e ms rows rows' i (c ∷ cs) [] h = absurd h
AllLeased-length draw owner e ms rows rows' i [] (l ∷ ls) h = absurd h

times :
    (req : LeaseRequest) (t : ℕ × ℕ)
    → lease_times req ≡ ok t
    → (t.0 ≡ unix_milli req.now) × (t.1 ≡ unix_milli (req.now + req.duration))
unfolding lease_times
times req t h = (ground (arith, h), ground (arith, h))

lease_due-claims :
    (draw : ℕ → Option String) (req : LeaseRequest) (db : Database) (leases : List OutboxItem)
    → (lease_due draw req db).1 ≡ ok leases
    → (rows : List OutboxItem) × (claim_all draw req.owner
          (unix_milli (req.now + req.duration))
          (unix_milli req.now)
          0
          (candidates (unix_milli req.now) req.limit db.outbox)
          db.outbox
        ≡ ok (leases, rows))
      × ((lease_due draw req db).0.outbox ≡ rows)
unfolding lease_due
lease_due-claims draw req db leases h = elim (Result-cases (lease_times req)) [
  | inr (x, e) ↦ absurd (ground (arith, e, h))
  | inl (t, e) ↦
      let (at, until) = times req t e in
      elim (Result-cases (
        claim_all draw req.owner (unix_milli (req.now + req.duration)) (unix_milli req.now) 0
          (candidates (unix_milli req.now) req.limit db.outbox) db.outbox)) [
            | inr (x, k) ↦ absurd (ground (arith, e, h, k, at, until))
            | inl ((ls, rows), k) ↦
                (rows, ground (arith, e, h, k, at, until), ground (arith, e, h, k, at, until))
          ]
]

-- On a table with unique IDs, let LeaseDue return leases. There is a queue, a permutation of the rows that are
-- due by the request's clock (queued or not dispatched, past schedule and next attempt, under no lease
-- that runs), ordered by due time, then creation, then ID. The i-th lease is of the i-th row of
-- the queue, as it was stored before the call; it differs from that row in that it is dispatching under the
-- request's owner and expiry with the i-th token drawn, has no transport-call marker, next attempt or
-- error, and was updated now; and it stands in the table after the call. The leases are as many as the
-- queue has rows, but at most the limit, and the IDs are still unique.
pub lease_due-AllLeased :
    (draw : ℕ → Option String) (req : LeaseRequest) (db : Database) (leases : List OutboxItem)
    → HasUniqueIds db.outbox
    → (lease_due draw req db).1 ≡ ok leases
    → (queue : List OutboxItem) × Perm queue (filter (is_due_now (unix_milli req.now)) db.outbox)
      × InOrder queue
      × AllLeased draw req.owner
          (unix_milli (req.now + req.duration))
          (unix_milli req.now)
          db.outbox
          (lease_due draw req db).0.outbox
          0
          (take req.limit queue)
          leases
      × (length leases ≤ req.limit)
      × HasUniqueIds (lease_due draw req db).0.outbox
unfolding candidates
lease_due-AllLeased draw req db leases u h =
    let (rows, claims, committed) = lease_due-claims draw req db leases h in
    let ms = unix_milli req.now in
    let e = unix_milli (req.now + req.duration) in
    let found = filter (due ms) db.outbox in
    let queue = order_by due_before found in
    let batch = claim_all-Batch draw req.owner e ms 0 _ db.outbox leases rows u claims in
    (
      queue,
      subst (Perm queue) (filter-due ms db.outbox) (order_by-Perm due_before found),
      order_by-InOrder found,
      subst (λ xs. AllLeased draw req.owner e ms db.outbox xs 0 (take req.limit queue) leases)
          (sym committed) batch.leased,
      omega (
        arith,
        AllLeased-length draw req.owner e ms db.outbox rows 0 _ leases batch.leased,
        length-take-le req.limit queue,
      ),
      subst HasUniqueIds (sym committed) batch.unique,
    )
