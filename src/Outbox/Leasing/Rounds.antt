-- ===== src/Outbox/Leasing/Rounds.antt =====
-- One round of the loop of LeaseDue: the row that it leases, and those that it leaves.
use mathlib.Core.Bool.{false≢true}
use om_tui.Common.{
  Bool-cases, ◌∙◌, ℕ, ◌≡◌, refl, sym, ap, Bool, true, false, ◌&&◌, Option, none, some, List, String,
  inl, inr, arith, Option-cases, ok, str_eq, eq_iff, subst,
}
use om_tui.Outbox.Types.{dispatching, OutboxItem}
use om_tui.Outbox.Tables.{find_row, affected, update_where, exec_update, violates}
use om_tui.Outbox.Tables.Unique.{
  HasUniqueIds, hits, updated, affected-hits, find_row-updated, find_row-other,
  update_where-HasUniqueIds, breaks, violates-breaks,
}
use om_tui.Outbox.Leasing.{due, set_leased, claim, claim_exactly, read_back}
use om_tui.Outbox.Leasing.Order.{is_due_now, due_lem}

-- The lease of a row that was due: it has the token, is dispatching under the owner until the expiry, and has
-- no marker, no next attempt and no error.
abbrev pub leased_as : String → String → ℕ → ℕ → OutboxItem → OutboxItem
leased_as owner token expires_ms ms before = record before {
  state = dispatching;
  error_class = none;
  error_code = none;
  error_detail = none;
  lease_owner = some owner;
  lease_token = some token;
  lease_expires_at_ms = some expires_ms;
  transport_called_at_ms = none;
  next_attempt_at_ms = none;
  updated_at_ms = ms;
}

-- A lease between two tables: the row with its ID was due in the first, and the lease, with the token drawn for
-- it, stands in the second.
pub record Leased (drawn : Option String) (owner : String) (expires_ms ms : ℕ)
    (rows rows' : List OutboxItem) (id : String) (lease : OutboxItem) : Type 0 where
  pub before : OutboxItem
  pub token : String
  pub drew : drawn ≡ some token
  pub stored : find_row id rows ≡ some before
  pub was_due : is_due_now ms before ≡ true
  pub made : lease ≡ leased_as owner token expires_ms ms before
  pub held : find_row id rows' ≡ some lease

-- What holds between a table and a later one while leases are claimed: a row that is not due stays, and
-- a row that is still due has stayed.
pub record Claiming (ms : ℕ) (rows rows' : List OutboxItem) : Type 0 where
  pub keeps :
      (k : String) (l : OutboxItem)
      → find_row k rows ≡ some l
      → due ms l ≡ false
      → find_row k rows' ≡ some l
  pub kept :
      (k : String) (l : OutboxItem)
      → find_row k rows' ≡ some l
      → due ms l ≡ true
      → find_row k rows ≡ some l

pub lease_not_due :
    (owner token : String) (e ms : ℕ) (r : OutboxItem)
    → due ms (leased_as owner token e ms r) ≡ false
unfolding due
lease_not_due owner token e ms r = ground arith

module _ (owner : String) (e ms : ℕ) (id token : String) where
  claimable : OutboxItem → Bool
  claimable r = str_eq r.outbox_id id && due ms r

  claimable_names : (r : OutboxItem) → claimable r ≡ true → r.outbox_id ≡ id
  unfolding claimable
  claimable_names r h = ground (arith, eq_iff r.outbox_id id)

  leased_keeps : (r : OutboxItem) → (set_leased owner token e ms r).outbox_id ≡ r.outbox_id
  unfolding set_leased
  leased_keeps r = refl

  set_leased_lem : (r : OutboxItem) → set_leased owner token e ms r ≡ leased_as owner token e ms r
  unfolding set_leased
  set_leased_lem r = refl

  stays_put :
      (r : OutboxItem)
      → due ms r ≡ false
      → updated claimable (set_leased owner token e ms) (some r) ≡ some r
  unfolding updated claimable
  stays_put r h = ground arith

  claiming :
      (rows rows' : List OutboxItem) (lease before : OutboxItem)
      → violates claimable (set_leased owner token e ms) rows ≡ false
      → rows' ≡ update_where claimable (set_leased owner token e ms) rows
      → find_row id rows' ≡ some lease
      → lease ≡ leased_as owner token e ms before
      → Claiming ms rows rows'
  claiming rows rows' lease before held same found made = record {
    keeps = λ k l f h. elim (Bool-cases (str_eq k id)) [
      | inl n ↦
          let same_id : k ≡ id = (eq_iff k id).0 n in
          let there : find_row id rows ≡ some l = subst (λ x. find_row x rows ≡ some l) same_id f in
          subst (λ x. find_row x rows' ≡ some l) (sym same_id)
            (ap (find_row id) same
              ∙ find_row-updated id claimable (set_leased owner token e ms) claimable_names
                  leased_keeps rows held
              ∙ ap (updated claimable (set_leased owner token e ms)) there
              ∙ stays_put l h)
      | inr n ↦
          ap (find_row k) same
          ∙ find_row-other id claimable (set_leased owner token e ms) claimable_names leased_keeps k
              rows n
          ∙ f
    ];
    kept = λ k l f h. elim (Bool-cases (str_eq k id)) [
      | inl n ↦
          let same_id : k ≡ id = (eq_iff k id).0 n in
          let there : find_row id rows' ≡ some l =
            subst (λ x. find_row x rows' ≡ some l) same_id f in
          let one : l ≡ lease = cc in
          absurd (
            false≢true
              (sym (lease_not_due owner token e ms before) ∙ ap (due ms) (sym (one ∙ made)) ∙ h))
      | inr n ↦
          sym (
            find_row-other id claimable (set_leased owner token e ms) claimable_names leased_keeps k
              rows n)
          ∙ ap (find_row k) (sym same)
          ∙ f
    ];
  }

  claimed :
      (rows : List OutboxItem) (lease : OutboxItem) (rows' : List OutboxItem)
      → HasUniqueIds rows
      → claim owner e ms id (some token) rows ≡ ok (lease, rows')
      → Leased (some token) owner e ms rows rows' id lease
        × HasUniqueIds rows'
        × Claiming ms rows rows'
  unfolding claim claim_exactly read_back exec_update updated hits claimable breaks
  claimed rows lease rows' u h =
      let held : violates claimable (set_leased owner token e ms) rows ≡ false =
        ground (arith, h) in
      let same : rows' ≡ update_where claimable (set_leased owner token e ms) rows =
        ground (arith, h, held) in
      let one : affected claimable rows ≡ 1 = ground (arith, h, held) in
      let found : find_row id rows' ≡ some lease = ground (arith, h, held) in
      let unique : HasUniqueIds rows' = subst HasUniqueIds (sym same) (
        update_where-HasUniqueIds id claimable (set_leased owner token e ms) claimable_names
          leased_keeps rows u) in
      let after : find_row id rows'
          ≡ updated claimable (set_leased owner token e ms) (find_row id rows) =
        rw same (
          find_row-updated id claimable (set_leased owner token e ms) claimable_names leased_keeps
            rows held) in
      let checked =
        violates-breaks id claimable (set_leased owner token e ms) claimable_names leased_keeps rows
          u in
      let counted =
        affected-hits id claimable (set_leased owner token e ms) claimable_names leased_keeps rows
          u in
      elim (Option-cases (find_row id rows)) [
        | inl n ↦ absurd (ground (arith, n, counted, one))
        | inr (r, n) ↦
            let open_ : claimable r ≡ true = ground (arith, n, counted, one) in
            let is_open : due ms r ≡ true = ground (arith, open_) in
            let made : lease ≡ leased_as owner token e ms r =
              ground (arith, after, found, n, open_, checked, held) ∙ set_leased_lem r in
            (
              record {
                before = r;
                token = token;
                drew = refl;
                stored = n;
                was_due = sym (due_lem ms r) ∙ is_open;
                made = made;
                held = found;
              },
              unique,
              claiming rows rows' lease r held same found made,
            )
      ]

pub claim_lem :
    (owner : String) (e ms : ℕ) (id : String) (token : Option String) (rows : List OutboxItem)
    (lease : OutboxItem) (rows' : List OutboxItem)
    → HasUniqueIds rows
    → claim owner e ms id token rows ≡ ok (lease, rows')
    → Leased token owner e ms rows rows' id lease × HasUniqueIds rows' × Claiming ms rows rows'
unfolding claim
claim_lem owner e ms id none rows lease rows' u h = cc
claim_lem owner e ms id (some token) rows lease rows' u h =
    claimed owner e ms id token rows lease rows' u h
