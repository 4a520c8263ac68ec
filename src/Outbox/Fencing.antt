-- ===== src/Outbox/Fencing.antt =====
-- The statements that a lease holder makes, as one family: each names a row and a lease token, and is a
-- point update of that row.
pub mod RowChecks
pub mod Refusals
use om_tui.Common.{
  ℕ, ◌≡◌, refl, sym, subst, Bool, true, false, not, ◌&&◌, String, ◌==◌, is_blank, eq_iff,
  lease_lost, arith,
}
use om_tui.Outbox.Types.{OutboxItem, Database, Attempt, unix_milli, now_ms}
use om_tui.Outbox.Tables.{exec_leased, require_lease_mutation}
use om_tui.Outbox.Tables.Unique.{HasUniqueIds}
use om_tui.Outbox.Tables.Point.{PointUpdate, exec_checked-PointUpdate}
use om_tui.Outbox.Transitions.{
  Outcome, owns, callable, set_called, mark_transport_called, not_dispatchable, set_not_dispatched,
  mark_not_dispatched, mark_called_not_dispatched, mark_not_dispatched_if, releasable, set_released,
  release_unavailable, called_by, set_uncertain, mark_uncertain, set_rejected, reject,
  set_confirmed, confirm_without_result, set_store_failed, mark_store_failed,
}

-- A statement of a lease holder.
pub data Use : Type 0 where
  calls : Attempt → Use
  fails : (id token class code detail : String) → (retry_at : ℕ) → Use
  disproves : (id token class code detail : String) → (retry_at : ℕ) → Use
  releases : (id token : String) → Use
  loses : (id token class code detail : String) → Use
  rejects : (id token class code detail : String) → Use
  finishes : (id token : String) → Use
  keeps_unstored : (id token result detail : String) → Use

abbrev pub id_of : Use → String
id_of (calls a) = a.outbox_id
id_of (fails id _ _ _ _ _) = id
id_of (disproves id _ _ _ _ _) = id
id_of (releases id _) = id
id_of (loses id _ _ _ _) = id
id_of (rejects id _ _ _ _) = id
id_of (finishes id _) = id
id_of (keeps_unstored id _ _ _) = id

abbrev pub token_of : Use → String
token_of (calls a) = a.lease_token
token_of (fails _ token _ _ _ _) = token
token_of (disproves _ token _ _ _ _) = token
token_of (releases _ token) = token
token_of (loses _ token _ _ _) = token
token_of (rejects _ token _ _ _) = token
token_of (finishes _ token) = token
token_of (keeps_unstored _ token _ _) = token

unfoldable pub perform : Use → ℕ → Database → Outcome
perform (calls a) now db = mark_transport_called a now db
perform (fails id token class code detail at) now db =
    mark_not_dispatched id token class code detail at now db
perform (disproves id token class code detail at) now db =
    mark_called_not_dispatched id token class code detail at now db
perform (releases id token) now db = release_unavailable id token now db
perform (loses id token class code detail) now db = mark_uncertain id token class code detail now db
perform (rejects id token class code detail) now db = reject id token class code detail now db
perform (finishes id token) now db = confirm_without_result id token now db
perform (keeps_unstored id token result detail) now db =
    mark_store_failed id token result detail now db

-- The arguments that the operation does not refuse.
abbrev pub is_accepted : Use → Bool
is_accepted (calls a) = not (is_blank a.outbox_id) && not (is_blank a.lease_token)
is_accepted (fails _ _ _ _ _ at) = not (unix_milli at == 0)
is_accepted (disproves _ _ _ _ _ at) = not (unix_milli at == 0)
is_accepted (keeps_unstored _ _ result _) = not (is_blank result)
is_accepted _ = true

-- The WHERE clause of the statement.
unfoldable pub allowed : Use → ℕ → OutboxItem → Bool
allowed (calls a) ms = callable a ms
allowed (fails id token _ _ _ _) ms = not_dispatchable id token false
allowed (disproves id token _ _ _ _) ms = not_dispatchable id token true
allowed (releases id token) ms = releasable id token
allowed (loses id token _ _ _) ms = called_by id token
allowed (rejects id token _ _ _) ms = owns id token
allowed (finishes id token) ms = called_by id token
allowed (keeps_unstored id token _ _) ms = called_by id token

-- Its SET list.
unfoldable pub change : Use → ℕ → OutboxItem → OutboxItem
change (calls a) ms r = set_called ms r
change (fails _ _ class code detail at) ms r =
    set_not_dispatched class code detail (unix_milli at) ms r
change (disproves _ _ class code detail at) ms r =
    set_not_dispatched class code detail (unix_milli at) ms r
change (releases _ _) ms r = set_released ms r
change (loses _ _ class code detail) ms r = set_uncertain class code detail ms r
change (rejects _ _ class code detail) ms r = set_rejected class code detail ms r
change (finishes _ _) ms r = set_confirmed ms r
change (keeps_unstored _ _ result detail) ms r = set_store_failed result detail ms r

owns_names : (id token : String) (r : OutboxItem) → owns id token r ≡ true → r.outbox_id ≡ id
unfolding owns
owns_names id token r h = ground (arith, eq_iff r.outbox_id id)

-- Every one of them asks for the token.
allowed-owns :
    (u : Use) (ms : ℕ) (r : OutboxItem)
    → owns (id_of u) (token_of u) r ≡ false
    → allowed u ms r ≡ false
unfolding allowed callable not_dispatchable releasable called_by
allowed-owns (calls a) ms r h = ground arith
allowed-owns (fails _ _ class code detail at) ms r h = ground arith
allowed-owns (disproves _ _ class code detail at) ms r h = ground arith
allowed-owns (releases _ _) ms r h = ground arith
allowed-owns (loses _ _ class code detail) ms r h = ground arith
allowed-owns (rejects _ _ class code detail) ms r h = h
allowed-owns (finishes _ _) ms r h = ground arith
allowed-owns (keeps_unstored _ _ result detail) ms r h = ground arith

allowed_names : (u : Use) (ms : ℕ) (r : OutboxItem) → allowed u ms r ≡ true → r.outbox_id ≡ id_of u
allowed_names u ms r h = ground (arith, owns_names (id_of u) (token_of u) r, allowed-owns u ms r)

change_keeps : (u : Use) (ms : ℕ) (r : OutboxItem) → (change u ms r).outbox_id ≡ r.outbox_id
unfolding change set_called set_not_dispatched set_released set_uncertain set_rejected set_confirmed
    set_store_failed
change_keeps (calls a) ms r = refl
change_keeps (fails _ _ class code detail at) ms r = refl
change_keeps (disproves _ _ class code detail at) ms r = refl
change_keeps (releases _ _) ms r = refl
change_keeps (loses _ _ class code detail) ms r = refl
change_keeps (rejects _ _ class code detail) ms r = refl
change_keeps (finishes _ _) ms r = refl
change_keeps (keeps_unstored _ _ result detail) ms r = refl

perform-exec :
    (u : Use) (now : ℕ) (db : Database)
    → is_accepted u ≡ true
    → (unix_milli now == 0) ≡ false
    → perform u now db
      ≡ exec_leased (id_of u) (allowed u (unix_milli now)) (change u (unix_milli now)) db
unfolding perform allowed change now_ms mark_transport_called mark_not_dispatched
    mark_called_not_dispatched mark_not_dispatched_if release_unavailable mark_uncertain reject
    confirm_without_result mark_store_failed
perform-exec (calls a) now db h n = ground arith
perform-exec (fails _ _ class code detail at) now db h n = ground arith
perform-exec (disproves _ _ class code detail at) now db h n = ground arith
perform-exec (releases _ _) now db h n = ground arith
perform-exec (loses _ _ class code detail) now db h n = ground arith
perform-exec (rejects _ _ class code detail) now db h n = ground arith
perform-exec (finishes _ _) now db h n = ground arith
perform-exec (keeps_unstored _ _ result detail) now db h n = ground arith

-- On a table with unique IDs, with arguments that are not refused and a clock after the epoch, each
-- statement of a lease holder returns and does what its WHERE clause, its SET list and the CHECKs say of
-- the one row at its ID: no error and the changed row, or the error and the row as it was. The rows at
-- all other IDs are as they were, and the IDs are still unique.
pub perform-PointUpdate :
    (u : Use) (now : ℕ) (db : Database)
    → HasUniqueIds db.outbox
    → is_accepted u ≡ true
    → (unix_milli now == 0) ≡ false
    → PointUpdate lease_lost
        (id_of u)
        (allowed u (unix_milli now))
        (change u (unix_milli now))
        db
        (perform u now db)
unfolding exec_leased require_lease_mutation
perform-PointUpdate u now db unique h n =
    subst
      (PointUpdate lease_lost (id_of u) (allowed u (unix_milli now)) (change u (unix_milli now)) db)
      (sym (perform-exec u now db h n))
      (exec_checked-PointUpdate lease_lost (id_of u) (allowed u (unix_milli now))
        (change u (unix_milli now)) (allowed_names u (unix_milli now))
        (change_keeps u (unix_milli now)) db unique)
