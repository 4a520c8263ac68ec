-- ===== src/Dispatch/Calls/Repeats.antt =====
-- A dispatch and everything that follows it: no second transport call.
use om_tui.Common.{◌++◌, ◌≡◌, ap, sym, ◌∙◌, false, some, List, [], ◌∷◌, any}
use om_tui.Outbox.Types.{OutboxItem, Database}
use om_tui.Outbox.Tables.{find_row}
use om_tui.Outbox.Tables.Unique.{HasUniqueIds}
use om_tui.Dispatch.Types.{World, Dispatched, Request}
use om_tui.Dispatch.Endings.{any-++, run-++, proves_uncalled}
use om_tui.Dispatch.Batch.{dispatch_lease}
use om_tui.Outbox.History.{Call, run, disproves_row}
use om_tui.Outbox.History.Invariants.{Kept}
use om_tui.Outbox.History.Delivery.{is_spent, called_at_most_once}
use om_tui.Dispatch.Calls.{CallsOnce, no_call, one_call}
use om_tui.Dispatch.Calls.Kinds.{dispatch_lease-CallsOnce}

spent_after :
    (w : World) (item : OutboxItem) (db : Database) (d : Dispatched) (request : Request)
    (at : Database) (cs : List Call)
    → CallsOnce w item db d
    → d.calls ≡ (request, at) ∷ []
    → proves_uncalled (w.send request) ≡ false
    → any (disproves_row item.outbox_id) cs ≡ false
    → (row s : OutboxItem) × (find_row item.outbox_id at.outbox ≡ some row)
      × (find_row item.outbox_id (run cs d.db).outbox ≡ some s)
      × Kept is_spent row s
spent_after w item db d request at cs (no_call e') e q quiet = cc
spent_after w item db d request at cs (one_call request' at' before row e' its f g p n ends) e q
      quiet =
    let same_request : request' ≡ request = cc in
    let same_at : at' ≡ at = cc in
    let made = ends (rw same_request q) in
    let found : find_row item.outbox_id at.outbox ≡ some row =
      ap (λ (x : Database). find_row item.outbox_id x.outbox) (sym same_at) ∙ g in
    let all_quiet = any-++ item.outbox_id made.made cs made.quiet quiet in
    let (s, f', k) =
      called_at_most_once item.outbox_id (made.made ++ cs) at row found p all_quiet in
    let there : run (made.made ++ cs) at ≡ run cs d.db =
      run-++ made.made cs at ∙ ap (run cs) (ap (run made.made) (sym same_at) ∙ sym made.reached) in
    (row, s, found, ap (λ (x : Database). find_row item.outbox_id x.outbox) (sym there) ∙ f', k)

-- On a table with unique IDs, let a dispatch make a transport call whose result does not prove that the
-- remote side never saw it, and let any history of repository calls follow that has no
-- MarkCalledNotDispatched for that row. The row then counts the attempts that it counted when the call
-- was made, and its phase is called, uncertain, confirmed, store-failed or rejected: no second call was
-- made for it.
pub never_called_again :
    (w : World) (item : OutboxItem) (db : Database) (request : Request) (at : Database)
    (cs : List Call)
    → HasUniqueIds db.outbox
    → (dispatch_lease w item db).calls ≡ (request, at) ∷ []
    → proves_uncalled (w.send request) ≡ false
    → any (disproves_row item.outbox_id) cs ≡ false
    → (row s : OutboxItem) × (find_row item.outbox_id at.outbox ≡ some row)
      × (find_row item.outbox_id (run cs (dispatch_lease w item db).db).outbox ≡ some s)
      × Kept is_spent row s
never_called_again w item db request at cs unique e q quiet =
    spent_after w item db (dispatch_lease w item db) request at cs
      (dispatch_lease-CallsOnce w item db unique) e q quiet
