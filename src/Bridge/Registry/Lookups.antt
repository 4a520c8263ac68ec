-- ===== src/Bridge/Registry/Lookups.antt =====
-- Registration against lookup, and what a lease exposes.
use om_tui.Common.{
  ℕ, zero, suc, ◌≡◌, ◌+◌, ap, ◌∙◌, refl, Bool, true, false, Option, none, some, List, [], ◌∷◌, ◌++◌,
  String, str_eq, str_eq_refl, eq_iff, is_some, if◌then◌else◌, arith,
}
use om_tui.Bridge.Registry.{
  Capability, start_conversation, text_send, media_send, reactions, read_receipts, media_download,
  other_capability, Adapter, Entry, Entries, RegistryError, entry_of, add_entry, register,
  register_all, discover_registry_entry, merge_capability_sets, capabilities,
}
use om_tui.Bridge.Registry.Leases.{
  DispatchLease, lease, has_dispatch_capability, capability_reported, acquire_lease, acquire_from,
  lease_of, close_lease, sender_of, view_of,
}

-- A new entry behind the others is found where they have none.
entry_of-append :
    (id : String) (e : Entry) (entries : Entries)
    → entry_of id (entries ++ e ∷ []) ≡ (
        if is_some (entry_of id entries)
        then entry_of id entries
        else if str_eq e.account_id id
        then some e
        else none)
unfolding entry_of
entry_of-append id e [] = ground arith
entry_of-append id e (x ∷ rest) = ground (arith, entry_of-append id e rest)

add_entry-keeps :
    (id : String) (new : Entry) (entries : Entries) (e : Entry)
    → entry_of id entries ≡ some e
    → entry_of id (add_entry new entries).0 ≡ some e
add_entry-keeps id new entries e found = ground (arith, entry_of-append id new entries)

register-keeps :
    (id : String) (a : Option Adapter) (entries : Entries) (e : Entry)
    → entry_of id entries ≡ some e
    → entry_of id (register a entries).0 ≡ some e
unfolding register
register-keeps id none entries e found = found
register-keeps id (some a) entries e found =
    ground (arith, add_entry-keeps id (discover_registry_entry a) entries e)

-- A registered account keeps its entry under any further registrations, those of adapters with the same
-- account ID, invalid names or no adapter included.
pub registered_stays :
    (id : String) (more : List (Option Adapter)) (entries : Entries) (e : Entry)
    → entry_of id entries ≡ some e
    → entry_of id (register_all more entries) ≡ some e
unfolding register_all
registered_stays id [] entries e found = found
registered_stays id (a ∷ rest) entries e found =
    registered_stays id rest (register a entries).0 e (register-keeps id a entries e found)

-- After a registration without an error, the account of the adapter is found with what was discovered
-- in it, and the lookup of every other account is as it was.
pub entry_of-register :
    (id : String) (a : Adapter) (entries : Entries)
    → (register (some a) entries).1 ≡ none
    → entry_of id (register (some a) entries).0
      ≡ (if str_eq a.account_id id then some (discover_registry_entry a) else entry_of id entries)
unfolding register discover_registry_entry
entry_of-register id a entries fine =
    ground (arith, entry_of-append id (discover_registry_entry a) entries, eq_iff a.account_id id)

-- A registration with an error changes nothing.
register-refused :
    (a : Option Adapter) (entries : Entries) (e : RegistryError)
    → (register a entries).1 ≡ some e
    → (register a entries).0 ≡ entries
unfolding register
register-refused none entries e refused = refl
register-refused (some a) entries e refused = ground arith

entry_of-account :
    (id : String) (entries : Entries) (e : Entry) → entry_of id entries ≡ some e → e.account_id ≡ id
unfolding entry_of
entry_of-account id [] e found = cc
entry_of-account id (x ∷ rest) e found =
    ground (arith, eq_iff x.account_id id, entry_of-account id rest e)

acquire_from-lease :
    (o : Option Entry) (capability : Capability) (l : DispatchLease)
    → acquire_from o capability ≡ lease l
    → (e : Entry) × (o ≡ some e) × (l ≡ lease_of e) × (is_some (view_of e.views capability) ≡ true)
unfolding has_dispatch_capability capability_reported
acquire_from-lease none capability l got = cc
acquire_from-lease (some e) start_conversation l got = (e, refl, ground arith, ground arith)
acquire_from-lease (some e) text_send l got = (e, refl, ground arith, ground arith)
acquire_from-lease (some e) media_send l got = (e, refl, ground arith, ground arith)
acquire_from-lease (some e) reactions l got = (e, refl, ground arith, ground arith)
acquire_from-lease (some e) read_receipts l got = (e, refl, ground arith, ground arith)
acquire_from-lease (some e) media_download l got = (e, refl, ground arith, ground arith)
acquire_from-lease (some e) (other_capability name) l got = (e, refl, ground arith, ground arith)

found-register :
    (a : Adapter) (entries : Entries)
    → (register (some a) entries).1 ≡ none
    → entry_of a.account_id (register (some a) entries).0 ≡ some (discover_registry_entry a)
found-register a entries fine =
    ground (arith, entry_of-register a.account_id a entries, str_eq_refl a.account_id)

discovered-view :
    (a : Adapter) (capability : Capability)
    → view_of (discover_registry_entry a).views capability ≡ view_of a.views capability
unfolding discover_registry_entry
discovered-view a capability = refl

discovered-platform : (a : Adapter) → (discover_registry_entry a).platform ≡ a.platform
unfolding discover_registry_entry
discovered-platform a = refl

reported-view :
    (a : Adapter) (capability : Capability) (sender : ℕ)
    → view_of a.views capability ≡ some sender
    → capability_reported (discover_registry_entry a).caps capability ≡ true
unfolding discover_registry_entry capability_reported merge_capability_sets
reported-view a start_conversation sender v = cc
reported-view a text_send sender v = ground arith
reported-view a media_send sender v = ground arith
reported-view a reactions sender v = ground arith
reported-view a read_receipts sender v = ground arith
reported-view a media_download sender v = ground arith
reported-view a (other_capability name) sender v = cc

close_lease-closed : (l : DispatchLease) → (close_lease l).closed ≡ true
unfolding close_lease
close_lease-closed l = ground arith

close_lease-releases :
    (l : DispatchLease) → l.closed ≡ false → (close_lease l).releases ≡ l.releases + 1
unfolding close_lease
close_lease-releases l c = ground arith

close_lease-same : (l : DispatchLease) → l.closed ≡ true → close_lease l ≡ l
unfolding close_lease
close_lease-same l c = ground arith

sender_of-lease_of :
    (e : Entry) (capability : Capability)
    → sender_of (lease_of e) capability ≡ view_of e.views capability
sender_of-lease_of e start_conversation = refl
sender_of-lease_of e (other_capability name) = refl
sender_of-lease_of e _ = refl

-- A lease that Acquire gives belongs to the account that was asked for, and holds a sender of the capability
-- that was asked for, which the registered adapter implements; the context was not done.
pub acquire_lease-exposes :
    (done : Bool) (id : String) (capability : Capability) (entries : Entries) (l : DispatchLease)
    → acquire_lease done id capability entries ≡ lease l
    → (e : Entry) × (entry_of id entries ≡ some e)
      × (l.account_id ≡ id)
      × (sender_of l capability ≡ view_of e.views capability)
      × (is_some (sender_of l capability) ≡ true)
      × (done ≡ false)
unfolding acquire_lease
acquire_lease-exposes true id capability entries l got = cc
acquire_lease-exposes false id capability entries l got =
    let (e, found, same, exposed) = acquire_from-lease (entry_of id entries) capability l got in
    let sender : sender_of l capability ≡ view_of e.views capability =
      ap (λ (x : DispatchLease). sender_of x capability) same ∙ sender_of-lease_of e capability in
    (
      e,
      found,
      ap (λ (x : DispatchLease). x.account_id) same ∙ entry_of-account id entries e found,
      sender,
      ap is_some sender ∙ exposed,
      refl,
    )

grant-view :
    (e : Entry) (capability : Capability) (sender : ℕ)
    → view_of e.views capability ≡ some sender
    → acquire_from (some e) capability ≡ lease (lease_of e)
unfolding has_dispatch_capability capability_reported
grant-view e start_conversation sender v = cc
grant-view e text_send sender v = ground arith
grant-view e media_send sender v = ground arith
grant-view e reactions sender v = ground arith
grant-view e read_receipts sender v = ground arith
grant-view e media_download sender v = ground arith
grant-view e (other_capability name) sender v = cc

-- Once an adapter that implements an interface of a lease has been registered without an error, and after
-- any further registrations, Acquire gives a lease with that very implementation, and the capability is
-- reported, whatever the adapter declares.
pub registered_acquires :
    (a : Adapter) (capability : Capability) (sender : ℕ) (entries : Entries)
    (more : List (Option Adapter))
    → (register (some a) entries).1 ≡ none
    → view_of a.views capability ≡ some sender
    → (l : DispatchLease) × (acquire_lease false a.account_id capability
          (register_all more (register (some a) entries).0)
        ≡ lease l)
      × (sender_of l capability ≡ some sender)
      × (l.platform ≡ a.platform)
      × (capability_reported
            (capabilities a.account_id (register_all more (register (some a) entries).0))
            capability
          ≡ true)
unfolding acquire_lease capabilities
registered_acquires a capability sender entries more fine view =
    let e = discover_registry_entry a in
    let now = register_all more (register (some a) entries).0 in
    let found : entry_of a.account_id now ≡ some e =
      registered_stays a.account_id more (register (some a) entries).0 e
        (found-register a entries fine) in
    (
      lease_of e,
      rw found (grant-view e capability sender (discovered-view a capability ∙ view)),
      sender_of-lease_of e capability ∙ discovered-view a capability ∙ view,
      discovered-platform a,
      rw found (reported-view a capability sender view),
    )

abbrev pub close_all : ℕ → DispatchLease → DispatchLease
close_all zero l = l
close_all (suc n) l = close_all n (close_lease l)

closed_stays : (n : ℕ) (l : DispatchLease) → l.closed ≡ true → close_all n l ≡ l
closed_stays zero l c = refl
closed_stays (suc n) l c = rw (close_lease-same l c) (closed_stays n l c)

-- A lease that has been closed is released once, however often Close is called.
pub releases_once :
    (n : ℕ) (l : DispatchLease) → l.closed ≡ false → (close_all (suc n) l).releases ≡ l.releases + 1
releases_once n l c =
    rw (closed_stays n (close_lease l) (close_lease-closed l)) (close_lease-releases l c)
