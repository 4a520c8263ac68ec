-- ===== src/Examples/Registry.antt =====
-- A registry of two accounts.
use om_tui.Common.{
  ◌≡◌, refl, Bool, true, false, none, some, [], ◌∷◌, str_eq, trim, is_some, if◌then◌else◌,
}
use om_tui.Bridge.Registry.{
  text_send, Adapter, Entry, Entries, entry_of, register, register_all, discover_registry_entry,
  capabilities,
}
use om_tui.Bridge.Registry.Leases.{
  DispatchLease, lease, capability_reported, acquire_lease, lease_of, sender_of, view_of,
  has_dispatch_capability,
}
use om_tui.Bridge.Registry.Lookups.{
  entry_of-register, registered_stays, acquire_lease-exposes, registered_acquires, releases_once,
  close_all,
}

abbrev texting : Adapter
texting = record {
  account_id = "a1";
  platform = "signal";
  views = record {
    conversation = none;
    text = some 5;
    media = none;
    reaction = none;
    read_receipt = none;
    download = none;
    pairer = none;
  };
  declared = none;
}

abbrev one_entry : Entries
one_entry = (register (some texting) []).0

entry_of-register_example :
    entry_of "a2" (register (some (record texting { account_id = "a2" })) one_entry).0 ≡ (
      if str_eq "a2" "a2"
      then some (discover_registry_entry (record texting { account_id = "a2" }))
      else entry_of "a2" one_entry)
unfolding register trim str_eq entry_of discover_registry_entry
entry_of-register_example =
    entry_of-register "a2" (record texting { account_id = "a2" }) one_entry refl

registered_stays_example :
    entry_of "a1" (register_all (some texting ∷ none ∷ []) one_entry)
    ≡ some (discover_registry_entry texting)
unfolding register trim str_eq entry_of discover_registry_entry
registered_stays_example =
    registered_stays "a1" (some texting ∷ none ∷ []) one_entry (discover_registry_entry texting)
      refl

abbrev given : DispatchLease
given = lease_of (discover_registry_entry texting)

acquire_lease-exposes_example :
    (e : Entry) × (entry_of "a1" one_entry ≡ some e)
    × (given.account_id ≡ "a1")
    × (sender_of given text_send ≡ view_of e.views text_send)
    × (is_some (sender_of given text_send) ≡ true)
    × (◌≡◌ {A = Bool} false false)
unfolding register trim str_eq entry_of discover_registry_entry acquire_lease
    has_dispatch_capability
acquire_lease-exposes_example = acquire_lease-exposes false "a1" text_send one_entry given refl

registered_acquires_example :
    (l : DispatchLease) × (acquire_lease false "a1" text_send
        (register_all (some texting ∷ []) one_entry)
      ≡ lease l)
    × (sender_of l text_send ≡ some 5)
    × (l.platform ≡ "signal")
    × (capability_reported
          (capabilities "a1" (register_all (some texting ∷ []) one_entry))
          text_send
        ≡ true)
unfolding register trim str_eq entry_of
registered_acquires_example =
    registered_acquires texting text_send 5 [] (some texting ∷ []) refl refl

releases_once_example : (close_all 3 given).releases ≡ 1
unfolding discover_registry_entry
releases_once_example = releases_once 2 given refl
