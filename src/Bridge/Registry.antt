-- ===== src/Bridge/Registry.antt =====
-- internal/bridge/registry.go: the adapters of the accounts, their capabilities, and the lease that a dispatch
-- acquires. An interface that an adapter implements is a number that names the implementation.
pub mod Leases
pub mod Lookups
use om_tui.Common.{
  ℕ, Bool, true, false, not, ◌&&◌, ◌||◌, Option, none, some, List, [], ◌∷◌, ◌++◌, String, str_eq,
  trim, is_some, is_none, find_first, if◌then◌else◌,
}

pub data Capability : Type 0 where
  start_conversation text_send media_send reactions read_receipts media_download : Capability
  other_capability : String → Capability

pub record CapabilitySet : Type 0 where
  pub start_conversation : Bool
  pub text_send : Bool
  pub media_send : Bool
  pub reactions : Bool
  pub read_receipts : Bool
  pub pair_qr : Bool
  pub pair_phone : Bool
  pub media_download : Bool

-- What the type assertions of discoverRegistryEntry find in an adapter.
pub record Views : Type 0 where
  pub conversation : Option ℕ
  pub text : Option ℕ
  pub media : Option ℕ
  pub reaction : Option ℕ
  pub read_receipt : Option ℕ
  pub download : Option ℕ
  pub pairer : Option ℕ

-- An adapter: `declared` is none unless it is a CapabilityDeclarer.
pub record Adapter : Type 0 where
  pub account_id : String
  pub platform : String
  pub views : Views
  pub declared : Option CapabilitySet

-- registryEntry with its snapshot, whose state is stopped and whose generation is 0 for ever.
pub record Entry : Type 0 where
  pub account_id : String
  pub platform : String
  pub caps : CapabilitySet
  pub views : Views

pub data RegistryError : Type 0 where
  adapter_required invalid_account_id invalid_platform account_already_exists : RegistryError
  account_not_registered capability_unavailable unknown_capability : RegistryError
  context_done : RegistryError

-- AccountRegistry.entries.
abbrev pub Entries : Type 0
Entries = List Entry

unfoldable pub merge_capability_sets : CapabilitySet → CapabilitySet → CapabilitySet
merge_capability_sets a b = record {
  start_conversation = a.start_conversation || b.start_conversation;
  text_send = a.text_send || b.text_send;
  media_send = a.media_send || b.media_send;
  reactions = a.reactions || b.reactions;
  read_receipts = a.read_receipts || b.read_receipts;
  pair_qr = a.pair_qr || b.pair_qr;
  pair_phone = a.pair_phone || b.pair_phone;
  media_download = a.media_download || b.media_download;
}

abbrev pub discovered_caps : Views → CapabilitySet
discovered_caps views = record {
  start_conversation = is_some views.conversation;
  text_send = is_some views.text;
  media_send = is_some views.media;
  reactions = is_some views.reaction;
  read_receipts = is_some views.read_receipt;
  pair_qr = false;
  pair_phone = false;
  media_download = is_some views.download;
}

abbrev pub with_declared : CapabilitySet → Option CapabilitySet → CapabilitySet
with_declared caps none = caps
with_declared caps (some declared) = merge_capability_sets caps declared

-- discoverRegistryEntry, with the snapshot that Register adds.
unfoldable pub discover_registry_entry : Adapter → Entry
discover_registry_entry a = record {
  account_id = a.account_id;
  platform = a.platform;
  caps = with_declared (discovered_caps a.views) a.declared;
  views = a.views;
}

abbrev pub is_for : String → Entry → Bool
is_for account_id e = str_eq e.account_id account_id

unfoldable pub entry_of : String → Entries → Option Entry
entry_of account_id entries = find_first (is_for account_id) entries

-- Text without surrounding white space, and not only white space.
abbrev pub is_plain : String → Bool
is_plain s = not (str_eq (trim s) "") && str_eq (trim s) s

abbrev pub add_entry : Entry → Entries → Entries × Option RegistryError
add_entry e entries =
    if is_some (entry_of e.account_id entries)
    then (entries, some account_already_exists)
    else (entries ++ e ∷ [], none)

-- Register; none is a nil adapter, and none of the result a nil error.
unfoldable pub register : Option Adapter → Entries → Entries × Option RegistryError
register none entries = (entries, some adapter_required)
register (some a) entries =
    if not (is_plain a.account_id)
    then (entries, some invalid_account_id)
    else if not (is_plain a.platform)
    then (entries, some invalid_platform)
    else add_entry (discover_registry_entry a) entries

-- A row of registrations.
unfoldable pub register_all : List (Option Adapter) → Entries → Entries
register_all [] entries = entries
register_all (a ∷ rest) entries = register_all rest (register a entries).0

abbrev pub no_capabilities : CapabilitySet
no_capabilities = record {
  start_conversation = false;
  text_send = false;
  media_send = false;
  reactions = false;
  read_receipts = false;
  pair_qr = false;
  pair_phone = false;
  media_download = false;
}

abbrev pub caps_of : Option Entry → CapabilitySet
caps_of none = no_capabilities
caps_of (some e) = e.caps

unfoldable pub capabilities : String → Entries → CapabilitySet
capabilities account_id entries = caps_of (entry_of account_id entries)
