-- ===== src/Bridge/Registry/Leases.antt =====
-- Acquire, and the lease it gives.
use om_tui.Common.{
  ℕ, ◌+◌, Bool, true, false, ◌&&◌, Option, none, some, String, is_some, if◌then◌else◌,
}
use om_tui.Bridge.Registry.{
  Capability, start_conversation, text_send, media_send, reactions, read_receipts, media_download,
  other_capability, CapabilitySet, Views, Entry, Entries, RegistryError, account_not_registered,
  capability_unavailable, unknown_capability, context_done, entry_of,
}

-- DispatchLease; the generation is 0 and the release does nothing. `releases` counts the calls of release.
pub record DispatchLease : Type 0 where
  pub account_id : String
  pub platform : String
  pub text : Option ℕ
  pub media : Option ℕ
  pub reaction : Option ℕ
  pub read_receipt : Option ℕ
  pub download : Option ℕ
  pub closed : Bool
  pub releases : ℕ

pub data Acquired : Type 0 where
  lease : DispatchLease → Acquired
  unavailable : RegistryError → Acquired

-- hasDispatchCapability: none where the capability is not known.
unfoldable pub has_dispatch_capability : Views → Capability → Option Bool
has_dispatch_capability v start_conversation = some false
has_dispatch_capability v text_send = some (is_some v.text)
has_dispatch_capability v media_send = some (is_some v.media)
has_dispatch_capability v reactions = some (is_some v.reaction)
has_dispatch_capability v read_receipts = some (is_some v.read_receipt)
has_dispatch_capability v media_download = some (is_some v.download)
has_dispatch_capability v (other_capability _) = none

unfoldable pub capability_reported : CapabilitySet → Capability → Bool
capability_reported caps start_conversation = caps.start_conversation
capability_reported caps text_send = caps.text_send
capability_reported caps media_send = caps.media_send
capability_reported caps reactions = caps.reactions
capability_reported caps read_receipts = caps.read_receipts
capability_reported caps media_download = caps.media_download
capability_reported caps (other_capability _) = false

abbrev pub lease_of : Entry → DispatchLease
lease_of e = record {
  account_id = e.account_id;
  platform = e.platform;
  text = e.views.text;
  media = e.views.media;
  reaction = e.views.reaction;
  read_receipt = e.views.read_receipt;
  download = e.views.download;
  closed = false;
  releases = 0;
}

abbrev pub is_conversation : Capability → Bool
is_conversation start_conversation = true
is_conversation _ = false

abbrev pub grant : Entry → Option Bool → Acquired
grant e none = unavailable unknown_capability
grant e (some false) = unavailable capability_unavailable
grant e (some true) = lease (lease_of e)

abbrev pub acquire_from : Option Entry → Capability → Acquired
acquire_from none capability = unavailable account_not_registered
acquire_from (some e) capability =
    if is_conversation capability && capability_reported e.caps capability
    then unavailable capability_unavailable
    else grant e (has_dispatch_capability e.views capability)

-- Acquire; `done`: the context is done.
unfoldable pub acquire_lease : Bool → String → Capability → Entries → Acquired
acquire_lease done account_id capability entries =
    if done then unavailable context_done else acquire_from (entry_of account_id entries) capability

-- Close, under the lease's Once.
unfoldable pub close_lease : DispatchLease → DispatchLease
close_lease l = if l.closed then l else record l { closed = true; releases = l.releases + 1 }

-- The sender of a capability in a lease.
abbrev pub sender_of : DispatchLease → Capability → Option ℕ
sender_of l start_conversation = none
sender_of l text_send = l.text
sender_of l media_send = l.media
sender_of l reactions = l.reaction
sender_of l read_receipts = l.read_receipt
sender_of l media_download = l.download
sender_of l (other_capability _) = none

-- The interface that an entry's adapter implements for a capability of a lease.
abbrev pub view_of : Views → Capability → Option ℕ
view_of v start_conversation = none
view_of v text_send = v.text
view_of v media_send = v.media
view_of v reactions = v.reaction
view_of v read_receipts = v.read_receipt
view_of v media_download = v.download
view_of v (other_capability _) = none
