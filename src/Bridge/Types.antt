-- ===== src/Bridge/Types.antt =====
-- internal/bridge/types.go and contracts.go: the failures that a bridge reports, and the reference to a
-- remote message.
use om_tui.Common.{ℕ, Option, String}

pub data FailureClass : Type 0 where
  transient rate_limited credentials_expired unpaired reauth_required : FailureClass
  upgrade_required misconfigured unsupported : FailureClass
  -- The empty class, and any other string.
  unset : FailureClass
  unlisted : String → FailureClass

pub data DispatchCertainty : Type 0 where
  not_called uncertain_dispatch unstated : DispatchCertainty

-- bridge.OpError; `retry_at` is none for the zero time.
pub record OpError : Type 0 where
  pub class : FailureClass
  pub operation : String
  pub fingerprint : String
  pub retry_at : Option ℕ
  pub dispatch : DispatchCertainty

pub record MessageRef : Type 0 where
  pub remote_id : String
  pub author_id : String
  pub sent_at_ms : ℕ
