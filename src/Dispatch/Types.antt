-- ===== src/Dispatch/Types.antt =====
-- What the dispatcher of internal/messaging/dispatch.go exchanges with the bridge contracts of
-- internal/bridge: requests, failures, and everything of one dispatch that the world decides.
use om_tui.Bridge.Types.{OpError, MessageRef}
use om_tui.Common.{ℕ, Bool, Option, List, String, Error, Result}
use om_tui.Outbox.Types.{Database}

-- An error of a send: what asOpError finds in it, its text, and whether it wraps a context error.
pub record SendError : Type 0 where
  pub op : Option OpError
  pub text : String
  pub is_context : Bool

pub data Request : Type 0 where
  send_text :
      (account conversation body : String)
      → (reply_to : Option String) → (request_id : String) → Request
  send_media :
      (account conversation content : String)
      → (size : ℕ) → (filename mime caption : String) → (reply_to : Option String)
      → (request_id : String) → Request
  send_reaction :
      (account conversation : String)
      → (target : MessageRef) → (emoji action request_id : String) → Request
  mark_read : (account conversation : String) → (target : MessageRef) → (read_at_ms : ℕ) → Request

pub data SendResult : Type 0 where
  sent : (remote_message_id : String) → SendResult
  failed : SendError → SendResult

-- What bridges.Acquire returned.
pub data Acquired : Type 0 where
  -- ErrCapabilityUnavailable, and any other error.
  unavailable refused : Acquired
  -- No lease, or one without the sender that was asked for.
  no_sender : Acquired
  leased : Acquired

pub data BlobOpen : Type 0 where
  opened : String → BlobOpen
  missing broken : BlobOpen

-- What the clock reads at each place where the dispatcher or the repository asks it.
pub record Times : Type 0 where
  pub retry_base : ℕ
  pub mark_now : ℕ
  pub release_now : ℕ
  pub final_now : ℕ
  pub repoint_now : ℕ
  pub store_now : ℕ

-- Database calls that fail without an effect: an I/O error, or a canceled context.
pub record Faults : Type 0 where
  pub load : Bool
  pub carrier : Bool
  pub conversation : Bool
  pub target : Bool
  pub author : Bool
  pub mark : Bool
  pub confirm : Bool
  pub store : Bool
  -- Any other write that ends the lease.
  pub finish : Bool

-- Everything that the dispatch of one lease does not decide itself. `send` is the transport.
pub record World : Type 0 where
  pub acquired : Acquired
  -- Capabilities(account) has the capability.
  pub supported : Bool
  -- ctx.Err() after a failed Acquire, and after a failed MarkTransportCalled.
  pub canceled_early : Bool
  pub canceled_at_mark : Bool
  pub blob : BlobOpen
  pub times : Times
  pub faults : Faults
  pub retry_delay : ℕ
  -- The text of the error behind a failure before the call, and of a repository error.
  pub cause : String
  pub error_text : Error → String
  -- capabilityLease.Generation(), and the attempt token made of the IDs.
  pub generation : ℕ
  pub attempt_token : String → String → String
  pub send : Request → SendResult

-- The outcome: the database, the transport calls with the database at each, and the error returned.
pub record Dispatched : Type 0 where
  pub db : Database
  pub calls : List (Request × Database)
  pub result : Result (Unit {0})
