-- ===== src/Bridge/Supervisor/Snapshots.antt =====
-- What Snapshot() returns against what the loop holds.
pub mod Routing
pub mod Handlers
pub mod Commands
pub mod Histories
use om_tui.Common.{◌≡◌, false}
use om_tui.Bridge.Supervisor.State.{Loop}

-- A loop that is not closing, and that has published what it holds.
pub record IsPublished (l : Loop) : Type 0 where
  pub going : l.closing ≡ false
  pub published : l.published ≡ l.snapshot
