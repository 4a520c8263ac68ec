-- ===== src/Dispatch.antt =====
-- internal/messaging/dispatch.go.
pub mod Types
pub mod Finalize
pub mod Loading
pub mod Leases
pub mod Batch
pub mod Endings
pub mod Calls
pub mod Verdicts
