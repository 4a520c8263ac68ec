-- ===== src/Outbox.antt =====
-- internal/storage/sqlite/outbox.go: the durable outbox.
pub mod Types
pub mod Checks
pub mod Tables
pub mod Transitions
pub mod Leasing
pub mod Confirming
pub mod Enqueue
pub mod Queries
pub mod Phases
pub mod Idempotency
pub mod Fencing
pub mod History
