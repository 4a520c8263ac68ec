-- ===== src/Examples.antt =====
-- A small outbox, and what the theorems say of it.
pub mod Rows
pub mod Deliveries
pub mod Statements
pub mod Reads
pub mod Supervisor
pub mod Registry
pub mod Ingest
