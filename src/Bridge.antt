-- ===== src/Bridge.antt =====
-- internal/bridge: the contracts with the platform adapters, the supervisor of one account, and the registry.
pub mod Types
pub mod Supervisor
pub mod Registry
