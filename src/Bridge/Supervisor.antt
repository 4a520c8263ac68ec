-- ===== src/Bridge/Supervisor.antt =====
-- internal/bridge/supervisor.go: the run loop that owns one account's connection, retry, repair and
-- pairing decisions.
pub mod State
pub mod Failures
pub mod Generations
pub mod Probing
pub mod Connecting
pub mod Pairing
pub mod Loop
pub mod Sink
pub mod Entry
pub mod Pacing
pub mod Soundness
pub mod Accounts
pub mod Settling
pub mod Circuit
pub mod Snapshots
