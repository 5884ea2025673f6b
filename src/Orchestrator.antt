-- ===== src/Orchestrator.antt =====
-- The orchestrator package.
pub mod Broadcaster
pub mod Process
pub mod Queues
pub mod Listener
pub mod Nonces
