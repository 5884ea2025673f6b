-- ===== src/Store.antt =====
-- store: the files of an orchestrator or a relayer, and the lock on them.
pub mod Lock
pub mod Init
pub mod Open
pub mod Keeps
pub mod Files
pub mod Initialised
pub mod Locked
pub mod Exclusive
