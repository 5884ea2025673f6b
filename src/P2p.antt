-- ===== src/P2p.antt =====
-- The p2p package.
pub mod Keys
pub mod Validators
pub mod Dht
pub mod Querier
