-- ===== src/Helpers.antt =====
-- The helpers package.
pub mod Retrier
pub mod Ticker
pub mod Parse
