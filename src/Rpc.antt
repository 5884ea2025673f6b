-- ===== src/Rpc.antt =====
-- The rpc package.
pub mod AppQuerier
pub mod TmQuerier
