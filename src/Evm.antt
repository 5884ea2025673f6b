-- ===== src/Evm.antt =====
-- The evm package.
pub mod Geth
pub mod Signature
pub mod Transactions
pub mod Client
pub mod Deployment
