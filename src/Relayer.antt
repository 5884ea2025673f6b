-- ===== src/Relayer.antt =====
-- The relayer package.
pub mod Signatures
pub mod Wait
pub mod Attestation
pub mod Loop
