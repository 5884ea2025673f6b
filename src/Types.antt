-- ===== src/Types.antt =====
-- types/latest_valset.go, types/valset_confirm.go, types/data_commitment_confirm.go, and the
-- attestation types of celestia-app that the program handles, by the fields it reads.
pub mod Valsets
pub mod Confirms
