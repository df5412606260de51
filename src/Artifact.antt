-- ===== src/Artifact.antt =====
-- The JSON artifacts of src/tc_ledger/ledger.py: inclusion proofs and consistency proofs.
pub mod Inclusion
pub mod Export
pub mod Consistency
