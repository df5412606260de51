-- ===== src/Cross.antt =====
-- The conformance check of src/tc_ledger/cross_verify.py.
pub mod Types
pub mod Terms
pub mod Binding
pub mod Check
