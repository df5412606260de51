-- ===== src/Settlement.antt =====
-- Settlement evidence in src/tc_ledger/cross_verify.py.
pub mod Normalize
pub mod Types
pub mod Parse
pub mod Sound
