-- ===== src/Evidence.antt =====
-- Evidence identifiers of an export in src/tc_ledger/ledger.py.
pub mod Duplicates
pub mod Commitment
