-- ===== src/Record.antt =====
-- Signed records of src/tc_ledger/ledger.py.
pub mod Text
pub mod Did
pub mod Signed
pub mod Valid
