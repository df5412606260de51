-- ===== src/Evm.antt =====
-- src/tc_ledger/evm_verifier.py: receipts, their event logs, and settlement evidence from them.
pub mod Transfer
pub mod Rpc
pub mod Event
pub mod Evidence
pub mod Conformant
