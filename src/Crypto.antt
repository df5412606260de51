-- ===== src/Crypto.antt =====
-- The cryptography that src/tc_ledger/cross_verify.py implements itself.
pub mod Keccak
pub mod Secp256k1
