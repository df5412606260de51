-- ===== src/Tests.antt =====
-- Runs on concrete inputs, and instances of the theorems.
mod Toy
mod Merkle
mod Artifact
mod Evidence
mod Consistency
mod Duplicates
mod Record
mod Commitment
mod Crypto
mod Settlement
mod Cross
mod Evm
mod Claim
mod Export
