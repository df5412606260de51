-- ===== src/Merkle.antt =====
-- The Merkle trees of src/tc_ledger/ledger.py.
pub mod Hash
pub mod Tree
pub mod Levels
pub mod Proof
pub mod Steps
pub mod Inclusion
pub mod Evidence
pub mod Directions
pub mod Binding
pub mod Split
pub mod SplitPath
pub mod Consistency
pub mod SplitPoint
pub mod Audit
pub mod Generator
pub mod Rounds
pub mod Follow
pub mod PowerTest
pub mod Start
pub mod Extension
pub mod Prefix
pub mod Rfc
pub mod Hold
pub mod Nodes
