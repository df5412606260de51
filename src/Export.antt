-- ===== src/Export.antt =====
-- Whole exports of src/tc_ledger/ledger.py: the classification of their lines, and the leaves of valid
-- evidence.
pub mod Classify
pub mod Counts
pub mod Anomalies
pub mod Mapping
pub mod Artifact
