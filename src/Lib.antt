-- ===== src/Lib.antt =====
-- tc-ledger verifies room exports that agents have signed, and commits to them by Merkle trees. This
-- library models src/tc_ledger/ledger.py: the verification of signed records, the classification of
-- exports, the trees over export lines and over evidence identifiers, inclusion proofs, RFC 6962
-- consistency proofs, the JSON artifacts that carry commitments and both kinds of proof, evidence
-- commitments and the search for duplicate identifiers. Of src/tc_ledger/cross_verify.py and
-- src/tc_ledger/evm_verifier.py it models the way from transaction receipts to the verdict on a deal:
-- the events of a receipt, the evidence that they make, and the comparison with the agreement.
--
-- Parts and files:
-- - Prelude (Prelude/Tests, Prelude/Lists): Boolean tests on numbers, lists, indexing and slices.
-- - Py: what the code uses of Python. Py/Result is a call that may raise (exception classes without
--   their messages), Py/Int the unbounded integers, Py/Str texts and bytes as lists of numbers,
--   Py/Hex `bytes.hex` and `bytes.fromhex`, Py/Utf8 `str.encode`, Py/Json the values of `json.loads`,
--   Py/Text white space, letter case, digits and numbers in texts, Py/Check a verifier whose steps pass, refuse (`return False`) or raise.
-- - Merkle: Merkle/Hash has `export_leaf_hash` and `node_hash` over SHA-256, which is the parameter
--   `Sha256`: a digest function with 32 byte values as results. `CollisionIn` is a collision
--   between two lists of hashed inputs: different inputs, at one place, with one digest. Merkle/Levels
--   has `_build_export_levels` and `export_merkle_root`, Merkle/Proof `export_merkle_proof`,
--   `verify_export_merkle_proof` and `expected_proof_directions`, Merkle/Evidence `leaf_hash`,
--   `_build_levels`, `merkle_root`, `merkle_proof` and `verify_merkle_proof`, Merkle/Consistency `_subproof`, `consistency_proof`
--   and `verify_consistency_proof`.
-- - Merkle/Tree is an independent description of the tree (pairs of nodes, the path of an index, what
--   a path folds to); Steps, Inclusion, Directions and Binding relate the code for inclusion proofs
--   to it; Split, SplitPath, SplitPoint, Audit and Generator relate `consistency_proof` to the
--   audit path of the last old leaf; Rounds, Follow, PowerTest, Start, Extension and Prefix do
--   the same for the verifier's loop; Hold and Nodes show which values are lists of bytes.
-- - Artifact/Inclusion has `build_inclusion_proof_artifact` and `verify_export_inclusion_proof`,
--   Artifact/Export `verify_inclusion_proof_artifact`, Artifact/Consistency
--   `build_consistency_proof_artifact` and `verify_consistency_proof_artifact`.
-- - Record/Did has `public_key_from_did`, Record/Signed `verify_signed_record`, over Record/Text: decimal
--   numbers, the patterns of the code, Base64. `base58.b58decode` and the Ed25519 verification are
--   parameters. Record/Valid has the theorems.
-- - Evidence/Commitment has `evidence_commitment`, where `jcs.canonicalize` is a parameter, and
--   Evidence/Duplicates `find_duplicate_evidence_ids`.
-- - Settlement has the data classes of src/tc_ledger/cross_verify.py, `normalize_hex`,
--   `normalize_address`, `normalize_amount_str` and `parse_settlement_evidence`; Crypto/Keccak
--   `keccak256`, Crypto/Secp256k1 the address of a public key. Py/Text/Runtime is the parameter for
--   what those use of Python on any text: lower case beyond ASCII, `str` of floats and containers,
--   and the numbers that a text denotes.
-- - Cross has `verify_cross_layer`, from the point where agreement, transcript and settlement evidence
--   are there: Cross/Terms and Cross/Binding its checks, Cross/Check the gate, with its theorems in
--   Gate, Evidence and Parties.
-- - Evm is src/tc_ledger/evm_verifier.py: Evm/Transfer `parse_and_verify_erc20_transfer`, Evm/Rpc
--   `rpc_call`, `fetch_chain_id` and `fetch_transaction_receipt`, where the HTTP request is a
--   parameter, Evm/Event `parse_and_verify_htlc_event`, Evm/Evidence
--   `build_rpc_settlement_evidence`. Evm/Event/Expected is about expectations that normalize,
--   Evm/Evidence/Outcome says what a claim or a refund shows. Evm/Conformant puts them together with the gate of Cross. Python's
--   limit on the decimal digits of a number is not modelled.
-- - Export/Classify has `classify_export_lines` and `verify_export` of src/tc_ledger/ledger.py, with
--   Export/Counts and Export/Anomalies about them, Export/Mapping `map_evidence_to_export`, with
--   Valid and Signed, Export/Artifact `build_commitment_artifact` and
--   `verify_commitment_artifact`. The UTF-8 decoder and `json.loads` are parameters.
-- - Tests: a concrete function in the place of SHA-256, runs, and instances of the theorems.
--
-- Loops run on fuel. A level halves in each round, so `grow_levels`, `reduce_level` and
-- `direction_steps` get the number of leaves; `subproof` gets the number of lines, and each call
-- divides its lines; the loops that shift indices get the index itself; `decimal_from` gets the
-- number and one more; `pow_from` gets the exponent, which halves in each round, and `sponge` the
-- number of blocks. Theorems that say that a function returns show that the fuel is enough.
--
-- Arguments have the types that the code's `isinstance` tests ask for, so those tests do not appear;
-- values that come out of JSON keep them. Not modelled: the command lines, deal archives and
-- standalone proofs of cross_verify, the other Python modules (bundle, tools), reading and writing
-- files, exception messages, and the TypeScript, Solidity and JavaScript parts of the repository.
pub mod Prelude
pub mod Py
pub mod Merkle
pub mod Artifact
pub mod Evidence
pub mod Record
pub mod Settlement
pub mod Crypto
pub mod Cross
pub mod Evm
pub mod Export
mod Tests
