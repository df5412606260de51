-- ===== src/Tests/Artifact.antt =====
-- Instances of the theorems on inclusion proof artifacts, on exports of two and of five lines.
use tc_ledger.Prelude.{◌≡◌, refl, true, some, [], ◌∷◌, arith}
use tc_ledger.Py.Result.{ok, ◌>>=◌}
use tc_ledger.Py.Int.{ℤ, pos}
use tc_ledger.Py.Str.{raw, Bytes, codes}
use tc_ledger.Py.Json.{Fields, dict, get}
use tc_ledger.Merkle.Hash.{node_hash, export_leaf_hash}
use tc_ledger.Merkle.Levels.{export_merkle_root, next_level, reduce_level, first_node}
use tc_ledger.Merkle.Proof.{
  expected_proof_directions, direction_steps, verify_export_merkle_proof, climb, climb_step,
}
use tc_ledger.Py.Hex.{hex, hex_digit, digit_value, is_ascii_space, fromhex}
use tc_ledger.Artifact.Inclusion.{
  inclusion_fields, read_audit_path, line_bytes, check_expected_root, check_inclusion,
  check_inclusion_artifact, build_inclusion_proof_artifact, verify_export_inclusion_proof,
}
use tc_ledger.Artifact.Inclusion.RoundTrip.{verify-build_inclusion_proof_artifact}
use tc_ledger.Artifact.Inclusion.Binding.{IsLineOrCollides, verify_export_inclusion_proof-binding}
use tc_ledger.Artifact.Export.{
  fromhex_value, line_at, check_calculated_root, verify_inclusion_proof_artifact,
  verify_inclusion_proof_artifact_root,
}
use tc_ledger.Merkle.Inclusion.{path_of}
use tc_ledger.Tests.Toy.{toy}
use tc_ledger.Tests.Merkle.{five, pair, pair_root, pair_rooted, sibling}

verify-build_inclusion_proof_artifact_example :
    (do
      artifact ← build_inclusion_proof_artifact toy five (codes "r") (pos 2) (pos 0)
      root ← export_merkle_root toy five
      verify_export_inclusion_proof toy
          (raw (codes "c"))
          artifact
          (some (raw root))
          (some (pos 0))
          (some (codes "r")))
    ≡ ok true
verify-build_inclusion_proof_artifact_example =
    verify-build_inclusion_proof_artifact toy five (codes "r") 2 0 (codes "c") refl (omega arith)

-- The artifact of the second line of the pair.
abbrev pair_fields : Fields
pair_fields =
    inclusion_fields (codes "r") (pos 0) (pos 1) 2 (export_leaf_hash toy (codes "b")) pair_root
      ((sibling, codes "left") ∷ [])

pair_proof_accepted :
    verify_export_inclusion_proof toy
      (raw (codes "b"))
      (dict pair_fields)
      (some (raw pair_root))
      (some (pos 0))
      (some (codes "r"))
    ≡ ok true
unfolding verify_export_inclusion_proof check_inclusion_artifact check_inclusion read_audit_path
    check_expected_root line_bytes expected_proof_directions direction_steps
    verify_export_merkle_proof climb climb_step node_hash export_leaf_hash hex hex_digit digit_value
    is_ascii_space fromhex
pair_proof_accepted = refl

verify_export_inclusion_proof-binding_example :
    IsLineOrCollides toy (codes "b") (codes "b") pair_fields (path_of toy pair 1)
verify_export_inclusion_proof-binding_example =
    verify_export_inclusion_proof-binding toy pair 1 (codes "b") (codes "b") pair_root pair_fields
      (some (pos 0)) (some (codes "r")) refl pair_rooted refl refl pair_proof_accepted

pair_artifact_accepted :
    verify_inclusion_proof_artifact toy
      (dict pair_fields)
      (some pair)
      (some (raw pair_root))
      (some (codes "r"))
      (some (pos 0))
    ≡ ok true
unfolding verify_inclusion_proof_artifact check_calculated_root verify_export_inclusion_proof
    check_inclusion_artifact check_inclusion read_audit_path check_expected_root line_bytes
    expected_proof_directions direction_steps verify_export_merkle_proof climb climb_step node_hash
    export_leaf_hash hex hex_digit digit_value is_ascii_space fromhex export_merkle_root
    reduce_level next_level first_node
pair_artifact_accepted = refl

verify_inclusion_proof_artifact_root_example :
    (r : Bytes) × (export_merkle_root toy pair ≡ ok r)
    × (fromhex_value (get pair_fields (codes "export_root")) ≡ ok r)
    × ((i : ℤ) × (line : Bytes) × (line_at pair i ≡ ok line)
        × (verify_export_inclusion_proof toy
              (raw line)
              (dict pair_fields)
              (some (raw pair_root))
              (some (pos 0))
              (some (codes "r"))
            ≡ ok true))
verify_inclusion_proof_artifact_root_example =
    verify_inclusion_proof_artifact_root toy pair_fields pair (some (raw pair_root))
      (some (codes "r")) (some (pos 0)) pair_artifact_accepted
