-- ===== src/Tests/Consistency.antt =====
-- Instances of the theorems on consistency proof artifacts: an export of two lines that grows to three.
use tc_ledger.Prelude.{
  ◌≡◌, refl, true, false, if◌then◌else◌, none, List, [], ◌∷◌, ◌++◌, arith, some,
}
use tc_ledger.Py.Result.{Result, ok, type_error, attribute_error}
use tc_ledger.Py.Int.{pos, int_le}
use tc_ledger.Py.Str.{Str, Bytes, codes, same}
use tc_ledger.Py.Hex.{hex, hex_digit, digit_value, is_ascii_space, fromhex}
use tc_ledger.Py.Check.{pass, raised}
use tc_ledger.Py.Json.{Json, Fields, dict, bool, int, str, list, nil, field, end, get, anchor_int}
use tc_ledger.Merkle.Hash.{node_hash, export_leaf_hash}
use tc_ledger.Merkle.Levels.{export_merkle_root, reduce_level, next_level, first_node}
use tc_ledger.Merkle.Consistency.{
  bit_length_from, bit_length, split_point, subproof, consistency_proof, to_hash, to_hashes,
  shift_while_odd, shift_while_even, consistency_step, consistency_steps, check_consistency,
  verify_consistency_hashes, verify_consistency_proof,
}
use tc_ledger.Artifact.Consistency.{
  Anchors, consistency_fields, read_nodes, build_from_lines, build_consistency_proof_artifact,
  check_extension, verify_consistency_proof_artifact,
}
use tc_ledger.Artifact.Consistency.RoundTrip.{
  all_anchors, report_of, verify-build_consistency_proof_artifact,
}
use tc_ledger.Artifact.Consistency.Sound.{
  Extends, build_consistency_proof_artifact-prefix, verify_consistency_proof_artifact_sound,
}
use tc_ledger.Tests.Toy.{toy}
use tc_ledger.Tests.Merkle.{pair, pair_root, pair_rooted}

abbrev more : List Bytes
more = codes "c" ∷ []

abbrev grown_root : Bytes
grown_root = toy.digest (1 ∷ (pair_root ++ toy.digest (0 ∷ codes "c")))

grown_rooted : export_merkle_root toy (pair ++ more) ≡ ok grown_root
unfolding export_merkle_root reduce_level next_level first_node node_hash export_leaf_hash
grown_rooted = refl

-- Two files.
abbrev files : Str → Result (List Bytes)
files path = if same path (codes "old") then ok pair else ok (pair ++ more)

abbrev room : Str
room = codes "r"

-- A stand-in for `str.lower`; the texts of the tests are in lower case.
abbrev lower : Str → Str
lower s = s

verify-build_consistency_proof_artifact_example :
    (artifact : Json) × (build_consistency_proof_artifact toy files
        (codes "old")
        (codes "new")
        room
        (pos 0)
        (pos 1)
      ≡ ok artifact)
    × (verify_consistency_proof_artifact toy lower artifact
          (all_anchors room 0 1 pair_root grown_root 2 3)
        ≡ pass (report_of room 0 1 pair_root grown_root 2 3))
verify-build_consistency_proof_artifact_example =
    verify-build_consistency_proof_artifact toy lower files (codes "old") (codes "new") room 0 1
      pair more pair_root grown_root refl refl pair_rooted grown_rooted (omega arith) refl
      (omega arith)

abbrev grown_fields : Fields
grown_fields =
    consistency_fields room (pos 0) (pos 1) 2 3 pair_root grown_root
      (export_leaf_hash toy (codes "c") ∷ [])

grown_built :
    build_consistency_proof_artifact toy files (codes "old") (codes "new") room (pos 0) (pos 1)
    ≡ ok (dict grown_fields)
unfolding build_consistency_proof_artifact build_from_lines export_merkle_root reduce_level
    next_level first_node node_hash export_leaf_hash consistency_proof subproof split_point
    bit_length bit_length_from
grown_built = refl

build_consistency_proof_artifact-prefix_example :
    (old_lines new_lines rest : List Bytes) × (files (codes "old") ≡ ok old_lines)
    × (files (codes "new") ≡ ok new_lines)
    × (new_lines ≡ old_lines ++ rest)
    × (int_le (pos 0) (pos 1) ≡ true)
    × (same room [] ≡ false)
build_consistency_proof_artifact-prefix_example =
    build_consistency_proof_artifact-prefix toy files (codes "old") (codes "new") room (pos 0)
      (pos 1) (dict grown_fields) grown_built

grown_accepted :
    verify_consistency_proof_artifact toy lower
      (dict grown_fields)
      (all_anchors room 0 1 pair_root grown_root 2 3)
    ≡ pass (report_of room 0 1 pair_root grown_root 2 3)
unfolding verify_consistency_proof_artifact check_extension read_nodes verify_consistency_proof
    to_hash to_hashes verify_consistency_hashes check_consistency shift_while_odd shift_while_even
    consistency_step consistency_steps hex hex_digit digit_value is_ascii_space fromhex node_hash
    export_leaf_hash
grown_accepted = refl

verify_consistency_proof_artifact_sound_example :
    Extends toy grown_fields
    × (anchor_int (some (pos 2)) (get grown_fields (codes "old_tree_size")) ≡ true)
    × (anchor_int (some (pos 3)) (get grown_fields (codes "new_tree_size")) ≡ true)
verify_consistency_proof_artifact_sound_example =
    verify_consistency_proof_artifact_sound toy lower grown_fields
      (all_anchors room 0 1 pair_root grown_root 2 3) (report_of room 0 1 pair_root grown_root 2 3)
      grown_accepted

-- An artifact with this old tree size, this old root and no proof.
abbrev odd_artifact : Json → Json → Json
odd_artifact old_tree_size old_root = dict (
    field (codes "version") (int (pos 1)) (
      field (codes "schema") (str (codes "tc-ledger/consistency-proof/v1")) (
        field (codes "profile") (str (codes "tc-ledger/1")) (
          field (codes "room") (str room) (
            field (codes "old_generation") (int (pos 0)) (
              field (codes "new_generation") (int (pos 0)) (
                field (codes "old_tree_size") old_tree_size (
                  field (codes "new_tree_size") (int (pos 3)) (
                    field (codes "old_root") old_root (
                      field (codes "new_root") (str (hex grown_root))
                        (field (codes "proof") (list nil) end)))))))))))

abbrev no_anchors : Anchors
no_anchors = record {
  expected_room = none;
  expected_old_generation = none;
  expected_new_generation = none;
  expected_old_root = none;
  expected_new_root = none;
  expected_old_tree_size = none;
  expected_new_tree_size = none;
}

-- A tree size `true` passes the checks of the artifact, and `verify_consistency_proof` raises.
bool_size_raises :
    verify_consistency_proof_artifact toy lower
      (odd_artifact (bool true) (str (hex pair_root)))
      no_anchors
    ≡ raised type_error
unfolding verify_consistency_proof_artifact check_extension read_nodes hex hex_digit digit_value
    is_ascii_space fromhex
bool_size_raises = refl

-- A root that is a number has no `lower`.
number_root_raises :
    verify_consistency_proof_artifact toy lower
      (odd_artifact (int (pos 2)) (int (pos 7)))
      (record no_anchors { expected_old_root = some (hex pair_root) })
    ≡ raised attribute_error
unfolding verify_consistency_proof_artifact hex hex_digit
number_root_raises = refl
