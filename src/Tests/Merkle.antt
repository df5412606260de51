-- ===== src/Tests/Merkle.antt =====
-- Instances of the theorems on Merkle trees, on an export of five lines.
use tc_ledger.Prelude.{◌≡◌, ◌⊎◌, refl, true, List, [], ◌∷◌, ◌++◌, map, take, arith}
use tc_ledger.Py.Result.{ok, ◌>>=◌}
use tc_ledger.Py.Int.{pos}
use tc_ledger.Py.Str.{raw, Bytes, codes}
use tc_ledger.Merkle.Hash.{CollisionIn, node_hash, export_leaf_hash}
use tc_ledger.Merkle.Levels.{export_merkle_root, next_level, reduce_level, first_node}
use tc_ledger.Merkle.Proof.{
  expected_proof_directions, direction_steps, export_merkle_proof, verify_export_merkle_proof,
  climb, climb_step,
}
use tc_ledger.Merkle.Consistency.{consistency_proof, verify_consistency_proof}
use tc_ledger.Merkle.Inclusion.{path_of, verify-export_merkle_proof}
use tc_ledger.Merkle.Directions.{positions, expected_proof_directions-eq-positions}
use tc_ledger.Merkle.Binding.{hashed, verify_export_merkle_proof-binding}
use tc_ledger.Merkle.Prefix.{verify-consistency_proof}
use tc_ledger.Merkle.Rfc.{export_merkle_root-append}
use tc_ledger.Tests.Toy.{toy}

abbrev pub five : List Bytes
five = codes "a" ∷ codes "b" ∷ codes "c" ∷ codes "d" ∷ codes "e" ∷ []

verify-export_merkle_proof_example :
    (do
      proof ← export_merkle_proof toy five (pos 2)
      root ← export_merkle_root toy five
      verify_export_merkle_proof toy (codes "c") proof root)
    ≡ ok true
verify-export_merkle_proof_example = verify-export_merkle_proof toy five 2 (codes "c") refl

expected_proof_directions-eq-positions_example :
    expected_proof_directions (pos 5) (pos 4)
    ≡ (do proof ← export_merkle_proof toy five (pos 4); ok (positions proof))
expected_proof_directions-eq-positions_example =
    expected_proof_directions-eq-positions toy five (pos 4) (omega arith)

two : List Bytes
two = codes "a" ∷ codes "b" ∷ []

verify-consistency_proof_example :
    (do
      proof ← consistency_proof toy (pos 3) five
      old_root ← export_merkle_root toy (take 3 five)
      new_root ← export_merkle_root toy five
      verify_consistency_proof toy (pos 3) (pos 5) (raw old_root) (raw new_root) (map raw proof))
    ≡ ok true
verify-consistency_proof_example = verify-consistency_proof toy 3 five (omega arith)

export_merkle_root-append_example : export_merkle_root toy five ≡ (do
  left ← export_merkle_root toy (take 4 five)
  right ← export_merkle_root toy (codes "e" ∷ [])
  node_hash toy left right)
export_merkle_root-append_example =
    export_merkle_root-append toy 2 (take 4 five) (codes "e" ∷ []) refl (omega arith) (omega arith)

abbrev pub sibling : Bytes
sibling = toy.digest (0 ∷ codes "a")

abbrev pub pair : List Bytes
pair = codes "a" ∷ codes "b" ∷ []

abbrev pub pair_root : Bytes
pair_root = toy.digest (1 ∷ (toy.digest (0 ∷ codes "a") ++ toy.digest (0 ∷ codes "b")))

pub pair_rooted : export_merkle_root toy pair ≡ ok pair_root
unfolding export_merkle_root reduce_level next_level first_node node_hash export_leaf_hash
pair_rooted = refl

pub pair_directions :
    expected_proof_directions (pos 2) (pos 1) ≡ ok (positions ((sibling, codes "left") ∷ []))
unfolding expected_proof_directions direction_steps
pair_directions = refl

pair_accepted :
    verify_export_merkle_proof toy (codes "b") ((sibling, codes "left") ∷ []) pair_root ≡ ok true
unfolding verify_export_merkle_proof climb climb_step node_hash export_leaf_hash
pair_accepted = refl

verify_export_merkle_proof-binding_example :
    (codes "b" ≡ codes "b")
    ⊎ CollisionIn toy
        (hashed toy (codes "b") ((sibling, codes "left") ∷ []))
        (hashed toy (codes "b") (path_of toy pair 1))
verify_export_merkle_proof-binding_example =
    verify_export_merkle_proof-binding toy pair 1 (codes "b") (codes "b") pair_root
      ((sibling, codes "left") ∷ []) refl pair_rooted pair_directions pair_accepted
