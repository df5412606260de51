-- ===== src/Tests/Evidence.antt =====
-- Instances of the theorems on Merkle v1 trees over evidence identifiers.
use tc_ledger.Prelude.{◌≡◌, ◌⊎◌, refl, true, List, [], ◌∷◌}
use tc_ledger.Py.Result.{ok, ◌>>=◌}
use tc_ledger.Py.Int.{pos}
use tc_ledger.Py.Str.{Str, Bytes, codes}
use tc_ledger.Py.Utf8.{encode_char, utf8_encode}
use tc_ledger.Merkle.Hash.{CollisionIn, node_hash}
use tc_ledger.Merkle.Levels.{export_merkle_root, next_level, grow_levels, first_node}
use tc_ledger.Merkle.Proof.{climb, climb_step}
use tc_ledger.Merkle.Evidence.{
  encodings, last_level, leaf_hash, leaf_hashes, build_levels, merkle_root, merkle_proof,
  verify_merkle_proof, merkle_root-eq-export_merkle_root, verify-merkle_proof,
}
use tc_ledger.Merkle.Evidence.Binding.{verify_merkle_proof-binding}
use tc_ledger.Merkle.Inclusion.{path_of}
use tc_ledger.Merkle.Binding.{hashed}
use tc_ledger.Tests.Toy.{toy}
use tc_ledger.Tests.Merkle.{pair, pair_root, pair_directions, sibling}

-- `"a"`, and one character of two bytes.
abbrev ids : List Str
ids = codes "a" ∷ (0xe9 ∷ []) ∷ []

abbrev ids_encoded : List Bytes
ids_encoded = codes "a" ∷ (0xc3 ∷ 0xa9 ∷ []) ∷ []

ids_encode : encodings ids ≡ ok ids_encoded
unfolding encodings utf8_encode encode_char
ids_encode = refl

merkle_root-eq-export_merkle_root_example :
    merkle_root toy ids ≡ (do lines ← encodings ids; export_merkle_root toy lines)
merkle_root-eq-export_merkle_root_example = merkle_root-eq-export_merkle_root toy ids

verify-merkle_proof_example :
    (do
      proof ← merkle_proof toy ids (pos 1)
      root ← merkle_root toy ids
      verify_merkle_proof toy (0xe9 ∷ []) proof root)
    ≡ ok true
verify-merkle_proof_example = verify-merkle_proof toy ids ids_encoded 1 (0xe9 ∷ []) ids_encode refl

pair_encodes : encodings pair ≡ ok pair
unfolding encodings utf8_encode encode_char
pair_encodes = refl

pair_evidence_rooted : merkle_root toy pair ≡ ok pair_root
unfolding merkle_root build_levels last_level leaf_hashes leaf_hash utf8_encode encode_char
    grow_levels next_level first_node node_hash
pair_evidence_rooted = refl

pair_evidence_accepted :
    verify_merkle_proof toy (codes "b") ((sibling, codes "left") ∷ []) pair_root ≡ ok true
unfolding verify_merkle_proof leaf_hash utf8_encode encode_char climb climb_step node_hash
pair_evidence_accepted = refl

b_encoded : utf8_encode (codes "b") ≡ ok (codes "b")
unfolding utf8_encode encode_char
b_encoded = refl

verify_merkle_proof-binding_example :
    (line : Bytes) × (utf8_encode (codes "b") ≡ ok line)
    × ((codes "b" ≡ codes "b")
        ⊎ CollisionIn toy
            (hashed toy (codes "b") ((sibling, codes "left") ∷ []))
            (hashed toy line (path_of toy pair 1)))
verify_merkle_proof-binding_example =
    verify_merkle_proof-binding toy pair pair 1 (codes "b") (codes "b") (codes "b") pair_root
      ((sibling, codes "left") ∷ []) pair_encodes refl b_encoded pair_evidence_rooted
      pair_directions pair_evidence_accepted
