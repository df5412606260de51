-- ===== src/Merkle/Hash.antt =====
-- SHA-256 as a parameter, and the leaf and node hashes of src/tc_ledger/ledger.py.
use tc_ledger.Prelude.{
  ℕ, ◌≡◌, ◌≢◌, not, ◌||◌, some, List, get_elem?, ◌∷◌, ◌++◌, ◌==◌, length, arith, ℕ_discrete,
}
use tc_ledger.Py.Result.{Result, ok, value_error, raise_if, ◌>>◌}
use tc_ledger.Py.Str.{Bytes, IsBytes}

-- hashlib.sha256(b).digest(): 32 bytes, whatever the input.
pub record Sha256 : Type 0 where
  pub digest : Bytes → Bytes
  pub digest_length : (b : Bytes) → length (digest b) ≡ 32
  pub digest_bytes : (b : Bytes) → IsBytes (digest b)

-- At one place of two lists of hashed inputs, two different inputs with one digest.
abbrev pub CollisionIn : Sha256 → List Bytes → List Bytes → Type 0
CollisionIn sha inputs inputs' =
    (k : ℕ) × (a b : Bytes) × (get_elem? inputs k ≡ some a)
    × (get_elem? inputs' k ≡ some b)
    × (a ≢ b)
    × (sha.digest a ≡ sha.digest b)

abbrev pub IsHash : Bytes → Type 0
IsHash b = length b ≡ 32

module _ (sha : Sha256) where
  unfoldable pub export_leaf_hash : Bytes → Bytes
  export_leaf_hash raw_line_bytes = sha.digest (0 ∷ raw_line_bytes)

  -- SHA-256 of the byte 1 and both children.
  unfoldable pub node : Bytes → Bytes → Bytes
  node left right = sha.digest (1 ∷ (left ++ right))

  unfoldable pub node_hash : Bytes → Bytes → Result Bytes
  node_hash left right = do
    raise_if (not (length left == 32) || not (length right == 32)) value_error
    ok (sha.digest (1 ∷ (left ++ right)))

  pub node_hash-eq-node :
      (left right : Bytes)
      → IsHash left
      → IsHash right
      → node_hash left right ≡ ok (node left right)
  unfolding node_hash node
  node_hash-eq-node left right l r = ground arith

  pub node-IsHash : (left right : Bytes) → IsHash (node left right)
  unfolding node
  node-IsHash left right = sha.digest_length (1 ∷ (left ++ right))

  pub export_leaf_hash-IsHash : (b : Bytes) → IsHash (export_leaf_hash b)
  unfolding export_leaf_hash
  export_leaf_hash-IsHash b = sha.digest_length (0 ∷ b)

pub Bytes-discrete : Discrete Bytes
Bytes-discrete = hlevel ℕ_discrete
