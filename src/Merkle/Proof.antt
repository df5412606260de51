-- ===== src/Merkle/Proof.antt =====
-- Inclusion proofs of src/tc_ledger/ledger.py: the audit path of a leaf, and its verification.
use tc_ledger.Prelude.{
  Option, ℕ, zero, suc, ◌+◌, ◌-◌, ◌/◌, ◌%◌, Bool, not, none, some, List, [], ◌∷◌, ◌++◌, ◌==◌, ltb,
  leb, if◌then◌else◌, length, get_elem?,
}
use tc_ledger.Py.Result.{
  Result, ok, err, out_of_fuel, index_error, value_error, raise_if, ◌>>=◌, ◌>>◌,
}
use tc_ledger.Py.Int.{ℤ, pos, negsuc}
use tc_ledger.Py.Str.{Str, Bytes, same}
use tc_ledger.Merkle.Hash.{Sha256, node_hash, export_leaf_hash}
use tc_ledger.Merkle.Tree.{left_str, right_str}
use tc_ledger.Merkle.Levels.{drop_last, build_export_levels}

abbrev or_index_error : Option Bytes → Result Bytes
or_index_error (some b) = ok b
or_index_error none = err index_error

-- level[i]
abbrev pub index_at : List Bytes → ℕ → Result Bytes
index_at level i = or_index_error (get_elem? level i)

-- One round of the loop over `levels[:-1]`: what is appended to the proof.
unfoldable pub proof_step : List Bytes → ℕ → Result (List (Bytes × Str))
proof_step level current_index =
    if current_index % 2 == 0
    then (if ltb (current_index + 1) (length level)
        then (do sibling ← index_at level (current_index + 1); ok ((sibling, right_str) ∷ []))
        else ok [])
    else (do sibling ← index_at level (current_index - 1); ok ((sibling, left_str) ∷ []))

unfoldable pub proof_steps : List (List Bytes) → ℕ → Result (List (Bytes × Str))
proof_steps [] current_index = ok []
proof_steps (level ∷ levels) current_index = do
  steps ← proof_step level current_index
  rest ← proof_steps levels (current_index / 2)
  ok (steps ++ rest)

-- The loop of `expected_proof_directions`.
unfoldable pub direction_steps : ℕ → ℕ → ℕ → Result (List Str)
direction_steps zero level_size current_index = err out_of_fuel
direction_steps (suc fuel) level_size current_index =
    let more = (do
      rest ← direction_steps fuel ((level_size + 1) / 2) (current_index / 2)
      ok (
          (if current_index % 2 == 0
            then (if ltb (current_index + 1) level_size then right_str ∷ [] else [])
            else left_str ∷ [])
          ++ rest)) in
    if ltb 1 level_size then more else ok []

unfoldable pub expected_proof_directions : ℤ → ℤ → Result (List Str)
expected_proof_directions (negsuc n) leaf_index = err value_error
expected_proof_directions (pos tree_size) (negsuc i) =
    if ltb tree_size 1 then err value_error else err index_error
expected_proof_directions (pos tree_size) (pos leaf_index) = do
  raise_if (ltb tree_size 1) value_error
  raise_if (leb tree_size leaf_index) index_error
  direction_steps tree_size tree_size leaf_index

module _ (sha : Sha256) where
  unfoldable pub export_merkle_proof : List Bytes → ℤ → Result (List (Bytes × Str))
  export_merkle_proof raw_lines (negsuc i) = err index_error
  export_merkle_proof raw_lines (pos index) = do
    raise_if (leb (length raw_lines) index) index_error
    levels ← build_export_levels sha raw_lines
    proof_steps (drop_last levels) index

  -- One round of the verifier's loop.
  unfoldable pub climb_step : Bytes → Bytes → Str → Result Bytes
  climb_step current sibling position = do
    raise_if (not (length sibling == 32)) value_error
    if same position left_str
        then node_hash sha sibling current
        else if same position right_str
        then node_hash sha current sibling
        else err value_error

  unfoldable pub climb : Bytes → List (Bytes × Str) → Result Bytes
  climb current [] = ok current
  climb current ((sibling, position) ∷ rest) = do
    next ← climb_step current sibling position
    climb next rest

  unfoldable pub verify_export_merkle_proof : Bytes → List (Bytes × Str) → Bytes → Result Bool
  verify_export_merkle_proof raw_line_bytes proof expected_root = do
    raise_if (not (length expected_root == 32)) value_error
    current ← climb (export_leaf_hash sha raw_line_bytes) proof
    ok (same current expected_root)
