-- ===== src/Merkle/Consistency.antt =====
-- Consistency proofs of src/tc_ledger/ledger.py: what `consistency_proof` makes, and what
-- `verify_consistency_proof` checks.
use Prim.Native.Nat.{bit_and}
use tc_ledger.Prelude.{
  ℕ, zero, suc, ◌-◌, ◌/◌, ◌%◌, ◌^◌, Bool, true, false, not, ◌&&◌, ◌||◌, Option, none, some, List,
  [], ◌∷◌, ◌++◌, ◌==◌, ltb, leb, if◌then◌else◌, length, take, drop,
}
use tc_ledger.Py.Result.{Result, ok, err, out_of_fuel, value_error, raise_if, ◌>>=◌, ◌>>◌}
use tc_ledger.Py.Int.{ℤ, pos, negsuc}
use tc_ledger.Py.Str.{BytesOrStr, raw, text, Bytes, same}
use tc_ledger.Py.Hex.{fromhex}
use tc_ledger.Merkle.Hash.{Sha256, node_hash}
use tc_ledger.Merkle.Levels.{export_merkle_root}

-- n.bit_length(), where `n` itself is fuel enough.
unfoldable pub bit_length_from : ℕ → ℕ → ℕ
bit_length_from zero n = 0
bit_length_from (suc fuel) n =
    let longer = suc (bit_length_from fuel (n / 2)) in if n == 0 then 0 else longer

unfoldable pub bit_length : ℕ → ℕ
bit_length n = bit_length_from n n

-- `1 << ((n - 1).bit_length() - 1)`: (-1).bit_length() is 1, and a negative shift is a ValueError.
unfoldable pub split_point : ℕ → Result ℕ
split_point zero = ok 1
split_point (suc n) = elim (bit_length n) [ zero ↦ err value_error | suc b ↦ ok (2 ^ b) ]

-- The two nodes that the verifier has computed, and where they stand in their levels.
pub record Frontier : Type 0 where
  pub fn : Bytes
  pub sn : Bytes
  pub fn_index : ℕ
  pub sn_index : ℕ

-- `while fn_index % 2 == 1`
unfoldable pub shift_while_odd : ℕ → ℕ → ℕ → ℕ × ℕ
shift_while_odd zero fn_index sn_index = (fn_index, sn_index)
shift_while_odd (suc fuel) fn_index sn_index =
    let shifted = shift_while_odd fuel (fn_index / 2) (sn_index / 2) in
    if fn_index % 2 == 1 then shifted else (fn_index, sn_index)

-- `while fn_index % 2 == 0 and fn_index != 0`
unfoldable pub shift_while_even : ℕ → ℕ → ℕ → ℕ × ℕ
shift_while_even zero fn_index sn_index = (fn_index, sn_index)
shift_while_even (suc fuel) fn_index sn_index =
    let shifted = shift_while_even fuel (fn_index / 2) (sn_index / 2) in
    if fn_index % 2 == 0 && not (fn_index == 0) then shifted else (fn_index, sn_index)

unfoldable pub to_hash : BytesOrStr → Result Bytes
to_hash (raw b) = do raise_if (not (length b == 32)) value_error; ok b
to_hash (text s) = do b ← fromhex s; raise_if (not (length b == 32)) value_error; ok b

unfoldable pub to_hashes : List BytesOrStr → Result (List Bytes)
to_hashes [] = ok []
to_hashes (h ∷ hs) = do b ← to_hash h; bs ← to_hashes hs; ok (b ∷ bs)

module _ (sha : Sha256) where
  unfoldable pub subproof : ℕ → ℕ → List Bytes → Bool → Result (List Bytes)
  subproof zero m raw_lines b = err out_of_fuel
  subproof (suc fuel) m raw_lines b =
      let whole =
        if b then ok [] else (do root ← export_merkle_root sha raw_lines; ok (root ∷ [])) in
      let divided = (do
        k ← split_point (length raw_lines)
        (let first = (do
          proof ← subproof fuel m (take k raw_lines) b
          root ← export_merkle_root sha (drop k raw_lines)
          ok (proof ++ root ∷ [])) in
            let second = (do
              proof ← subproof fuel (m - k) (drop k raw_lines) false
              root ← export_merkle_root sha (take k raw_lines)
              ok (proof ++ root ∷ [])) in
            if leb m k then first else second)) in
      if m == length raw_lines then whole else divided

  unfoldable pub consistency_proof : ℤ → List Bytes → Result (List Bytes)
  consistency_proof (negsuc n) raw_lines = err value_error
  consistency_proof (pos m) raw_lines = do
    raise_if (ltb (length raw_lines) m) value_error
    if m == 0 || m == length raw_lines then ok [] else (do
      k ← split_point (length raw_lines)
      if leb m k
          then (do
            proof ← subproof (length raw_lines) m (take k raw_lines) true
            root ← export_merkle_root sha (drop k raw_lines)
            ok (proof ++ root ∷ []))
          else (do
            proof ← subproof (length raw_lines) (m - k) (drop k raw_lines) false
            root ← export_merkle_root sha (take k raw_lines)
            ok (proof ++ root ∷ [])))

  -- One round of `for node in proof[proof_idx:]`; `none` is its `return False`.
  unfoldable pub consistency_step : Bytes → Frontier → Result (Option Frontier)
  consistency_step proof_node s =
      if s.sn_index == 0
      then ok none
      else if s.fn_index % 2 == 1 || s.fn_index == s.sn_index
      then (do
        fn ← node_hash sha proof_node s.fn
        sn ← node_hash sha proof_node s.sn
        (let (fn_index, sn_index) = shift_while_even s.fn_index s.fn_index s.sn_index in
            ok (
              some
                (record { fn = fn; sn = sn; fn_index = fn_index / 2; sn_index = sn_index / 2 }))))
      else (do
        sn ← node_hash sha s.sn proof_node
        ok (some (record s { sn = sn; fn_index = s.fn_index / 2; sn_index = s.sn_index / 2 })))

  unfoldable pub consistency_steps : List Bytes → Frontier → Result (Option Frontier)
  consistency_steps [] s = ok (some s)
  consistency_steps (proof_node ∷ proof) s = do
    next ← consistency_step proof_node s
    elim next [ none ↦ ok none | some s' ↦ consistency_steps proof s' ]

  -- The loop from the given nodes, and the `return` behind it.
  unfoldable pub check_consistency :
      ℕ → ℕ → Bytes → Bytes → Bytes → Bytes → List Bytes → Result Bool
  check_consistency m n old_root new_root fn sn proof =
      let (fn_index, sn_index) = shift_while_odd (m - 1) (m - 1) (n - 1) in
      do
        reached ←
            consistency_steps proof
              (record { fn = fn; sn = sn; fn_index = fn_index; sn_index = sn_index })
        elim reached [
          | none ↦ ok false
          | some s ↦ ok (same s.fn old_root && same s.sn new_root && s.sn_index == 0)
        ]

  -- What follows the conversion of the arguments.
  unfoldable pub verify_consistency_hashes : ℤ → ℤ → Bytes → Bytes → List Bytes → Result Bool
  verify_consistency_hashes (pos m) (pos n) old_root new_root proof =
      if ltb n m
      then ok false
      else if m == n
      then ok (length proof == 0 && same old_root new_root)
      else if m == 0
      then ok (length proof == 0 && same old_root (sha.digest []))
      else elim proof [
        | [] ↦ ok false
        | first ∷ rest ↦
            if bit_and m (m - 1) == 0
            then check_consistency m n old_root new_root old_root old_root (first ∷ rest)
            else check_consistency m n old_root new_root first first rest
      ]
  verify_consistency_hashes _ _ old_root new_root proof = ok false

  unfoldable pub verify_consistency_proof :
      ℤ → ℤ → BytesOrStr → BytesOrStr → List BytesOrStr → Result Bool
  verify_consistency_proof old_size new_size old_root new_root proof = do
    old ← to_hash old_root
    new ← to_hash new_root
    nodes ← to_hashes proof
    verify_consistency_hashes old_size new_size old new nodes
