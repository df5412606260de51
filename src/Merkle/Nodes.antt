-- ===== src/Merkle/Nodes.antt =====
-- The nodes of a consistency proof of src/tc_ledger/ledger.py are roots, hence 32 byte values.
use tc_ledger.Prelude.{
  ℕ, zero, suc, ◌-◌, ◌≡◌, inl, inr, refl, sym, ◌∙◌, Bool, true, false, ◌||◌, if◌then◌else◌,
  Bool-cases, List, [], ◌∷◌, ◌++◌, ◌==◌, leb, ltb, length, take, drop, All,
}
use tc_ledger.Py.Result.{Result, ok, value_error, raise_if, ok_value, >>=-eq-ok, ◌>>=◌}
use tc_ledger.Py.Int.{pos}
use tc_ledger.Py.Str.{Bytes, IsBytes}
use tc_ledger.Merkle.Hash.{Sha256, IsHash, export_leaf_hash}
use tc_ledger.Merkle.Levels.{export_merkle_root}
use tc_ledger.Merkle.Inclusion.{path_of, export_merkle_root-eq-fold_path, fold_path-IsHash}
use tc_ledger.Merkle.Hash.{export_leaf_hash-IsHash}
use tc_ledger.Merkle.Consistency.{split_point, subproof, consistency_proof}
use tc_ledger.Merkle.Hold.{fold_path-IsBytes, export_leaf_hash-IsBytes}

All-snoc : {A : Type 0} (P : A → Type 0) (p : List A) (a : A) → All P p → P a → All P (p ++ a ∷ [])
All-snoc P [] a hp ha = (ha, tt)
All-snoc P (b ∷ p) a hp ha = (hp.0, All-snoc P p a hp.1 ha)

module _ (sha : Sha256) where
  pub export_merkle_root-IsBytes :
      (lines : List Bytes) (r : Bytes) → export_merkle_root sha lines ≡ ok r → IsBytes r
  export_merkle_root-IsBytes [] r h =
      unfold export_merkle_root in rw (sym (ok_value h)) (sha.digest_bytes [])
  export_merkle_root-IsBytes (line ∷ lines) r h =
      let e = export_merkle_root-eq-fold_path sha (line ∷ lines) 0 line refl in
      rw (ok_value (sym h ∙ e)) (
        fold_path-IsBytes sha (export_leaf_hash sha line) (path_of sha (line ∷ lines) 0)
          (export_leaf_hash-IsBytes sha line))

  pub export_merkle_root-IsHash :
      (lines : List Bytes) (r : Bytes) → export_merkle_root sha lines ≡ ok r → IsHash r
  export_merkle_root-IsHash [] r h =
      unfold export_merkle_root in rw (sym (ok_value h)) (sha.digest_length [])
  export_merkle_root-IsHash (line ∷ lines) r h =
      let e = export_merkle_root-eq-fold_path sha (line ∷ lines) 0 line refl in
      rw (ok_value (sym h ∙ e)) (
        fold_path-IsHash sha (export_leaf_hash sha line) (path_of sha (line ∷ lines) 0)
          (export_leaf_hash-IsHash sha line))

  -- A root behind a list of byte sequences.
  root_behind :
      (call : Result (List Bytes)) (lines : List Bytes) (p : List Bytes)
      → (do proof ← call; root ← export_merkle_root sha lines; ok (proof ++ root ∷ [])) ≡ ok p
      → ((proof : List Bytes) → call ≡ ok proof → All IsBytes proof)
      → All IsBytes p
  root_behind call lines p h before =
      let (proof, c, h1) = >>=-eq-ok call _ h in
      let (root, r, h2) = >>=-eq-ok (export_merkle_root sha lines) _ h1 in
      rw (sym (ok_value h2))
        (All-snoc IsBytes proof root (before proof c) (export_merkle_root-IsBytes lines root r))

  -- Both ways to divide.
  divided-IsBytes :
      (m k : ℕ) (first second : Result (List Bytes)) (lines : List Bytes) (p : List Bytes)
      → (if leb m k
          then (do
            proof ← first
            root ← export_merkle_root sha (drop k lines)
            ok (proof ++ root ∷ []))
          else (do
            proof ← second
            root ← export_merkle_root sha (take k lines)
            ok (proof ++ root ∷ [])))
        ≡ ok p
      → ((proof : List Bytes) → first ≡ ok proof → All IsBytes proof)
      → ((proof : List Bytes) → second ≡ ok proof → All IsBytes proof)
      → All IsBytes p
  divided-IsBytes m k first second lines p h f s = elim (Bool-cases (leb m k)) [
    | inl low ↦ root_behind first (drop k lines) p (rw low at h) f
    | inr high ↦ root_behind second (take k lines) p (rw high at h) s
  ]

  pub subproof-IsBytes :
      (f m : ℕ) (lines : List Bytes) (b : Bool) (p : List Bytes)
      → subproof sha f m lines b ≡ ok p
      → All IsBytes p
  unfolding subproof
  subproof-IsBytes zero m lines b p h = cc
  subproof-IsBytes (suc f) m lines b p h = elim (Bool-cases (m == length lines)) [
    | inl whole ↦ whole_lines b (rw whole at h)
    | inr part ↦
        let (k, _, h1) = >>=-eq-ok (split_point (length lines)) _ (rw part at h) in
        divided-IsBytes m k (subproof sha f m (take k lines) b)
          (subproof sha f (m - k) (drop k lines) false) lines p h1
          (subproof-IsBytes f m (take k lines) b) (subproof-IsBytes f (m - k) (drop k lines) false)
  ]
    where
      whole_lines :
          (c : Bool)
          → (if c then ok [] else (do root ← export_merkle_root sha lines; ok (root ∷ []))) ≡ ok p
          → All IsBytes p
      whole_lines true e = rw (sym (ok_value e)) tt
      whole_lines false e =
          let (root, r, e1) = >>=-eq-ok (export_merkle_root sha lines) _ e in
          rw (sym (ok_value e1)) (export_merkle_root-IsBytes lines root r, tt)

  -- Each node of a consistency proof is a list of byte values.
  pub consistency_proof-IsBytes :
      (m : ℕ) (lines : List Bytes) (p : List Bytes)
      → consistency_proof sha (pos m) lines ≡ ok p
      → All IsBytes p
  unfolding consistency_proof
  consistency_proof-IsBytes m lines p h =
      let (_, _, h1) = >>=-eq-ok (raise_if (ltb (length lines) m) value_error) _ h in
      elim (Bool-cases (m == 0 || m == length lines)) [
        | inl trivial ↦ rw (sym (ok_value (rw trivial at h1))) tt
        | inr proper ↦
            let (k, _, h2) = >>=-eq-ok (split_point (length lines)) _ (rw proper at h1) in
            divided-IsBytes m k (subproof sha (length lines) m (take k lines) true)
              (subproof sha (length lines) (m - k) (drop k lines) false) lines p h2
              (subproof-IsBytes (length lines) m (take k lines) true)
              (subproof-IsBytes (length lines) (m - k) (drop k lines) false)
      ]
