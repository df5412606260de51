-- ===== src/Merkle/Generator.antt =====
-- `export_merkle_root` and `consistency_proof` of src/tc_ledger/ledger.py compute the root and the
-- proof of `Split` and `Audit`: neither raises, and the recursion ends.
use mathlib.Core.List.{map-append}
use tc_ledger.Prelude.{
  ℕ, zero, suc, ◌+◌, ◌-◌, ◌*◌, ◌^◌, ◌≤◌, ◌<◌, ◌≡◌, ◌⊎◌, inl, inr, refl, sym, ◌∙◌, ap, Bool, true,
  false, ◌||◌, Bool-cases, List, [], ◌∷◌, ◌++◌, ◌==◌, ==→eq, ltb, leb, if◌then◌else◌, length,
  length-map, take, drop, length-take, length-drop, take-append-drop, arith,
}
use tc_ledger.Py.Result.{ok}
use tc_ledger.Py.Int.{pos}
use tc_ledger.Py.Str.{Bytes}
use tc_ledger.Merkle.Hash.{Sha256, node, export_leaf_hash}
use tc_ledger.Merkle.Tree.{peak, length-peak}
use tc_ledger.Merkle.Levels.{export_merkle_root, first_node, reduce_level-eq-peak}
use tc_ledger.Merkle.Inclusion.{leaves, leaves-IsHash}
use tc_ledger.Merkle.Split.{root, head_or}
use tc_ledger.Merkle.Consistency.{split_point, subproof, consistency_proof}
use tc_ledger.Merkle.SplitPoint.{split_point_bounds}
use tc_ledger.Merkle.Audit.{audit, audit_whole, audit-append_left, audit-append_right}

first_node-eq-head_or :
    (d : Bytes) (l : List Bytes) → length l ≡ 1 → first_node l ≡ ok (head_or d l)
unfolding first_node
first_node-eq-head_or d [] h = absurd (omega arith)
first_node-eq-head_or d (x ∷ l) h = refl

module _ (sha : Sha256) where
  abbrev pub tree_root : List Bytes → Bytes
  tree_root l = root (node sha) (sha.digest []) l

  pub export_merkle_root-eq-tree_root :
      (lines : List Bytes) → export_merkle_root sha lines ≡ ok (tree_root (leaves sha lines))
  unfolding export_merkle_root
  export_merkle_root-eq-tree_root [] = unfold root peak in refl
  export_merkle_root-eq-tree_root (line ∷ lines) =
      let l = leaves sha (line ∷ lines) in
      let size = length-map (export_leaf_hash sha) (line ∷ lines) in
      rw
        (
          reduce_level-eq-peak sha (suc (length lines)) l (leaves-IsHash sha (line ∷ lines))
              (omega (arith, size)) (omega (arith, size)),
          first_node-eq-head_or (sha.digest []) (peak (node sha) (suc (length lines)) l) (
              length-peak (node sha) (suc (length lines)) l (omega (arith, size))
                (omega (arith, size))),
        )
        (unfold root in
          let same_size : length (leaves sha lines) ≡ length lines = omega (arith, size) in
          rw same_size)

  leaves_split :
      (k : ℕ) (lines : List Bytes)
      → leaves sha (take k lines) ++ leaves sha (drop k lines) ≡ leaves sha lines
  leaves_split k lines =
      sym (map-append (export_leaf_hash sha) (take k lines) (drop k lines))
      ∙ ap (leaves sha) (take-append-drop k lines)

  -- What both parts of a division give, with the root of the other part.
  audit_first :
      (g b m : ℕ) (lines : List Bytes) (known : Bool)
      → 2 ^ b < length lines
      → length lines ≤ 2 * 2 ^ b
      → 0 < m
      → m ≤ 2 ^ b
      → m ≤ g
      → audit (node sha) g m (leaves sha (take (2 ^ b) lines)) known
          ++ tree_root (leaves sha (drop (2 ^ b) lines)) ∷ []
        ≡ audit (node sha) g m (leaves sha lines) known
  audit_first g b m lines known low high m0 mb mg =
      let l = take (2 ^ b) lines in
      let r = drop (2 ^ b) lines in
      let size_l = length-map (export_leaf_hash sha) l in
      let size_r = length-map (export_leaf_hash sha) r in
      let n_l = length-take (2 ^ b) lines (omega arith) in
      let n_r = length-drop (2 ^ b) lines in
      sym (
        audit-append_left (node sha) (sha.digest []) g b m (leaves sha l) (leaves sha r) known
          (omega arith) (omega arith) (omega arith) m0 mb mg)
      ∙ ap (λ t. audit (node sha) g m t known) (leaves_split (2 ^ b) lines)

  audit_second :
      (g b m : ℕ) (lines : List Bytes) (known : Bool)
      → length lines ≤ 2 * 2 ^ b
      → 2 ^ b < m
      → m < length lines
      → m ≤ g
      → audit (node sha) g (m - 2 ^ b) (leaves sha (drop (2 ^ b) lines)) false
          ++ tree_root (leaves sha (take (2 ^ b) lines)) ∷ []
        ≡ audit (node sha) g m (leaves sha lines) known
  audit_second g b m lines known high mb mn mg =
      let l = take (2 ^ b) lines in
      let r = drop (2 ^ b) lines in
      let size_l = length-map (export_leaf_hash sha) l in
      let size_r = length-map (export_leaf_hash sha) r in
      let n_l = length-take (2 ^ b) lines (omega arith) in
      let n_r = length-drop (2 ^ b) lines in
      let back : 2 ^ b + (m - 2 ^ b) ≡ m = omega arith in
      sym (
        audit-append_right (node sha) (sha.digest []) g b (m - 2 ^ b) (leaves sha l) (leaves sha r)
          known (omega arith) (omega arith) (omega arith) (omega arith) (omega arith))
      ∙ ap (λ t. audit (node sha) g (2 ^ b + (m - 2 ^ b)) t known) (leaves_split (2 ^ b) lines)
      ∙ ap (λ t. audit (node sha) g t (leaves sha lines) known) back

  subproof_whole :
      (f m : ℕ) (lines : List Bytes) (b : Bool)
      → (m == length lines) ≡ true
      → subproof sha (suc f) m lines b ≡ ok (if b then [] else tree_root (leaves sha lines) ∷ [])
  unfolding subproof
  subproof_whole f m lines true e = rw e
  subproof_whole f m lines false e = rw (e, export_merkle_root-eq-tree_root lines)

  subproof_first :
      (f m k : ℕ) (lines proof : List Bytes) (b : Bool)
      → (m == length lines) ≡ false
      → split_point (length lines) ≡ ok k
      → leb m k ≡ true
      → subproof sha f m (take k lines) b ≡ ok proof
      → subproof sha (suc f) m lines b ≡ ok (proof ++ tree_root (leaves sha (drop k lines)) ∷ [])
  unfolding subproof
  subproof_first f m k lines proof b part point first e =
      rw (part, point, first, e, export_merkle_root-eq-tree_root (drop k lines))

  subproof_second :
      (f m k : ℕ) (lines proof : List Bytes) (b : Bool)
      → (m == length lines) ≡ false
      → split_point (length lines) ≡ ok k
      → leb m k ≡ false
      → subproof sha f (m - k) (drop k lines) false ≡ ok proof
      → subproof sha (suc f) m lines b ≡ ok (proof ++ tree_root (leaves sha (take k lines)) ∷ [])
  unfolding subproof
  subproof_second f m k lines proof b part point second e =
      rw (part, point, second, e, export_merkle_root-eq-tree_root (take k lines))

  whole_audit :
      (g m : ℕ) (lines : List Bytes) (b : Bool)
      → m ≡ length lines
      → m ≤ g
      → (m < length lines) ⊎ ((j : ℕ) × (length lines ≡ 2 ^ j))
      → audit (node sha) g m (leaves sha lines) b
        ≡ (if b then [] else tree_root (leaves sha lines) ∷ [])
  whole_audit g m lines b e h (inl less) = absurd (omega arith)
  whole_audit g m lines b e h (inr (j, full)) =
      let power : m ≡ 2 ^ j = e ∙ full in
      let size = length-map (export_leaf_hash sha) lines in
      rw power (
        audit_whole (node sha) (sha.digest []) j g (leaves sha lines) b (omega arith) (omega arith))

  -- The recursion of RFC 6962 computes the proof, given as much fuel as there are lines.
  subproof-eq-audit :
      (f g m : ℕ) (lines : List Bytes) (b : Bool)
      → 0 < m
      → m ≤ length lines
      → length lines ≤ f
      → m ≤ g
      → (m < length lines) ⊎ ((j : ℕ) × (length lines ≡ 2 ^ j))
      → subproof sha f m lines b ≡ ok (audit (node sha) g m (leaves sha lines) b)
  subproof-eq-audit zero g m lines b m0 mn nf mg shape = absurd (omega arith)
  subproof-eq-audit (suc f) g m lines b m0 mn nf mg shape = elim (Bool-cases (m == length lines)) [
    | inl whole ↦
        subproof_whole f m lines b whole
        ∙ ap ok (sym (whole_audit g m lines b (==→eq m (length lines) whole) mg shape))
    | inr part ↦
        let (e, point, low, high) = split_point_bounds (length lines) (ground arith) in
        let n_l = length-take (2 ^ e) lines (omega arith) in
        let n_r = length-drop (2 ^ e) lines in
        elim (Bool-cases (leb m (2 ^ e))) [
          | inl first ↦
              let below : m ≤ 2 ^ e = ground arith in
              subproof_first f m (2 ^ e) lines
                (audit (node sha) g m (leaves sha (take (2 ^ e) lines)) b) b part point first
                (subproof-eq-audit f g m (take (2 ^ e) lines) b m0 (omega arith) (omega arith) mg
                  (inr (e, n_l)))
              ∙ ap ok (audit_first g e m lines b low high m0 below mg)
          | inr second ↦
              let above : 2 ^ e < m = ground arith in
              let less : m < length lines = ground arith in
              subproof_second f m (2 ^ e) lines
                (audit (node sha) g (m - 2 ^ e) (leaves sha (drop (2 ^ e) lines)) false) b part
                point second
                (subproof-eq-audit f g (m - 2 ^ e) (drop (2 ^ e) lines) false (omega arith)
                  (omega arith) (omega arith) (omega arith) (inl (omega arith)))
              ∙ ap ok (audit_second g e m lines b high above less mg)
        ]
  ]

  -- For a proper prefix, `consistency_proof` is the path from where the old tree ends.
  pub consistency_proof-eq-audit :
      (g m : ℕ) (lines : List Bytes)
      → 0 < m
      → m < length lines
      → m ≤ g
      → consistency_proof sha (pos m) lines ≡ ok (audit (node sha) g m (leaves sha lines) true)
  unfolding consistency_proof
  consistency_proof-eq-audit g m lines m0 mn mg =
      let (e, point, low, high) = split_point_bounds (length lines) (omega arith) in
      let n_l = length-take (2 ^ e) lines (omega arith) in
      let n_r = length-drop (2 ^ e) lines in
      let inside : ltb (length lines) m ≡ false = ground arith in
      let proper : (m == 0 || m == length lines) ≡ false = ground arith in
      elim (Bool-cases (leb m (2 ^ e))) [
        | inl first ↦
            let below : m ≤ 2 ^ e = ground arith in
            rw
              (
                inside,
                proper,
                point,
                first,
                subproof-eq-audit (length lines) g m (take (2 ^ e) lines) true m0 (omega arith)
                    (omega arith) mg (inr (e, n_l)),
                export_merkle_root-eq-tree_root (drop (2 ^ e) lines),
              )
              (ap ok (audit_first g e m lines true low high m0 below mg))
        | inr second ↦
            let above : 2 ^ e < m = ground arith in
            rw
              (
                inside,
                proper,
                point,
                second,
                subproof-eq-audit (length lines) g (m - 2 ^ e) (drop (2 ^ e) lines) false
                    (omega arith) (omega arith) (omega arith) (omega arith) (inl (omega arith)),
                export_merkle_root-eq-tree_root (take (2 ^ e) lines),
              )
              (ap ok (audit_second g e m lines true high above mn mg))
      ]
