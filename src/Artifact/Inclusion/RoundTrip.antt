-- ===== src/Artifact/Inclusion/RoundTrip.antt =====
-- An inclusion proof artifact that was built for a line of an export is accepted for that line.
use tc_ledger.Prelude.{
  ℕ, ◌<◌, ◌≡◌, refl, ◌∙◌, ap, true, false, ◌&&◌, some, List, [], ◌∷◌, map, length-map, ◌==◌,
  ==_refl, leb, lt→leb, length, get_elem?, get_elem?-some, All, arith,
}
use tc_ledger.Py.Result
use tc_ledger.Py.Result.{Result, ok}
use tc_ledger.Py.Int.{pos}
use tc_ledger.Py.Str.{Str, Bytes, IsBytes, raw, same, same_refl}
use tc_ledger.Py.Hex.{fromhex-hex}
use tc_ledger.Py.Check.{pass}
use tc_ledger.Py.Json.{dict, elements-items_of}
use tc_ledger.Merkle.Hash.{Sha256, node, export_leaf_hash, export_leaf_hash-IsHash}
use tc_ledger.Merkle.Tree.{fold_path}
use tc_ledger.Merkle.Levels.{export_merkle_root}
use tc_ledger.Merkle.Steps.{IsStep}
use tc_ledger.Merkle.Inclusion.{
  path_of, path_of-IsStep, export_merkle_root-eq-fold_path, export_merkle_proof-eq-path_of,
  fold_path-IsHash, verify_export_merkle_proof-eq-same,
}
use tc_ledger.Merkle.Directions.{positions, expected_proof_directions-eq-positions}
use tc_ledger.Merkle.Hold.{Steps, path_of-IsBytes, fold_path-IsBytes, export_leaf_hash-IsBytes}
use tc_ledger.Artifact.Inclusion.{
  audit_item, inclusion_fields, read_audit_path, check_expected_root, line_bytes,
  build_inclusion_proof_artifact, check_inclusion, check_inclusion_artifact,
  verify_export_inclusion_proof,
}

-- The verifier reads back the path that the builder wrote.
read_audit_path-audit_item :
    (p : List (Bytes × Str))
    → All IsStep p
    → Steps IsBytes p
    → read_audit_path (map audit_item p) (positions p) ≡ pass p
unfolding read_audit_path
read_audit_path-audit_item [] h b = refl
read_audit_path-audit_item ((s, position) ∷ p) h b =
    let size : (length s == 32) ≡ true = ground (arith, h.0.0) in
    rw (same_refl position, fromhex-hex s b.0, size, read_audit_path-audit_item p h.1 b.1)

named_room : (room : Str) → 0 < length room → same room [] ≡ false
named_room [] h = elim h [ ]
named_room (c ∷ room) h = refl

module _ (sha : Sha256) where
  abbrev pub root_of : Bytes → List (Bytes × Str) → Bytes
  root_of line p = fold_path (node sha) (export_leaf_hash sha line) p

  build-eq-fields :
      (lines : List Bytes) (room : Str) (i generation : ℕ) (line : Bytes)
      → get_elem? lines i ≡ some line
      → build_inclusion_proof_artifact sha lines room (pos i) (pos generation)
        ≡ ok (
            dict (
              inclusion_fields room
                (pos generation)
                (pos i)
                (length lines)
                (export_leaf_hash sha line)
                (root_of line (path_of sha lines i))
                (path_of sha lines i)))
  unfolding build_inclusion_proof_artifact
  build-eq-fields lines room i generation line e =
      let inside = get_elem?-some lines i line e in
      rw (
        lt→leb i (length lines) inside,
        export_merkle_proof-eq-path_of sha lines i inside,
        e,
        export_merkle_root-eq-fold_path sha lines i line e,
      )

  check_inclusion-fields :
      (lines : List Bytes) (room : Str) (i generation : ℕ) (line : Bytes)
      → get_elem? lines i ≡ some line
      → check_inclusion sha line
          (inclusion_fields room
            (pos generation)
            (pos i)
            (length lines)
            (export_leaf_hash sha line)
            (root_of line (path_of sha lines i))
            (path_of sha lines i))
          (pos (length lines))
          (pos i)
          (some (raw (root_of line (path_of sha lines i))))
        ≡ pass tt
  unfolding check_inclusion check_expected_root
  check_inclusion-fields lines room i generation line e =
      let inside = get_elem?-some lines i line e in
      let p = path_of sha lines i in
      let leaf = export_leaf_hash sha line in
      let hashed = export_leaf_hash-IsHash sha line in
      let bytes = export_leaf_hash-IsBytes sha line in
      let top = fold_path-IsHash sha leaf p hashed in
      let sizes : (length leaf == 32 && length (root_of line p) == 32) ≡ true =
        ground (arith, hashed, top) in
      let dirs =
        expected_proof_directions-eq-positions sha lines (pos i) (omega arith)
        ∙ ap (λ t. Result.◌>>=◌ t (λ proof. ok (positions proof)))
            (export_merkle_proof-eq-path_of sha lines i inside) in
      let same_size : (length (map audit_item p) == length (positions p)) ≡ true =
        ground
          (arith, length-map audit_item p, length-map {A = Bytes × Str} {B = Str} (λ s. s.1) p) in
      let root_size : (length (root_of line p) == 32) ≡ true = ground (arith, top) in
      rw (
        fromhex-hex leaf bytes,
        fromhex-hex (root_of line p) (fold_path-IsBytes sha leaf p bytes),
        sizes,
        same_refl leaf,
        dirs,
        elements-items_of (map audit_item p),
        same_size,
        read_audit_path-audit_item p (path_of-IsStep sha lines i) (path_of-IsBytes sha lines i),
        verify_export_merkle_proof-eq-same sha line p (root_of line p) top
            (path_of-IsStep sha lines i),
        same_refl (root_of line p),
        root_size,
      )

  -- The artifact that `build_inclusion_proof_artifact` makes for a line of an export, in a room with
  -- a name, is accepted by `verify_export_inclusion_proof` for that line, with the export's root,
  -- the room and the generation as trust anchors; nothing raises.
  pub verify-build_inclusion_proof_artifact :
      (lines : List Bytes) (room : Str) (i generation : ℕ) (line : Bytes)
      → get_elem? lines i ≡ some line
      → 0 < length room
      → Result.◌>>=◌
          (build_inclusion_proof_artifact sha lines room (pos i) (pos generation))
          (λ artifact. Result.◌>>=◌ (export_merkle_root sha lines) (λ root.
            verify_export_inclusion_proof sha
              (raw line)
              artifact
              (some (raw root))
              (some (pos generation))
              (some room)))
        ≡ ok true
  unfolding verify_export_inclusion_proof check_inclusion_artifact line_bytes
  verify-build_inclusion_proof_artifact lines room i generation line e h =
      let inside = get_elem?-some lines i line e in
      let named : same room [] ≡ false = named_room room h in
      let nonempty : leb 1 (length lines) ≡ true = ground arith in
      let below : leb (length lines) i ≡ false = ground arith in
      let low : leb 0 i ≡ true = ground arith in
      rw (
        build-eq-fields lines room i generation line e,
        export_merkle_root-eq-fold_path sha lines i line e,
        named,
        same_refl room,
        nonempty,
        low,
        below,
        ==_refl generation,
        check_inclusion-fields lines room i generation line e,
      )
