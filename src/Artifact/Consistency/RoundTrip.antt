-- ===== src/Artifact/Consistency/RoundTrip.antt =====
-- A consistency proof artifact that was built from two exports is accepted with their roots and sizes.
use tc_ledger.Prelude.{
  ℕ, ◌<◌, ◌≤◌, ◌≡◌, refl, ap, true, false, some, List, [], ◌∷◌, ◌++◌, map, ◌==◌, ==_refl, leb, ltb,
  length, length-append, take, All, arith,
}
use tc_ledger.Py.Result.{Result, ok}
use tc_ledger.Py.Int.{pos}
use tc_ledger.Py.Str.{Str, Bytes, IsBytes, raw, codes, same, same_refl}
use tc_ledger.Py.Hex.{hex, fromhex-hex}
use tc_ledger.Py.Check.{pass}
use tc_ledger.Py.Json.{Json, dict, str, int, elements-items_of}
use tc_ledger.Merkle.Hash.{Sha256, IsHash}
use tc_ledger.Merkle.Levels.{export_merkle_root}
use tc_ledger.Merkle.Consistency.{consistency_proof, verify_consistency_proof}
use tc_ledger.Merkle.Prefix.{accepted, verify-consistency_proof}
use tc_ledger.Merkle.Nodes.{
  export_merkle_root-IsHash, export_merkle_root-IsBytes, consistency_proof-IsBytes,
}
use tc_ledger.Artifact.Consistency.{
  has_char, same_lines, hex_node, consistency_fields, read_nodes, anchor_room, anchor_root, Anchors,
  Report, build_from_lines, build_consistency_proof_artifact, check_extension,
  verify_consistency_proof_artifact,
}

take-append : (xs ys : List Bytes) → take (length xs) (xs ++ ys) ≡ xs
take-append [] ys = refl
take-append (x ∷ xs) ys = ap (λ t. x ∷ t) (take-append xs ys)

same_lines_refl : (xs : List Bytes) → same_lines xs xs ≡ true
same_lines_refl [] = refl
same_lines_refl (x ∷ xs) = rw (same_refl x, same_lines_refl xs) refl

anchor_room_refl : (room : Str) → anchor_room (some room) room ≡ true
anchor_room_refl [] = refl
anchor_room_refl (c ∷ room) = same_refl (c ∷ room)

anchor_root_refl : (lower : Str → Str) (s : Str) → anchor_root lower (some s) (str s) ≡ pass tt
anchor_root_refl lower [] = refl
anchor_root_refl lower (c ∷ s) = rw (same_refl (lower (c ∷ s))) refl

named_room : (room : Str) → 0 < length room → same room [] ≡ false
named_room [] h = elim h [ ]
named_room (c ∷ room) h = refl

-- The verifier reads back the nodes that the builder wrote.
read_nodes-hex_node :
    (p : List Bytes) → All IsHash p → All IsBytes p → read_nodes (map hex_node p) ≡ pass p
unfolding read_nodes
read_nodes-hex_node [] h b = refl
read_nodes-hex_node (s ∷ p) h b =
    let size : (length s == 32) ≡ true = ground (arith, h.0) in
    rw (fromhex-hex s b.0, size, read_nodes-hex_node p h.1 b.1) refl

-- Every trust anchor is given.
abbrev pub all_anchors : Str → ℕ → ℕ → Bytes → Bytes → ℕ → ℕ → Anchors
all_anchors room old_generation new_generation old_root new_root m n = record {
  expected_room = some room;
  expected_old_generation = some (pos old_generation);
  expected_new_generation = some (pos new_generation);
  expected_old_root = some (hex old_root);
  expected_new_root = some (hex new_root);
  expected_old_tree_size = some (pos m);
  expected_new_tree_size = some (pos n);
}

-- The report on an artifact with these contents, when both sizes are anchored.
abbrev pub report_of : Str → ℕ → ℕ → Bytes → Bytes → ℕ → ℕ → Report
report_of room old_generation new_generation old_root new_root m n = record {
  schema = str (codes "tc-ledger/consistency-proof/v1");
  room = room;
  old_generation = int (pos old_generation);
  new_generation = int (pos new_generation);
  old_tree_size = int (pos m);
  new_tree_size = int (pos n);
  old_root = str (hex old_root);
  new_root = str (hex new_root);
  tree_sizes_authenticated = true;
}

module _ (sha : Sha256) where
  check_extension-fields :
      (room : Str) (og ng m n : ℕ) (old_root new_root : Bytes) (proof : List Bytes)
      → IsHash old_root
      → IsBytes old_root
      → IsHash new_root
      → IsBytes new_root
      → All IsHash proof
      → All IsBytes proof
      → verify_consistency_proof sha (pos m) (pos n) (raw old_root) (raw new_root) (map raw proof)
        ≡ ok true
      → check_extension sha (consistency_fields room (pos og) (pos ng) m n old_root new_root proof)
        ≡ pass tt
  unfolding check_extension
  check_extension-fields room og ng m n old_root new_root proof oh ob nh nb ph pb checked =
      let old_size : (length old_root == 32) ≡ true = ground (arith, oh) in
      let new_size : (length new_root == 32) ≡ true = ground (arith, nh) in
      rw
        (
          fromhex-hex old_root ob,
          fromhex-hex new_root nb,
          old_size,
          new_size,
          elements-items_of (map hex_node proof),
          read_nodes-hex_node proof ph pb,
          checked,
        )
        refl

  build_from_lines-fields :
      (old rest : List Bytes) (room : Str) (og ng : ℕ) (old_root new_root : Bytes)
      (proof : List Bytes)
      → export_merkle_root sha old ≡ ok old_root
      → export_merkle_root sha (old ++ rest) ≡ ok new_root
      → consistency_proof sha (pos (length old)) (old ++ rest) ≡ ok proof
      → build_from_lines sha old (old ++ rest) room (pos og) (pos ng)
        ≡ ok (
            dict (
              consistency_fields room
                (pos og)
                (pos ng)
                (length old)
                (length (old ++ rest))
                old_root
                new_root
                proof))
  unfolding build_from_lines
  build_from_lines-fields old rest room og ng old_root new_root proof o n p =
      let longer : ltb (length (old ++ rest)) (length old) ≡ false =
        ground (arith, length-append old rest) in
      rw (longer, take-append old rest, same_lines_refl old, o, n, p) refl

  verify-fields :
      (lower : Str → Str) (room : Str) (og ng m n : ℕ) (old_root new_root : Bytes)
      (proof : List Bytes)
      → 0 < length room
      → og ≤ ng
      → m ≤ n
      → check_extension sha (consistency_fields room (pos og) (pos ng) m n old_root new_root proof)
        ≡ pass tt
      → verify_consistency_proof_artifact sha lower
          (dict (consistency_fields room (pos og) (pos ng) m n old_root new_root proof))
          (all_anchors room og ng old_root new_root m n)
        ≡ pass (report_of room og ng old_root new_root m n)
  unfolding verify_consistency_proof_artifact
  verify-fields lower room og ng m n old_root new_root proof r g s checked =
      let generations : leb og ng ≡ true = ground arith in
      let sizes : leb m n ≡ true = ground arith in
      rw
        (
          named_room room r,
          generations,
          sizes,
          anchor_room_refl room,
          ==_refl og,
          ==_refl ng,
          anchor_root_refl lower (hex old_root),
          anchor_root_refl lower (hex new_root),
          ==_refl m,
          ==_refl n,
          checked,
        )
        refl

  -- If two exports are read, the first is a prefix of the second, the room is named without `|` and
  -- the generations are in order, then `build_consistency_proof_artifact` makes an artifact, and
  -- `verify_consistency_proof_artifact` accepts it with the room, the generations, the sizes and
  -- the roots of both exports as trust anchors; its report says that the sizes are authenticated.
  pub verify-build_consistency_proof_artifact :
      (lower : Str → Str) (read_lines : Str → Result (List Bytes)) (old_path new_path room : Str)
      (og ng : ℕ) (old rest : List Bytes) (old_root new_root : Bytes)
      → read_lines old_path ≡ ok old
      → read_lines new_path ≡ ok (old ++ rest)
      → export_merkle_root sha old ≡ ok old_root
      → export_merkle_root sha (old ++ rest) ≡ ok new_root
      → 0 < length room
      → has_char 0x7c room ≡ false
      → og ≤ ng
      → (artifact : Json) × (build_consistency_proof_artifact sha read_lines old_path new_path room
            (pos og)
            (pos ng)
          ≡ ok artifact)
        × (verify_consistency_proof_artifact sha lower artifact
              (all_anchors room og ng old_root new_root (length old) (length (old ++ rest)))
            ≡ pass (report_of room og ng old_root new_root (length old) (length (old ++ rest))))
  unfolding build_consistency_proof_artifact
  verify-build_consistency_proof_artifact lower read_lines old_path new_path room og ng old rest
        old_root new_root reads_old reads_new o n r c g =
      let prefix : length old ≤ length (old ++ rest) = omega (arith, length-append old rest) in
      let (proof, made, hashes, _) = accepted sha (length old) (old ++ rest) prefix in
      let checked : verify_consistency_proof sha (pos (length old)) (pos (length (old ++ rest)))
            (raw old_root) (raw new_root) (map raw proof)
          ≡ ok true =
        rw (made, take-append old rest, o, n) at
          (verify-consistency_proof sha (length old) (old ++ rest) prefix) in
      let generations : leb og ng ≡ true = ground arith in
      let extension =
        check_extension-fields room og ng (length old) (length (old ++ rest)) old_root new_root
          proof (export_merkle_root-IsHash sha old old_root o)
          (export_merkle_root-IsBytes sha old old_root o)
          (export_merkle_root-IsHash sha (old ++ rest) new_root n)
          (export_merkle_root-IsBytes sha (old ++ rest) new_root n) hashes
          (consistency_proof-IsBytes sha (length old) (old ++ rest) proof made) checked in
      (
        dict (
            consistency_fields room (pos og) (pos ng) (length old) (length (old ++ rest)) old_root
              new_root proof),
        rw (named_room room r, c, generations, reads_old, reads_new)
            (build_from_lines-fields old rest room og ng old_root new_root proof o n made),
        verify-fields lower room og ng (length old) (length (old ++ rest)) old_root new_root proof r
            g prefix extension,
      )
