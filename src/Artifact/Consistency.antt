-- ===== src/Artifact/Consistency.antt =====
-- Consistency proof artifacts of src/tc_ledger/ledger.py. Reading the lines of an export file and
-- `str.lower` are parameters. `verify_consistency_proof_artifact` reports a refusal as a dict with
-- `"valid": False`, here `refuse`, whose message is not modelled.
pub mod RoundTrip
pub mod Sound
use tc_ledger.Prelude.{
  ℕ, Bool, true, false, not, ◌&&◌, ◌||◌, Option, none, some, List, [], ◌∷◌, map, ◌==◌, ltb, leb,
  if◌then◌else◌, length, take,
}
use tc_ledger.Py.Result
use tc_ledger.Py.Result.{
  Result, ok, err, type_error, value_error, attribute_error, malformed_record, raise_if,
}
use tc_ledger.Py.Int.{ℤ, pos, is_negative, int_le}
use tc_ledger.Py.Str.{Str, Bytes, raw, codes, same}
use tc_ledger.Py.Hex.{hex, fromhex}
use tc_ledger.Py.Check.{Check, pass, require, demand, lift, attempt, ◌>>=◌, ◌>>◌}
use tc_ledger.Py.Json.{
  Json, Fields, int, str, list, dict, end, field, get, has_key, items_of, as_dict, as_str, as_int,
  as_list, as_strict_int, equals_int, equals_str, anchor_int,
}
use tc_ledger.Merkle.Hash.{Sha256}
use tc_ledger.Merkle.Levels.{export_merkle_root}
use tc_ledger.Merkle.Consistency.{consistency_proof, verify_consistency_proof}
use tc_ledger.Artifact.Export.{fromhex_value}

-- c in s, for one character
abbrev pub has_char : ℕ → Str → Bool
has_char c [] = false
has_char c (d ∷ s) = if d == c then true else has_char c s

-- Equality of two lists of lines.
abbrev pub same_lines : List Bytes → List Bytes → Bool
same_lines [] [] = true
same_lines [] (y ∷ ys) = false
same_lines (x ∷ xs) [] = false
same_lines (x ∷ xs) (y ∷ ys) = same x y && same_lines xs ys

abbrev pub hex_node : Bytes → Json
hex_node b = str (hex b)

abbrev pub consistency_fields : Str → ℤ → ℤ → ℕ → ℕ → Bytes → Bytes → List Bytes → Fields
consistency_fields room old_generation new_generation m n old_root new_root proof_nodes =
    field (codes "version") (int (pos 1)) (
      field (codes "schema") (str (codes "tc-ledger/consistency-proof/v1")) (
        field (codes "profile") (str (codes "tc-ledger/1")) (
          field (codes "room") (str room) (
            field (codes "old_generation") (int old_generation) (
              field (codes "new_generation") (int new_generation) (
                field (codes "old_tree_size") (int (pos m)) (
                  field (codes "new_tree_size") (int (pos n)) (
                    field (codes "old_root") (str (hex old_root)) (
                      field (codes "new_root") (str (hex new_root)) (
                        field (codes "proof") (list (items_of (map hex_node proof_nodes)))
                          end))))))))))

abbrev pub required_keys : List Str
required_keys =
    codes "version"
    ∷ codes "schema"
    ∷ codes "profile"
    ∷ codes "room"
    ∷ codes "old_generation"
    ∷ codes "new_generation"
    ∷ codes "old_tree_size"
    ∷ codes "new_tree_size"
    ∷ codes "old_root"
    ∷ codes "new_root"
    ∷ codes "proof"
    ∷ []

abbrev pub has_keys : Fields → List Str → Bool
has_keys artifact [] = true
has_keys artifact (k ∷ keys) = has_key artifact k && has_keys artifact keys

-- The dict that is returned for a valid artifact.
pub record Report : Type 0 where
  pub schema : Json
  pub room : Str
  pub old_generation : Json
  pub new_generation : Json
  pub old_tree_size : Json
  pub new_tree_size : Json
  pub old_root : Json
  pub new_root : Json
  pub tree_sizes_authenticated : Bool

-- The trust anchors that the caller may give.
pub record Anchors : Type 0 where
  pub expected_room : Option Str
  pub expected_old_generation : Option ℤ
  pub expected_new_generation : Option ℤ
  pub expected_old_root : Option Str
  pub expected_new_root : Option Str
  pub expected_old_tree_size : Option ℤ
  pub expected_new_tree_size : Option ℤ

-- `expected_room and room != expected_room`: an empty text anchors nothing.
abbrev pub anchor_room : Option Str → Str → Bool
anchor_room (some (c ∷ s)) room = same room (c ∷ s)
anchor_room _ room = true

-- x.lower(), which only a str has.
abbrev pub lower_value : (Str → Str) → Json → Result Str
lower_value lower (str s) = ok (lower s)
lower_value lower _ = err attribute_error

-- `expected and x.lower() != expected.lower()`
abbrev pub anchor_root : (Str → Str) → Option Str → Json → Check (Unit {0})
anchor_root lower (some (c ∷ s)) root = do
  lowered ← lift (lower_value lower root)
  require (same lowered (lower (c ∷ s)))
anchor_root lower _ root = pass tt

-- The loop over the proof's nodes.
unfoldable pub read_nodes : List Json → Check (List Bytes)
read_nodes [] = pass []
read_nodes (item ∷ items) = do
  s ← demand (as_str item)
  node ← attempt (fromhex s)
  require (length node == 32)
  rest ← read_nodes items
  pass (node ∷ rest)

-- `verify_consistency_proof` takes an int that is no bool.
abbrev pub strict_size : Json → Result ℤ
strict_size j = elim (as_strict_int j) [ none ↦ err type_error | some n ↦ ok n ]

abbrev pub is_given : Option ℤ → Bool
is_given none = false
is_given (some n) = true

module _ (sha : Sha256) where
  -- What `build_consistency_proof_artifact` does with the lines of both exports.
  unfoldable pub build_from_lines : List Bytes → List Bytes → Str → ℤ → ℤ → Result Json
  build_from_lines old_lines new_lines room old_generation new_generation =
      Result.◌>>◌ (raise_if (ltb (length new_lines) (length old_lines)) value_error) (
        Result.◌>>◌
          (raise_if (not (same_lines (take (length old_lines) new_lines) old_lines)) value_error)
          (Result.◌>>=◌ (export_merkle_root sha old_lines) λ old_root.
            Result.◌>>=◌ (export_merkle_root sha new_lines) λ new_root.
              Result.◌>>=◌ (consistency_proof sha (pos (length old_lines)) new_lines) λ proof_nodes.
                ok (
                  dict (
                    consistency_fields room old_generation new_generation (length old_lines)
                      (length new_lines) old_root new_root proof_nodes))))

  unfoldable pub build_consistency_proof_artifact :
      (Str → Result (List Bytes)) → Str → Str → Str → ℤ → ℤ → Result Json
  build_consistency_proof_artifact read_lines old_export_path new_export_path room old_generation
        new_generation =
      Result.◌>>◌ (raise_if (same room []) malformed_record) (
        Result.◌>>◌ (raise_if (has_char 0x7c room) malformed_record) (
          Result.◌>>◌ (raise_if (is_negative old_generation) value_error) (
            Result.◌>>◌ (raise_if (is_negative new_generation) value_error) (
              Result.◌>>◌ (raise_if (not (int_le old_generation new_generation)) value_error) (
                Result.◌>>=◌ (read_lines old_export_path) λ old_lines.
                  Result.◌>>=◌ (read_lines new_export_path) λ new_lines.
                    build_from_lines old_lines new_lines room old_generation new_generation)))))

  -- The roots and the proof, behind the checks on the header.
  unfoldable pub check_extension : Fields → Check (Unit {0})
  check_extension artifact = do
    old_root ← attempt (fromhex_value (get artifact (codes "old_root")))
    new_root ← attempt (fromhex_value (get artifact (codes "new_root")))
    require (length old_root == 32 && length new_root == 32)
    items ← demand (as_list (get artifact (codes "proof")))
    proof ← read_nodes items
    old_size ← lift (strict_size (get artifact (codes "old_tree_size")))
    new_size ← lift (strict_size (get artifact (codes "new_tree_size")))
    crypto_valid ← lift (
        verify_consistency_proof sha old_size new_size (raw old_root) (raw new_root)
          (map raw proof))
    require crypto_valid

  unfoldable pub verify_consistency_proof_artifact : (Str → Str) → Json → Anchors → Check Report
  verify_consistency_proof_artifact lower target anchors = do
    artifact ← demand (as_dict target)
    require (has_keys artifact required_keys)
    require (equals_int (get artifact (codes "version")) (pos 1))
    require (equals_str (get artifact (codes "schema")) (codes "tc-ledger/consistency-proof/v1"))
    require (equals_str (get artifact (codes "profile")) (codes "tc-ledger/1"))
    room ← demand (as_str (get artifact (codes "room")))
    require (not (same room []))
    old_gen ← demand (as_int (get artifact (codes "old_generation")))
    require (not (is_negative old_gen))
    new_gen ← demand (as_int (get artifact (codes "new_generation")))
    require (not (is_negative new_gen))
    require (int_le old_gen new_gen)
    old_size ← demand (as_int (get artifact (codes "old_tree_size")))
    require (not (is_negative old_size))
    new_size ← demand (as_int (get artifact (codes "new_tree_size")))
    require (not (is_negative new_size))
    require (int_le old_size new_size)
    require (anchor_room anchors.expected_room room)
    require (anchor_int anchors.expected_old_generation (get artifact (codes "old_generation")))
    require (anchor_int anchors.expected_new_generation (get artifact (codes "new_generation")))
    anchor_root lower anchors.expected_old_root (get artifact (codes "old_root"))
    anchor_root lower anchors.expected_new_root (get artifact (codes "new_root"))
    require (anchor_int anchors.expected_old_tree_size (get artifact (codes "old_tree_size")))
    require (anchor_int anchors.expected_new_tree_size (get artifact (codes "new_tree_size")))
    check_extension artifact
    pass (record {
      schema = get artifact (codes "schema");
      room = room;
      old_generation = get artifact (codes "old_generation");
      new_generation = get artifact (codes "new_generation");
      old_tree_size = get artifact (codes "old_tree_size");
      new_tree_size = get artifact (codes "new_tree_size");
      old_root = get artifact (codes "old_root");
      new_root = get artifact (codes "new_root");
      tree_sizes_authenticated =
          is_given anchors.expected_old_tree_size && is_given anchors.expected_new_tree_size;
    })
