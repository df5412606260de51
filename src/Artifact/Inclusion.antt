-- ===== src/Artifact/Inclusion.antt =====
-- Export Inclusion Proof v1 artifacts of src/tc_ledger/ledger.py.
pub mod RoundTrip
pub mod Binding
use tc_ledger.Prelude.{
  ℕ, ◌≡◌, Bool, true, false, not, ◌&&◌, Option, none, some, List, [], ◌∷◌, ◌++◌, map, ◌==◌, leb,
  if◌then◌else◌, length, get_elem?,
}
use tc_ledger.Py.Result
use tc_ledger.Py.Result.{Result, ok, err, index_error, value_error, raise_if}
use tc_ledger.Py.Int.{ℤ, pos, negsuc, is_negative, int_eq, int_le}
use tc_ledger.Py.Str.{Str, Bytes, BytesOrStr, raw, text, codes, same}
use tc_ledger.Py.Hex.{hex, fromhex}
use tc_ledger.Py.Utf8.{utf8_encode}
use tc_ledger.Py.Check.{
  Check, pass, refuse, raised, require, demand, lift, attempt, verdict, ◌>>=◌, ◌>>◌,
}
use tc_ledger.Py.Json.{
  Json, Fields, int, str, list, dict, end, field, get, items_of, as_dict, as_str, as_list,
  as_strict_int, equals_int, equals_str, is_present, anchor_str, anchor_int,
}
use tc_ledger.Merkle.Hash.{Sha256, export_leaf_hash}
use tc_ledger.Merkle.Levels.{export_merkle_root}
use tc_ledger.Merkle.Proof.{
  expected_proof_directions, export_merkle_proof, verify_export_merkle_proof, index_at,
}

-- One step of an audit path.
abbrev pub audit_item : Bytes × Str → Json
audit_item (sibling, position) =
    dict (
      field (codes "position") (str position)
        (field (codes "sibling_hash") (str (hex sibling)) end))

abbrev pub inclusion_fields : Str → ℤ → ℤ → ℕ → Bytes → Bytes → List (Bytes × Str) → Fields
inclusion_fields room export_generation index tree_size leaf root proof =
    field (codes "schema") (str (codes "tc-ledger/inclusion-proof/v1")) (
      field (codes "version") (int (pos 1)) (
        field (codes "profile") (str (codes "tc-ledger/1")) (
          field (codes "room") (str room) (
            field (codes "export_generation") (int export_generation) (
              field (codes "leaf_index") (int index) (
                field (codes "tree_size") (int (pos tree_size)) (
                  field (codes "leaf_hash") (str (hex leaf)) (
                    field (codes "export_root") (str (hex root)) (
                      field (codes "audit_path") (list (items_of (map audit_item proof)))
                        end)))))))))

-- `artifact_generation` of both verifiers: absent, or a natural number that is no bool.
abbrev pub check_generation : Json → Check (Unit {0})
check_generation generation =
    if is_present generation
    then (do n ← demand (as_strict_int generation); require (not (is_negative n)))
    else pass tt

-- The loop over `zip(audit_path, expected_dirs)`.
unfoldable pub read_audit_path : List Json → List Str → Check (List (Bytes × Str))
read_audit_path [] directions = pass []
read_audit_path (item ∷ items) [] = pass []
read_audit_path (item ∷ items) (expected ∷ directions) = do
  fields ← demand (as_dict item)
  require (equals_str (get fields (codes "position")) expected)
  sibling_hash_hex ← demand (as_str (get fields (codes "sibling_hash")))
  sibling_hash ← attempt (fromhex sibling_hash_hex)
  require (length sibling_hash == 32)
  rest ← read_audit_path items directions
  pass ((sibling_hash, expected) ∷ rest)

-- `expected_root`, where it is given.
unfoldable pub check_expected_root : Option BytesOrStr → Bytes → Check (Unit {0})
check_expected_root none artifact_root = pass tt
check_expected_root (some (raw b)) artifact_root = do
  require (length b == 32)
  require (same artifact_root b)
check_expected_root (some (text s)) artifact_root = do
  b ← attempt (fromhex s)
  require (length b == 32)
  require (same artifact_root b)

unfoldable pub line_bytes : BytesOrStr → Result Bytes
line_bytes (raw b) = ok b
line_bytes (text s) = utf8_encode s

module _ (sha : Sha256) where
  unfoldable pub build_inclusion_proof_artifact : List Bytes → Str → ℤ → ℤ → Result Json
  build_inclusion_proof_artifact raw_lines room index (negsuc n) = err value_error
  build_inclusion_proof_artifact raw_lines room (negsuc i) (pos generation) = err index_error
  build_inclusion_proof_artifact raw_lines room (pos index) (pos generation) =
      Result.◌>>◌ (raise_if (leb (length raw_lines) index) index_error) (
        Result.◌>>=◌ (export_merkle_proof sha raw_lines (pos index)) λ proof.
          Result.◌>>=◌ (index_at raw_lines index) λ line.
            Result.◌>>=◌ (export_merkle_root sha raw_lines) λ root. ok (
              dict (
                inclusion_fields room (pos generation) (pos index) (length raw_lines)
                  (export_leaf_hash sha line) root proof)))

  -- The checks on the hashes and on the audit path, behind those on the header.
  unfoldable pub check_inclusion : Bytes → Fields → ℤ → ℤ → Option BytesOrStr → Check (Unit {0})
  check_inclusion line artifact tree_size leaf_index expected_root = do
    leaf_hash_hex ← demand (as_str (get artifact (codes "leaf_hash")))
    export_root_hex ← demand (as_str (get artifact (codes "export_root")))
    audit_path ← demand (as_list (get artifact (codes "audit_path")))
    artifact_leaf_hash ← attempt (fromhex leaf_hash_hex)
    artifact_root ← attempt (fromhex export_root_hex)
    require (length artifact_leaf_hash == 32 && length artifact_root == 32)
    require (same (export_leaf_hash sha line) artifact_leaf_hash)
    expected_dirs ← attempt (expected_proof_directions tree_size leaf_index)
    require (length audit_path == length expected_dirs)
    proof ← read_audit_path audit_path expected_dirs
    accepted ← lift (verify_export_merkle_proof sha line proof artifact_root)
    require accepted
    check_expected_root expected_root artifact_root

  -- The checks of `verify_export_inclusion_proof` on an artifact that is a dict.
  unfoldable pub check_inclusion_artifact :
      Bytes → Fields → Option BytesOrStr → Option ℤ → Option Str → Check (Unit {0})
  check_inclusion_artifact line artifact expected_root expected_generation expected_room = do
    require (equals_int (get artifact (codes "version")) (pos 1))
    require (equals_str (get artifact (codes "profile")) (codes "tc-ledger/1"))
    room ← demand (as_str (get artifact (codes "room")))
    require (not (same room []))
    require (anchor_str expected_room room)
    leaf_index ← demand (as_strict_int (get artifact (codes "leaf_index")))
    tree_size ← demand (as_strict_int (get artifact (codes "tree_size")))
    require
        (int_le (pos 1) tree_size && int_le (pos 0) leaf_index && not (int_le tree_size leaf_index))
    check_generation (get artifact (codes "export_generation"))
    require (anchor_int expected_generation (get artifact (codes "export_generation")))
    check_inclusion line artifact tree_size leaf_index expected_root

  unfoldable pub verify_export_inclusion_proof :
      BytesOrStr → Json → Option BytesOrStr → Option ℤ → Option Str → Result Bool
  verify_export_inclusion_proof raw_line artifact expected_root expected_generation expected_room =
      verdict (do
        line ← lift (line_bytes raw_line)
        fields ← demand (as_dict artifact)
        check_inclusion_artifact line fields expected_root expected_generation expected_room)
