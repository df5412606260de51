-- ===== src/Export/Artifact.antt =====
-- `build_commitment_artifact` and `verify_commitment_artifact` of src/tc_ledger/ledger.py, on loaded
-- values. `lower` is `str.lower`.
pub mod RoundTrip
use tc_ledger.Prelude.{
  ℕ, ◌+◌, Bool, true, false, not, ◌&&◌, Option, none, some, List, [], ◌∷◌, ◌++◌, map, length,
}
use tc_ledger.Py.Result
use tc_ledger.Py.Result.{Result, ok, err, value_error, raise_if}
use tc_ledger.Py.Int.{ℤ, pos, is_negative}
use tc_ledger.Py.Str.{Str, Bytes, BytesOrStr, raw, text, codes, same}
use tc_ledger.Py.Hex.{hex}
use tc_ledger.Py.Check.{Check, pass, require, demand, lift, verdict, ◌>>=◌, ◌>>◌}
use tc_ledger.Py.Json.{
  Json, Fields, Items, nil, cons, int, str, list, dict, field, end, get, get_default, items_of,
  as_dict, as_str, as_strict_int, equals_int, equals_str, is_present, anchor_str, anchor_int,
}
use tc_ledger.Merkle.Hash.{Sha256}
use tc_ledger.Merkle.Levels.{export_merkle_root}
use tc_ledger.Artifact.Inclusion.{check_generation}
use tc_ledger.Artifact.Consistency.{lower_value}
use tc_ledger.Export.Classify.{Counts, classify_export_lines}

-- b"".join(raw_lines), and the sum of the lengths
abbrev pub join : List Bytes → Bytes
join [] = []
join (l ∷ ls) = l ++ join ls

abbrev pub byte_count : List Bytes → ℕ
byte_count [] = 0
byte_count (l ∷ ls) = length l + byte_count ls

abbrev pub count_fields : Counts → Fields
count_fields counts = field (codes "VALID") (int (pos counts.valid_count)) (
    field (codes "INVALID") (int (pos counts.invalid_count)) (
      field (codes "UNSIGNED") (int (pos counts.unsigned_count)) (
        field (codes "MALFORMED") (int (pos counts.malformed_count))
          (field (codes "UNSUPPORTED_KEY") (int (pos counts.unsupported_count)) end))))

abbrev pub generation_fields : Option ℤ → Fields
generation_fields none = end
generation_fields (some n) = field (codes "export_generation") (int n) end

abbrev pub is_negative_some : Option ℤ → Bool
is_negative_some none = false
is_negative_some (some n) = is_negative n

-- x == l for a list of ints
abbrev pub equals_items : Items → List ℕ → Bool
equals_items nil [] = true
equals_items (cons j items) (n ∷ l) = equals_int j (pos n) && equals_items items l
equals_items _ l = false

abbrev pub equals_list : Json → List ℕ → Bool
equals_list (list items) l = equals_items items l
equals_list _ l = false

abbrev pub equal_counts : Fields → Counts → Bool
equal_counts fields counts =
    equals_int (get fields (codes "VALID")) (pos counts.valid_count)
    && (equals_int (get fields (codes "INVALID")) (pos counts.invalid_count)
        && (equals_int (get fields (codes "UNSIGNED")) (pos counts.unsigned_count)
            && (equals_int (get fields (codes "MALFORMED")) (pos counts.malformed_count)
                && equals_int (get fields (codes "UNSUPPORTED_KEY"))
                    (pos counts.unsupported_count))))

-- The text of an expected root.
abbrev pub root_text : BytesOrStr → Str
root_text (raw b) = hex b
root_text (text s) = s

module _ (sha : Sha256) where
  abbrev pub commitment_fields : List Bytes → Str → Counts → List ℕ → Bytes → Option ℤ → Fields
  commitment_fields raw_lines room counts anomaly_indices root export_generation =
      field (codes "version") (int (pos 1)) (
        field (codes "profile") (str (codes "tc-ledger/1")) (
          field (codes "room") (str room) (
            field (codes "line_count") (int (pos (length raw_lines))) (
              field (codes "byte_count") (int (pos (byte_count raw_lines))) (
                field (codes "file_sha256") (str (hex (sha.digest (join raw_lines)))) (
                  field (codes "export_root") (str (hex root)) (
                    field (codes "verification") (dict (count_fields counts)) (
                      field (codes "anomaly_indices")
                        (list (items_of (map (λ n. int (pos n)) anomaly_indices)))
                        (generation_fields export_generation)))))))))

  unfoldable pub build_commitment_artifact :
      List Bytes → Str → Counts → List ℕ → Option ℤ → Result Json
  build_commitment_artifact raw_lines room counts anomaly_indices export_generation =
      Result.◌>>=◌ (export_merkle_root sha raw_lines) λ root.
        Result.◌>>◌ (raise_if (is_negative_some export_generation) value_error) (
          ok
            (dict (commitment_fields raw_lines room counts anomaly_indices root export_generation)))

  module _ (lower : Str → Str) where
    -- `if expected_root is not None`
    abbrev pub matches_expected : Option BytesOrStr → Bytes → Bool
    matches_expected none root = true
    matches_expected (some expected) root = same (lower (hex root)) (lower (root_text expected))

    module _ (b58decode : Str → Result Bytes) (verify : Bytes → Bytes → Bytes → Bool)
        (decode : Bytes → Result Str) (loads : Str → Result Json) where
      unfoldable pub check_commitment :
          List Bytes → Fields → Option BytesOrStr → Option Str → Option ℤ → Check (Unit {0})
      check_commitment raw_lines artifact expected_root expected_room expected_generation = do
        require (equals_int (get artifact (codes "version")) (pos 1))
        require (equals_str (get artifact (codes "profile")) (codes "tc-ledger/1"))
        room ← demand (as_str (get artifact (codes "room")))
        require (not (same room []))
        require (anchor_str expected_room room)
        let generation =
            get_default artifact (codes "export_generation") (get artifact (codes "generation"))
        check_generation generation
        require (anchor_int expected_generation generation)
        require (equals_int (get artifact (codes "line_count")) (pos (length raw_lines)))
        require (equals_int (get artifact (codes "byte_count")) (pos (byte_count raw_lines)))
        require
            (equals_str (get artifact (codes "file_sha256")) (hex (sha.digest (join raw_lines))))
        root ← lift (export_merkle_root sha raw_lines)
        stated ← lift (lower_value lower (get_default artifact (codes "export_root") (str [])))
        require (same stated (lower (hex root)))
        require (matches_expected expected_root root)
        (counts, anomaly_indices) ←
            lift (classify_export_lines b58decode verify decode loads room raw_lines)
        verification ← demand (as_dict (get artifact (codes "verification")))
        require (equal_counts verification counts)
        require (equals_list (get artifact (codes "anomaly_indices")) anomaly_indices)

      unfoldable pub verify_commitment_artifact :
          List Bytes → Json → Option BytesOrStr → Option Str → Option ℤ → Result Bool
      verify_commitment_artifact raw_lines artifact expected_root expected_room
            expected_generation =
          verdict (do
            fields ← demand (as_dict artifact)
            check_commitment raw_lines fields expected_root expected_room expected_generation)
