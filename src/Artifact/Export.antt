-- ===== src/Artifact/Export.antt =====
-- `verify_inclusion_proof_artifact` of src/tc_ledger/ledger.py: an inclusion proof artifact against
-- a whole export. The artifact and the export are the loaded values; reading them from files is
-- not modelled.
use tc_ledger.Prelude.{◌≡◌, sym, ◌∙◌, ap, Bool, true, not, ◌&&◌, Option, none, some, List, length}
use tc_ledger.Py.Result.{Result, ok, err, type_error, index_error}
use tc_ledger.Py.Int.{ℤ, pos, negsuc, int_eq, int_le}
use tc_ledger.Py.Str.{Str, Bytes, BytesOrStr, raw, text, codes, same, same→eq}
use tc_ledger.Py.Hex.{fromhex}
use tc_ledger.Py.Check.{
  Check, pass, require, demand, lift, attempt, verdict, verdict-eq-true, after, require_inversion,
  attempt_inversion, lift_inversion, ◌>>=◌, ◌>>◌,
}
use tc_ledger.Py.Json.{Json, Fields, str, get, dict, as_dict, as_strict_int}
use tc_ledger.Merkle.Hash.{Sha256}
use tc_ledger.Merkle.Levels.{export_merkle_root}
use tc_ledger.Merkle.Proof.{index_at}
use tc_ledger.Artifact.Inclusion.{verify_export_inclusion_proof}

-- bytes.fromhex(x): a TypeError unless x is a str.
abbrev pub fromhex_value : Json → Result Bytes
fromhex_value (str s) = fromhex s
fromhex_value _ = err type_error

-- raw_lines[i] for an int i in range.
abbrev pub line_at : List Bytes → ℤ → Result Bytes
line_at lines (pos i) = index_at lines i
line_at lines (negsuc i) = err index_error

-- `calculated_root != expected_bytes`, where an expected root is given.
unfoldable pub check_calculated_root : Option BytesOrStr → Bytes → Check (Unit {0})
check_calculated_root none calculated_root = pass tt
check_calculated_root (some (raw b)) calculated_root = require (same calculated_root b)
check_calculated_root (some (text s)) calculated_root = do
  b ← lift (fromhex s)
  require (same calculated_root b)

module _ (sha : Sha256) where
  unfoldable pub verify_inclusion_proof_artifact :
      Json → Option (List Bytes) → Option BytesOrStr → Option Str → Option ℤ → Result Bool
  verify_inclusion_proof_artifact proof_target export_target expected_root expected_room
        expected_generation =
      verdict (do
        artifact ← demand (as_dict proof_target)
        raw_lines ← demand export_target
        tree_size ← demand (as_strict_int (get artifact (codes "tree_size")))
        leaf_index ← demand (as_strict_int (get artifact (codes "leaf_index")))
        require (int_eq tree_size (pos (length raw_lines)))
        require (int_le (pos 0) leaf_index && not (int_le (pos (length raw_lines)) leaf_index))
        line ← lift (line_at raw_lines leaf_index)
        verified ← lift (
            verify_export_inclusion_proof sha (raw line) proof_target expected_root
              expected_generation expected_room)
        require verified
        calculated_root ← attempt (export_merkle_root sha raw_lines)
        art_root ← attempt (fromhex_value (get artifact (codes "export_root")))
        require (same calculated_root art_root)
        check_calculated_root expected_root calculated_root)

  -- An artifact that `verify_inclusion_proof_artifact` accepts against an export carries the root of
  -- that export, and `verify_export_inclusion_proof` accepts it for one of the export's lines.
  pub verify_inclusion_proof_artifact_root :
      (artifact : Fields) (lines : List Bytes) (root : Option BytesOrStr) (room : Option Str)
      (generation : Option ℤ)
      → verify_inclusion_proof_artifact (dict artifact) (some lines) root room generation ≡ ok true
      → (r : Bytes) × (export_merkle_root sha lines ≡ ok r)
        × (fromhex_value (get artifact (codes "export_root")) ≡ ok r)
        × ((i : ℤ) × (line : Bytes) × (line_at lines i ≡ ok line)
            × (verify_export_inclusion_proof sha (raw line) (dict artifact) root generation room
                ≡ ok true))
  unfolding verify_inclusion_proof_artifact
  verify_inclusion_proof_artifact_root artifact lines root room generation h =
      after (demand (as_strict_int (get artifact (codes "tree_size")))) _ (verdict-eq-true _ h)
        λ tree_size _ h1.
          after (demand (as_strict_int (get artifact (codes "leaf_index")))) _ h1 λ leaf_index _ h2.
            after (require (int_eq tree_size (pos (length lines)))) _ h2 λ _ _ h3.
              after
                (require
                  (int_le (pos 0) leaf_index && not (int_le (pos (length lines)) leaf_index)))
                _ h3
                λ _ _ h4. after (lift (line_at lines leaf_index)) _ h4 λ line l h5.
                  after
                    (lift (
                      verify_export_inclusion_proof sha (raw line) (dict artifact) root generation
                        room))
                    _ h5
                    λ verified v h6. after (require verified) _ h6 λ _ t h7.
                      after (attempt (export_merkle_root sha lines)) _ h7 λ calculated c h8.
                        after (attempt (fromhex_value (get artifact (codes "export_root")))) _ h8
                          λ art_root a h9. after (require (same calculated art_root)) _ h9 λ _ s _.
                            (
                              calculated,
                              attempt_inversion _ c,
                              attempt_inversion _ a
                                  ∙ ap ok
                                      (sym (same→eq calculated art_root (require_inversion _ s))),
                              (
                                leaf_index,
                                line,
                                lift_inversion _ l,
                                lift_inversion _ v ∙ ap ok (require_inversion _ t),
                              ),
                            )
