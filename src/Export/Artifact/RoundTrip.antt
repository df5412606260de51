-- ===== src/Export/Artifact/RoundTrip.antt =====
-- A commitment artifact that was built for an export is accepted for that export.
use tc_ledger.Prelude.{
  ℕ, ◌≡◌, refl, ap, Bool, true, false, some, List, [], ◌∷◌, map, ==_refl, length,
}
use tc_ledger.Py.Result.{Result, ok}
use tc_ledger.Py.Int.{pos}
use tc_ledger.Py.Str.{Str, Bytes, raw, same, same_refl}
use tc_ledger.Py.Hex.{hex}
use tc_ledger.Py.Check.{pass, verdict}
use tc_ledger.Py.Json.{Json, int, dict, items_of}
use tc_ledger.Merkle.Hash.{Sha256}
use tc_ledger.Merkle.Levels.{export_merkle_root}
use tc_ledger.Export.Classify.{Counts, classify_export_lines}
use tc_ledger.Export.Artifact.{
  join, byte_count, count_fields, equals_items, equal_counts, commitment_fields,
  build_commitment_artifact, check_commitment, verify_commitment_artifact,
}

equals_items-items_of : (l : List ℕ) → equals_items (items_of (map (λ n. int (pos n)) l)) l ≡ true
equals_items-items_of [] = refl
equals_items-items_of (n ∷ l) = rw (==_refl n, equals_items-items_of l)

equal_counts-count_fields : (c : Counts) → equal_counts (count_fields c) c ≡ true
equal_counts-count_fields c = rw (
  ==_refl c.valid_count,
  ==_refl c.invalid_count,
  ==_refl c.unsigned_count,
  ==_refl c.malformed_count,
  ==_refl c.unsupported_count,
)

module _ (sha : Sha256) (lower : Str → Str) (b58decode : Str → Result Bytes)
    (verify : Bytes → Bytes → Bytes → Bool) (decode : Bytes → Result Str)
    (loads : Str → Result Json) where
  check_commitment-fields :
      (lines : List Bytes) (room : Str) (counts : Counts) (anomalies : List ℕ) (root : Bytes)
      (g : ℕ)
      → same room [] ≡ false
      → export_merkle_root sha lines ≡ ok root
      → classify_export_lines b58decode verify decode loads room lines ≡ ok (counts, anomalies)
      → check_commitment sha lower b58decode verify decode loads lines
          (commitment_fields sha lines room counts anomalies root (some (pos g)))
          (some (raw root))
          (some room)
          (some (pos g))
        ≡ pass tt
  unfolding check_commitment
  check_commitment-fields lines room counts anomalies root g named rooted classified = rw (
    named,
    same_refl room,
    ==_refl g,
    ==_refl (length lines),
    ==_refl (byte_count lines),
    same_refl (hex (sha.digest (join lines))),
    rooted,
    same_refl (lower (hex root)),
    classified,
    equal_counts-count_fields counts,
    equals_items-items_of anomalies,
  )

  -- The commitment artifact that is built for an export in a named room, with the counts and the anomaly
  -- indices of `classify_export_lines` and with a generation, is accepted for that export, under its root,
  -- its room and its generation.
  pub verify-build_commitment_artifact :
      (lines : List Bytes) (room : Str) (counts : Counts) (anomalies : List ℕ) (root : Bytes)
      (g : ℕ)
      → same room [] ≡ false
      → export_merkle_root sha lines ≡ ok root
      → classify_export_lines b58decode verify decode loads room lines ≡ ok (counts, anomalies)
      → (artifact : Json) × (build_commitment_artifact sha lines room counts anomalies
            (some (pos g))
          ≡ ok artifact)
        × (verify_commitment_artifact sha lower b58decode verify decode loads lines artifact
              (some (raw root))
              (some room)
              (some (pos g))
            ≡ ok true)
  unfolding build_commitment_artifact verify_commitment_artifact
  verify-build_commitment_artifact lines room counts anomalies root g named rooted classified = (
    dict (commitment_fields sha lines room counts anomalies root (some (pos g))),
    rw rooted refl,
    ap verdict (check_commitment-fields lines room counts anomalies root g named rooted classified),
  )
