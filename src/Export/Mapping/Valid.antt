-- ===== src/Export/Mapping/Valid.antt =====
-- `map_evidence_to_export` maps the lines that `classify_export_lines` counts as valid.
use tc_ledger.Prelude.{
  ℕ, suc, ◌+◌, ◌≡◌, refl, sym, ◌∙◌, ap, Bool, true, false, Bool-cases, inl, inr, Option, none, some,
  List, [], ◌∷◌, ◌++◌, length, length-append, arith,
}
use tc_ledger.Py.Result.{
  Result, ok, err, malformed_record, unsupported_key_type, invalid_signature, unicode_decode_error,
  json_decode_error, ok_value, >>=-eq-ok,
}
use tc_ledger.Py.Str.{Str, Bytes}
use tc_ledger.Py.Json.{Json, Fields}
use tc_ledger.Merkle.Hash.{Sha256}
use tc_ledger.Merkle.Levels.{export_merkle_root}
use tc_ledger.Record.Signed.{Status, valid, unsigned, VerificationResult}
use tc_ledger.Evidence.Duplicates.{EvidenceLeafMapping, ExportEvidenceIndex}
use tc_ledger.Export.Classify.{
  Outcome, valid_line, invalid_line, unsigned_line, malformed_line, unsupported_line, Counts,
  no_counts, add_outcome, anomaly_at, is_blank, status_outcome, outcome_of_result,
  classify_raw_line, outcome_of, classify_lines, classify_export_lines,
}
use tc_ledger.Export.Mapping.{
  is_valid_status, is_valid_result, commitment_of, mapping_if, mapping_of, map_lines,
  map_evidence_to_export,
}

abbrev is_valid_outcome : Option Outcome → Bool
is_valid_outcome (some valid_line) = true
is_valid_outcome _ = false

abbrev one_if : Bool → ℕ
one_if true = 1
one_if false = 0

valid-add_outcome :
    (o : Option Outcome) (c : Counts)
    → (add_outcome o c).valid_count ≡ c.valid_count + one_if (is_valid_outcome o)
valid-add_outcome none c = omega arith
valid-add_outcome (some valid_line) c = omega arith
valid-add_outcome (some invalid_line) c = omega arith
valid-add_outcome (some unsigned_line) c = omega arith
valid-add_outcome (some malformed_line) c = omega arith
valid-add_outcome (some unsupported_line) c = omega arith

status_verdict : (s : Status) → is_valid_status s ≡ is_valid_outcome (some (status_outcome s))
status_verdict valid = refl
status_verdict unsigned = refl

-- Both loops agree on what is valid.
same_verdict :
    (r : Result VerificationResult) (o : Option Outcome) (b : Bool)
    → outcome_of_result r ≡ ok o
    → is_valid_result r ≡ ok b
    → b ≡ is_valid_outcome o
unfolding outcome_of_result is_valid_result
same_verdict (ok v) o b h k =
    sym (ok_value k) ∙ status_verdict v.status ∙ ap is_valid_outcome (ok_value h)
same_verdict (err unsupported_key_type) o b h k =
    sym (ok_value k) ∙ ap is_valid_outcome (ok_value h)
same_verdict (err invalid_signature) o b h k = sym (ok_value k) ∙ ap is_valid_outcome (ok_value h)
same_verdict (err malformed_record) o b h k = sym (ok_value k) ∙ ap is_valid_outcome (ok_value h)
same_verdict (err unicode_decode_error) o b h k =
    sym (ok_value k) ∙ ap is_valid_outcome (ok_value h)
same_verdict (err json_decode_error) o b h k = sym (ok_value k) ∙ ap is_valid_outcome (ok_value h)
same_verdict (err _) o b h k = cc

module _ (sha : Sha256) (canonicalize : Fields → Result Bytes) (b58decode : Str → Result Bytes)
    (verify : Bytes → Bytes → Bytes → Bool) (decode : Bytes → Result Str)
    (loads : Str → Result Json) (loads_bytes : Bytes → Result Json) (room : Str) where
  length-mapping_if :
      (b : Bool) (i : ℕ) (l : Bytes) (m : List EvidenceLeafMapping)
      → mapping_if sha canonicalize b58decode verify decode loads loads_bytes room b i l ≡ ok m
      → length m ≡ one_if b
  unfolding mapping_if
  length-mapping_if true i l m h =
      let (value, _, h1) = >>=-eq-ok (loads_bytes l) _ h in
      let (id, _, h2) =
        >>=-eq-ok
          (commitment_of sha canonicalize b58decode verify decode loads loads_bytes room value) _
          h1 in
      ap length (sym (ok_value h2))
  length-mapping_if false i l m h = ap length (sym (ok_value h))

  length-mapping_of :
      (i : ℕ) (l : Bytes) (o : Option Outcome) (m : List EvidenceLeafMapping)
      → outcome_of b58decode verify decode loads room l ≡ ok o
      → mapping_of sha canonicalize b58decode verify decode loads loads_bytes room i l ≡ ok m
      → length m ≡ one_if (is_valid_outcome o)
  unfolding outcome_of mapping_of
  length-mapping_of i l o m h k = elim (Bool-cases (is_blank l)) [
    | inl blank ↦
        ap length (sym (ok_value (rw blank at k)))
        ∙ ap (λ p. one_if (is_valid_outcome p)) (ok_value (rw blank at h))
    | inr written ↦
        let classified = classify_raw_line b58decode verify decode loads room l in
        let (b, v, k1) = >>=-eq-ok (is_valid_result classified) _ (rw written at k) in
        length-mapping_if b i l m k1 ∙ ap one_if (same_verdict classified o b (rw written at h) v)
  ]

  length-map_lines :
      (i : ℕ) (ls : List Bytes) (c c' : Counts) (a a' : List ℕ) (ms : List EvidenceLeafMapping)
      → classify_lines b58decode verify decode loads room i ls c a ≡ ok (c', a')
      → map_lines sha canonicalize b58decode verify decode loads loads_bytes room i ls ≡ ok ms
      → c'.valid_count ≡ c.valid_count + length ms
  unfolding classify_lines map_lines
  length-map_lines i [] c c' a a' ms h k =
      omega
        (arith, ap (λ (p : Counts × List ℕ). p.0.valid_count) (ok_value h), ap length (ok_value k))
  length-map_lines i (l ∷ ls) c c' a a' ms h k =
      let (o, e, h1) = >>=-eq-ok (outcome_of b58decode verify decode loads room l) _ h in
      let (m, f, k1) =
        >>=-eq-ok (mapping_of sha canonicalize b58decode verify decode loads loads_bytes room i l) _
          k in
      let (rest, g, k2) =
        >>=-eq-ok
          (map_lines sha canonicalize b58decode verify decode loads loads_bytes room (suc i) ls) _
          k1 in
      omega (
        arith,
        length-map_lines (suc i) ls (add_outcome o c) c' (a ++ anomaly_at o i) a' rest h1 g,
        valid-add_outcome o c,
        length-mapping_of i l o m e f,
        ap length (ok_value k2),
        length-append m rest,
      )

  -- The mapping of an export has as many entries as `classify_export_lines` counts valid lines, and its root
  -- is that of the export.
  pub map_evidence_to_export-valid_count :
      (raw_lines : List Bytes) (counts : Counts) (anomalies : List ℕ) (index : ExportEvidenceIndex)
      → classify_export_lines b58decode verify decode loads room raw_lines ≡ ok (counts, anomalies)
      → map_evidence_to_export sha canonicalize b58decode verify decode loads loads_bytes room
          raw_lines
        ≡ ok index
      → (length index.mappings ≡ counts.valid_count)
        × (export_merkle_root sha raw_lines ≡ ok index.export_root)
  unfolding classify_export_lines map_evidence_to_export
  map_evidence_to_export-valid_count raw_lines counts anomalies index h k =
      let (root, r, k1) = >>=-eq-ok (export_merkle_root sha raw_lines) _ k in
      let (ms, m, k2) =
        >>=-eq-ok
          (map_lines sha canonicalize b58decode verify decode loads loads_bytes room 0 raw_lines) _
          k1 in
      let same_index = ok_value k2 in
      (
        omega (
          arith,
          length-map_lines 0 raw_lines no_counts counts [] anomalies ms h m,
          ap (λ (x : ExportEvidenceIndex). length x.mappings) same_index,
        ),
        r ∙ ap (λ (x : ExportEvidenceIndex). ok x.export_root) same_index,
      )
