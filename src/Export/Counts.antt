-- ===== src/Export/Counts.antt =====
-- What `classify_export_lines` counts, and which lines it lists as anomalies.
use tc_ledger.Prelude.{
  ℕ, suc, ◌+◌, ◌≡◌, refl, sym, ap, Bool, Bool-cases, inl, inr, Option, none, some, List, [], ◌∷◌,
  ◌++◌, if◌then◌else◌, length, length-append, arith,
}
use tc_ledger.Py.Result.{
  Result, ok, err, malformed_record, unsupported_key_type, invalid_signature, unicode_decode_error,
  json_decode_error, ok_value, >>=-eq-ok,
}
use tc_ledger.Py.Str.{Str, Bytes}
use tc_ledger.Py.Json.{Json}
use tc_ledger.Record.Signed.{VerificationResult}
use tc_ledger.Export.Classify.{
  Outcome, valid_line, invalid_line, unsigned_line, malformed_line, unsupported_line, Counts,
  no_counts, add_outcome, anomaly_at, is_blank, outcome_of_result, classify_raw_line, outcome_of,
  classify_lines, classify_export_lines,
}

-- All lines that are counted.
abbrev pub total : Counts → ℕ
total c =
    c.valid_count + c.invalid_count + c.unsigned_count + c.malformed_count + c.unsupported_count

-- The lines that are counted as anomalies.
abbrev pub anomalous : Counts → ℕ
anomalous c = c.invalid_count + c.malformed_count + c.unsupported_count

-- The number of lines that are not blank.
abbrev pub written_lines : List Bytes → ℕ
written_lines [] = 0
written_lines (l ∷ ls) = (if is_blank l then 0 else 1) + written_lines ls

abbrev is_counted : Option Outcome → ℕ
is_counted none = 0
is_counted (some o) = 1

total-add_outcome :
    (o : Option Outcome) (c : Counts) → total (add_outcome o c) ≡ total c + is_counted o
total-add_outcome none c = omega arith
total-add_outcome (some valid_line) c = omega arith
total-add_outcome (some invalid_line) c = omega arith
total-add_outcome (some unsigned_line) c = omega arith
total-add_outcome (some malformed_line) c = omega arith
total-add_outcome (some unsupported_line) c = omega arith

anomalous-add_outcome :
    (o : Option Outcome) (c : Counts) (i : ℕ)
    → anomalous (add_outcome o c) ≡ anomalous c + length (anomaly_at o i)
anomalous-add_outcome none c i = omega arith
anomalous-add_outcome (some valid_line) c i = omega arith
anomalous-add_outcome (some invalid_line) c i = omega arith
anomalous-add_outcome (some unsigned_line) c i = omega arith
anomalous-add_outcome (some malformed_line) c i = omega arith
anomalous-add_outcome (some unsupported_line) c i = omega arith

-- A line that is classified is counted.
counted_result :
    (r : Result VerificationResult) (o : Option Outcome)
    → outcome_of_result r ≡ ok o
    → is_counted o ≡ 1
unfolding outcome_of_result
counted_result r (some o) h = refl
counted_result (ok v) none h = cc
counted_result (err unsupported_key_type) none h = cc
counted_result (err invalid_signature) none h = cc
counted_result (err malformed_record) none h = cc
counted_result (err unicode_decode_error) none h = cc
counted_result (err json_decode_error) none h = cc
counted_result (err _) none h = cc

module _ (b58decode : Str → Result Bytes) (verify : Bytes → Bytes → Bytes → Bool)
    (decode : Bytes → Result Str) (loads : Str → Result Json) (room : Str) where
  counted_line :
      (l : Bytes) (o : Option Outcome)
      → outcome_of b58decode verify decode loads room l ≡ ok o
      → is_counted o ≡ (if is_blank l then 0 else 1)
  unfolding outcome_of
  counted_line l o h = elim (Bool-cases (is_blank l)) [
    | inl blank ↦ rw blank (ap is_counted (sym (ok_value (rw blank at h))))
    | inr written ↦ rw written (
        counted_result (classify_raw_line b58decode verify decode loads room l) o (rw written at h))
  ]

  counted_lines :
      (i : ℕ) (ls : List Bytes) (c c' : Counts) (a a' : List ℕ)
      → classify_lines b58decode verify decode loads room i ls c a ≡ ok (c', a')
      → (total c' ≡ total c + written_lines ls)
        × (anomalous c' + length a ≡ anomalous c + length a')
  unfolding classify_lines
  counted_lines i [] c c' a a' h =
      let e = ok_value h in
      (
        omega (arith, ap (λ (p : Counts × List ℕ). total p.0) e),
        omega (
          arith,
          ap (λ (p : Counts × List ℕ). anomalous p.0) e,
          ap (λ (p : Counts × List ℕ). length p.1) e,
        ),
      )
  counted_lines i (l ∷ ls) c c' a a' h =
      let (o, e, h1) = >>=-eq-ok (outcome_of b58decode verify decode loads room l) _ h in
      let (t, n) = counted_lines (suc i) ls (add_outcome o c) c' (a ++ anomaly_at o i) a' h1 in
      (
        omega (arith, t, total-add_outcome o c, counted_line l o e),
        omega (arith, n, anomalous-add_outcome o c i, length-append a (anomaly_at o i)),
      )

  -- Each line of an export that is not blank is counted once, and the lines that are counted as invalid,
  -- malformed or of an unsupported key are as many as the anomaly indices.
  pub classify_export_lines-total :
      (raw_lines : List Bytes) (counts : Counts) (anomalies : List ℕ)
      → classify_export_lines b58decode verify decode loads room raw_lines ≡ ok (counts, anomalies)
      → (total counts ≡ written_lines raw_lines) × (anomalous counts ≡ length anomalies)
  unfolding classify_export_lines
  classify_export_lines-total raw_lines counts anomalies h =
      let (t, n) = counted_lines 0 raw_lines no_counts counts [] anomalies h in
      (omega (arith, t), omega (arith, n))
