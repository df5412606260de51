-- ===== src/Export/Classify.antt =====
-- `_classify_export_line`, `classify_export_lines` and `verify_export` of src/tc_ledger/ledger.py. The
-- UTF-8 decoder and `json.loads` are parameters that give a value or raise; of `verify_export`, opening
-- the file and splitting it into lines of text is outside.
use tc_ledger.Prelude.{
  ℕ, suc, ◌+◌, Bool, ◌&&◌, ◌||◌, Option, none, some, List, [], ◌∷◌, ◌++◌, ◌==◌, leb, if◌then◌else◌,
  length,
}
use tc_ledger.Py.Result.{
  Result, ok, err, malformed_record, unsupported_key_type, invalid_signature, unicode_decode_error,
  json_decode_error, ◌>>=◌,
}
use tc_ledger.Py.Str.{Str, Bytes}
use tc_ledger.Py.Json.{Json, dict}
use tc_ledger.Py.Text.{all_chars, strip}
use tc_ledger.Record.Signed.{Status, valid, unsigned, VerificationResult, verify_signed_record}

-- The classes that are counted.
pub data Outcome : Type 0 where
  valid_line invalid_line unsigned_line malformed_line unsupported_line : Outcome

pub record Counts : Type 0 where
  pub valid_count : ℕ
  pub invalid_count : ℕ
  pub unsigned_count : ℕ
  pub malformed_count : ℕ
  pub unsupported_count : ℕ

abbrev pub no_counts : Counts
no_counts = record {
  valid_count = 0;
  invalid_count = 0;
  unsigned_count = 0;
  malformed_count = 0;
  unsupported_count = 0;
}

-- `counts[...] += 1`; a blank line has no outcome.
abbrev pub add_outcome : Option Outcome → Counts → Counts
add_outcome none counts = counts
add_outcome (some valid_line) counts = record counts { valid_count = counts.valid_count + 1 }
add_outcome (some invalid_line) counts = record counts { invalid_count = counts.invalid_count + 1 }
add_outcome (some unsigned_line) counts = record counts {
  unsigned_count = counts.unsigned_count + 1;
}
add_outcome (some malformed_line) counts = record counts {
  malformed_count = counts.malformed_count + 1;
}
add_outcome (some unsupported_line) counts = record counts {
  unsupported_count = counts.unsupported_count + 1;
}

-- `anomaly_indices.append(index)`, or nothing.
abbrev pub anomaly_at : Option Outcome → ℕ → List ℕ
anomaly_at (some invalid_line) index = index ∷ []
anomaly_at (some malformed_line) index = index ∷ []
anomaly_at (some unsupported_line) index = index ∷ []
anomaly_at _ index = []

-- [ \t\n\r\v\f], what `bytes.strip` strips
abbrev pub is_byte_space : ℕ → Bool
is_byte_space c = (leb 9 c && leb c 13) || c == 32

-- not raw_line.strip()
abbrev pub is_blank : Bytes → Bool
is_blank raw_line = all_chars is_byte_space raw_line

abbrev pub status_outcome : Status → Outcome
status_outcome valid = valid_line
status_outcome unsigned = unsigned_line

-- The `except` clauses; what they do not name is raised.
unfoldable pub outcome_of_result : Result VerificationResult → Result (Option Outcome)
outcome_of_result (ok result) = ok (some (status_outcome result.status))
outcome_of_result (err unsupported_key_type) = ok (some unsupported_line)
outcome_of_result (err invalid_signature) = ok (some invalid_line)
outcome_of_result (err malformed_record) = ok (some malformed_line)
outcome_of_result (err unicode_decode_error) = ok (some malformed_line)
outcome_of_result (err json_decode_error) = ok (some malformed_line)
outcome_of_result (err e) = err e

-- The `except` clauses of `verify_export` do not name UnicodeDecodeError.
unfoldable pub text_outcome : Result VerificationResult → Result (Option Outcome)
text_outcome (err unicode_decode_error) = err unicode_decode_error
text_outcome r = outcome_of_result r

module _ (b58decode : Str → Result Bytes) (verify : Bytes → Bytes → Bytes → Bool)
    (decode : Bytes → Result Str) (loads : Str → Result Json) (room : Str) where
  unfoldable pub classify_record : Json → Result VerificationResult
  classify_record (dict fields) = verify_signed_record b58decode verify fields room
  classify_record _ = err malformed_record

  unfoldable pub classify_export_line : Str → Result VerificationResult
  classify_export_line line = do record_value ← loads line; classify_record record_value

  -- `raw_line.decode("utf-8")`, and the classification.
  unfoldable pub classify_raw_line : Bytes → Result VerificationResult
  classify_raw_line raw_line = do line ← decode raw_line; classify_export_line line

  -- The body of the loop.
  unfoldable pub outcome_of : Bytes → Result (Option Outcome)
  outcome_of raw_line =
      if is_blank raw_line then ok none else outcome_of_result (classify_raw_line raw_line)

  unfoldable pub classify_lines : ℕ → List Bytes → Counts → List ℕ → Result (Counts × List ℕ)
  classify_lines index [] counts anomalies = ok (counts, anomalies)
  classify_lines index (raw_line ∷ raw_lines) counts anomalies = do
    outcome ← outcome_of raw_line
    classify_lines (suc index) raw_lines (add_outcome outcome counts)
        (anomalies ++ anomaly_at outcome index)

  unfoldable pub classify_export_lines : List Bytes → Result (Counts × List ℕ)
  classify_export_lines raw_lines = classify_lines 0 raw_lines no_counts []

  -- The same loop over lines of text, without indices: a UnicodeDecodeError comes from reading.
  unfoldable pub outcome_of_text : Str → Result (Option Outcome)
  outcome_of_text line =
      if length (strip line) == 0 then ok none else text_outcome (classify_export_line line)

  unfoldable pub count_lines : List Str → Counts → Result Counts
  count_lines [] counts = ok counts
  count_lines (line ∷ lines) counts = do
    outcome ← outcome_of_text line
    count_lines lines (add_outcome outcome counts)

  unfoldable pub verify_export : List Str → Result Counts
  verify_export lines = count_lines lines no_counts
