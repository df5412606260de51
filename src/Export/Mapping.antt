-- ===== src/Export/Mapping.antt =====
-- `map_evidence_to_export` of src/tc_ledger/ledger.py. `json.loads` of bytes is a parameter of its own.
pub mod Signed
pub mod Valid
use tc_ledger.Prelude.{
  ℕ, suc, Bool, true, false, Option, none, some, List, [], ◌∷◌, ◌++◌, if◌then◌else◌,
}
use tc_ledger.Py.Result.{
  Result, ok, err, type_error, malformed_record, unsupported_key_type, invalid_signature,
  unicode_decode_error, json_decode_error, ◌>>=◌,
}
use tc_ledger.Py.Str.{Str, Bytes}
use tc_ledger.Py.Json.{Json, Fields, dict}
use tc_ledger.Merkle.Hash.{Sha256}
use tc_ledger.Merkle.Levels.{export_merkle_root}
use tc_ledger.Record.Signed.{Status, valid, unsigned, VerificationResult}
use tc_ledger.Evidence.Commitment.{evidence_commitment}
use tc_ledger.Evidence.Duplicates.{EvidenceLeafMapping, ExportEvidenceIndex}
use tc_ledger.Export.Classify.{is_blank, classify_raw_line}

-- result.status == "VALID"
abbrev pub is_valid_status : Status → Bool
is_valid_status valid = true
is_valid_status unsigned = false

-- Whether the loop goes on to the identifier; an exception that it does not name is raised.
unfoldable pub is_valid_result : Result VerificationResult → Result Bool
is_valid_result (ok result) = ok (is_valid_status result.status)
is_valid_result (err unsupported_key_type) = ok false
is_valid_result (err invalid_signature) = ok false
is_valid_result (err malformed_record) = ok false
is_valid_result (err unicode_decode_error) = ok false
is_valid_result (err json_decode_error) = ok false
is_valid_result (err e) = err e

module _ (sha : Sha256) (canonicalize : Fields → Result Bytes) (b58decode : Str → Result Bytes)
    (verify : Bytes → Bytes → Bytes → Bool) (decode : Bytes → Result Str)
    (loads : Str → Result Json) (loads_bytes : Bytes → Result Json) (room : Str) where
  -- What a line decodes to is an object again when it is read from its bytes.
  abbrev pub commitment_of : Json → Result Str
  commitment_of (dict fields) = evidence_commitment sha canonicalize fields room
  commitment_of _ = err type_error

  unfoldable pub mapping_if : Bool → ℕ → Bytes → Result (List EvidenceLeafMapping)
  mapping_if true index raw_line = do
    record_value ← loads_bytes raw_line
    evidence_id ← commitment_of record_value
    ok (record { evidence_id = evidence_id; export_leaf_index = index } ∷ [])
  mapping_if false index raw_line = ok []

  -- The body of the loop.
  unfoldable pub mapping_of : ℕ → Bytes → Result (List EvidenceLeafMapping)
  mapping_of index raw_line =
      let classified = (do
        is_valid ← is_valid_result (classify_raw_line b58decode verify decode loads room raw_line)
        mapping_if is_valid index raw_line) in
      if is_blank raw_line then ok [] else classified

  unfoldable pub map_lines : ℕ → List Bytes → Result (List EvidenceLeafMapping)
  map_lines index [] = ok []
  map_lines index (raw_line ∷ raw_lines) = do
    mapping ← mapping_of index raw_line
    rest ← map_lines (suc index) raw_lines
    ok (mapping ++ rest)

  unfoldable pub map_evidence_to_export : List Bytes → Result ExportEvidenceIndex
  map_evidence_to_export raw_lines = do
    export_root ← export_merkle_root sha raw_lines
    mappings ← map_lines 0 raw_lines
    ok (record { export_root = export_root; mappings = mappings })
