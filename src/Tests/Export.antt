-- ===== src/Tests/Export.antt =====
-- An export of a signed line, a blank line and a malformed line, with stand-ins for the decoders.
use tc_ledger.Prelude.{◌≡◌, refl, true, some, List, [], ◌∷◌, ◌++◌, length, get_elem?, All}
use tc_ledger.Py.Result.{Result, ok, err, json_decode_error}
use tc_ledger.Py.Str.{Str, Bytes, codes, raw}
use tc_ledger.Py.Utf8.{encode_char, utf8_encode}
use tc_ledger.Py.Text.{decimal, decimal_from}
use tc_ledger.Py.Json.{Json, Fields, dict}
use tc_ledger.Record.Text.{rstrip_padding, sextet, b64decode, base64url_char, urlsafe_b64encode}
use tc_ledger.Record.Did.{public_key_from_did}
use tc_ledger.Record.Signed.{nonce_text, decode_signature, verify_signature, verify_signed_record}
use tc_ledger.Merkle.Levels.{export_merkle_root, next_level, first_node, reduce_level}
use tc_ledger.Merkle.Hash.{export_leaf_hash, node_hash}
use tc_ledger.Evidence.Commitment.{evidence_commitment}
use tc_ledger.Evidence.Duplicates.{EvidenceLeafMapping, ExportEvidenceIndex}
use tc_ledger.Export.Classify.{
  Counts, outcome_of_result, classify_record, classify_export_line, classify_raw_line, outcome_of,
  classify_lines, classify_export_lines,
}
use tc_ledger.Export.Counts.{total, anomalous, written_lines, classify_export_lines-total}
use tc_ledger.Export.Anomalies.{has_index, anomalous_line, classify_export_lines-anomalies}
use tc_ledger.Export.Mapping.{
  is_valid_result, mapping_if, mapping_of, map_lines, map_evidence_to_export,
}
use tc_ledger.Export.Mapping.Valid.{map_evidence_to_export-valid_count}
use tc_ledger.Export.Mapping.Signed.{IsEvidence, map_evidence_to_export-IsEvidence}
use tc_ledger.Export.Artifact.{build_commitment_artifact, verify_commitment_artifact}
use tc_ledger.Export.Artifact.RoundTrip.{verify-build_commitment_artifact}
use tc_ledger.Py.Int.{pos}
use tc_ledger.Tests.Toy.{toy}
use tc_ledger.Tests.Record.{toy_decode, toy_verify, record_fields}
use tc_ledger.Py.Hex.{hex, hex_digit}

-- Bytes are read as characters; the line `r` stands for the text of the signed record.
abbrev decode : Bytes → Result Str
decode b = ok b

abbrev loads : Str → Result Json
loads (c ∷ []) = ok (dict record_fields)
loads _ = err json_decode_error

abbrev canonicalize : Fields → Result Bytes
canonicalize fields = ok (codes "x")

abbrev raw_lines : List Bytes
raw_lines = codes "r" ∷ codes " " ∷ codes "bad" ∷ []

abbrev counts : Counts
counts = record {
  valid_count = 1;
  invalid_count = 0;
  unsigned_count = 0;
  malformed_count = 1;
  unsupported_count = 0;
}

classified :
    classify_export_lines toy_decode toy_verify decode loads (codes "r") raw_lines
    ≡ ok (counts, 2 ∷ [])
unfolding classify_export_lines classify_lines outcome_of outcome_of_result classify_raw_line
    classify_export_line classify_record verify_signed_record verify_signature nonce_text decimal
    decimal_from public_key_from_did decode_signature rstrip_padding sextet b64decode base64url_char
    urlsafe_b64encode utf8_encode encode_char
classified = refl

classify_export_lines-total_example :
    (total counts ≡ written_lines raw_lines) × (anomalous counts ≡ 1)
classify_export_lines-total_example =
    classify_export_lines-total toy_decode toy_verify decode loads (codes "r") raw_lines counts
      (2 ∷ []) classified

classify_export_lines-anomalies_example :
    has_index 2 (2 ∷ [])
    ≡ anomalous_line toy_decode toy_verify decode loads (codes "r") (some (codes "bad"))
classify_export_lines-anomalies_example =
    classify_export_lines-anomalies toy_decode toy_verify decode loads (codes "r") raw_lines counts
      (2 ∷ []) classified 2

abbrev leaf : Bytes → Bytes
leaf b = toy.digest (0 ∷ b)

abbrev root : Bytes
root =
    toy.digest (1 ∷ (toy.digest (1 ∷ (leaf (codes "r") ++ leaf (codes " "))) ++ leaf (codes "bad")))

abbrev index : ExportEvidenceIndex
index = record {
  export_root = root;
  mappings =
      record {
        evidence_id = codes "tc-ledger:v1:" ++ hex (toy.digest (codes "x"));
        export_leaf_index = 0;
      }
      ∷ [];
}

mapped :
    map_evidence_to_export toy canonicalize toy_decode toy_verify decode loads loads
      (codes "r")
      raw_lines
    ≡ ok index
unfolding map_evidence_to_export map_lines mapping_of mapping_if is_valid_result export_merkle_root
    next_level first_node reduce_level export_leaf_hash node_hash evidence_commitment hex hex_digit
    classify_raw_line classify_export_line classify_record verify_signed_record verify_signature
    nonce_text decimal decimal_from public_key_from_did decode_signature rstrip_padding sextet
    b64decode base64url_char urlsafe_b64encode utf8_encode encode_char
mapped = refl

map_evidence_to_export-valid_count_example :
    (length index.mappings ≡ counts.valid_count) × (export_merkle_root toy raw_lines ≡ ok root)
map_evidence_to_export-valid_count_example =
    map_evidence_to_export-valid_count toy canonicalize toy_decode toy_verify decode loads loads
      (codes "r") raw_lines counts (2 ∷ []) index classified mapped

map_evidence_to_export-IsEvidence_example :
    All
      (λ (m : EvidenceLeafMapping).
        (line : Bytes) × (get_elem? raw_lines m.export_leaf_index ≡ some line)
        × IsEvidence toy canonicalize toy_decode toy_verify decode loads loads
            (codes "r")
            m.evidence_id
            line)
      index.mappings
map_evidence_to_export-IsEvidence_example =
    map_evidence_to_export-IsEvidence toy canonicalize toy_decode toy_verify decode loads loads
      (codes "r") raw_lines index mapped

rooted : export_merkle_root toy raw_lines ≡ ok root
unfolding export_merkle_root next_level first_node reduce_level export_leaf_hash node_hash
rooted = refl

verify-build_commitment_artifact_example :
    (artifact : Json) × (build_commitment_artifact toy raw_lines
        (codes "r")
        counts
        (2 ∷ [])
        (some (pos 7))
      ≡ ok artifact)
    × (verify_commitment_artifact toy
          (λ s. s)
          toy_decode
          toy_verify
          decode
          loads
          raw_lines
          artifact
          (some (raw root))
          (some (codes "r"))
          (some (pos 7))
        ≡ ok true)
verify-build_commitment_artifact_example =
    verify-build_commitment_artifact toy (λ s. s) toy_decode toy_verify decode loads raw_lines
      (codes "r") counts (2 ∷ []) root 7 refl rooted classified
