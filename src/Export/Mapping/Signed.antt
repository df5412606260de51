-- ===== src/Export/Mapping/Signed.antt =====
-- What a mapping of `map_evidence_to_export` says of its leaf.
use tc_ledger.Prelude.{
  ℕ, suc, ◌+◌, ◌≡◌, subst, refl, sym, ◌∙◌, ap, Bool, true, false, Bool-cases, inl, inr, some, List,
  [], ◌∷◌, ◌++◌, get_elem?, All, arith,
}
use tc_ledger.Py.Result.{
  Result, ok, err, malformed_record, unsupported_key_type, invalid_signature, unicode_decode_error,
  json_decode_error, ok_value, >>=-eq-ok,
}
use tc_ledger.Py.Str.{Str, Bytes}
use tc_ledger.Py.Json.{Json, Fields, dict}
use tc_ledger.Merkle.Hash.{Sha256}
use tc_ledger.Merkle.Levels.{export_merkle_root}
use tc_ledger.Record.Signed.{Status, valid, unsigned, VerificationResult}
use tc_ledger.Record.Valid.{SignedIn, verify_signed_record-SignedIn}
use tc_ledger.Evidence.Duplicates.{EvidenceLeafMapping, ExportEvidenceIndex}
use tc_ledger.Export.Classify.{is_blank, classify_record, classify_export_line, classify_raw_line}
use tc_ledger.Export.Mapping.{
  is_valid_status, is_valid_result, commitment_of, mapping_if, mapping_of, map_lines,
  map_evidence_to_export,
}

valid_result :
    (r : Result VerificationResult)
    → is_valid_result r ≡ ok true
    → (seq : Json) × (r ≡ ok (record { seq = seq; status = valid }))
unfolding is_valid_result
valid_result (ok v) h =
    (v.seq, ap (λ s. ok (record { seq = v.seq; status = s })) (is_valid v.status (ok_value h)))
  where
    is_valid : (s : Status) → is_valid_status s ≡ true → s ≡ valid
    is_valid valid q = refl
    is_valid unsigned q = cc
valid_result (err unsupported_key_type) h = cc
valid_result (err invalid_signature) h = cc
valid_result (err malformed_record) h = cc
valid_result (err unicode_decode_error) h = cc
valid_result (err json_decode_error) h = cc
valid_result (err _) h = cc

module _ (sha : Sha256) (canonicalize : Fields → Result Bytes) (b58decode : Str → Result Bytes)
    (verify : Bytes → Bytes → Bytes → Bool) (decode : Bytes → Result Str)
    (loads : Str → Result Json) (loads_bytes : Bytes → Result Json) (room : Str) where
  -- A line that holds a record with a valid signature, and whose commitment is the identifier.
  pub record IsEvidence (id : Str) (line : Bytes) : Type 0 where
    pub text : Str
    pub decoded : decode line ≡ ok text
    pub fields : Fields
    pub loaded : loads text ≡ ok (dict fields)
    pub signed : SignedIn b58decode verify room fields
    pub value : Json
    pub reloaded : loads_bytes line ≡ ok value
    pub committed :
        commitment_of sha canonicalize b58decode verify decode loads loads_bytes room value ≡ ok id

  record_signed :
      (j : Json) (seq : Json)
      → classify_record b58decode verify decode loads room j
        ≡ ok (record { seq = seq; status = valid })
      → (fields : Fields) × (j ≡ dict fields) × SignedIn b58decode verify room fields
  unfolding classify_record
  record_signed (dict fields) seq h =
      (fields, refl, (verify_signed_record-SignedIn b58decode verify fields room seq h).0)
  record_signed _ seq h = cc

  -- The leaves behind the mappings of lines that are at `i` and behind.
  abbrev IsLeaf : ℕ → List Bytes → EvidenceLeafMapping → Type 0
  IsLeaf i ls m =
      (d : ℕ) × (line : Bytes) × (m.export_leaf_index ≡ i + d)
      × (get_elem? ls d ≡ some line)
      × IsEvidence m.evidence_id line

  mapping_if-IsLeaf :
      (i : ℕ) (l : Bytes) (ls : List Bytes) (seq : Json) (m : List EvidenceLeafMapping)
      → classify_raw_line b58decode verify decode loads room l
        ≡ ok (record { seq = seq; status = valid })
      → mapping_if sha canonicalize b58decode verify decode loads loads_bytes room true i l ≡ ok m
      → All (IsLeaf i (l ∷ ls)) m
  unfolding mapping_if classify_raw_line classify_export_line
  mapping_if-IsLeaf i l ls seq m classified h =
      let (text, a, h1) = >>=-eq-ok (decode l) _ classified in
      let (j, b, h2) = >>=-eq-ok (loads text) _ h1 in
      let (fields, is_dict, signed) = record_signed j seq h2 in
      let (value, c, k1) = >>=-eq-ok (loads_bytes l) _ h in
      let (id, d, k2) =
        >>=-eq-ok
          (commitment_of sha canonicalize b58decode verify decode loads loads_bytes room value) _
          k1 in
      let evidence : IsEvidence id l = record {
        text = text;
        decoded = a;
        fields = fields;
        loaded = b ∙ ap ok is_dict;
        signed = signed;
        value = value;
        reloaded = c;
        committed = d;
      } in
      subst (All (IsLeaf i (l ∷ ls))) (ok_value k2) ((0, l, omega arith, refl, evidence), tt)

  mapping_of-IsLeaf :
      (i : ℕ) (l : Bytes) (ls : List Bytes) (m : List EvidenceLeafMapping)
      → mapping_of sha canonicalize b58decode verify decode loads loads_bytes room i l ≡ ok m
      → All (IsLeaf i (l ∷ ls)) m
  unfolding mapping_of mapping_if
  mapping_of-IsLeaf i l ls m h = elim (Bool-cases (is_blank l)) [
    | inl blank ↦ subst (All (IsLeaf i (l ∷ ls))) (ok_value (rw blank at h)) tt
    | inr written ↦
        let (b, v, h1) =
          >>=-eq-ok (is_valid_result (classify_raw_line b58decode verify decode loads room l)) _
            (rw written at h) in
        by_verdict b v h1
  ]
    where
      by_verdict :
          (b : Bool)
          → is_valid_result (classify_raw_line b58decode verify decode loads room l) ≡ ok b
          → mapping_if sha canonicalize b58decode verify decode loads loads_bytes room b i l ≡ ok m
          → All (IsLeaf i (l ∷ ls)) m
      by_verdict true v k =
          let (seq, classified) =
            valid_result (classify_raw_line b58decode verify decode loads room l) v in
          mapping_if-IsLeaf i l ls seq m classified k
      by_verdict false v k = subst (All (IsLeaf i (l ∷ ls))) (ok_value k) tt

  later_IsLeaf :
      (i : ℕ) (l : Bytes) (ls : List Bytes) (ms : List EvidenceLeafMapping)
      → All (IsLeaf (suc i) ls) ms
      → All (IsLeaf i (l ∷ ls)) ms
  later_IsLeaf i l ls [] a = tt
  later_IsLeaf i l ls (m ∷ ms) a =
      let (d, line, at, there, evidence) = a.0 in
      ((suc d, line, omega (arith, at), there, evidence), later_IsLeaf i l ls ms a.1)

  All-append :
      (P : EvidenceLeafMapping → Type 0) (a b : List EvidenceLeafMapping)
      → All P a
      → All P b
      → All P (a ++ b)
  All-append P [] b x y = y
  All-append P (m ∷ a) b x y = (x.0, All-append P a b x.1 y)

  map_lines-IsLeaf :
      (i : ℕ) (ls : List Bytes) (ms : List EvidenceLeafMapping)
      → map_lines sha canonicalize b58decode verify decode loads loads_bytes room i ls ≡ ok ms
      → All (IsLeaf i ls) ms
  unfolding map_lines
  map_lines-IsLeaf i [] ms h = subst (All (IsLeaf i [])) (ok_value h) tt
  map_lines-IsLeaf i (l ∷ ls) ms h =
      let (m, e, h1) =
        >>=-eq-ok (mapping_of sha canonicalize b58decode verify decode loads loads_bytes room i l) _
          h in
      let (rest, f, h2) =
        >>=-eq-ok
          (map_lines sha canonicalize b58decode verify decode loads loads_bytes room (suc i) ls) _
          h1 in
      subst (All (IsLeaf i (l ∷ ls))) (ok_value h2) (
        All-append (IsLeaf i (l ∷ ls)) m rest (mapping_of-IsLeaf i l ls m e)
          (later_IsLeaf i l ls rest (map_lines-IsLeaf (suc i) ls rest f)))

  -- Each mapping of an export is of a line at its index that holds a record with a valid signature for the
  -- room; its identifier is the commitment to what the line holds.
  pub map_evidence_to_export-IsEvidence :
      (raw_lines : List Bytes) (index : ExportEvidenceIndex)
      → map_evidence_to_export sha canonicalize b58decode verify decode loads loads_bytes room
          raw_lines
        ≡ ok index
      → All
          (λ m.
            (line : Bytes) × (get_elem? raw_lines m.export_leaf_index ≡ some line)
            × IsEvidence m.evidence_id line)
          index.mappings
  unfolding map_evidence_to_export
  map_evidence_to_export-IsEvidence raw_lines index h =
      let (root, _, h1) = >>=-eq-ok (export_merkle_root sha raw_lines) _ h in
      let (ms, f, h2) =
        >>=-eq-ok
          (map_lines sha canonicalize b58decode verify decode loads loads_bytes room 0 raw_lines) _
          h1 in
      from_start index.mappings (
        subst (All (IsLeaf 0 raw_lines))
          (ap (λ (x : ExportEvidenceIndex). x.mappings) (ok_value h2))
          (map_lines-IsLeaf 0 raw_lines ms f))
    where
      from_start :
          (l : List EvidenceLeafMapping)
          → All (IsLeaf 0 raw_lines) l
          → All
              (λ m.
                (line : Bytes) × (get_elem? raw_lines m.export_leaf_index ≡ some line)
                × IsEvidence m.evidence_id line)
              l
      from_start [] a = tt
      from_start (m ∷ l) a =
          let (d, line, at, there, evidence) = a.0 in
          let same_place : d ≡ m.export_leaf_index = omega (arith, at) in
          (
            (line, ap (λ k. get_elem? raw_lines k) (sym same_place) ∙ there, evidence),
            from_start l a.1,
          )
