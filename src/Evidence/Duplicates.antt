-- ===== src/Evidence/Duplicates.antt =====
-- `find_duplicate_evidence_ids` of src/tc_ledger/ledger.py. The two sets are lists of their members.
use tc_ledger.Prelude.{
  ℕ, zero, suc, ◌+◌, ◌≡◌, inl, inr, refl, sym, ◌∙◌, ap, Bool, true, false, not, Bool-cases,
  if◌then◌else◌, List, [], ◌∷◌, ◌++◌, map, leb, arith,
}
use tc_ledger.Py.Str.{Str, Bytes, same, same→eq, same_refl}

pub record EvidenceLeafMapping : Type 0 where
  pub evidence_id : Str
  pub export_leaf_index : ℕ

pub record ExportEvidenceIndex : Type 0 where
  pub export_root : Bytes
  pub mappings : List EvidenceLeafMapping

-- The variables of the loop.
pub record Scan : Type 0 where
  pub seen : List Str
  pub duplicate_seen : List Str
  pub duplicates : List Str

-- x in s
abbrev pub is_in : Str → List Str → Bool
is_in x [] = false
is_in x (y ∷ s) = if same y x then true else is_in x s

unfoldable pub scan_step : Scan → Str → Scan
scan_step s evidence_id =
    if is_in evidence_id s.seen
    then (if not (is_in evidence_id s.duplicate_seen)
        then (record s {
          duplicate_seen = evidence_id ∷ s.duplicate_seen;
          duplicates = s.duplicates ++ evidence_id ∷ [];
        })
        else s)
    else (record s { seen = evidence_id ∷ s.seen })

unfoldable pub scan : Scan → List EvidenceLeafMapping → Scan
scan s [] = s
scan s (mapping ∷ mappings) = scan (scan_step s mapping.evidence_id) mappings

unfoldable pub find_duplicate_evidence_ids : ExportEvidenceIndex → List Str
find_duplicate_evidence_ids index =
    (scan (record { seen = []; duplicate_seen = []; duplicates = [] }) index.mappings).duplicates

-- How often an identifier occurs in a list.
abbrev pub occurrences : Str → List Str → ℕ
occurrences x [] = 0
occurrences x (y ∷ l) = (if same y x then 1 else 0) + occurrences x l

occurrences-append :
    (x : Str) (l m : List Str) → occurrences x (l ++ m) ≡ occurrences x l + occurrences x m
occurrences-append x [] m = omega arith
occurrences-append x (y ∷ l) m = omega (arith, occurrences-append x l m)

-- What the loop knows of an identifier that it has met `k` times.
pub record Knows (x : Str) (k : ℕ) (s : Scan) : Type 0 where
  pub met : is_in x s.seen ≡ leb 1 k
  pub met_twice : is_in x s.duplicate_seen ≡ leb 2 k
  pub reported : occurrences x s.duplicates ≡ (if leb 2 k then 1 else 0)

-- Another identifier changes nothing.
scan_step-other :
    (x y : Str) (k : ℕ) (s : Scan) → same y x ≡ false → Knows x k s → Knows x k (scan_step s y)
unfolding scan_step
scan_step-other x y k s other h = elim (Bool-cases (is_in y s.seen)) [
  | inl old ↦ elim (Bool-cases (is_in y s.duplicate_seen)) [
    | inl known ↦ rw (old, known) h
    | inr fresh ↦
        rw (old, fresh)
          (record {
            met = h.met;
            met_twice = rw other h.met_twice;
            reported =
                occurrences-append x s.duplicates (y ∷ []) ∙ rw other (omega (arith, h.reported));
          })
  ]
  | inr new ↦
      rw new (record { met = rw other h.met; met_twice = h.met_twice; reported = h.reported })
]

-- The identifier itself is met once more.
scan_step-same : (x : Str) (k : ℕ) (s : Scan) → Knows x k s → Knows x (suc k) (scan_step s x)
unfolding scan_step
scan_step-same x zero s h =
    rw h.met
      (record { met = rw (same_refl x) refl; met_twice = h.met_twice; reported = h.reported })
scan_step-same x (suc zero) s h =
    rw (h.met, h.met_twice)
      (record {
        met = h.met;
        met_twice = rw (same_refl x) refl;
        reported =
            occurrences-append x s.duplicates (x ∷ [])
            ∙ rw (same_refl x) (omega (arith, h.reported));
      })
scan_step-same x (suc (suc k)) s h =
    let once : leb 1 (suc (suc k)) ≡ true = ground arith in
    let once_more : leb 1 (suc (suc (suc k))) ≡ true = ground arith in
    let twice : leb 2 (suc (suc k)) ≡ true = ground arith in
    let twice_more : leb 2 (suc (suc (suc k))) ≡ true = ground arith in
    let old = h.met ∙ once in
    let known = h.met_twice ∙ twice in
    let once_reported = h.reported ∙ ap (λ b. if b then 1 else 0) twice in
    rw (old, known)
      (record {
        met = old ∙ sym once_more;
        met_twice = known ∙ sym twice_more;
        reported = once_reported ∙ ap (λ b. if b then 1 else 0) (sym twice_more);
      })

scan-Knows :
    (x : Str) (k : ℕ) (s : Scan) (mappings : List EvidenceLeafMapping)
    → Knows x k s
    → Knows x (k + occurrences x (map (λ m. m.evidence_id) mappings)) (scan s mappings)
unfolding scan
scan-Knows x k s [] h = let e : k + 0 ≡ k = omega arith in rw e h
scan-Knows x k s (mapping ∷ mappings) h = elim (Bool-cases (same mapping.evidence_id x)) [
  | inl here ↦
      let rest = occurrences x (map (λ m. m.evidence_id) mappings) in
      let e : k + (1 + rest) ≡ suc k + rest = omega arith in
      let is_x = same→eq mapping.evidence_id x here in
      rw (here, e, is_x) (scan-Knows x (suc k) (scan_step s x) mappings (scan_step-same x k s h))
  | inr elsewhere ↦
      let rest = occurrences x (map (λ m. m.evidence_id) mappings) in
      let e : k + (0 + rest) ≡ k + rest = omega arith in
      rw (elsewhere, e)
        (scan-Knows x k (scan_step s mapping.evidence_id) mappings
          (scan_step-other x mapping.evidence_id k s elsewhere h))
]

-- `find_duplicate_evidence_ids` returns each identifier that occurs at least twice among the
-- mappings, and returns it once; it returns no other.
pub find_duplicate_evidence_ids-occurrences :
    (index : ExportEvidenceIndex) (x : Str)
    → occurrences x (find_duplicate_evidence_ids index)
      ≡ (if leb 2 (occurrences x (map (λ m. m.evidence_id) index.mappings)) then 1 else 0)
unfolding find_duplicate_evidence_ids
find_duplicate_evidence_ids-occurrences index x =
    let e : 0 + occurrences x (map (λ m. m.evidence_id) index.mappings)
        ≡ occurrences x (map (λ m. m.evidence_id) index.mappings) =
      omega arith in
    rw e at
      (scan-Knows x 0 (record { seen = []; duplicate_seen = []; duplicates = [] }) index.mappings
        (record { met = refl; met_twice = refl; reported = refl })).reported
