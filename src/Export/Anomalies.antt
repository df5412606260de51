-- ===== src/Export/Anomalies.antt =====
-- Which lines `classify_export_lines` lists as anomalies.
use tc_ledger.Prelude.{
  ℕ, zero, suc, ◌+◌, ◌-◌, ◌≡◌, refl, sym, ◌∙◌, ap, Bool, true, false, ◌&&◌, ◌||◌, Bool-cases, inl,
  inr, Option, none, some, List, [], ◌∷◌, ◌++◌, ◌==◌, leb, get_elem?, arith,
}
use tc_ledger.Py.Result.{Result, ok, ok_value, >>=-eq-ok}
use tc_ledger.Py.Str.{Str, Bytes}
use tc_ledger.Py.Json.{Json}
use tc_ledger.Export.Classify.{
  Outcome, valid_line, invalid_line, unsigned_line, malformed_line, unsupported_line, Counts,
  no_counts, add_outcome, anomaly_at, outcome_of, classify_lines, classify_export_lines,
}

abbrev pub has_index : ℕ → List ℕ → Bool
has_index k [] = false
has_index k (i ∷ is) = k == i || has_index k is

abbrev pub is_anomaly : Result (Option Outcome) → Bool
is_anomaly (ok (some invalid_line)) = true
is_anomaly (ok (some malformed_line)) = true
is_anomaly (ok (some unsupported_line)) = true
is_anomaly _ = false

has_index-append : (k : ℕ) (a b : List ℕ) → has_index k (a ++ b) ≡ (has_index k a || has_index k b)
has_index-append k [] b = refl
has_index-append k (i ∷ a) b = elim (Bool-cases (k == i)) [
  | inl here ↦ rw here refl
  | inr there ↦ rw there (has_index-append k a b)
]

has_index-anomaly_at :
    (k i : ℕ) (o : Option Outcome) → has_index k (anomaly_at o i) ≡ (k == i && is_anomaly (ok o))
has_index-anomaly_at k i none = elim (Bool-cases (k == i)) [ inl h ↦ rw h refl | inr h ↦ rw h refl ]
has_index-anomaly_at k i (some valid_line) = elim (Bool-cases (k == i)) [
  | inl h ↦ rw h refl
  | inr h ↦ rw h refl
]
has_index-anomaly_at k i (some unsigned_line) = elim (Bool-cases (k == i)) [
  | inl h ↦ rw h refl
  | inr h ↦ rw h refl
]
has_index-anomaly_at k i (some invalid_line) = elim (Bool-cases (k == i)) [
  | inl h ↦ rw h refl
  | inr h ↦ rw h refl
]
has_index-anomaly_at k i (some malformed_line) = elim (Bool-cases (k == i)) [
  | inl h ↦ rw h refl
  | inr h ↦ rw h refl
]
has_index-anomaly_at k i (some unsupported_line) = elim (Bool-cases (k == i)) [
  | inl h ↦ rw h refl
  | inr h ↦ rw h refl
]

or_false : (b : Bool) → (b || false) ≡ b
or_false true = refl
or_false false = refl

or_assoc : (a b c : Bool) → ((a || b) || c) ≡ (a || (b || c))
or_assoc true b c = refl
or_assoc false b c = refl

module _ (b58decode : Str → Result Bytes) (verify : Bytes → Bytes → Bytes → Bool)
    (decode : Bytes → Result Str) (loads : Str → Result Json) (room : Str) where
  -- Whether there is such a line and it is an anomaly.
  abbrev pub anomalous_line : Option Bytes → Bool
  anomalous_line none = false
  anomalous_line (some l) = is_anomaly (outcome_of b58decode verify decode loads room l)

  anomalous_from :
      (i d : ℕ) (l : Bytes) (ls : List Bytes)
      → anomalous_line (get_elem? (l ∷ ls) d) ≡ (
          (i + d == i && anomalous_line (some l))
          || (leb (suc i) (i + d) && anomalous_line (get_elem? ls (i + d - suc i))))
  anomalous_from i zero l ls =
      let here : (i + zero == i) ≡ true = ground arith in
      let not_later : leb (suc i) (i + zero) ≡ false = ground arith in
      rw (here, not_later) (sym (or_false (anomalous_line (some l))))
  anomalous_from i (suc d) l ls =
      let not_here : (i + suc d == i) ≡ false = ground arith in
      let later : leb (suc i) (i + suc d) ≡ true = ground arith in
      let rest : i + suc d - suc i ≡ d = omega arith in rw (not_here, later, rest) refl

  anomalous-cons :
      (i k : ℕ) (l : Bytes) (ls : List Bytes)
      → (leb i k && anomalous_line (get_elem? (l ∷ ls) (k - i))) ≡ (
          (k == i && anomalous_line (some l))
          || (leb (suc i) k && anomalous_line (get_elem? ls (k - suc i))))
  anomalous-cons i k l ls = elim (Bool-cases (leb i k)) [
    | inl from ↦
        let sum : i + (k - i) ≡ k = ground arith in
        rw from (rw sum at (anomalous_from i (k - i) l ls))
    | inr before ↦
        let not_here : (k == i) ≡ false = ground arith in
        let not_later : leb (suc i) k ≡ false = ground arith in
        rw (before, not_here, not_later) refl
  ]

  listed_from :
      (i k : ℕ) (ls : List Bytes) (c c' : Counts) (a a' : List ℕ)
      → classify_lines b58decode verify decode loads room i ls c a ≡ ok (c', a')
      → has_index k a' ≡ (has_index k a || (leb i k && anomalous_line (get_elem? ls (k - i))))
  unfolding classify_lines
  listed_from i k [] c c' a a' h =
      ap (λ (p : Counts × List ℕ). has_index k p.1) (sym (ok_value h)) ∙ sym (none_left (leb i k))
    where
      none_left : (b : Bool) → (has_index k a || (b && false)) ≡ has_index k a
      none_left true = or_false (has_index k a)
      none_left false = or_false (has_index k a)
  listed_from i k (l ∷ ls) c c' a a' h =
      let (o, e, h1) = >>=-eq-ok (outcome_of b58decode verify decode loads room l) _ h in
      let rest = leb (suc i) k && anomalous_line (get_elem? ls (k - suc i)) in
      let here : has_index k (anomaly_at o i) ≡ (k == i && anomalous_line (some l)) =
        has_index-anomaly_at k i o ∙ ap (λ r. k == i && is_anomaly r) (sym e) in
      listed_from (suc i) k ls (add_outcome o c) c' (a ++ anomaly_at o i) a' h1
      ∙ ap (λ b. b || rest)
          (has_index-append k a (anomaly_at o i) ∙ ap (λ b. has_index k a || b) here)
      ∙ or_assoc (has_index k a) (k == i && anomalous_line (some l)) rest
      ∙ ap (λ b. has_index k a || b) (sym (anomalous-cons i k l ls))

  -- `classify_export_lines` lists exactly the indices of the lines that are invalid, malformed or of an
  -- unsupported key.
  pub classify_export_lines-anomalies :
      (raw_lines : List Bytes) (counts : Counts) (anomalies : List ℕ)
      → classify_export_lines b58decode verify decode loads room raw_lines ≡ ok (counts, anomalies)
      → (k : ℕ) → has_index k anomalies ≡ anomalous_line (get_elem? raw_lines k)
  unfolding classify_export_lines
  classify_export_lines-anomalies raw_lines counts anomalies h k =
      let all : k - 0 ≡ k = omega arith in
      let from : leb 0 k ≡ true = ground arith in
      rw (from, all) at (listed_from 0 k raw_lines no_counts counts [] anomalies h)
