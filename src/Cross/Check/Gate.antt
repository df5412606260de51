-- ===== src/Cross/Check/Gate.antt =====
-- When `verify_cross_layer` calls a proof conformant.
use tc_ledger.Prelude.{
  ◌≡◌, refl, sym, ◌∙◌, ap, Bool, true, false, ◌&&◌, List, [], ◌∷◌, ◌++◌, map, arith,
}
use tc_ledger.Py.Result.{ok, ok_value, raise_if, attribute_error, >>=-eq-ok}
use tc_ledger.Py.Str.{Str}
use tc_ledger.Py.Text.Runtime.{Runtime}
use tc_ledger.Py.Json.{Fields}
use tc_ledger.Merkle.Hash.{Sha256}
use tc_ledger.Settlement.Types.{SettlementEvidence, AgreementState, TranscriptEvidence}
use tc_ledger.Cross.Types.{
  Reason, Report, anomaly, self_attested, signatures_failed, inclusion_failed,
}
use tc_ledger.Cross.Terms.{unless, refund_warning}
use tc_ledger.Cross.Binding.{is_on_chain}
use tc_ledger.Cross.Check.{
  anchor_failures, transcript_failures, is_empty, transcript_authenticity_of, terms_failures,
  is_none, cross_check,
}

is_empty-append : (a b : List Reason) → is_empty (a ++ b) ≡ (is_empty a && is_empty b)
is_empty-append [] b = refl
is_empty-append (r ∷ a) b = refl

is_empty-unless : (b : Bool) (r : Reason) → is_empty (unless b r) ≡ b
is_empty-unless true r = refl
is_empty-unless false r = refl

is_empty-map : (l : List Str) → is_empty (map anomaly l) ≡ is_empty l
is_empty-map [] = refl
is_empty-map (a ∷ l) = refl

-- The transcript is authentic exactly if it gives no failure.
transcript_failures-empty :
    (t : TranscriptEvidence) → is_empty (transcript_failures t) ≡ transcript_authenticity_of t
unfolding transcript_failures transcript_authenticity_of
transcript_failures-empty t = rw (
  is_empty-append (unless t.signatures_verified signatures_failed)
      (unless t.merkle_inclusion_verified inclusion_failed ++ map anomaly t.anomalies),
  is_empty-append (unless t.merkle_inclusion_verified inclusion_failed) (map anomaly t.anomalies),
  is_empty-unless t.signatures_verified signatures_failed,
  is_empty-unless t.merkle_inclusion_verified inclusion_failed,
  is_empty-map t.anomalies,
)

absorbs :
    (anchored authentic terms chain : Bool)
    → (terms && (authentic && (chain && (anchored && (authentic && (terms && chain))))))
      ≡ (anchored && (authentic && (terms && chain)))
absorbs anchored authentic terms chain = ground arith

module _ (sha : Sha256) (rt : Runtime) where
  -- `verify_cross_layer` calls a proof conformant exactly if there is no failure reason.
  pub is_conformant-eq-no_reasons :
      (anchors : Fields) (agreement : AgreementState) (transcript : TranscriptEvidence)
      (settlement : SettlementEvidence) (report : Report)
      → cross_check sha rt anchors agreement transcript settlement ≡ ok report
      → report.is_conformant ≡ is_empty report.failure_reasons
  unfolding cross_check
  is_conformant-eq-no_reasons anchors agreement transcript settlement report h =
      let (anchored, _, h1) = >>=-eq-ok (anchor_failures rt anchors agreement transcript) _ h in
      let (_, _, ha) = >>=-eq-ok (raise_if (is_none settlement.contract_id) attribute_error) _ h1 in
      let (_, _, hb) = >>=-eq-ok (raise_if (is_none settlement.asset) attribute_error) _ ha in
      let (varies, _, h2) = >>=-eq-ok (refund_warning rt agreement settlement) _ hb in
      let terms = terms_failures sha rt agreement settlement in
      let chain = is_on_chain settlement in
      let parts : is_empty
            (anchored ++ (transcript_failures transcript ++ (terms ++ unless chain self_attested)))
          ≡ (is_empty anchored
              && (transcript_authenticity_of transcript && (is_empty terms && chain))) =
        is_empty-append anchored
          (transcript_failures transcript ++ (terms ++ unless chain self_attested))
        ∙ rw (
          is_empty-append (transcript_failures transcript) (terms ++ unless chain self_attested),
          is_empty-append terms (unless chain self_attested),
          is_empty-unless chain self_attested,
          transcript_failures-empty transcript,
        ) in
      ap (λ (r : Report). r.is_conformant) (sym (ok_value h2))
      ∙ ap (λ b. is_empty terms && (transcript_authenticity_of transcript && (chain && b))) parts
      ∙ absorbs (is_empty anchored) (transcript_authenticity_of transcript) (is_empty terms) chain
      ∙ sym parts
      ∙ ap (λ (r : Report). is_empty r.failure_reasons) (ok_value h2)
