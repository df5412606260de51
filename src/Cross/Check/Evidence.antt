-- ===== src/Cross/Check/Evidence.antt =====
-- What a conformant proof shows of the agreement and of the settlement.
use tc_ledger.Prelude.{◌≡◌, refl, ◌∙◌, ap, Bool, true, false, not, &&_true, List, [], ◌∷◌, ◌++◌}
use tc_ledger.Py.Result.{ok, ok_value, raise_if, attribute_error, >>=-eq-ok}
use tc_ledger.Py.Str.{same→eq}
use tc_ledger.Py.Text.Runtime.{Runtime}
use tc_ledger.Py.Json.{Fields}
use tc_ledger.Merkle.Hash.{Sha256}
use tc_ledger.Settlement.Types.{SettlementEvidence, AgreementState, TranscriptEvidence}
use tc_ledger.Cross.Types.{
  Reason, Report, contract_mismatch, hashlock_mismatch, amount_mismatch, asset_mismatch,
  payer_key_mismatch, payer_key_invalid, payee_key_mismatch, payee_key_invalid,
  lock_not_before_refund,
}
use tc_ledger.Cross.Terms.{
  unless, same_lower_some, nonempty_some, nonempty, contract_match, hashlock_match, amount_match,
  asset_match, secret_check, temporal_check, not_before, lifecycle_check, refund_warning,
}
use tc_ledger.Cross.Binding.{key_binding, transfer_check, is_on_chain}
use tc_ledger.Cross.Check.{
  anchor_failures, is_empty, transcript_authenticity_of, terms_failures, is_none, cross_check,
}

empty-nil {ℓ} : {A : Type ℓ} (l : List A) → is_empty l ≡ true → l ≡ []
empty-nil [] h = refl
empty-nil (x ∷ l) h = cc

pub append-nil_parts : (a b : List Reason) → a ++ b ≡ [] → (a ≡ []) × (b ≡ [])
append-nil_parts [] b h = (refl, h)
append-nil_parts (r ∷ a) b h = cc

unless-nil : (b : Bool) (r : Reason) → unless b r ≡ [] → b ≡ true
unless-nil true r h = refl
unless-nil false r h = cc

module _ (sha : Sha256) (rt : Runtime) (anchors : Fields) (agreement : AgreementState)
    (transcript : TranscriptEvidence) (settlement : SettlementEvidence) where
  -- The checks that find nothing.
  pub record IsClear : Type 0 where
    pub anchored : anchor_failures rt anchors agreement transcript ≡ ok []
    pub authentic : transcript_authenticity_of transcript ≡ true
    pub contract : contract_match rt agreement settlement ≡ true
    pub hashlock : hashlock_match rt agreement settlement ≡ true
    pub amount : amount_match agreement settlement ≡ true
    pub asset : asset_match rt agreement settlement ≡ true
    pub secret : (secret_check sha rt agreement settlement).1 ≡ []
    pub times : (temporal_check settlement).1 ≡ []
    pub lifecycle : (lifecycle_check settlement).1 ≡ []
    pub payer :
        (key_binding rt agreement.payer_payment_key settlement.payer_address payer_key_mismatch
          payer_key_invalid).1
        ≡ []
    pub payee :
        (key_binding rt agreement.payee_payment_key settlement.payee_address payee_key_mismatch
          payee_key_invalid).1
        ≡ []
    pub transfer : (transfer_check rt agreement settlement).1 ≡ []
    pub on_chain : is_on_chain settlement ≡ true

  pub conformant-IsClear :
      (report : Report)
      → cross_check sha rt anchors agreement transcript settlement ≡ ok report
      → report.is_conformant ≡ true
      → IsClear
  unfolding cross_check terms_failures
  conformant-IsClear report h c =
      let (anchored, a, h1) = >>=-eq-ok (anchor_failures rt anchors agreement transcript) _ h in
      let (_, _, ha) = >>=-eq-ok (raise_if (is_none settlement.contract_id) attribute_error) _ h1 in
      let (_, _, hb) = >>=-eq-ok (raise_if (is_none settlement.asset) attribute_error) _ ha in
      let (varies, _, h2) = >>=-eq-ok (refund_warning rt agreement settlement) _ hb in
      let terms = terms_failures sha rt agreement settlement in
      let chain = is_on_chain settlement in
      let verdict = ap (λ (r : Report). r.is_conformant) (ok_value h2) ∙ c in
      let p = &&_true (is_empty terms) _ verdict in
      let q = &&_true (transcript_authenticity_of transcript) _ p.1 in
      let r = &&_true chain _ q.1 in
      let none_anchored = (append-nil_parts anchored _ (empty-nil _ r.1)).0 in
      let t1 =
        append-nil_parts (unless (contract_match rt agreement settlement) contract_mismatch) _
          (empty-nil terms p.0) in
      let t2 =
        append-nil_parts (unless (hashlock_match rt agreement settlement) hashlock_mismatch) _
          t1.1 in
      let t3 =
        append-nil_parts (unless (amount_match agreement settlement) amount_mismatch) _ t2.1 in
      let t4 =
        append-nil_parts (unless (asset_match rt agreement settlement) asset_mismatch) _ t3.1 in
      let t5 = append-nil_parts (secret_check sha rt agreement settlement).1 _ t4.1 in
      let t6 = append-nil_parts (temporal_check settlement).1 _ t5.1 in
      let t7 = append-nil_parts (lifecycle_check settlement).1 _ t6.1 in
      let t8 =
        append-nil_parts
          (key_binding rt agreement.payer_payment_key settlement.payer_address payer_key_mismatch
            payer_key_invalid).1
          _ t7.1 in
      let t9 =
        append-nil_parts
          (key_binding rt agreement.payee_payment_key settlement.payee_address payee_key_mismatch
            payee_key_invalid).1
          _ t8.1 in
      record {
        anchored = a ∙ ap ok none_anchored;
        authentic = q.0;
        contract = unless-nil _ _ t1.0;
        hashlock = unless-nil _ _ t2.0;
        amount = unless-nil _ _ t3.0;
        asset = unless-nil _ _ t4.0;
        secret = t5.0;
        times = t6.0;
        lifecycle = t7.0;
        payer = t8.0;
        payee = t9.0;
        transfer = t9.1;
        on_chain = r.0;
      }

  -- In a conformant proof the agreement and the settlement have the same amount, and up to letter
  -- case the same contract, hashlock and asset; lock and claim are before the refund time where
  -- both are known; all signatures and inclusions of the transcript are verified, it has no
  -- anomaly, the trust anchors hold, and the evidence is from the chain.
  pub conformant-terms :
      (report : Report)
      → cross_check sha rt anchors agreement transcript settlement ≡ ok report
      → report.is_conformant ≡ true
      → (agreement.amount ≡ settlement.amount)
        × (same_lower_some rt agreement.contract_id settlement.contract_id ≡ true)
        × (same_lower_some rt agreement.hashlock settlement.hashlock ≡ true)
        × (same_lower_some rt agreement.asset settlement.asset ≡ true)
        × (not_before settlement.lock_timestamp settlement.refund_timestamp ≡ false)
        × (not_before settlement.claim_timestamp settlement.refund_timestamp ≡ false)
        × (transcript.signatures_verified ≡ true)
        × (transcript.merkle_inclusion_verified ≡ true)
        × (transcript.anomalies ≡ [])
        × (anchor_failures rt anchors agreement transcript ≡ ok [])
        × (is_on_chain settlement ≡ true)
  unfolding contract_match hashlock_match amount_match asset_match temporal_check
      transcript_authenticity_of
  conformant-terms report h c =
      let clear = conformant-IsClear report h c in
      let lock =
        &&_true (nonempty_some settlement.hashlock) _
          (&&_true (nonempty agreement.hashlock) _ clear.hashlock).1 in
      let times =
        append-nil_parts
          (unless (not (not_before settlement.lock_timestamp settlement.refund_timestamp))
            lock_not_before_refund)
          _ clear.times in
      let signed = &&_true transcript.signatures_verified _ clear.authentic in
      let included = &&_true transcript.merkle_inclusion_verified _ signed.1 in
      (
        same→eq _ _ clear.amount,
        clear.contract,
        lock.1,
        clear.asset,
        not-true _ (unless-nil _ _ times.0),
        not-true _ (unless-nil _ _ times.1),
        signed.0,
        included.0,
        empty-nil _ included.1,
        clear.anchored,
        clear.on_chain,
      )
    where
      not-true : (b : Bool) → not b ≡ true → b ≡ false
      not-true true e = cc
      not-true false e = refl
