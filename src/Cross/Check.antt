-- ===== src/Cross/Check.antt =====
-- `verify_cross_layer` of src/tc_ledger/cross_verify.py, from the point where the agreement, the
-- transcript and the settlement evidence are there: trust anchors, transcript, terms, the verdict.
pub mod Gate
pub mod Evidence
pub mod Parties
use tc_ledger.Prelude.{
  Bool, true, false, not, ◌&&◌, List, [], ◌∷◌, ◌++◌, map, ◌==◌, if◌then◌else◌, length, Option, none,
  some,
}
use tc_ledger.Py.Result.{Result, ok, err, attribute_error, raise_if, ◌>>=◌, ◌>>◌}
use tc_ledger.Py.Str.{Str, codes, same}
use tc_ledger.Py.Text.Runtime.{Runtime, text_of}
use tc_ledger.Py.Json.{Json, Fields, str, get, truthy, equals_str}
use tc_ledger.Merkle.Hash.{Sha256}
use tc_ledger.Settlement.Normalize.{normalize_hex}
use tc_ledger.Settlement.Types.{SettlementEvidence, AgreementState, TranscriptEvidence}
use tc_ledger.Cross.Types.{
  Reason, room_mismatch, export_root_mismatch, anchor_contract_mismatch, signatures_failed,
  inclusion_failed, anomaly, contract_mismatch, hashlock_mismatch, amount_mismatch, asset_mismatch,
  payer_key_mismatch, payer_key_invalid, payee_key_mismatch, payee_key_invalid, self_attested,
  Warning, refund_variance, payer_unverified, payee_unverified, Report,
}
use tc_ledger.Cross.Terms.{
  same_lower, unless, contract_match, hashlock_match, amount_match, asset_match, secret_check,
  temporal_check, lifecycle_check, refund_warning,
}
use tc_ledger.Cross.Binding.{
  key_binding, is_unverified, overall_binding, transfer_check, is_on_chain,
}

-- `a or b`
abbrev pub or_else : Json → Json → Json
or_else a b = if truthy a then a else b

-- `normalize_hex(x) or str(x)`
abbrev pub hex_or_text : Runtime → Json → Option Str → Str
hex_or_text rt j (some h) = h
hex_or_text rt j none = text_of rt j

-- x.lower(), which only a str has
abbrev pub lower_of : Runtime → Json → Result Str
lower_of rt (str s) = ok (rt.lower s)
lower_of rt _ = err attribute_error

abbrev pub is_none : Option Str → Bool
is_none none = true
is_none (some s) = false

unfoldable pub root_failures : Runtime → Json → Json → Result (List Reason)
root_failures rt export_root expected_root =
    if truthy expected_root && truthy export_root
    then (do
      a ← lower_of rt export_root
      b ← lower_of rt expected_root
      ok (unless (same a b) export_root_mismatch))
    else ok []

unfoldable pub anchor_failures :
    Runtime → Fields → AgreementState → TranscriptEvidence → Result (List Reason)
anchor_failures rt anchors agreement transcript = do
  let expected_room = or_else (get anchors (codes "room")) (get anchors (codes "expected_room"))
  let expected_root =
      or_else (get anchors (codes "export_root")) (get anchors (codes "expected_root"))
  let expected_contract =
      or_else (get anchors (codes "contract_id")) (get anchors (codes "expected_contract_id"))
  let room =
      (if truthy expected_room
        then unless (equals_str expected_room agreement.room) room_mismatch
        else [])
  roots ← root_failures rt transcript.export_root expected_root
  ok (
      room
      ++ (roots
          ++ (if truthy expected_contract
              then unless
                  (same_lower rt agreement.contract_id
                    (hex_or_text rt expected_contract (normalize_hex expected_contract)))
                  anchor_contract_mismatch
              else [])))

unfoldable pub transcript_failures : TranscriptEvidence → List Reason
transcript_failures transcript =
    unless transcript.signatures_verified signatures_failed
    ++ (unless transcript.merkle_inclusion_verified inclusion_failed
        ++ map anomaly transcript.anomalies)

abbrev pub is_empty {ℓ} : {A : Type ℓ} → List A → Bool
is_empty [] = true
is_empty (x ∷ xs) = false

unfoldable pub transcript_authenticity_of : TranscriptEvidence → Bool
transcript_authenticity_of transcript =
    transcript.signatures_verified
    && (transcript.merkle_inclusion_verified && is_empty transcript.anomalies)

abbrev pub when : Bool → Warning → List Warning
when b w = if b then w ∷ [] else []

module _ (sha : Sha256) (rt : Runtime) where
  -- `terms_failures`, in the order of the checks.
  unfoldable pub terms_failures : AgreementState → SettlementEvidence → List Reason
  terms_failures agreement settlement =
      unless (contract_match rt agreement settlement) contract_mismatch
      ++ (unless (hashlock_match rt agreement settlement) hashlock_mismatch
          ++ (unless (amount_match agreement settlement) amount_mismatch
              ++ (unless (asset_match rt agreement settlement) asset_mismatch
                  ++ ((secret_check sha rt agreement settlement).1
                      ++ ((temporal_check settlement).1
                          ++ ((lifecycle_check settlement).1
                              ++ ((key_binding rt agreement.payer_payment_key
                                    settlement.payer_address payer_key_mismatch payer_key_invalid).1
                                  ++ ((key_binding rt agreement.payee_payment_key
                                        settlement.payee_address payee_key_mismatch
                                        payee_key_invalid).1
                                      ++ (transfer_check rt agreement settlement).1))))))))

  unfoldable pub cross_check :
      Fields → AgreementState → TranscriptEvidence → SettlementEvidence → Result Report
  cross_check anchors agreement transcript settlement = do
    anchored ← anchor_failures rt anchors agreement transcript
    raise_if (is_none settlement.contract_id) attribute_error
    raise_if (is_none settlement.asset) attribute_error
    varies ← refund_warning rt agreement settlement
    let terms = terms_failures agreement settlement
    let payer =
        (key_binding rt agreement.payer_payment_key settlement.payer_address payer_key_mismatch
          payer_key_invalid).0
    let payee =
        (key_binding rt agreement.payee_payment_key settlement.payee_address payee_key_mismatch
          payee_key_invalid).0
    let authentic = transcript_authenticity_of transcript
    let on_chain = is_on_chain settlement
    let failure_reasons =
        anchored ++ (transcript_failures transcript ++ (terms ++ unless on_chain self_attested))
    ok (record {
      agreement = agreement;
      transcript = transcript;
      settlement = settlement;
      agreement_status =
          (if same agreement.status (codes "ACCEPTED") then codes "verified" else agreement.status);
      contract_id_binding = contract_match rt agreement settlement;
      hashlock_binding = hashlock_match rt agreement settlement;
      amount_binding = amount_match agreement settlement;
      asset_binding = asset_match rt agreement settlement;
      temporal_ordering = (temporal_check settlement).0;
      secret_verification = (secret_check sha rt agreement settlement).0;
      settlement_lifecycle = (lifecycle_check settlement).0;
      address_binding_payer = payer;
      address_binding_payee = payee;
      address_binding = overall_binding payer payee;
      erc20_transfer_binding = (transfer_check rt agreement settlement).0;
      terms_conformance = is_empty terms;
      transcript_authenticity = authentic;
      on_chain_provenance = on_chain;
      is_conformant = is_empty terms && (authentic && (on_chain && is_empty failure_reasons));
      failure_reasons = failure_reasons;
      warnings =
          when varies refund_variance
          ++ (when (is_unverified payer) payer_unverified
              ++ when (is_unverified payee) payee_unverified);
    })
