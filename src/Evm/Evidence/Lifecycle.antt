-- ===== src/Evm/Evidence/Lifecycle.antt =====
-- The later events that `build_rpc_settlement_evidence` looks up make the outcome in its evidence.
use tc_ledger.Prelude.{
  ◌≡◌, inl, inr, refl, subst, sym, ◌∙◌, ap, true, false, not, ◌&&◌, Option, none, some, [], ◌∷◌,
  arith,
}
use tc_ledger.Py.Result.{Result, ok, >>=-eq-ok}
use tc_ledger.Py.Int.{ℤ, int_le}
use tc_ledger.Py.Str.{Str, codes}
use tc_ledger.Py.Text.Runtime.{Runtime}
use tc_ledger.Py.Json.{Json, Fields, str, list, nil, get_default}
use tc_ledger.Settlement.Types.{SettlementEvidence}
use tc_ledger.Settlement.Normalize.{normalize_hex}
use tc_ledger.Settlement.Normalize.Shape.{normalize_hex-hex, normalize_hex_idem}
use tc_ledger.Cross.Terms.{nonempty_some}
use tc_ledger.Evm.Transfer.{logs_of}
use tc_ledger.Evm.Transfer.Sound.{OneOf}
use tc_ledger.Evm.Event.{
  LockTerms, HtlcEvent, claimed, event_type, normalize_id, type_matches,
  parse_and_verify_htlc_event,
}
use tc_ledger.Evm.Event.Sound.{IsNormalized, IsEventLog, parse_and_verify_htlc_event-IsEventLog}
use tc_ledger.Evm.Event.Expected.{
  event-address, event-IsNormalized, event-expected_address, event-expected_id,
}
use tc_ledger.Evm.Evidence.{
  secret_of, or_expected, is_some, later_id, precedes, fetch_event, fetch_optional_event,
  evidence_from,
}
use tc_ledger.Evm.Evidence.Parts.{fetch_event-ok}
use tc_ledger.Evm.Event.Typed.{details_claimed, details_refunded}
use tc_ledger.Evm.Evidence.Outcome.{AgreesWith, IsLater, IsOutcome}

module _ (rt : Runtime) (post : Str → Json → Result Json) (rpc_url : Str) where
  fetched_none :
      (tx htlc id : Option Str) (event_type : Str)
      → fetch_optional_event rt post rpc_url tx htlc id event_type ≡ ok none
      → nonempty_some tx ≡ false
  unfolding fetch_optional_event
  fetched_none none htlc id event_type h = refl
  fetched_none (some []) htlc id event_type h = refl
  fetched_none (some (c ∷ tx)) htlc id event_type h =
      let (_, _, wrong) = >>=-eq-ok (fetch_event rt post rpc_url (c ∷ tx) htlc id event_type) _ h in
      cc

  fetched_some :
      (tx htlc id : Option Str) (event_type : Str) (e : HtlcEvent)
      → fetch_optional_event rt post rpc_url tx htlc id event_type ≡ ok (some e)
      → (hash : Str) × (tx ≡ some hash)
        × (fetch_event rt post rpc_url hash htlc id event_type ≡ ok e)
  unfolding fetch_optional_event
  fetched_some none htlc id event_type e h = cc
  fetched_some (some []) htlc id event_type e h = cc
  fetched_some (some (c ∷ tx)) htlc id event_type e h =
      let (d, fetched, same_event) =
        >>=-eq-ok (fetch_event rt post rpc_url (c ∷ tx) htlc id event_type) _ h in
      (c ∷ tx, refl, cc)

  module _ (lock_receipt : Fields) (htlc id type : Option Str) (lock : HtlcEvent)
      (lock_found : parse_and_verify_htlc_event rt lock_receipt htlc id type ≡ ok lock) where
    -- The contract that a later event is looked up with is the lock's, where it has one.
    lookup_id :
        (o expected : Option Str) (contract : Str) (topic : Json)
        → o ≡ some contract
        → normalize_hex topic ≡ some contract
        → normalize_id (or_expected o expected) ≡ some contract
    lookup_id none expected contract topic e n = cc
    lookup_id (some []) expected contract topic e n =
        let (b, _, shape, _) = normalize_hex-hex topic contract n in cc
    lookup_id (some (c ∷ s)) expected contract topic e n =
        let same_contract : c ∷ s ≡ contract = cc in
        ap (λ t. normalize_hex (str t)) same_contract ∙ normalize_hex_idem topic contract n

    agrees :
        (o expected : Option Str) (other : Option Str)
        → IsNormalized rt lock_receipt o
        → ((topic : Json) (contract : Str)
            → normalize_hex topic ≡ some contract
            → normalize_id (or_expected o expected) ≡ some contract
            → other ≡ some contract)
        → AgreesWith o other
    agrees none expected other normal each = tt
    agrees (some contract) expected other (topic, n) each =
        each topic contract n (lookup_id (some contract) expected contract topic refl n)

    -- The contract of the evidence is the later event's: they agree, or only that one has it.
    kept_id : (o other : Option Str) → AgreesWith o other → or_expected o other ≡ other
    kept_id none other a = refl
    kept_id (some []) other a = refl
    kept_id (some (c ∷ s)) other a = sym a

    -- A later event that is looked up with the address and the contract of the lock.
    fetched-IsLater :
        (tx : Option Str) (expected : Option Str) (later_type : Str) (e : HtlcEvent)
        (evidence : SettlementEvidence)
        → fetch_optional_event rt post rpc_url tx
            (some lock.contract_address)
            (or_expected lock.contract_id expected)
            later_type
          ≡ ok (some e)
        → not (int_le lock.block_number e.block_number) ≡ false
        → evidence.contract_id ≡ or_expected lock.contract_id e.contract_id
        → evidence.block_number ≡ some e.block_number
        → IsLater rt post rpc_url lock tx evidence e × (type_matches rt (some later_type) e ≡ true)
    fetched-IsLater tx expected later_type e evidence fetched in_order kept block =
        let address = some lock.contract_address in
        let looked_up = or_expected lock.contract_id expected in
        let (hash, sent, event) = fetched_some tx address looked_up later_type e fetched in
        let (receipt, received, parsed) =
          fetch_event-ok rt post rpc_url htlc id hash later_type address looked_up e event in
        let (succeeded, logged, _, of_type) =
          parse_and_verify_htlc_event-IsEventLog rt receipt address looked_up (some later_type) e
            parsed in
        let normal = event-address rt lock_receipt htlc id type lock lock_found in
        let agreed =
          agrees lock.contract_id expected e.contract_id
            (event-IsNormalized rt lock_receipt htlc id type lock lock_found)
            (event-expected_id rt receipt address looked_up (some later_type) e parsed) in
        (
          record {
            hash = hash;
            sent = sent;
            receipt = receipt;
            fetched = received;
            succeeded = succeeded;
            logged =
                subst
                  (λ o.
                    OneOf (IsEventLog rt receipt o e)
                      (logs_of (get_default receipt (codes "logs") (list nil))))
                  normal logged;
            same_address =
                event-expected_address rt receipt address looked_up (some later_type) e parsed
                  (str lock.contract_address) lock.contract_address normal normal;
            same_contract = agreed;
            later = ground (arith, in_order);
            contract_id = kept ∙ kept_id lock.contract_id e.contract_id agreed;
            block = block;
          },
          of_type,
        )

    -- The outcome of evidence that is made from the later events of a lock.
    pub evidence_from-IsOutcome :
        (lock_tx claim_tx refund_tx expected : Option Str) (chain_id : ℤ)
        (claim refund : Option HtlcEvent) (terms : LockTerms)
        → fetch_optional_event rt post rpc_url claim_tx
            (some lock.contract_address)
            (or_expected lock.contract_id expected)
            (codes "Claimed")
          ≡ ok claim
        → fetch_optional_event rt post rpc_url refund_tx
            (some lock.contract_address)
            (or_expected (later_id lock.contract_id claim) expected)
            (codes "Refunded")
          ≡ ok refund
        → (is_some claim && is_some refund) ≡ false
        → precedes claim lock ≡ false
        → precedes refund lock ≡ false
        → IsOutcome rt post rpc_url lock claim_tx refund_tx (
            evidence_from lock_tx claim_tx refund_tx
              (later_id (later_id lock.contract_id claim) refund)
              chain_id
              lock
              claim
              refund
              terms)
    evidence_from-IsOutcome lock_tx claim_tx refund_tx expected chain_id none none terms c r both
          early soon =
        inl (
          fetched_none claim_tx _ _ (codes "Claimed") c,
          fetched_none refund_tx _ _ (codes "Refunded") r,
          refl,
          refl,
          refl,
          refl,
        )
    evidence_from-IsOutcome lock_tx claim_tx refund_tx expected chain_id (some e) none terms c r
          both early soon =
        let (is_later, of_type) =
          fetched-IsLater claim_tx expected (codes "Claimed") e
            (evidence_from lock_tx claim_tx refund_tx (later_id lock.contract_id (some e)) chain_id
              lock (some e) none terms)
            c early refl refl in
        let (secret, is_claim) = details_claimed rt e.details of_type in
        inr (
          inl (
            e,
            is_later,
            is_claim ∙ ap claimed (sym (ap secret_of is_claim)),
            refl,
            fetched_none refund_tx _ _ (codes "Refunded") r,
          ))
    evidence_from-IsOutcome lock_tx claim_tx refund_tx expected chain_id none (some e) terms c r
          both early soon =
        let (is_later, of_type) =
          fetched-IsLater refund_tx expected (codes "Refunded") e
            (evidence_from lock_tx claim_tx refund_tx (later_id lock.contract_id (some e)) chain_id
              lock none (some e) terms)
            r soon refl refl in
        inr (
          inr (
            e,
            is_later,
            details_refunded rt e.details of_type,
            refl,
            refl,
            fetched_none claim_tx _ _ (codes "Claimed") c,
          ))
    evidence_from-IsOutcome lock_tx claim_tx refund_tx expected chain_id (some d) (some e) terms c r
          both early soon =
        cc
