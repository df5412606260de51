-- ===== src/Evm/Conformant.antt =====
-- The gate of src/tc_ledger/cross_verify.py on evidence of src/tc_ledger/evm_verifier.py.
use tc_ledger.Prelude.{◌≡◌, subst, sym, ◌∙◌, ap, inl, inr, true, false, Option, some}
use tc_ledger.Py.Result.{Result, ok}
use tc_ledger.Py.Int.{ℤ, pos}
use tc_ledger.Py.Str.{Str, codes}
use tc_ledger.Py.Text.Runtime.{Runtime}
use tc_ledger.Py.Json.{Json, Fields, str, list, nil, get, get_default}
use tc_ledger.Merkle.Hash.{Sha256}
use tc_ledger.Settlement.Normalize.{normalize_address}
use tc_ledger.Settlement.Types.{SettlementEvidence, AgreementState, TranscriptEvidence}
use tc_ledger.Cross.Types.{Report}
use tc_ledger.Cross.Terms.{same_lower, same_lower_some, nonempty_some}
use tc_ledger.Cross.Binding.{is_token}
use tc_ledger.Cross.Check.{cross_check}
use tc_ledger.Cross.Check.Evidence.{conformant-terms}
use tc_ledger.Cross.Check.Parties.{Opens, conformant-secret, conformant-transfer}
use tc_ledger.Evm.Rpc.{fetch_transaction_receipt}
use tc_ledger.Evm.Transfer.{logs_of}
use tc_ledger.Evm.Transfer.Sound.{OneOf}
use tc_ledger.Evm.Event.{HtlcEvent, claimed, status_of}
use tc_ledger.Evm.Event.Sound.{IsEventLog}
use tc_ledger.Evm.Event.Token.{HasTransfer, verified-HasTransfer}
use tc_ledger.Evm.Evidence.{build_rpc_settlement_evidence}
use tc_ledger.Evm.Evidence.Outcome.{IsLater, IsOutcome}
use tc_ledger.Evm.Evidence.Sound.{build_rpc_settlement_evidence_sound}

-- If a proof of a token deal is conformant on evidence that `build_rpc_settlement_evidence` has built, then
-- the receipt of the lock transaction has a log of a Transfer of the agreed amount of the agreed token,
-- up to letter case, from the payer to the contract of the evidence.
pub conformant_rpc-HasTransfer :
    (sha : Sha256) (rt : Runtime) (post : Str → Json → Result Json) (rpc_url : Str)
    (lock_tx claim_tx refund_tx htlc id : Option Str) (chain_id : Option ℤ) (anchors : Fields)
    (agreement : AgreementState) (transcript : TranscriptEvidence) (settlement : SettlementEvidence)
    (report : Report)
    → build_rpc_settlement_evidence rt post rpc_url lock_tx claim_tx refund_tx htlc id chain_id
      ≡ ok settlement
    → cross_check sha rt anchors agreement transcript settlement ≡ ok report
    → report.is_conformant ≡ true
    → is_token rt (normalize_address (str agreement.asset)) ≡ true
    → (tx token payer contract : Str) × (receipt : Fields) × (lock_tx ≡ some tx)
      × (fetch_transaction_receipt post rt rpc_url tx ≡ ok receipt)
      × (settlement.asset ≡ some token)
      × (same_lower rt agreement.asset token ≡ true)
      × (settlement.payer_address ≡ some payer)
      × (settlement.contract_address ≡ some contract)
      × HasTransfer rt receipt token payer contract agreement.amount
conformant_rpc-HasTransfer sha rt post rpc_url lock_tx claim_tx refund_tx htlc id chain_id anchors
      agreement transcript settlement report built checked conformant token_deal =
    let (provenance, _, _, (tx, lock, is_tx, l, _)) =
      build_rpc_settlement_evidence_sound rt post rpc_url htlc id lock_tx claim_tx refund_tx
        chain_id settlement built in
    let verified =
      conformant-transfer sha rt anchors agreement transcript settlement report checked conformant
        token_deal (inl provenance) in
    let (token, is_token, transfer) =
      verified-HasTransfer rt l.receipt htlc id (some (codes "Locked")) lock l.terms l.event
        l.details (sym l.verified ∙ verified) in
    let agreed =
      conformant-terms sha rt anchors agreement transcript settlement report checked conformant in
    let is_asset = l.asset ∙ is_token in
    (
      tx,
      token,
      l.terms.payer_address,
      lock.contract_address,
      l.receipt,
      is_tx,
      l.fetched,
      is_asset,
      subst (λ o. same_lower_some rt agreement.asset o ≡ true) is_asset agreed.3,
      l.payer,
      l.contract,
      subst (λ a. HasTransfer rt l.receipt token l.terms.payer_address lock.contract_address a)
          (sym (agreed.0 ∙ l.amount)) transfer,
    )

-- If a proof is conformant on evidence that `build_rpc_settlement_evidence` has built from a claim
-- transaction, among others, then the receipt of that transaction has status 1 and a log of a Claimed
-- event of the contract of the evidence, and the SHA-256 digest of the bytes of the event's secret is
-- the hashlock of the agreement, up to letter case.
pub conformant_rpc-Opens :
    (sha : Sha256) (rt : Runtime) (post : Str → Json → Result Json) (rpc_url : Str)
    (lock_tx claim_tx refund_tx htlc id : Option Str) (chain_id : Option ℤ) (anchors : Fields)
    (agreement : AgreementState) (transcript : TranscriptEvidence) (settlement : SettlementEvidence)
    (report : Report)
    → build_rpc_settlement_evidence rt post rpc_url lock_tx claim_tx refund_tx htlc id chain_id
      ≡ ok settlement
    → cross_check sha rt anchors agreement transcript settlement ≡ ok report
    → report.is_conformant ≡ true
    → nonempty_some claim_tx ≡ true
    → (hash contract secret : Str) × (receipt : Fields) × (e : HtlcEvent) × (claim_tx ≡ some hash)
      × (fetch_transaction_receipt post rt rpc_url hash ≡ ok receipt)
      × (status_of rt (get receipt (codes "status")) ≡ ok (pos 1))
      × (settlement.contract_address ≡ some contract)
      × OneOf
          (IsEventLog rt receipt (some contract) e)
          (logs_of (get_default receipt (codes "logs") (list nil)))
      × (e.details ≡ claimed (some secret))
      × Opens sha rt secret agreement.hashlock
conformant_rpc-Opens sha rt post rpc_url lock_tx claim_tx refund_tx htlc id chain_id anchors
      agreement transcript settlement report built checked conformant has_claim =
    let (_, _, _, (_, lock, _, l, outcome)) =
      build_rpc_settlement_evidence_sound rt post rpc_url htlc id lock_tx claim_tx refund_tx
        chain_id settlement built in
    let (e, later, details, status) = claimed_outcome lock outcome in
    let (secret, is_secret, opens) =
      conformant-secret sha rt anchors agreement transcript settlement report checked conformant
        status in
    (
      later.hash,
      lock.contract_address,
      secret,
      later.receipt,
      e,
      later.sent,
      later.fetched,
      later.succeeded,
      l.contract,
      later.logged,
      details ∙ ap claimed is_secret,
      opens,
    )
  where
    no_confusion : false ≡ true → ⊥
    no_confusion h = cc

    claimed_outcome :
        (lock : HtlcEvent)
        → IsOutcome rt post rpc_url lock claim_tx refund_tx settlement
        → (e : HtlcEvent) × IsLater rt post rpc_url lock claim_tx settlement e
          × (e.details ≡ claimed settlement.secret)
          × (settlement.settlement_status ≡ codes "claimed")
    claimed_outcome lock (inl (no_claim, _, _, _, _, _)) =
        absurd (no_confusion (sym no_claim ∙ has_claim))
    claimed_outcome lock (inr (inl (e, later, details, status, _))) = (e, later, details, status)
    claimed_outcome lock (inr (inr (_, _, _, _, _, no_claim))) =
        absurd (no_confusion (sym no_claim ∙ has_claim))
