-- ===== src/Evm/Evidence/Parts.antt =====
-- The parts of the evidence of `build_rpc_settlement_evidence`, from the events that they come from.
use tc_ledger.Prelude.{◌≡◌, sym, ap, false, ◌&&◌, Option, none, some}
use tc_ledger.Py.Result.{
  Result, ok, evm_verification_error, raise_if, raise_if_inversion, ok_value, >>=-eq-ok,
}
use tc_ledger.Py.Int.{ℤ}
use tc_ledger.Py.Str.{Str, codes, same}
use tc_ledger.Py.Text.Runtime.{Runtime}
use tc_ledger.Py.Json.{Json, Fields}
use tc_ledger.Settlement.Types.{SettlementEvidence}
use tc_ledger.Settlement.Parse.{or_raise}
use tc_ledger.Evm.Rpc.{fetch_transaction_receipt}
use tc_ledger.Evm.Event.{
  LockTerms, Details, HtlcEvent, locked, claimed, refunded, parse_and_verify_htlc_event,
}
use tc_ledger.Evm.Evidence.{lock_terms, is_some, precedes, fetch_event, evidence_of, evidence_from}

lock_terms-locked : (d : Details) {terms : LockTerms} → lock_terms d ≡ ok terms → d ≡ locked terms
lock_terms-locked (locked t) h = ap locked (ok_value h)
lock_terms-locked (claimed s) h = cc
lock_terms-locked refunded h = cc

pub some_lock :
    (o : Option Str) {tx : Str} → or_raise evm_verification_error o ≡ ok tx → o ≡ some tx
some_lock none h = cc
some_lock (some tx) h = cc

pub some_chain : (o : Option ℤ) {n : ℤ} → or_raise evm_verification_error o ≡ ok n → o ≡ some n
some_chain none h = cc
some_chain (some n) h = cc

module _ (lock_tx claim_tx refund_tx contract_id : Option Str) (chain_id : ℤ) (lock : HtlcEvent)
    (claim refund : Option HtlcEvent) (evidence : SettlementEvidence) where
  pub evidence_of_sound :
      evidence_of lock_tx claim_tx refund_tx contract_id chain_id lock claim refund ≡ ok evidence
      → ((is_some claim && is_some refund) ≡ false)
        × (precedes claim lock ≡ false)
        × (precedes refund lock ≡ false)
        × ((terms : LockTerms) × (lock.details ≡ locked terms)
            × (evidence
                ≡ evidence_from lock_tx claim_tx refund_tx contract_id chain_id lock claim refund
                    terms))
  unfolding evidence_of
  evidence_of_sound h =
      let (_, both, h1) =
        >>=-eq-ok (raise_if (is_some claim && is_some refund) evm_verification_error) _ h in
      let (_, early, h2) = >>=-eq-ok (raise_if (precedes claim lock) evm_verification_error) _ h1 in
      let (_, soon, h3) = >>=-eq-ok (raise_if (precedes refund lock) evm_verification_error) _ h2 in
      let (terms, d, h4) = >>=-eq-ok (lock_terms lock.details) _ h3 in
      (
        raise_if_inversion _ _ both,
        raise_if_inversion _ _ early,
        raise_if_inversion _ _ soon,
        (terms, lock_terms-locked lock.details d, sym (ok_value h4)),
      )

module _ (rt : Runtime) (post : Str → Json → Result Json) (rpc_url : Str)
    (htlc id : Option Str) where
  -- The lock transaction: its receipt, the Locked event in it, and the evidence that has its fields.
  pub record IsLock (tx : Str) (lock : HtlcEvent) (evidence : SettlementEvidence) : Type 0 where
    pub receipt : Fields
    pub fetched : fetch_transaction_receipt post rt rpc_url tx ≡ ok receipt
    pub event : parse_and_verify_htlc_event rt receipt htlc id (some (codes "Locked")) ≡ ok lock
    pub terms : LockTerms
    pub details : lock.details ≡ locked terms
    pub amount : evidence.amount ≡ terms.amount
    pub asset : evidence.asset ≡ terms.token
    pub hashlock : evidence.hashlock ≡ terms.hashlock
    pub payer : evidence.payer_address ≡ some terms.payer_address
    pub payee : evidence.payee_address ≡ some terms.payee_address
    pub contract : evidence.contract_address ≡ some lock.contract_address
    pub refund_time : evidence.refund_timestamp ≡ some terms.refund_timestamp
    pub verified : evidence.erc20_transfer_verified ≡ terms.erc20_transfer_verified

  pub evidence_from-chain :
      (lock_tx claim_tx refund_tx contract_id : Option Str) (n : ℤ) (lock : HtlcEvent)
      (claim refund : Option HtlcEvent) (evidence : SettlementEvidence) (terms : LockTerms)
      → evidence ≡ evidence_from lock_tx claim_tx refund_tx contract_id n lock claim refund terms
      → (evidence.provenance ≡ codes "rpc_receipt_verified") × (evidence.chain_id ≡ some n)
  evidence_from-chain lock_tx claim_tx refund_tx contract_id n lock claim refund evidence terms
        same =
      (
        ap (λ (e : SettlementEvidence). e.provenance) same,
        ap (λ (e : SettlementEvidence). e.chain_id) same,
      )

  pub evidence_from-IsLock :
      (tx : Str) (lock_tx claim_tx refund_tx contract_id : Option Str) (chain_id : ℤ)
      (lock : HtlcEvent) (claim refund : Option HtlcEvent) (evidence : SettlementEvidence)
      (receipt : Fields) (terms : LockTerms)
      → fetch_transaction_receipt post rt rpc_url tx ≡ ok receipt
      → parse_and_verify_htlc_event rt receipt htlc id (some (codes "Locked")) ≡ ok lock
      → lock.details ≡ locked terms
      → evidence
        ≡ evidence_from lock_tx claim_tx refund_tx contract_id chain_id lock claim refund terms
      → IsLock tx lock evidence
  evidence_from-IsLock tx lock_tx claim_tx refund_tx contract_id chain_id lock claim refund evidence
        receipt terms fetched event details same =
      record {
        receipt = receipt;
        fetched = fetched;
        event = event;
        terms = terms;
        details = details;
        amount = ap (λ (e : SettlementEvidence). e.amount) same;
        asset = ap (λ (e : SettlementEvidence). e.asset) same;
        hashlock = ap (λ (e : SettlementEvidence). e.hashlock) same;
        payer = ap (λ (e : SettlementEvidence). e.payer_address) same;
        payee = ap (λ (e : SettlementEvidence). e.payee_address) same;
        contract = ap (λ (e : SettlementEvidence). e.contract_address) same;
        refund_time = ap (λ (e : SettlementEvidence). e.refund_timestamp) same;
        verified = ap (λ (e : SettlementEvidence). e.erc20_transfer_verified) same;
      }

  pub fetch_event-ok :
      (tx event_type : Str) (o o' : Option Str) (e : HtlcEvent)
      → fetch_event rt post rpc_url tx o o' event_type ≡ ok e
      → (receipt : Fields) × (fetch_transaction_receipt post rt rpc_url tx ≡ ok receipt)
        × (parse_and_verify_htlc_event rt receipt o o' (some event_type) ≡ ok e)
  unfolding fetch_event
  fetch_event-ok tx event_type o o' e h =
      >>=-eq-ok (fetch_transaction_receipt post rt rpc_url tx) _ h
