-- ===== src/Evm/Evidence/Sound.antt =====
-- What settlement evidence of `build_rpc_settlement_evidence` rests on.
use tc_ledger.Prelude.{◌≡◌, subst, sym, ◌∙◌, ap, not, ◌||◌, Option, some}
use tc_ledger.Py.Result.{Result, ok, evm_verification_error, raise_if, raise_if-not, >>=-eq-ok}
use tc_ledger.Py.Int.{ℤ, int_eq, int_eq→eq}
use tc_ledger.Py.Str.{Str, codes, same}
use tc_ledger.Py.Text.Runtime.{Runtime}
use tc_ledger.Py.Json.{Json}
use tc_ledger.Settlement.Types.{SettlementEvidence}
use tc_ledger.Settlement.Parse.{or_raise}
use tc_ledger.Cross.Terms.{nonempty_some}
use tc_ledger.Evm.Rpc.{fetch_chain_id}
use tc_ledger.Evm.Event.{HtlcEvent}
use tc_ledger.Evm.Evidence.{
  or_expected, later_id, fetch_event, fetch_optional_event, build_rpc_settlement_evidence,
}
use tc_ledger.Evm.Evidence.Parts.{
  IsLock, some_lock, some_chain, evidence_of_sound, evidence_from-IsLock, evidence_from-chain,
  fetch_event-ok,
}
use tc_ledger.Evm.Evidence.Outcome.{IsOutcome}
use tc_ledger.Evm.Evidence.Lifecycle.{evidence_from-IsOutcome}

module _ (rt : Runtime) (post : Str → Json → Result Json) (rpc_url : Str)
    (htlc id : Option Str) where
  -- Evidence of `build_rpc_settlement_evidence` is from the expected chain, and its terms are those of
  -- the Locked event in the receipt of the lock transaction. Then one of three holds, where a
  -- transaction that is None or empty counts as none. It has status "locked", no secret, and the
  -- lock's contract and block, and there is neither a claim nor a refund transaction. Or it has status
  -- "claimed", and a Claimed event in the receipt of the claim transaction has its secret, and there is
  -- no refund transaction. Or it has status "refunded" and no secret, and there is a Refunded event in
  -- the receipt of the refund transaction, and no claim transaction. That later event is of the address
  -- of the lock's event, names the same contract where the lock's event names one, is not in a block
  -- before the lock, and gives the evidence its contract and its block.
  pub build_rpc_settlement_evidence_sound :
      (lock_tx claim_tx refund_tx : Option Str) (chain_id : Option ℤ)
      (evidence : SettlementEvidence)
      → build_rpc_settlement_evidence rt post rpc_url lock_tx claim_tx refund_tx htlc id chain_id
        ≡ ok evidence
      → (evidence.provenance ≡ codes "rpc_receipt_verified")
        × (evidence.chain_id ≡ chain_id)
        × ((n : ℤ) × (chain_id ≡ some n) × (fetch_chain_id post rt rpc_url ≡ ok n))
        × ((tx : Str) × (lock : HtlcEvent) × (lock_tx ≡ some tx)
            × IsLock rt post rpc_url htlc id tx lock evidence
            × IsOutcome rt post rpc_url lock claim_tx refund_tx evidence)
  unfolding build_rpc_settlement_evidence
  build_rpc_settlement_evidence_sound lock_tx claim_tx refund_tx chain_id evidence h =
      let (_, _, h1) =
        >>=-eq-ok
          (raise_if
            (not (nonempty_some lock_tx || (nonempty_some claim_tx || nonempty_some refund_tx)))
            evm_verification_error)
          _ h in
      let (_, _, h2) =
        >>=-eq-ok (raise_if (not (nonempty_some lock_tx)) evm_verification_error) _ h1 in
      let (tx, t, h3) = >>=-eq-ok (or_raise evm_verification_error lock_tx) _ h2 in
      let (expected, x, h4) = >>=-eq-ok (or_raise evm_verification_error chain_id) _ h3 in
      let (n, c, h5) = >>=-eq-ok (fetch_chain_id post rt rpc_url) _ h4 in
      let (_, bound, h6) =
        >>=-eq-ok (raise_if (not (int_eq n expected)) evm_verification_error) _ h5 in
      let (lock, l, h7) =
        >>=-eq-ok (fetch_event rt post rpc_url tx htlc id (codes "Locked")) _ h6 in
      let (receipt, fetched, event) =
        fetch_event-ok rt post rpc_url htlc id tx (codes "Locked") htlc id lock l in
      let claim_id = or_expected lock.contract_id id in
      let (claim, cl, h8) =
        >>=-eq-ok
          (fetch_optional_event rt post rpc_url claim_tx (some lock.contract_address) claim_id
            (codes "Claimed"))
          _ h7 in
      let refund_id = or_expected (later_id lock.contract_id claim) id in
      let (refund, re, h9) =
        >>=-eq-ok
          (fetch_optional_event rt post rpc_url refund_tx (some lock.contract_address) refund_id
            (codes "Refunded"))
          _ h8 in
      let contract_id = later_id (later_id lock.contract_id claim) refund in
      let (both, early, soon, (terms, details, same)) =
        evidence_of_sound lock_tx claim_tx refund_tx contract_id n lock claim refund evidence h9 in
      let same_chain = int_eq→eq n expected (raise_if-not _ _ bound) in
      let is_chain = some_chain chain_id x in
      let outcome =
        evidence_from-IsOutcome rt post rpc_url receipt htlc id (some (codes "Locked")) lock event
          lock_tx claim_tx refund_tx id n claim refund terms cl re both early soon in
      let (provenance, chain) =
        evidence_from-chain rt post rpc_url htlc id lock_tx claim_tx refund_tx contract_id n lock
          claim refund evidence terms same in
      (
        provenance,
        chain ∙ ap some same_chain ∙ sym is_chain,
        (n, is_chain ∙ ap some (sym same_chain), c),
        (
          tx,
          lock,
          some_lock lock_tx t,
          evidence_from-IsLock rt post rpc_url htlc id tx lock_tx claim_tx refund_tx contract_id n
              lock claim refund evidence receipt terms fetched event details same,
          subst (IsOutcome rt post rpc_url lock claim_tx refund_tx) (sym same) outcome,
        ),
      )
