-- ===== src/Evm/Evidence/Outcome.antt =====
-- How a settlement went on after its lock, as the evidence of `build_rpc_settlement_evidence` has it.
use tc_ledger.Prelude.{◌≡◌, ◌⊎◌, true, false, Option, none, some}
use tc_ledger.Py.Result.{Result, ok}
use tc_ledger.Py.Int.{pos, int_le}
use tc_ledger.Py.Str.{Str, codes}
use tc_ledger.Py.Text.Runtime.{Runtime}
use tc_ledger.Py.Json.{Json, Fields, list, nil, get, get_default}
use tc_ledger.Settlement.Types.{SettlementEvidence}
use tc_ledger.Cross.Terms.{nonempty_some}
use tc_ledger.Evm.Rpc.{fetch_transaction_receipt}
use tc_ledger.Evm.Transfer.{logs_of}
use tc_ledger.Evm.Transfer.Sound.{OneOf}
use tc_ledger.Evm.Event.{HtlcEvent, claimed, refunded, status_of}
use tc_ledger.Evm.Event.Sound.{IsEventLog}

-- A contract that is named is the other one, too.
abbrev pub AgreesWith : Option Str → Option Str → Type 0
AgreesWith none other = Unit
AgreesWith (some contract) other = other ≡ some contract

module _ (rt : Runtime) (post : Str → Json → Result Json) (rpc_url : Str) where
  -- A later event of the settlement of a lock: it is in a log of the lock's HTLC in the receipt of its
  -- transaction, in no block before the lock, and the evidence has its contract and its block.
  pub record IsLater (lock : HtlcEvent) (tx : Option Str) (evidence : SettlementEvidence)
      (e : HtlcEvent) : Type 0 where
    pub hash : Str
    pub sent : tx ≡ some hash
    pub receipt : Fields
    pub fetched : fetch_transaction_receipt post rt rpc_url hash ≡ ok receipt
    pub succeeded : status_of rt (get receipt (codes "status")) ≡ ok (pos 1)
    pub logged :
        OneOf
          (IsEventLog rt receipt (some lock.contract_address) e)
          (logs_of (get_default receipt (codes "logs") (list nil)))
    pub same_address : e.contract_address ≡ lock.contract_address
    pub same_contract : AgreesWith lock.contract_id e.contract_id
    pub later : int_le lock.block_number e.block_number ≡ true
    pub contract_id : evidence.contract_id ≡ e.contract_id
    pub block : evidence.block_number ≡ some e.block_number

  -- The outcome of a settlement in its evidence.
  abbrev pub IsUnsettled : HtlcEvent → Option Str → Option Str → SettlementEvidence → Type 0
  IsUnsettled lock claim_tx refund_tx evidence =
      (nonempty_some claim_tx ≡ false)
      × (nonempty_some refund_tx ≡ false)
      × (evidence.settlement_status ≡ codes "locked")
      × (evidence.secret ≡ none)
      × (evidence.contract_id ≡ lock.contract_id)
      × (evidence.block_number ≡ some lock.block_number)

  abbrev pub IsClaimed : HtlcEvent → Option Str → Option Str → SettlementEvidence → Type 0
  IsClaimed lock claim_tx refund_tx evidence =
      (e : HtlcEvent) × IsLater lock claim_tx evidence e
      × (e.details ≡ claimed evidence.secret)
      × (evidence.settlement_status ≡ codes "claimed")
      × (nonempty_some refund_tx ≡ false)

  abbrev pub IsRefunded : HtlcEvent → Option Str → Option Str → SettlementEvidence → Type 0
  IsRefunded lock claim_tx refund_tx evidence =
      (e : HtlcEvent) × IsLater lock refund_tx evidence e
      × (e.details ≡ refunded)
      × (evidence.settlement_status ≡ codes "refunded")
      × (evidence.secret ≡ none)
      × (nonempty_some claim_tx ≡ false)

  abbrev pub IsOutcome : HtlcEvent → Option Str → Option Str → SettlementEvidence → Type 0
  IsOutcome lock claim_tx refund_tx evidence =
      IsUnsettled lock claim_tx refund_tx evidence
      ⊎ (IsClaimed lock claim_tx refund_tx evidence ⊎ IsRefunded lock claim_tx refund_tx evidence)
