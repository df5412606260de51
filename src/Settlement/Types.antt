-- ===== src/Settlement/Types.antt =====
-- The data classes of src/tc_ledger/cross_verify.py.
use tc_ledger.Prelude.{Bool, Option, List}
use tc_ledger.Py.Int.{ℤ}
use tc_ledger.Py.Str.{Str}
use tc_ledger.Py.Json.{Json, Fields}

-- The contract, the asset and the hashlock may be missing in evidence from receipts. The transaction
-- references are what the evidence has there, of any type.
pub record SettlementEvidence : Type 0 where
  pub rail : Str
  pub contract_id : Option Str
  pub amount : Str
  pub asset : Option Str
  pub hashlock : Option Str
  pub settlement_status : Str
  pub provenance : Str
  pub payer_address : Option Str
  pub payee_address : Option Str
  pub contract_address : Option Str
  pub lock_timestamp : Option ℤ
  pub refund_timestamp : Option ℤ
  pub claim_timestamp : Option ℤ
  pub secret : Option Str
  pub lock_tx : Json
  pub claim_tx : Json
  pub refund_tx : Json
  pub block_number : Option ℤ
  pub chain_id : Option ℤ
  pub erc20_transfer_verified : Option Bool
  pub extra : Fields

-- The times, the payment keys and the list of rails are what the frames have there, of any type.
pub record AgreementState : Type 0 where
  pub contract_id : Str
  pub room : Str
  pub payer_did : Str
  pub payee_did : Str
  pub amount : Str
  pub asset : Str
  pub lock_kind : Json
  pub hashlock : Str
  pub claim_by_ms : Json
  pub refund_after_ms : Json
  pub expires_ms : Json
  pub rails : Json
  pub payer_evm_address : Option Str
  pub payee_evm_address : Option Str
  pub payer_payment_key : Json
  pub payee_payment_key : Json
  pub status : Str
  pub offer_frame : Option Fields
  pub accept_frame : Option Fields

-- The root and the line count are what the archive has there, of any type.
pub record TranscriptEvidence : Type 0 where
  pub room : Str
  pub export_root : Json
  pub line_count : Json
  pub frames_verified : List Str
  pub merkle_inclusion_verified : Bool
  pub signatures_verified : Bool
  pub anomalies : List Str
