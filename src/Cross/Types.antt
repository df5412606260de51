-- ===== src/Cross/Types.antt =====
-- What `verify_cross_layer` of src/tc_ledger/cross_verify.py reports. A failure reason and a warning
-- stand for their message.
use tc_ledger.Prelude.{Bool, List}
use tc_ledger.Py.Str.{Str}
use tc_ledger.Settlement.Types.{SettlementEvidence, AgreementState, TranscriptEvidence}

pub data Reason : Type 0 where
  room_mismatch export_root_mismatch anchor_contract_mismatch : Reason
  signatures_failed inclusion_failed : Reason
  anomaly : Str → Reason
  contract_mismatch hashlock_mismatch amount_mismatch asset_mismatch : Reason
  secret_digest_mismatch secret_undecodable secret_not_supplied : Reason
  lock_not_before_refund claim_not_before_refund : Reason
  claimed_with_refund refunded_with_claim : Reason
  payer_key_mismatch payer_key_invalid payee_key_mismatch payee_key_invalid : Reason
  transfer_not_verified : Reason
  self_attested : Reason

pub data Warning : Type 0 where
  refund_variance payer_unverified payee_unverified : Warning

pub data SecretStatus : Type 0 where
  not_applicable verified mismatch missing : SecretStatus

pub data Ordering : Type 0 where
  verified lock_too_late claim_too_late : Ordering

pub data Binding : Type 0 where
  verified_via_payment_key mismatch unverified_external_mapping not_applicable : Binding

pub data TransferStatus : Type 0 where
  not_applicable verified failed unverified : TransferStatus

-- The artifact: its parts, the outcome of each check, and the verdict.
pub record Report : Type 0 where
  pub agreement : AgreementState
  pub transcript : TranscriptEvidence
  pub settlement : SettlementEvidence
  pub agreement_status : Str
  pub contract_id_binding : Bool
  pub hashlock_binding : Bool
  pub amount_binding : Bool
  pub asset_binding : Bool
  pub temporal_ordering : Ordering
  pub secret_verification : SecretStatus
  pub settlement_lifecycle : Bool
  pub address_binding_payer : Binding
  pub address_binding_payee : Binding
  pub address_binding : Binding
  pub erc20_transfer_binding : TransferStatus
  pub terms_conformance : Bool
  pub transcript_authenticity : Bool
  pub on_chain_provenance : Bool
  pub is_conformant : Bool
  pub failure_reasons : List Reason
  pub warnings : List Warning
