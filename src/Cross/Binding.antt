-- ===== src/Cross/Binding.antt =====
-- The identity binding and the transfer check of `verify_cross_layer` in src/tc_ledger/cross_verify.py.
use tc_ledger.Prelude.{
  Bool, true, false, not, ◌&&◌, ◌||◌, Option, none, some, List, [], ◌∷◌, if◌then◌else◌,
}
use tc_ledger.Py.Result.{Result, ok, err}
use tc_ledger.Py.Str.{Str, codes, same}
use tc_ledger.Py.Text.Runtime.{Runtime}
use tc_ledger.Py.Json.{Json, str, truthy}
use tc_ledger.Crypto.Secp256k1.{secp256k1_pubkey_to_address}
use tc_ledger.Settlement.Normalize.{normalize_address}
use tc_ledger.Settlement.Parse.{zero_address}
use tc_ledger.Settlement.Types.{SettlementEvidence, AgreementState}
use tc_ledger.Cross.Types.{Reason, transfer_not_verified, Binding, TransferStatus}
use tc_ledger.Cross.Terms.{same_lower, nonempty}

-- `settlement.payer_address and derived.lower() == settlement.payer_address.lower()`
abbrev pub address_matches : Runtime → Str → Option Str → Bool
address_matches rt derived none = false
address_matches rt derived (some address) = nonempty address && same_lower rt derived address

-- The address that a key gives, or what its derivation raised.
unfoldable pub derived_binding :
    Runtime → Result Str → Option Str → Reason → Reason → Binding × List Reason
derived_binding rt (ok derived) address key_mismatch key_invalid =
    if address_matches rt derived address
    then (Binding.verified_via_payment_key, [])
    else (Binding.mismatch, key_mismatch ∷ [])
derived_binding rt (err e) address key_mismatch key_invalid = (Binding.mismatch, key_invalid ∷ [])

abbrev pub unkeyed_binding : Option Str → Binding
unkeyed_binding none = Binding.not_applicable
unkeyed_binding (some a) = Binding.unverified_external_mapping

-- A payment key against an address; the two reasons are those of a mismatch and of an invalid key.
unfoldable pub key_binding : Runtime → Json → Option Str → Reason → Reason → Binding × List Reason
key_binding rt payment_key address key_mismatch key_invalid =
    if truthy payment_key
    then derived_binding rt (secp256k1_pubkey_to_address payment_key) address key_mismatch
        key_invalid
    else (unkeyed_binding address, [])

abbrev pub is_mismatch : Binding → Bool
is_mismatch Binding.mismatch = true
is_mismatch _ = false

abbrev pub is_verified : Binding → Bool
is_verified Binding.verified_via_payment_key = true
is_verified _ = false

abbrev pub is_unverified : Binding → Bool
is_unverified Binding.unverified_external_mapping = true
is_unverified _ = false

unfoldable pub overall_binding : Binding → Binding → Binding
overall_binding payer payee =
    if is_mismatch payer || is_mismatch payee
    then Binding.mismatch
    else if is_verified payer || is_verified payee
    then Binding.verified_via_payment_key
    else if is_unverified payer || is_unverified payee
    then Binding.unverified_external_mapping
    else Binding.not_applicable

-- `norm and norm.lower() != ZERO_ADDRESS`
abbrev pub is_token : Runtime → Option Str → Bool
is_token rt none = false
is_token rt (some address) = not (same (rt.lower address) zero_address)

-- normalize_address(x) for a text or None
abbrev pub normalize_optional : Option Str → Option Str
normalize_optional none = none
normalize_optional (some s) = normalize_address (str s)

abbrev pub is_true : Option Bool → Bool
is_true (some true) = true
is_true _ = false

unfoldable pub transfer_check :
    Runtime → AgreementState → SettlementEvidence → TransferStatus × List Reason
transfer_check rt agreement settlement =
    if is_token rt (normalize_address (str agreement.asset))
      || is_token rt (normalize_optional settlement.asset)
    then (if same settlement.provenance (codes "rpc_receipt_verified")
          || same settlement.provenance (codes "cryptographic_receipt_proof")
        then (if is_true settlement.erc20_transfer_verified
            then (TransferStatus.verified, [])
            else (TransferStatus.failed, transfer_not_verified ∷ []))
        else (TransferStatus.unverified, []))
    else (TransferStatus.not_applicable, [])

unfoldable pub is_on_chain : SettlementEvidence → Bool
is_on_chain settlement =
    same settlement.provenance (codes "rpc_receipt_verified")
    || same settlement.provenance (codes "on_chain_receipt_verified")
    || same settlement.provenance (codes "cryptographic_receipt_proof")
