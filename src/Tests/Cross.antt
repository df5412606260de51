-- ===== src/Tests/Cross.antt =====
-- The gate of `verify_cross_layer` on a claimed settlement of a token.
use tc_ledger.Prelude.{◌≡◌, refl, inl, true, false, none, some, [], ◌∷◌, ◌++◌}
use tc_ledger.Py.Result.{ok, err, type_error}
use tc_ledger.Py.Int.{pos}
use tc_ledger.Py.Str.{Str, codes}
use tc_ledger.Py.Hex.{hex, hex_digit, fromhex, digit_value, is_ascii_space}
use tc_ledger.Py.Text.{is_space, lstrip, rstrip, strip, is_hex_digit, ascii_lower}
use tc_ledger.Py.Json.{null, str, dict, end}
use tc_ledger.Crypto.Keccak.{
  replicate, range, or_zero, nth, set, from_little, to_little, pad, absorb, column, parity_of,
  add_parity, theta, rho_pi, chi_lanes, chi, permutation_round, permute, sponge, squeeze, keccak256,
}
use tc_ledger.Crypto.Secp256k1.{
  from_big, to_big, pow_from, pow_mod, curve_rhs, on_curve, read_point, decompress, point_of,
  point_address, secp256k1_pubkey_to_address,
}
use tc_ledger.Settlement.Normalize.{normalize_text, normalize_hex, normalize_address}
use tc_ledger.Settlement.Parse.{zero_address}
use tc_ledger.Settlement.Types.{SettlementEvidence, AgreementState, TranscriptEvidence}
use tc_ledger.Cross.Types.{
  Report, Ordering, SecretStatus, Binding, TransferStatus, payer_key_mismatch, payer_key_invalid,
  self_attested,
}
use tc_ledger.Cross.Terms.{
  same_lower, same_lower_some, not_before, contract_match, hashlock_match, amount_match,
  asset_match, compare_bytes, compare_secret, supplied_secret, secret_check, temporal_check,
  refund_varies, refund_warning, lifecycle_check,
}
use tc_ledger.Cross.Binding.{
  derived_binding, key_binding, overall_binding, is_token, transfer_check, is_on_chain,
}
use tc_ledger.Cross.Check.{
  root_failures, anchor_failures, transcript_failures, is_empty, transcript_authenticity_of,
  terms_failures, cross_check,
}
use tc_ledger.Cross.Check.Gate.{is_conformant-eq-no_reasons}
use tc_ledger.Cross.Check.Evidence.{conformant-terms}
use tc_ledger.Cross.Check.Parties.{
  Opens, conformant-secret, conformant-payer, conformant-transfer, parsed-not_conformant,
}
use tc_ledger.Tests.Toy.{toy}
use tc_ledger.Tests.Settlement.{
  toy_runtime, digest_text, attested_fields, attested_evidence, attested_parsed,
}

-- The compressed generator of secp256k1, and its address.
abbrev pub generator : Str
generator = codes "0279be667ef9dcbbac55a06295ce870b07029bfcdb2dce28d959f2815b16f81798"

abbrev pub generator_address : Str
generator_address = codes "0x7e5f4552091a69125d5dfcb7b8c2659029395bdf"

-- The digest that the stand-in for SHA-256 gives for one zero byte.
abbrev lock_text : Str
lock_text = codes "0xd9d9d9d9d9d9d9d9d9d9d9d9d9d9d9d9d9d9d9d9d9d9d9d9d9d9d9d9d9d9d9d9"

abbrev pub agreement : AgreementState
agreement = record {
  contract_id = digest_text;
  room = codes "r";
  payer_did = codes "did:key:z6a";
  payee_did = codes "did:key:z6b";
  amount = codes "12";
  asset = generator_address;
  lock_kind = str (codes "hash");
  hashlock = lock_text;
  claim_by_ms = null;
  refund_after_ms = null;
  expires_ms = null;
  rails = null;
  payer_evm_address = none;
  payee_evm_address = none;
  payer_payment_key = str generator;
  payee_payment_key = null;
  status = codes "ACCEPTED";
  offer_frame = none;
  accept_frame = none;
}

abbrev pub transcript : TranscriptEvidence
transcript = record {
  room = codes "r";
  export_root = null;
  line_count = null;
  frames_verified = [];
  merkle_inclusion_verified = true;
  signatures_verified = true;
  anomalies = [];
}

abbrev settlement : SettlementEvidence
settlement = record {
  rail = codes "evm-htlc";
  contract_id = some digest_text;
  amount = codes "12";
  asset = some generator_address;
  hashlock = some lock_text;
  settlement_status = codes "claimed";
  provenance = codes "rpc_receipt_verified";
  payer_address = some generator_address;
  payee_address = none;
  contract_address = none;
  lock_timestamp = some (pos 100);
  refund_timestamp = some (pos 300);
  claim_timestamp = some (pos 200);
  secret = some (codes "0x00");
  lock_tx = null;
  claim_tx = null;
  refund_tx = null;
  block_number = none;
  chain_id = none;
  erc20_transfer_verified = some true;
  extra = end;
}

abbrev pub report : Report
report = record {
  agreement = agreement;
  transcript = transcript;
  settlement = settlement;
  agreement_status = codes "verified";
  contract_id_binding = true;
  hashlock_binding = true;
  amount_binding = true;
  asset_binding = true;
  temporal_ordering = Ordering.verified;
  secret_verification = SecretStatus.verified;
  settlement_lifecycle = true;
  address_binding_payer = Binding.verified_via_payment_key;
  address_binding_payee = Binding.not_applicable;
  address_binding = Binding.verified_via_payment_key;
  erc20_transfer_binding = TransferStatus.verified;
  terms_conformance = true;
  transcript_authenticity = true;
  on_chain_provenance = true;
  is_conformant = true;
  failure_reasons = [];
  warnings = [];
}

payer_bound :
    key_binding toy_runtime
      (str generator)
      (some generator_address)
      payer_key_mismatch
      payer_key_invalid
    ≡ (Binding.verified_via_payment_key, [])
unfolding key_binding derived_binding hex hex_digit replicate range or_zero nth set from_little
    to_little pad absorb column parity_of add_parity theta rho_pi chi_lanes chi permutation_round
    permute sponge squeeze keccak256 is_space lstrip rstrip strip fromhex digit_value is_ascii_space
    from_big to_big pow_from pow_mod curve_rhs on_curve read_point decompress point_of point_address
    secp256k1_pubkey_to_address ascii_lower
payer_bound = refl

checked : cross_check toy toy_runtime end agreement transcript settlement ≡ ok report
unfolding cross_check anchor_failures root_failures transcript_failures transcript_authenticity_of
    terms_failures is_on_chain transfer_check overall_binding contract_match hashlock_match
    amount_match asset_match secret_check supplied_secret compare_secret compare_bytes
    temporal_check refund_warning lifecycle_check key_binding derived_binding hex hex_digit
    replicate range or_zero nth set from_little to_little pad absorb column parity_of add_parity
    theta rho_pi chi_lanes chi permutation_round permute sponge squeeze keccak256 is_space lstrip
    rstrip strip fromhex digit_value is_ascii_space from_big to_big pow_from pow_mod curve_rhs
    on_curve read_point decompress point_of point_address secp256k1_pubkey_to_address ascii_lower
    normalize_address normalize_hex normalize_text is_hex_digit
checked = refl

is_conformant-eq-no_reasons_example : report.is_conformant ≡ is_empty report.failure_reasons
is_conformant-eq-no_reasons_example =
    is_conformant-eq-no_reasons toy toy_runtime end agreement transcript settlement report checked

conformant-terms_example :
    (agreement.amount ≡ settlement.amount)
    × (same_lower_some toy_runtime agreement.contract_id settlement.contract_id ≡ true)
    × (same_lower_some toy_runtime agreement.hashlock settlement.hashlock ≡ true)
    × (same_lower_some toy_runtime agreement.asset settlement.asset ≡ true)
    × (not_before settlement.lock_timestamp settlement.refund_timestamp ≡ false)
    × (not_before settlement.claim_timestamp settlement.refund_timestamp ≡ false)
    × (transcript.signatures_verified ≡ true)
    × (transcript.merkle_inclusion_verified ≡ true)
    × (transcript.anomalies ≡ [])
    × (anchor_failures toy_runtime end agreement transcript ≡ ok [])
    × (is_on_chain settlement ≡ true)
conformant-terms_example =
    conformant-terms toy toy_runtime end agreement transcript settlement report checked refl

conformant-secret_example :
    (s : Str) × (settlement.secret ≡ some s) × Opens toy toy_runtime s lock_text
conformant-secret_example =
    conformant-secret toy toy_runtime end agreement transcript settlement report checked refl refl

conformant-payer_example :
    (derived paid : Str) × (secp256k1_pubkey_to_address (str generator) ≡ ok derived)
    × (settlement.payer_address ≡ some paid)
    × (same_lower toy_runtime derived paid ≡ true)
conformant-payer_example =
    conformant-payer toy toy_runtime end agreement transcript settlement report checked refl refl

token : is_token toy_runtime (normalize_address (str generator_address)) ≡ true
unfolding normalize_address normalize_hex normalize_text is_space lstrip rstrip strip is_hex_digit
    ascii_lower
token = refl

conformant-transfer_example : settlement.erc20_transfer_verified ≡ some true
conformant-transfer_example =
    conformant-transfer toy toy_runtime end agreement transcript settlement report checked refl
      token (inl refl)

-- The same settlement with another provenance, and without a verified transfer.
abbrev unchecked_settlement : SettlementEvidence
unchecked_settlement = record settlement {
  provenance = codes "on_chain_receipt_verified";
  erc20_transfer_verified = none;
}

abbrev unchecked_report : Report
unchecked_report = record report {
  settlement = unchecked_settlement;
  erc20_transfer_binding = TransferStatus.unverified;
}

-- It is conformant.
unchecked_provenance_conformant :
    cross_check toy toy_runtime end agreement transcript unchecked_settlement ≡ ok unchecked_report
unfolding cross_check anchor_failures root_failures transcript_failures transcript_authenticity_of
    terms_failures is_on_chain transfer_check overall_binding contract_match hashlock_match
    amount_match asset_match secret_check supplied_secret compare_secret compare_bytes
    temporal_check refund_warning lifecycle_check key_binding derived_binding hex hex_digit
    replicate range or_zero nth set from_little to_little pad absorb column parity_of add_parity
    theta rho_pi chi_lanes chi permutation_round permute sponge squeeze keccak256 is_space lstrip
    rstrip strip fromhex digit_value is_ascii_space from_big to_big pow_from pow_mod curve_rhs
    on_curve read_point decompress point_of point_address secp256k1_pubkey_to_address ascii_lower
    normalize_address normalize_hex normalize_text is_hex_digit
unchecked_provenance_conformant = refl

-- A key with the prefix that `public_key_to_eth_address` strips is reported as invalid.
prefixed_key_invalid :
    key_binding toy_runtime
      (str (codes "secp256k1:" ++ generator))
      (some generator_address)
      payer_key_mismatch
      payer_key_invalid
    ≡ (Binding.mismatch, payer_key_invalid ∷ [])
unfolding key_binding derived_binding secp256k1_pubkey_to_address is_space lstrip rstrip strip
    fromhex digit_value is_ascii_space
prefixed_key_invalid = refl

-- A refund time that is a text makes the check raise.
text_refund_time_raises :
    refund_varies toy_runtime (str (codes "1700000000000")) (pos 300) ≡ err type_error
unfolding refund_varies
text_refund_time_raises = refl

-- The same agreement, of ether and with no payment key.
abbrev plain_agreement : AgreementState
plain_agreement = record agreement {
  hashlock = digest_text;
  payer_payment_key = null;
  asset = zero_address;
}

abbrev plain_report : Report
plain_report = record report {
  agreement = plain_agreement;
  settlement = attested_evidence;
  secret_verification = SecretStatus.not_applicable;
  address_binding_payer = Binding.not_applicable;
  address_binding = Binding.not_applicable;
  erc20_transfer_binding = TransferStatus.not_applicable;
  on_chain_provenance = false;
  is_conformant = false;
  failure_reasons = self_attested ∷ [];
}

plain_checked :
    cross_check toy toy_runtime end plain_agreement transcript attested_evidence ≡ ok plain_report
unfolding cross_check anchor_failures root_failures transcript_failures transcript_authenticity_of
    terms_failures is_on_chain transfer_check overall_binding contract_match hashlock_match
    amount_match asset_match secret_check temporal_check refund_warning lifecycle_check key_binding
    is_space lstrip rstrip strip ascii_lower normalize_address normalize_hex normalize_text
    is_hex_digit
plain_checked = refl

parsed-not_conformant_example : plain_report.is_conformant ≡ false
parsed-not_conformant_example =
    parsed-not_conformant toy toy_runtime (dict attested_fields) end plain_agreement transcript
      attested_evidence plain_report attested_parsed plain_checked
