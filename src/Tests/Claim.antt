-- ===== src/Tests/Claim.antt =====
-- A claim after the lock of a token deal: its receipt, the evidence, and the gate.
use tc_ledger.Prelude.{◌≡◌, refl, none, some, if◌then◌else◌}
use tc_ledger.Py.Result.{Result, ok}
use tc_ledger.Py.Int.{ℤ, pos}
use tc_ledger.Py.Str.{Str, codes, same}
use tc_ledger.Py.Hex.{hex, hex_digit, fromhex, digit_value, is_ascii_space}
use tc_ledger.Py.Text.{
  is_space, lstrip, rstrip, strip, is_hex_digit, ascii_lower, decimal, decimal_from,
}
use tc_ledger.Py.Json.{
  Json, Fields, null, str, list, dict, nil, cons, field, end, get, get_default, equals_str,
}
use tc_ledger.Crypto.Keccak.{
  replicate, range, or_zero, nth, set, from_little, to_little, pad, absorb, column, parity_of,
  add_parity, theta, rho_pi, chi_lanes, chi, permutation_round, permute, sponge, squeeze, keccak256,
}
use tc_ledger.Crypto.Secp256k1.{
  from_big, to_big, pow_from, pow_mod, curve_rhs, on_curve, read_point, decompress, point_of,
  point_address, secp256k1_pubkey_to_address,
}
use tc_ledger.Settlement.Normalize.{
  normalize_text, normalize_hex, normalize_address, normalize_amount_str,
}
use tc_ledger.Settlement.Types.{SettlementEvidence}
use tc_ledger.Cross.Types.{Report, SecretStatus}
use tc_ledger.Cross.Terms.{
  contract_match, hashlock_match, amount_match, asset_match, secret_check, supplied_secret,
  compare_secret, compare_bytes, temporal_check, refund_warning, lifecycle_check,
}
use tc_ledger.Cross.Binding.{
  derived_binding, key_binding, overall_binding, transfer_check, is_on_chain,
}
use tc_ledger.Cross.Check.Parties.{Opens}
use tc_ledger.Cross.Check.{
  root_failures, anchor_failures, transcript_failures, transcript_authenticity_of, terms_failures,
  cross_check,
}
use tc_ledger.Evm.Transfer.{
  logs_of, topic_address, data_amount, checked_amount, checked_parties, checked_topics,
  checked_address, transfer_of, transfers, parse_and_verify_erc20_transfer,
}
use tc_ledger.Evm.Transfer.Sound.{OneOf}
use tc_ledger.Evm.Rpc.{
  rpc_result, rpc_call, chain_id_of, fetch_chain_id, receipt_of, fetch_transaction_receipt,
}
use tc_ledger.Evm.Event.{
  claimed_topic, claimed, HtlcEvent, status_of, block_of, token_verified, locked_event,
  claimed_event, event_of_topics, event_at, event_of, events_of, matching,
  parse_and_verify_htlc_event,
}
use tc_ledger.Evm.Event.Sound.{IsEventLog}
use tc_ledger.Evm.Evidence.Parts.{IsLock}
use tc_ledger.Evm.Evidence.Outcome.{IsOutcome}
use tc_ledger.Evm.Evidence.Sound.{build_rpc_settlement_evidence_sound}
use tc_ledger.Evm.Evidence.{
  fetch_event, fetch_optional_event, evidence_of, build_rpc_settlement_evidence,
}
use tc_ledger.Evm.Conformant.{conformant_rpc-Opens}
use tc_ledger.Tests.Evm.{
  runtime, htlc_address, receipt, rpc_url, evidence, token_agreement, token_report,
}
use tc_ledger.Tests.Toy.{toy}
use tc_ledger.Tests.Settlement.{digest_text}
use tc_ledger.Tests.Cross.{transcript}

-- 32 bytes whose digest, by the stand-in for SHA-256, is the hashlock of the deal.
abbrev secret_text : Str
secret_text = codes "0x2e2e2e2e2e2e2e2e2e2e2e2e2e2e2e2e2e2e2e2e2e2e2e2e2e2e2e2e2e2e2e2e"

abbrev claim_hash : Str
claim_hash = codes "0x0808080808080808080808080808080808080808080808080808080808080808"

abbrev claimed_log : Fields
claimed_log = field (codes "address") (str htlc_address) (
    field (codes "topics") (list (cons (str claimed_topic) (cons (str digest_text) nil)))
      (field (codes "data") (str secret_text) end))

abbrev claim_receipt : Fields
claim_receipt = field (codes "transactionHash") (str claim_hash) (
    field (codes "status") (str (codes "0x1")) (
      field (codes "blockNumber") (str (codes "0x11")) (
        field (codes "to") (str htlc_address)
          (field (codes "logs") (list (cons (dict claimed_log) nil)) end))))

abbrev receipt_for : Json → Fields
receipt_for (list (cons (str hash) nil)) = if same hash claim_hash then claim_receipt else receipt
receipt_for _ = receipt

abbrev answer_of : Json → Json
answer_of (dict request) =
    if equals_str (get request (codes "method")) (codes "eth_chainId")
    then str (codes "0x539")
    else dict (receipt_for (get request (codes "params")))
answer_of _ = null

abbrev post : Str → Json → Result Json
post url request = ok (dict (field (codes "result") (answer_of request) end))

abbrev claim_evidence : SettlementEvidence
claim_evidence = record evidence {
  settlement_status = codes "claimed";
  secret = some secret_text;
  claim_tx = str claim_hash;
  block_number = some (pos 17);
}

claim_built :
    build_rpc_settlement_evidence runtime post rpc_url
      (some digest_text)
      (some claim_hash)
      none
      (some htlc_address)
      (some digest_text)
      (some (pos 1337))
    ≡ ok claim_evidence
unfolding build_rpc_settlement_evidence evidence_of fetch_event fetch_optional_event rpc_result
    rpc_call chain_id_of fetch_chain_id receipt_of fetch_transaction_receipt status_of block_of
    token_verified locked_event claimed_event event_of_topics event_at event_of events_of matching
    parse_and_verify_htlc_event topic_address data_amount checked_amount checked_parties
    checked_topics checked_address transfer_of transfers parse_and_verify_erc20_transfer
    normalize_address normalize_hex normalize_text normalize_amount_str is_hex_digit ascii_lower
    decimal decimal_from hex hex_digit replicate range or_zero nth set from_little to_little pad
    absorb column parity_of add_parity theta rho_pi chi_lanes chi permutation_round permute sponge
    squeeze keccak256 is_space lstrip rstrip strip
claim_built = refl

build_rpc_settlement_evidence_sound_example :
    (claim_evidence.provenance ≡ codes "rpc_receipt_verified")
    × (claim_evidence.chain_id ≡ some (pos 1337))
    × ((n : ℤ) × (some (pos 1337) ≡ some n) × (fetch_chain_id post runtime rpc_url ≡ ok n))
    × ((tx : Str) × (l : HtlcEvent) × (some digest_text ≡ some tx)
        × IsLock runtime post rpc_url (some htlc_address) (some digest_text) tx l claim_evidence
        × IsOutcome runtime post rpc_url l (some claim_hash) none claim_evidence)
build_rpc_settlement_evidence_sound_example =
    build_rpc_settlement_evidence_sound runtime post rpc_url (some htlc_address) (some digest_text)
      (some digest_text) (some claim_hash) none (some (pos 1337)) claim_evidence claim_built

abbrev claim_report : Report
claim_report = record token_report {
  settlement = claim_evidence;
  secret_verification = SecretStatus.verified;
}

claim_passed :
    cross_check toy runtime end token_agreement transcript claim_evidence ≡ ok claim_report
unfolding cross_check anchor_failures root_failures transcript_failures transcript_authenticity_of
    terms_failures is_on_chain transfer_check overall_binding contract_match hashlock_match
    amount_match asset_match secret_check supplied_secret compare_secret compare_bytes
    temporal_check refund_warning lifecycle_check key_binding derived_binding hex hex_digit
    replicate range or_zero nth set from_little to_little pad absorb column parity_of add_parity
    theta rho_pi chi_lanes chi permutation_round permute sponge squeeze keccak256 is_space lstrip
    rstrip strip fromhex digit_value is_ascii_space from_big to_big pow_from pow_mod curve_rhs
    on_curve read_point decompress point_of point_address secp256k1_pubkey_to_address ascii_lower
    normalize_address normalize_hex normalize_text is_hex_digit
claim_passed = refl

conformant_rpc-Opens_example :
    (hash contract secret : Str) × (r : Fields) × (e : HtlcEvent) × (some claim_hash ≡ some hash)
    × (fetch_transaction_receipt post runtime rpc_url hash ≡ ok r)
    × (status_of runtime (get r (codes "status")) ≡ ok (pos 1))
    × (claim_evidence.contract_address ≡ some contract)
    × OneOf
        (IsEventLog runtime r (some contract) e)
        (logs_of (get_default r (codes "logs") (list nil)))
    × (e.details ≡ claimed (some secret))
    × Opens toy runtime secret digest_text
conformant_rpc-Opens_example =
    conformant_rpc-Opens toy runtime post rpc_url (some digest_text) (some claim_hash) none
      (some htlc_address) (some digest_text) (some (pos 1337)) end token_agreement transcript
      claim_evidence claim_report claim_built claim_passed refl refl
