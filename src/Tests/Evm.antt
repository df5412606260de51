-- ===== src/Tests/Evm.antt =====
-- A lock transaction of a token deal: its receipt, the evidence, and the gate.
use tc_ledger.Prelude.{
  ◌≡◌, refl, ℕ, ◌+◌, ◌-◌, ◌*◌, true, none, some, [], ◌∷◌, ◌++◌, leb, if◌then◌else◌, arith,
}
use tc_ledger.Py.Result.{Result, ok}
use tc_ledger.Py.Int.{pos}
use tc_ledger.Py.Str.{Str, codes}
use tc_ledger.Py.Hex.{hex, hex_digit, fromhex, digit_value, is_ascii_space}
use tc_ledger.Py.Text.{
  drop_0x, is_space, lstrip, rstrip, strip, is_hex_digit, ascii_lower, decimal, decimal_from,
}
use tc_ledger.Py.Text.Runtime.{Runtime}
use tc_ledger.Py.Json.{
  Json, Fields, null, str, list, dict, nil, cons, field, end, get, get_default, equals_str,
}
use tc_ledger.Crypto.Keccak.{
  replicate, range, or_zero, nth, set, from_little, to_little, pad, absorb, column, parity_of,
  add_parity, theta, rho_pi, chi_lanes, chi, permutation_round, permute, sponge, squeeze, keccak256,
}
use tc_ledger.Crypto.Secp256k1.{
  from_big, to_big, pow_from, pow_mod, curve_rhs, on_curve, read_point, decompress, point_of,
  point_address, secp256k1_pubkey_to_address,
}
use tc_ledger.Settlement.Normalize.{
  normalize_text, normalize_hex, normalize_address, normalize_amount_str,
}
use tc_ledger.Settlement.Types.{SettlementEvidence, AgreementState}
use tc_ledger.Cross.Types.{Report, SecretStatus, Binding, payee_unverified}
use tc_ledger.Cross.Terms.{
  same_lower, contract_match, hashlock_match, amount_match, asset_match, secret_check,
  temporal_check, refund_warning, lifecycle_check,
}
use tc_ledger.Cross.Binding.{
  derived_binding, key_binding, overall_binding, is_token, transfer_check, is_on_chain,
}
use tc_ledger.Cross.Check.{
  root_failures, anchor_failures, transcript_failures, transcript_authenticity_of, terms_failures,
  cross_check,
}
use tc_ledger.Evm.Transfer.{
  Expected, Transfer, transfer_topic, nonzero, logs_of, topic_address, data_amount, checked_amount,
  checked_parties, checked_topics, checked_address, transfer_of, transfers,
  parse_and_verify_erc20_transfer,
}
use tc_ledger.Evm.Transfer.Sound.{OneOf, IsTransferLog, parse_and_verify_erc20_transfer_sound}
use tc_ledger.Evm.Rpc.{
  rpc_result, rpc_call, chain_id_of, fetch_chain_id, receipt_of, fetch_transaction_receipt,
}
use tc_ledger.Evm.Event.{
  locked_topic, LockTerms, locked, HtlcEvent, status_of, block_of, token_verified, locked_event,
  claimed_event, event_of_topics, event_at, event_of, events_of, matching,
  parse_and_verify_htlc_event,
}
use tc_ledger.Evm.Event.Sound.{IsEventLog}
use tc_ledger.Evm.Event.Expected.{parse_and_verify_htlc_event_sound}
use tc_ledger.Evm.Event.Token.{HasTransfer, parse_and_verify_htlc_event-transfer}
use tc_ledger.Evm.Evidence.{
  fetch_event, fetch_optional_event, evidence_of, build_rpc_settlement_evidence,
}
use tc_ledger.Evm.Conformant.{conformant_rpc-HasTransfer}
use tc_ledger.Tests.Toy.{toy}
use tc_ledger.Tests.Settlement.{toy_runtime, digest_text}
use tc_ledger.Tests.Cross.{agreement, transcript, report, generator_address}

abbrev digits_value : ℕ → ℕ → Str → ℕ
digits_value base n [] = n
digits_value base n (c ∷ s) =
    digits_value base (base * n + (if leb c 0x39 then c - 0x30 else c - 0x57)) s

-- `int`, for lower-case digits.
abbrev pub runtime : Runtime
runtime = record toy_runtime { parse_int = λ base s. ok (pos (digits_value base 0 (drop_0x s))) }

abbrev pub token_address : Str
token_address = codes "0x1111111111111111111111111111111111111111"

abbrev pub htlc_address : Str
htlc_address = codes "0x2222222222222222222222222222222222222222"

abbrev payee_address : Str
payee_address = codes "0x3333333333333333333333333333333333333333"

abbrev word_of : Str → Str
word_of address = codes "000000000000000000000000" ++ drop_0x address

abbrev transfer_log : Fields
transfer_log = field (codes "address") (str token_address) (
    field (codes "topics")
      (list (
        cons (str transfer_topic) (
          cons (str (codes "0x" ++ word_of generator_address))
            (cons (str (codes "0x" ++ word_of htlc_address)) nil))))
      (field (codes "data") (str (codes "0x0c")) end))

abbrev locked_log : Fields
locked_log = field (codes "address") (str htlc_address) (
    field (codes "topics")
      (list (
        cons (str locked_topic) (
          cons (str digest_text) (
            cons (str (codes "0x" ++ word_of generator_address))
              (cons (str (codes "0x" ++ word_of payee_address)) nil)))))
      (field (codes "data")
        (str (
          codes "0x"
          ++ (word_of token_address
              ++ (codes "000000000000000000000000000000000000000000000000000000000000000c"
                  ++ (drop_0x digest_text
                      ++ codes
                          "000000000000000000000000000000000000000000000000000000000000012c")))))
        end))

abbrev pub receipt : Fields
receipt = field (codes "transactionHash") (str digest_text) (
    field (codes "status") (str (codes "0x1")) (
      field (codes "blockNumber") (str (codes "0x10")) (
        field (codes "to") (str htlc_address) (
          field (codes "logs") (list (cons (dict transfer_log) (cons (dict locked_log) nil)))
            end))))

abbrev answer_of : Json → Json
answer_of (dict request) =
    if equals_str (get request (codes "method")) (codes "eth_chainId")
    then str (codes "0x539")
    else dict receipt
answer_of _ = null

abbrev post : Str → Json → Result Json
post url request = ok (dict (field (codes "result") (answer_of request) end))

abbrev found : Transfer
found = record {
  token = token_address;
  sender = generator_address;
  recipient = htlc_address;
  amount = codes "12";
}

transfer_found :
    parse_and_verify_erc20_transfer runtime receipt
      (str token_address)
      (str generator_address)
      (str htlc_address)
      (str (codes "12"))
    ≡ ok found
unfolding topic_address data_amount checked_amount checked_parties checked_topics checked_address
    transfer_of transfers parse_and_verify_erc20_transfer normalize_address normalize_hex
    normalize_text normalize_amount_str is_hex_digit ascii_lower decimal decimal_from is_space
    lstrip rstrip strip
transfer_found = refl

parse_and_verify_erc20_transfer_sound_example :
    (want : Expected) × (nonzero runtime (normalize_address (str token_address)) ≡ some want.token)
    × (normalize_address (str generator_address) ≡ some want.payer)
    × (normalize_address (str htlc_address) ≡ some want.htlc)
    × (normalize_amount_str runtime (str (codes "12")) ≡ ok (some want.amount))
    × OneOf
        (IsTransferLog runtime want found)
        (logs_of (get_default receipt (codes "logs") (list nil)))
parse_and_verify_erc20_transfer_sound_example =
    parse_and_verify_erc20_transfer_sound runtime receipt (str token_address)
      (str generator_address) (str htlc_address) (str (codes "12")) found transfer_found

abbrev pub terms : LockTerms
terms = record {
  payer_address = generator_address;
  payee_address = payee_address;
  token = some token_address;
  amount = codes "12";
  hashlock = some digest_text;
  refund_timestamp = pos 300;
  erc20_transfer_verified = some true;
}

abbrev pub lock : HtlcEvent
lock = record {
  contract_id = some digest_text;
  contract_address = htlc_address;
  block_number = pos 16;
  tx_hash = str digest_text;
  details = locked terms;
}

lock_found :
    parse_and_verify_htlc_event runtime receipt
      (some htlc_address)
      (some digest_text)
      (some (codes "Locked"))
    ≡ ok lock
unfolding status_of block_of token_verified locked_event claimed_event event_of_topics event_at
    event_of events_of matching parse_and_verify_htlc_event topic_address data_amount checked_amount
    checked_parties checked_topics checked_address transfer_of transfers
    parse_and_verify_erc20_transfer normalize_address normalize_hex normalize_text
    normalize_amount_str is_hex_digit ascii_lower decimal decimal_from hex hex_digit replicate range
    or_zero nth set from_little to_little pad absorb column parity_of add_parity theta rho_pi
    chi_lanes chi permutation_round permute sponge squeeze keccak256 is_space lstrip rstrip strip
lock_found = refl

htlc_normal : normalize_address (str htlc_address) ≡ some htlc_address
unfolding normalize_address normalize_hex normalize_text is_space lstrip rstrip strip is_hex_digit
    ascii_lower
htlc_normal = refl

id_normal : normalize_hex (str digest_text) ≡ some digest_text
unfolding normalize_hex normalize_text is_space lstrip rstrip strip is_hex_digit ascii_lower
id_normal = refl

parse_and_verify_htlc_event_sound_example :
    (status_of runtime (get receipt (codes "status")) ≡ ok (pos 1))
    × OneOf
        (IsEventLog runtime receipt (some htlc_address) lock)
        (logs_of (get_default receipt (codes "logs") (list nil)))
    × (lock.contract_address ≡ htlc_address)
    × (lock.contract_id ≡ some digest_text)
    × (runtime.lower (codes "Locked") ≡ runtime.lower (codes "Locked"))
parse_and_verify_htlc_event_sound_example =
    parse_and_verify_htlc_event_sound runtime receipt htlc_address digest_text (codes "Locked")
      htlc_address digest_text lock htlc_normal id_normal (omega arith) lock_found

-- An expected HTLC and an expected contract that do not normalize are not compared with anything.
abnormal_expectations_ignored :
    parse_and_verify_htlc_event runtime receipt
      (some (codes "0x9999"))
      (some (codes "contract"))
      (some (codes "Locked"))
    ≡ ok lock
unfolding status_of block_of token_verified locked_event claimed_event event_of_topics event_at
    event_of events_of matching parse_and_verify_htlc_event topic_address data_amount checked_amount
    checked_parties checked_topics checked_address transfer_of transfers
    parse_and_verify_erc20_transfer normalize_address normalize_hex normalize_text
    normalize_amount_str is_hex_digit ascii_lower decimal decimal_from hex hex_digit replicate range
    or_zero nth set from_little to_little pad absorb column parity_of add_parity theta rho_pi
    chi_lanes chi permutation_round permute sponge squeeze keccak256 is_space lstrip rstrip strip
abnormal_expectations_ignored = refl

token_nonzero : is_token runtime (some token_address) ≡ true
unfolding ascii_lower
token_nonzero = refl

parse_and_verify_htlc_event-transfer_example :
    (terms.erc20_transfer_verified ≡ some true)
    × HasTransfer runtime receipt token_address terms.payer_address lock.contract_address
        terms.amount
parse_and_verify_htlc_event-transfer_example =
    parse_and_verify_htlc_event-transfer runtime receipt (some htlc_address) (some digest_text)
      (some (codes "Locked")) lock terms token_address lock_found refl refl token_nonzero

abbrev pub rpc_url : Str
rpc_url = codes "http://127.0.0.1:8545"

abbrev pub evidence : SettlementEvidence
evidence = record {
  rail = codes "evm-htlc";
  contract_id = some digest_text;
  amount = codes "12";
  asset = some token_address;
  hashlock = some digest_text;
  settlement_status = codes "locked";
  provenance = codes "rpc_receipt_verified";
  payer_address = some generator_address;
  payee_address = some payee_address;
  contract_address = some htlc_address;
  lock_timestamp = none;
  refund_timestamp = some (pos 300);
  claim_timestamp = none;
  secret = none;
  lock_tx = str digest_text;
  claim_tx = null;
  refund_tx = null;
  block_number = some (pos 16);
  chain_id = some (pos 1337);
  erc20_transfer_verified = some true;
  extra = end;
}

built :
    build_rpc_settlement_evidence runtime post rpc_url
      (some digest_text)
      none
      none
      (some htlc_address)
      (some digest_text)
      (some (pos 1337))
    ≡ ok evidence
unfolding build_rpc_settlement_evidence evidence_of fetch_event fetch_optional_event rpc_result
    rpc_call chain_id_of fetch_chain_id receipt_of fetch_transaction_receipt status_of block_of
    token_verified locked_event claimed_event event_of_topics event_at event_of events_of matching
    parse_and_verify_htlc_event topic_address data_amount checked_amount checked_parties
    checked_topics checked_address transfer_of transfers parse_and_verify_erc20_transfer
    normalize_address normalize_hex normalize_text normalize_amount_str is_hex_digit ascii_lower
    decimal decimal_from hex hex_digit replicate range or_zero nth set from_little to_little pad
    absorb column parity_of add_parity theta rho_pi chi_lanes chi permutation_round permute sponge
    squeeze keccak256 is_space lstrip rstrip strip
built = refl

abbrev pub token_agreement : AgreementState
token_agreement = record agreement { asset = token_address; hashlock = digest_text }

abbrev pub token_report : Report
token_report = record report {
  agreement = token_agreement;
  settlement = evidence;
  secret_verification = SecretStatus.not_applicable;
  address_binding_payee = Binding.unverified_external_mapping;
  warnings = payee_unverified ∷ [];
}

gate_passed : cross_check toy runtime end token_agreement transcript evidence ≡ ok token_report
unfolding cross_check anchor_failures root_failures transcript_failures transcript_authenticity_of
    terms_failures is_on_chain transfer_check overall_binding contract_match hashlock_match
    amount_match asset_match secret_check temporal_check refund_warning lifecycle_check key_binding
    derived_binding hex hex_digit replicate range or_zero nth set from_little to_little pad absorb
    column parity_of add_parity theta rho_pi chi_lanes chi permutation_round permute sponge squeeze
    keccak256 is_space lstrip rstrip strip fromhex digit_value is_ascii_space from_big to_big
    pow_from pow_mod curve_rhs on_curve read_point decompress point_of point_address
    secp256k1_pubkey_to_address ascii_lower normalize_address normalize_hex normalize_text
    is_hex_digit
gate_passed = refl

token_deal : is_token runtime (normalize_address (str token_address)) ≡ true
unfolding normalize_address normalize_hex normalize_text is_space lstrip rstrip strip is_hex_digit
    ascii_lower
token_deal = refl

conformant_rpc-HasTransfer_example :
    (tx token payer contract : Str) × (r : Fields) × (some digest_text ≡ some tx)
    × (fetch_transaction_receipt post runtime rpc_url tx ≡ ok r)
    × (evidence.asset ≡ some token)
    × (same_lower runtime token_address token ≡ true)
    × (evidence.payer_address ≡ some payer)
    × (evidence.contract_address ≡ some contract)
    × HasTransfer runtime r token payer contract (codes "12")
conformant_rpc-HasTransfer_example =
    conformant_rpc-HasTransfer toy runtime post rpc_url (some digest_text) none none
      (some htlc_address) (some digest_text) (some (pos 1337)) end token_agreement transcript
      evidence token_report built gate_passed refl token_deal
