-- ===== src/Tests/Settlement.antt =====
-- Settlement evidence and its texts, with stand-ins for what the model does not define of Python.
use tc_ledger.Prelude.{true, ◌≡◌, refl, ◌<◌, none, some, [], ◌++◌, map, length}
use tc_ledger.Py.Result.{ok, err, value_error, overflow_error}
use tc_ledger.Py.Int.{pos}
use tc_ledger.Py.Str.{Str, Bytes, IsBytes, codes}
use tc_ledger.Py.Hex.{hex}
use tc_ledger.Py.Text.{
  ascii_lower, is_space, lstrip, rstrip, strip, decimal_from, decimal, is_hex_digit,
}
use tc_ledger.Py.Text.Runtime.{Runtime}
use tc_ledger.Py.Json.{Fields, null, bool, int, str, dict, field, end, infinity}
use tc_ledger.Settlement.Normalize.{
  normalize_text, normalize_hex, normalize_address, truncate_float, normalize_amount_str,
}
use tc_ledger.Settlement.Normalize.Shape.{
  normalize_hex-hex, normalize_hex_idem, normalize_address-hex,
}
use tc_ledger.Settlement.Types.{SettlementEvidence}
use tc_ledger.Settlement.Parse.{
  parse_ts, settlement_status_of, zero_address, parse_settlement_fields, parse_settlement_evidence,
}
use tc_ledger.Settlement.Sound.{IsDigestText, IsAddressText, parse_settlement_evidence-shape}

-- `float` gives an infinity for every text, `int` fails.
abbrev pub toy_runtime : Runtime
toy_runtime = record {
  lower = map ascii_lower;
  lower_ascii = λ s h. refl;
  show = λ j. [];
  parse_float = λ s. ok infinity;
  int_floordiv = λ f n. err overflow_error;
  parse_int = λ b s. err value_error;
}

abbrev odd_text : Str
odd_text = codes " 0XaBC\n"

odd_text_normal : normalize_hex (str odd_text) ≡ some (codes "0x0abc")
unfolding normalize_hex normalize_text is_space lstrip rstrip strip is_hex_digit ascii_lower
odd_text_normal = refl

normalize_hex_idem_example : normalize_hex (str (codes "0x0abc")) ≡ some (codes "0x0abc")
normalize_hex_idem_example = normalize_hex_idem (str odd_text) (codes "0x0abc") odd_text_normal

normalize_hex-hex_example :
    (b : Bytes) × IsBytes b × (codes "0x0abc" ≡ codes "0x" ++ hex b) × (0 < length b)
normalize_hex-hex_example = normalize_hex-hex (str odd_text) (codes "0x0abc") odd_text_normal

abbrev address_text : Str
address_text = codes "7E5F4552091A69125D5DFCB7B8C2659029395BDF"

address_normal :
    normalize_address (str address_text) ≡ some (codes "0x7e5f4552091a69125d5dfcb7b8c2659029395bdf")
unfolding normalize_address normalize_hex normalize_text is_space lstrip rstrip strip is_hex_digit
    ascii_lower
address_normal = refl

normalize_address-hex_example : IsAddressText (codes "0x7e5f4552091a69125d5dfcb7b8c2659029395bdf")
normalize_address-hex_example =
    normalize_address-hex (str address_text) (codes "0x7e5f4552091a69125d5dfcb7b8c2659029395bdf")
      address_normal

-- The amount `1e999` is no error value: `int(float(s))` raises.
infinite_amount_raises : normalize_amount_str toy_runtime (str (codes "1e999")) ≡ err overflow_error
unfolding normalize_amount_str truncate_float is_space lstrip rstrip strip
infinite_amount_raises = refl

bool_amount : normalize_amount_str toy_runtime (bool true) ≡ ok (some (codes "True"))
unfolding normalize_amount_str
bool_amount = refl

abbrev pub digest_text : Str
digest_text = codes "0x0707070707070707070707070707070707070707070707070707070707070707"

-- Evidence that says of itself that it is from receipts.
abbrev pub attested_fields : Fields
attested_fields = field (codes "contractId") (str digest_text) (
    field (codes "hashlock") (str digest_text) (
      field (codes "amount") (int (pos 12)) (
        field (codes "provenance") (str (codes "rpc_receipt_verified"))
          (field (codes "status") (str (codes "LOCKED")) end))))

abbrev pub attested_evidence : SettlementEvidence
attested_evidence = record {
  rail = codes "evm-htlc";
  contract_id = some digest_text;
  amount = codes "12";
  asset = some zero_address;
  hashlock = some digest_text;
  settlement_status = codes "locked";
  provenance = codes "self_attested";
  payer_address = none;
  payee_address = none;
  contract_address = none;
  lock_timestamp = none;
  refund_timestamp = none;
  claim_timestamp = none;
  secret = none;
  lock_tx = null;
  claim_tx = null;
  refund_tx = null;
  block_number = none;
  chain_id = none;
  erc20_transfer_verified = none;
  extra = attested_fields;
}

pub attested_parsed :
    parse_settlement_evidence toy_runtime (dict attested_fields) ≡ ok attested_evidence
unfolding parse_settlement_evidence parse_settlement_fields normalize_amount_str normalize_address
    normalize_hex normalize_text settlement_status_of parse_ts is_space lstrip rstrip strip
    is_hex_digit ascii_lower decimal decimal_from
attested_parsed = refl

parse_settlement_evidence-shape_example :
    (attested_evidence.provenance ≡ codes "self_attested")
    × ((c : Str) × (attested_evidence.contract_id ≡ some c) × IsDigestText c)
    × ((l : Str) × (attested_evidence.hashlock ≡ some l) × IsDigestText l)
    × ((a : Str) × (attested_evidence.asset ≡ some a) × IsAddressText a)
parse_settlement_evidence-shape_example =
    parse_settlement_evidence-shape toy_runtime (dict attested_fields) attested_evidence
      attested_parsed
