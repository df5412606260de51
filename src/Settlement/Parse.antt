-- ===== src/Settlement/Parse.antt =====
-- `parse_settlement_evidence` of src/tc_ledger/cross_verify.py.
use tc_ledger.Prelude.{
  ◌*◌, ◌/◌, ◌^◌, Bool, true, false, ◌||◌, Option, none, some, [], ◌==◌, ltb, if◌then◌else◌, length,
}
use tc_ledger.Py.Result.{Result, ok, err, type_error, value_error, Exception, raise_if, ◌>>=◌, ◌>>◌}
use tc_ledger.Py.Int.{ℤ, pos, negsuc}
use tc_ledger.Py.Str.{Str, codes, same}
use tc_ledger.Py.Text.{strip, is_digits}
use tc_ledger.Py.Text.Runtime.{Runtime, text_of}
use tc_ledger.Py.Json.{
  Json, Fields, Float, null, bool, int, float, str, dict, dyadic, infinity, bool_int, get,
  get_default, truthy,
}
use tc_ledger.Settlement.Normalize.{
  normalize_hex, normalize_address, normalize_amount_str, of_length, truncate_float,
}
use tc_ledger.Settlement.Types.{SettlementEvidence}

-- `if x is None: raise e`
abbrev pub or_raise {ℓ} : {A : Type ℓ} → Exception → Option A → Result A
or_raise e none = err e
or_raise e (some a) = ok a

-- Three spellings of a key, the first that is there; None if none is.
abbrev pub first_of : Fields → Str → Str → Str → Json
first_of fields a b c = get_default fields a (get_default fields b (get fields c))

-- int(x), for what JSON has.
unfoldable pub int_of : Runtime → Json → Result ℤ
int_of rt (int n) = ok n
int_of rt (bool b) = ok (bool_int b)
int_of rt (float f) = truncate_float f
int_of rt (str s) = rt.parse_int 10 s
int_of rt _ = err type_error

-- int(x) if x is not None else None
abbrev pub int_of_optional : Runtime → Json → Result (Option ℤ)
int_of_optional rt null = ok none
int_of_optional rt j = do n ← int_of rt j; ok (some n)

-- Beyond 10 ^ 12 a time is in milliseconds.
abbrev pub is_milliseconds : ℤ → Bool
is_milliseconds (pos n) = ltb 1000000000000 n
is_milliseconds (negsuc n) = false

abbrev pub seconds : ℤ → ℤ
seconds (pos n) = if ltb 1000000000000 n then pos (n / 1000) else pos n
seconds n = n

abbrev pub float_is_milliseconds : Float → Bool
float_is_milliseconds (dyadic (pos m) k) = ltb (1000000000000 * 2 ^ k) m
float_is_milliseconds infinity = true
float_is_milliseconds _ = false

unfoldable pub parse_ts : Runtime → Json → Result (Option ℤ)
parse_ts rt (bool b) = ok (some (bool_int b))
parse_ts rt (int n) = ok (some (seconds n))
parse_ts rt (float f) = do
  n ← (if float_is_milliseconds f then rt.int_floordiv f 1000 else truncate_float f)
  ok (some n)
parse_ts rt (str s) =
    if is_digits (strip s)
    then (do n ← rt.parse_int 10 (strip s); ok (some (seconds n)))
    else ok none
parse_ts rt _ = ok none

unfoldable pub settlement_status_of : Str → Str
settlement_status_of status_raw =
    if same status_raw (codes "claimed-on-rail") || same status_raw (codes "claimed")
    then codes "claimed"
    else if same status_raw (codes "refunded-on-rail") || same status_raw (codes "refunded")
    then codes "refunded"
    else if same status_raw (codes "locked")
        || same status_raw (codes "cancelled")
        || same status_raw (codes "unknown")
    then status_raw
    else codes "unknown"

abbrev pub bool_of_optional : Json → Option Bool
bool_of_optional null = none
bool_of_optional j = some (truthy j)

abbrev pub zero_address : Str
zero_address = codes "0x0000000000000000000000000000000000000000"

unfoldable pub parse_settlement_fields : Runtime → Fields → Result SettlementEvidence
parse_settlement_fields rt fields = do
  let rail = strip (
      text_of rt (
        get_default fields (codes "rail")
          (get_default fields (codes "settlement_rail") (str (codes "evm-htlc")))))
  raise_if (length rail == 0) value_error
  contract_id ← or_raise value_error (
      of_length 66 (
        normalize_hex (
          get_default fields (codes "contract_id") (
            get_default fields (codes "contractId")
              (get_default fields (codes "contract") (str []))))))
  asset ← or_raise value_error (
      normalize_address (
        get_default fields (codes "asset") (get_default fields (codes "token") (str zero_address))))
  amount? ← normalize_amount_str rt (get_default fields (codes "amount") (str (codes "0")))
  amount ← or_raise value_error amount?
  hashlock ← or_raise value_error (
      of_length 66 (
        normalize_hex (
          get_default fields (codes "hashlock") (get_default fields (codes "statement") (str [])))))
  let status = settlement_status_of (
      rt.lower (
        text_of rt (
          get_default fields (codes "settlement_status")
            (get_default fields (codes "status") (str (codes "unknown"))))))
  lock_ts ←
      parse_ts rt
        (first_of fields (codes "lock_timestamp") (codes "lockTimestamp") (codes "locked_at"))
  refund_ts ←
      parse_ts rt (
        first_of fields (codes "refund_timestamp") (codes "refundTimestamp") (codes "refund_after"))
  claim_ts ←
      parse_ts rt
        (first_of fields (codes "claim_timestamp") (codes "claimTimestamp") (codes "claimed_at"))
  block_number ←
      int_of_optional rt
        (get_default fields (codes "block_number") (get fields (codes "blockNumber")))
  chain_id ←
      int_of_optional rt (get_default fields (codes "chain_id") (get fields (codes "chainId")))
  ok (record {
    rail = rail;
    contract_id = some contract_id;
    amount = amount;
    asset = some asset;
    hashlock = some hashlock;
    settlement_status = status;
    provenance = codes "self_attested";
    payer_address =
        normalize_address
          (first_of fields (codes "payer_address") (codes "payerAddress") (codes "payer"));
    payee_address =
        normalize_address
          (first_of fields (codes "payee_address") (codes "payeeAddress") (codes "payee"));
    contract_address =
        normalize_address
          (first_of fields (codes "contract_address") (codes "contractAddress") (codes "contract"));
    lock_timestamp = lock_ts;
    refund_timestamp = refund_ts;
    claim_timestamp = claim_ts;
    secret =
        normalize_hex
          (first_of fields (codes "secret") (codes "preimage") (codes "secret_revealed"));
    lock_tx = first_of fields (codes "lock_tx") (codes "lockTx") (codes "lock_ref");
    claim_tx = first_of fields (codes "claim_tx") (codes "claimTx") (codes "claim_ref");
    refund_tx = first_of fields (codes "refund_tx") (codes "refundTx") (codes "refund_ref");
    block_number = block_number;
    chain_id = chain_id;
    erc20_transfer_verified = bool_of_optional (get fields (codes "erc20_transfer_verified"));
    extra = fields;
  })

unfoldable pub parse_settlement_evidence : Runtime → Json → Result SettlementEvidence
parse_settlement_evidence rt (dict fields) = parse_settlement_fields rt fields
parse_settlement_evidence rt _ = err value_error
