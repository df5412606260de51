-- ===== src/Evm/Event.antt =====
-- `parse_and_verify_htlc_event` of src/tc_ledger/evm_verifier.py.
pub mod Sound
pub mod Token
pub mod Expected
pub mod Typed
use tc_ledger.Prelude.{
  Bool, true, false, not, ◌&&◌, ◌||◌, Option, none, some, List, [], ◌∷◌, ◌++◌, if◌then◌else◌, ltb,
  length, take, drop,
}
use tc_ledger.Py.Result.{Result, ok, err, evm_verification_error, raise_if, ◌>>=◌, ◌>>◌}
use tc_ledger.Py.Int.{ℤ, pos, int_eq}
use tc_ledger.Py.Str.{Str, codes, same}
use tc_ledger.Py.Hex.{hex}
use tc_ledger.Py.Text.{strip, starts_with, is_digits, int_text}
use tc_ledger.Py.Text.Runtime.{Runtime, text_of}
use tc_ledger.Py.Json.{
  Json, Fields, Items, null, bool, int, float, str, list, dict, nil, cons, get, get_default,
  bool_int,
}
use tc_ledger.Crypto.Keccak.{keccak256}
use tc_ledger.Settlement.Normalize.{normalize_hex, normalize_address}
use tc_ledger.Settlement.Parse.{int_of}
use tc_ledger.Cross.Terms.{same_lower, same_lower_some}
use tc_ledger.Cross.Binding.{is_token, normalize_optional}
use tc_ledger.Evm.Transfer.{
  slice, topic_address, logs_of, is_nil, prepend, parse_and_verify_erc20_transfer,
}
use tc_ledger.Evm.Rpc.{is_0x_digits}

abbrev pub locked_topic : Str
locked_topic =
    codes "0x"
    ++ hex (keccak256 (codes "Locked(bytes32,address,address,address,uint256,bytes32,uint64)"))

abbrev pub claimed_topic : Str
claimed_topic = codes "0x" ++ hex (keccak256 (codes "Claimed(bytes32,bytes32)"))

abbrev pub refunded_topic : Str
refunded_topic = codes "0x" ++ hex (keccak256 (codes "Refunded(bytes32)"))

-- What a Locked event has beside the common fields.
pub record LockTerms : Type 0 where
  pub payer_address : Str
  pub payee_address : Str
  pub token : Option Str
  pub amount : Str
  pub hashlock : Option Str
  pub refund_timestamp : ℤ
  pub erc20_transfer_verified : Option Bool

-- `event_type`, with the fields of that type; a Claimed event has a secret.
pub data Details : Type 0 where
  locked : LockTerms → Details
  claimed : Option Str → Details
  refunded : Details

pub record HtlcEvent : Type 0 where
  pub contract_id : Option Str
  pub contract_address : Str
  pub block_number : ℤ
  pub tx_hash : Json
  pub details : Details

abbrev pub event_type : Details → Str
event_type (locked terms) = codes "Locked"
event_type (claimed secret) = codes "Claimed"
event_type refunded = codes "Refunded"

-- normalize_hex(x) if x else None
abbrev pub normalize_id : Option Str → Option Str
normalize_id none = none
normalize_id (some s) = normalize_hex (str s)

-- None is missing, several are ambiguous.
abbrev pub only_event : List HtlcEvent → Result HtlcEvent
only_event (e ∷ []) = ok e
only_event _ = err evm_verification_error

module _ (rt : Runtime) where
  -- `int(status_raw, 16)` or `int(status_raw)`
  abbrev pub status_text : Str → Result ℤ
  status_text s = if starts_with s (codes "0x") then rt.parse_int 16 s else rt.parse_int 10 s

  unfoldable pub status_of : Json → Result ℤ
  status_of (bool b) = ok (bool_int b)
  status_of (int n) = ok n
  status_of (str s) = do
    raise_if (not (is_0x_digits (strip s) || is_digits (strip s))) evm_verification_error
    status_text s
  status_of _ = err evm_verification_error

  unfoldable pub block_of : Json → Result ℤ
  block_of (str s) = if starts_with s (codes "0x") then rt.parse_int 16 s else rt.parse_int 10 s
  block_of j = int_of rt j

  -- Two addresses that are there, and differ.
  abbrev pub differ : Option Str → Option Str → Bool
  differ (some a) (some b) = not (same_lower rt a b)
  differ _ _ = false

  -- Whether the log's address is the expected one, if there is one.
  abbrev pub address_matches_expected : Option Str → Str → Bool
  address_matches_expected none address = true
  address_matches_expected (some expected) address = same_lower rt address expected

  -- `data_hex`
  abbrev pub data_hex_of : Json → Str
  data_hex_of j =
      let s = rt.lower (text_of rt j) in if starts_with s (codes "0x") then drop 2 s else s

  module _ (receipt : Fields) where
    -- The transfer that a Locked event of a token needs in the same receipt.
    unfoldable pub token_verified : Option Str → Str → Str → Str → Result (Option Bool)
    token_verified none payer address amount = ok none
    token_verified (some token) payer address amount =
        let verified = (do
          _ ←
              parse_and_verify_erc20_transfer rt receipt (str token) (str payer) (str address)
                (str amount)
          ok (some true)) in
        if is_token rt (some token) then verified else ok none

    unfoldable pub locked_event :
        Str → Str → ℤ → Json → Option Str → Option Str → Result (Option HtlcEvent)
    locked_event address data_hex block_number topic1 (some payer) (some payee) =
        let decoded = (do
          amount ← rt.parse_int 16 (slice 64 128 data_hex)
          refund_ts ← rt.parse_int 16 (slice 192 256 data_hex)
          let token = normalize_address (str (codes "0x" ++ slice 24 64 data_hex))
          verified ← token_verified token payer address (int_text amount)
          ok (
              some (record {
                contract_id = normalize_hex topic1;
                contract_address = address;
                block_number = block_number;
                tx_hash = get receipt (codes "transactionHash");
                details = locked (record {
                  payer_address = payer;
                  payee_address = payee;
                  token = token;
                  amount = int_text amount;
                  hashlock = normalize_hex (str (codes "0x" ++ slice 128 192 data_hex));
                  refund_timestamp = refund_ts;
                  erc20_transfer_verified = verified;
                });
              }))) in
        if ltb (length data_hex) 256 then ok none else decoded
    locked_event address data_hex block_number topic1 _ _ = ok none

    unfoldable pub claimed_event : Str → Str → ℤ → Json → Option HtlcEvent
    claimed_event address data_hex block_number topic1 =
        if ltb (length data_hex) 64
        then none
        else some (record {
          contract_id = normalize_hex topic1;
          contract_address = address;
          block_number = block_number;
          tx_hash = get receipt (codes "transactionHash");
          details = claimed (normalize_hex (str (codes "0x" ++ take 64 data_hex)));
        })

    abbrev pub refunded_event : Str → ℤ → Json → HtlcEvent
    refunded_event address block_number topic1 = record {
      contract_id = normalize_hex topic1;
      contract_address = address;
      block_number = block_number;
      tx_hash = get receipt (codes "transactionHash");
      details = refunded;
    }

    -- Each event has a number of topics that it needs.
    abbrev pub locked_topics : Str → Str → ℤ → Items → Result (Option HtlcEvent)
    locked_topics address data_hex block_number (cons topic1 (cons topic2 (cons topic3 rest))) =
        locked_event address data_hex block_number topic1 (topic_address topic2)
          (topic_address topic3)
    locked_topics address data_hex block_number _ = ok none

    abbrev pub claimed_topics : Str → Str → ℤ → Items → Option HtlcEvent
    claimed_topics address data_hex block_number (cons topic1 rest) =
        claimed_event address data_hex block_number topic1
    claimed_topics address data_hex block_number nil = none

    abbrev pub refunded_topics : Str → ℤ → Items → Option HtlcEvent
    refunded_topics address block_number (cons topic1 rest) =
        some (refunded_event address block_number topic1)
    refunded_topics address block_number nil = none

    -- The event of a log of the right address, by its first topic.
    unfoldable pub event_of_topics : Str → Json → Json → Result (Option HtlcEvent)
    event_of_topics address data_raw (list (cons topic0 topics)) = do
      block_number ← block_of (get_default receipt (codes "blockNumber") (str (codes "0")))
      let topic = rt.lower (text_of rt topic0)
      let data_hex = data_hex_of data_raw
      (if same topic locked_topic
          then locked_topics address data_hex block_number topics
          else if same topic claimed_topic
          then ok (claimed_topics address data_hex block_number topics)
          else if same topic refunded_topic
          then ok (refunded_topics address block_number topics)
          else ok none)
    event_of_topics address data_raw _ = ok none

    module _ (expected_htlc : Option Str) where
      unfoldable pub event_at : Option Str → Fields → Result (Option HtlcEvent)
      event_at none log = ok none
      event_at (some address) log =
          if address_matches_expected expected_htlc address
          then event_of_topics address (get_default log (codes "data") (str []))
              (get_default log (codes "topics") (list nil))
          else ok none

      -- The body of the loop.
      unfoldable pub event_of : Json → Result (Option HtlcEvent)
      event_of (dict log) = event_at (normalize_address (get log (codes "address"))) log
      event_of _ = ok none

      -- The loop over the logs.
      unfoldable pub events_of : Items → Result (List HtlcEvent)
      events_of nil = ok []
      events_of (cons log logs) = do
        first ← event_of log
        rest ← events_of logs
        ok (prepend first rest)

  -- The two filters: an expected contract or type that is None or empty filters nothing.
  abbrev pub id_matches : Option Str → HtlcEvent → Bool
  id_matches none e = true
  id_matches (some id) e = same_lower_some rt id e.contract_id

  abbrev pub type_matches : Option Str → HtlcEvent → Bool
  type_matches (some (c ∷ s)) e = same_lower rt (event_type e.details) (c ∷ s)
  type_matches _ e = true

  unfoldable pub matching : Option Str → Option Str → List HtlcEvent → List HtlcEvent
  matching id type [] = []
  matching id type (e ∷ es) =
      let rest = matching id type es in
      if id_matches id e && type_matches type e then e ∷ rest else rest

  unfoldable pub parse_and_verify_htlc_event :
      Fields → Option Str → Option Str → Option Str → Result HtlcEvent
  parse_and_verify_htlc_event receipt expected_htlc_address expected_contract_id
        expected_event_type =
      do
        status ← status_of (get receipt (codes "status"))
        raise_if (not (int_eq status (pos 1))) evm_verification_error
        let expected_htlc = normalize_optional expected_htlc_address
        raise_if (differ (normalize_address (get receipt (codes "to"))) expected_htlc)
            evm_verification_error
        let logs = logs_of (get_default receipt (codes "logs") (list nil))
        raise_if (is_nil logs) evm_verification_error
        found ← events_of receipt expected_htlc logs
        only_event (matching (normalize_id expected_contract_id) expected_event_type found)
