-- ===== src/Evm/Transfer.antt =====
-- `parse_and_verify_erc20_transfer` of src/tc_ledger/evm_verifier.py.
pub mod Sound
use tc_ledger.Prelude.{
  ℕ, ◌-◌, Bool, true, false, not, ◌&&◌, Option, none, some, List, [], ◌∷◌, ◌++◌, ◌==◌,
  if◌then◌else◌, length, take, drop,
}
use tc_ledger.Py.Result.{Result, ok, err, evm_verification_error, raise_if, ◌>>=◌, ◌>>◌}
use tc_ledger.Py.Int.{ℤ}
use tc_ledger.Py.Str.{Str, codes, same}
use tc_ledger.Py.Text.{strip, drop_0x, int_text}
use tc_ledger.Py.Text.Runtime.{Runtime, text_of}
use tc_ledger.Py.Json.{
  Json, Fields, Items, null, bool, int, str, list, dict, nil, cons, get, get_default,
}
use tc_ledger.Settlement.Normalize.{
  normalize_hex, normalize_address, normalize_amount_str, of_length, none_for_value_error,
}
use tc_ledger.Settlement.Parse.{or_raise, zero_address}
use tc_ledger.Cross.Terms.{same_lower, same_lower_some}

-- What is expected of a transfer, normalized.
pub record Expected : Type 0 where
  pub token : Str
  pub payer : Str
  pub htlc : Str
  pub amount : Str

pub record Transfer : Type 0 where
  pub token : Str
  pub sender : Str
  pub recipient : Str
  pub amount : Str

abbrev pub transfer_topic : Str
transfer_topic = codes "0xddf252ad1be2c89b69c2b068fc378daa952ba7f163c4a11628f55a4df523b3ef"

-- s[start:stop], for start <= stop
abbrev pub slice : ℕ → ℕ → Str → Str
slice start stop s = take (stop - start) (drop start s)

-- `"0x" + topic[26:]`, where `topic[2:26]` is all zeros
abbrev pub unpadded : Option Str → Option Str
unpadded none = none
unpadded (some h) =
    if same (slice 2 26 h) (codes "000000000000000000000000")
    then some (codes "0x" ++ drop 26 h)
    else none

-- The address that an indexed topic holds.
unfoldable pub topic_address : Json → Option Str
topic_address topic = unpadded (of_length 66 (normalize_hex topic))

-- x == s, where x may be None
abbrev pub same_some : Option Str → Str → Bool
same_some none s = false
same_some (some t) s = same t s

-- `norm_token` unless it is None or the zero address
abbrev pub nonzero : Runtime → Option Str → Option Str
nonzero rt none = none
nonzero rt (some a) = if same (rt.lower a) zero_address then none else some a

-- The elements of `receipt["logs"]`; a value that is no list is taken for an empty one.
abbrev pub logs_of : Json → Items
logs_of (list items) = items
logs_of _ = nil

abbrev pub is_nil : Items → Bool
is_nil nil = true
is_nil (cons j items) = false

abbrev pub prepend {ℓ} : {A : Type ℓ} → Option A → List A → List A
prepend none rest = rest
prepend (some t) rest = t ∷ rest

abbrev pub first_transfer : List Transfer → Result Transfer
first_transfer [] = err evm_verification_error
first_transfer (t ∷ ts) = ok t

module _ (rt : Runtime) where
  -- `str(int(data_clean, 16))`, and 0 for no digits
  abbrev pub hex_amount : Str → Result (Option Str)
  hex_amount [] = ok (some (codes "0"))
  hex_amount (c ∷ s) = none_for_value_error (do n ← rt.parse_int 16 (c ∷ s); ok (int_text n))

  -- `amount_val`, or none where the loop goes on.
  unfoldable pub data_amount : Json → Result (Option Str)
  data_amount (bool b) = ok (some (text_of rt (bool b)))
  data_amount (int n) = ok (some (int_text n))
  data_amount (str s) = hex_amount (drop_0x (strip s))
  data_amount _ = ok none

  module _ (want : Expected) where
    unfoldable pub checked_amount : Str → Str → Str → Option Str → Result (Option Transfer)
    checked_amount address sender recipient none = ok none
    checked_amount address sender recipient (some amount) = do
      norm ← normalize_amount_str rt (str amount)
      ok (
          if same_some norm want.amount
          then some
              (record { token = address; sender = sender; recipient = recipient; amount = amount })
          else none)

    unfoldable pub checked_parties : Str → Json → Option Str → Option Str → Result (Option Transfer)
    checked_parties address data_raw (some sender) (some recipient) =
        let checked = (do
          amount ← data_amount data_raw
          checked_amount address sender recipient amount) in
        if same_lower rt sender want.payer && same_lower rt recipient want.htlc
        then checked
        else ok none
    checked_parties address data_raw _ _ = ok none

    unfoldable pub checked_topics : Str → Json → Json → Result (Option Transfer)
    checked_topics address data_raw (list (cons topic0 (cons topic1 (cons topic2 rest)))) =
        if same (rt.lower (text_of rt topic0)) (rt.lower transfer_topic)
        then checked_parties address data_raw (topic_address topic1) (topic_address topic2)
        else ok none
    checked_topics address data_raw _ = ok none

    unfoldable pub checked_address : Option Str → Fields → Result (Option Transfer)
    checked_address none log = ok none
    checked_address (some address) log =
        if same_lower rt address want.token
        then checked_topics address (get log (codes "data"))
            (get_default log (codes "topics") (list nil))
        else ok none

    -- The body of the loop.
    unfoldable pub transfer_of : Json → Result (Option Transfer)
    transfer_of (dict log) = checked_address (normalize_address (get log (codes "address"))) log
    transfer_of _ = ok none

    -- The loop over the logs.
    unfoldable pub transfers : Items → Result (List Transfer)
    transfers nil = ok []
    transfers (cons log logs) = do
      first ← transfer_of log
      rest ← transfers logs
      ok (prepend first rest)

  unfoldable pub parse_and_verify_erc20_transfer :
      Fields → Json → Json → Json → Json → Result Transfer
  parse_and_verify_erc20_transfer receipt token_address expected_payer expected_htlc_address
        expected_amount =
      do
        amount? ← normalize_amount_str rt expected_amount
        token ← or_raise evm_verification_error (nonzero rt (normalize_address token_address))
        payer ← or_raise evm_verification_error (normalize_address expected_payer)
        htlc ← or_raise evm_verification_error (normalize_address expected_htlc_address)
        amount ← or_raise evm_verification_error amount?
        let logs = logs_of (get_default receipt (codes "logs") (list nil))
        raise_if (is_nil logs) evm_verification_error
        found ←
            transfers (record { token = token; payer = payer; htlc = htlc; amount = amount }) logs
        first_transfer found
