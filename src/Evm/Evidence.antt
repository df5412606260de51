-- ===== src/Evm/Evidence.antt =====
-- `build_rpc_settlement_evidence` of src/tc_ledger/evm_verifier.py.
pub mod Parts
pub mod Outcome
pub mod Lifecycle
pub mod Sound
use tc_ledger.Prelude.{
  Bool, true, false, not, ◌&&◌, ◌||◌, Option, none, some, [], ◌∷◌, if◌then◌else◌,
}
use tc_ledger.Py.Result.{Result, ok, err, evm_verification_error, key_error, raise_if, ◌>>=◌, ◌>>◌}
use tc_ledger.Py.Int.{ℤ, int_eq, int_le}
use tc_ledger.Py.Str.{Str, codes}
use tc_ledger.Py.Text.Runtime.{Runtime}
use tc_ledger.Py.Json.{Json, Fields, null, str, end}
use tc_ledger.Settlement.Types.{SettlementEvidence}
use tc_ledger.Settlement.Parse.{or_raise}
use tc_ledger.Cross.Terms.{nonempty_some}
use tc_ledger.Evm.Rpc.{fetch_chain_id, fetch_transaction_receipt}
use tc_ledger.Evm.Event.{
  LockTerms, Details, HtlcEvent, locked, claimed, refunded, parse_and_verify_htlc_event,
}

-- `a if a else b`
abbrev pub or_expected : Option Str → Option Str → Option Str
or_expected (some (c ∷ s)) b = some (c ∷ s)
or_expected _ b = b

-- The keys that only a Locked event has.
abbrev pub lock_terms : Details → Result LockTerms
lock_terms (locked terms) = ok terms
lock_terms _ = err key_error

-- claim_event.get("secret")
abbrev pub secret_of : Details → Option Str
secret_of (claimed secret) = secret
secret_of _ = none

abbrev pub json_text : Option Str → Json
json_text none = null
json_text (some s) = str s

abbrev pub is_some {ℓ} : {A : Type ℓ} → Option A → Bool
is_some none = false
is_some (some a) = true

-- The contract of a later event, if the one before had none.
abbrev pub later_id : Option Str → Option HtlcEvent → Option Str
later_id id none = id
later_id id (some e) = or_expected id e.contract_id

-- `if event: if event["block_number"] < lock_event["block_number"]`
abbrev pub precedes : Option HtlcEvent → HtlcEvent → Bool
precedes none lock = false
precedes (some e) lock = not (int_le lock.block_number e.block_number)

abbrev pub lifecycle_status : Option HtlcEvent → Option HtlcEvent → Str
lifecycle_status (some c) refund = codes "claimed"
lifecycle_status none (some r) = codes "refunded"
lifecycle_status none none = codes "locked"

abbrev pub claim_secret : Option HtlcEvent → Option Str
claim_secret none = none
claim_secret (some e) = secret_of e.details

abbrev pub last_block : Option HtlcEvent → Option HtlcEvent → HtlcEvent → ℤ
last_block (some c) refund lock = c.block_number
last_block none (some r) lock = r.block_number
last_block none none lock = lock.block_number

-- The fields of the evidence.
abbrev pub evidence_from :
    Option Str
    → Option Str
    → Option Str
    → Option Str
    → ℤ
    → HtlcEvent
    → Option HtlcEvent
    → Option HtlcEvent
    → LockTerms
    → SettlementEvidence
evidence_from lock_tx claim_tx refund_tx contract_id chain_id lock claim refund terms = record {
  rail = codes "evm-htlc";
  contract_id = contract_id;
  amount = terms.amount;
  asset = terms.token;
  hashlock = terms.hashlock;
  settlement_status = lifecycle_status claim refund;
  provenance = codes "rpc_receipt_verified";
  payer_address = some terms.payer_address;
  payee_address = some terms.payee_address;
  contract_address = some lock.contract_address;
  lock_timestamp = none;
  refund_timestamp = some terms.refund_timestamp;
  claim_timestamp = none;
  secret = claim_secret claim;
  lock_tx = json_text lock_tx;
  claim_tx = json_text claim_tx;
  refund_tx = json_text refund_tx;
  block_number = some (last_block claim refund lock);
  chain_id = some chain_id;
  erc20_transfer_verified = terms.erc20_transfer_verified;
  extra = end;
}

-- The lifecycle checks and the evidence, from the events.
unfoldable pub evidence_of :
    Option Str
    → Option Str
    → Option Str
    → Option Str
    → ℤ
    → HtlcEvent
    → Option HtlcEvent
    → Option HtlcEvent
    → Result SettlementEvidence
evidence_of lock_tx claim_tx refund_tx contract_id chain_id lock claim refund = do
  raise_if (is_some claim && is_some refund) evm_verification_error
  raise_if (precedes claim lock) evm_verification_error
  raise_if (precedes refund lock) evm_verification_error
  terms ← lock_terms lock.details
  ok (evidence_from lock_tx claim_tx refund_tx contract_id chain_id lock claim refund terms)

module _ (rt : Runtime) (post : Str → Json → Result Json) (rpc_url : Str) where
  -- A receipt is fetched, and its only matching event is taken.
  unfoldable pub fetch_event : Str → Option Str → Option Str → Str → Result HtlcEvent
  fetch_event tx htlc id event_type = do
    receipt ← fetch_transaction_receipt post rt rpc_url tx
    parse_and_verify_htlc_event rt receipt htlc id (some event_type)

  -- The same for a transaction that may be None or empty.
  unfoldable pub fetch_optional_event :
      Option Str → Option Str → Option Str → Str → Result (Option HtlcEvent)
  fetch_optional_event (some (c ∷ tx)) htlc id event_type = do
    e ← fetch_event (c ∷ tx) htlc id event_type
    ok (some e)
  fetch_optional_event _ htlc id event_type = ok none

  -- The address of a Locked event is never empty, so the later events keep it.
  unfoldable pub build_rpc_settlement_evidence :
      Option Str
      → Option Str
      → Option Str
      → Option Str
      → Option Str
      → Option ℤ
      → Result SettlementEvidence
  build_rpc_settlement_evidence lock_tx claim_tx refund_tx expected_htlc_address
        expected_contract_id expected_chain_id =
      do
        raise_if
            (not (nonempty_some lock_tx || (nonempty_some claim_tx || nonempty_some refund_tx)))
            evm_verification_error
        raise_if (not (nonempty_some lock_tx)) evm_verification_error
        tx ← or_raise evm_verification_error lock_tx
        expected_chain ← or_raise evm_verification_error expected_chain_id
        chain_id ← fetch_chain_id post rt rpc_url
        raise_if (not (int_eq chain_id expected_chain)) evm_verification_error
        lock ← fetch_event tx expected_htlc_address expected_contract_id (codes "Locked")
        let htlc = some lock.contract_address
        claim ←
            fetch_optional_event claim_tx htlc (or_expected lock.contract_id expected_contract_id)
              (codes "Claimed")
        let claimed_id = later_id lock.contract_id claim
        refund ←
            fetch_optional_event refund_tx htlc (or_expected claimed_id expected_contract_id)
              (codes "Refunded")
        evidence_of lock_tx claim_tx refund_tx (later_id claimed_id refund) chain_id lock claim
            refund
