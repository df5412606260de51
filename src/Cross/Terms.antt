-- ===== src/Cross/Terms.antt =====
-- The cross-checks A to G of `verify_cross_layer` in src/tc_ledger/cross_verify.py: each gives its
-- outcome and what it appends to `terms_failures`.
use tc_ledger.Prelude.{
  ℕ, ◌+◌, ◌-◌, ◌/◌, Bool, true, false, not, ◌&&◌, ◌||◌, Option, none, some, List, [], ◌∷◌, ◌++◌,
  ltb, if◌then◌else◌, length, ◌==◌,
}
use tc_ledger.Py.Result.{Result, ok, err, type_error}
use tc_ledger.Py.Int.{ℤ, pos, negsuc, int_le}
use tc_ledger.Py.Str.{Str, Bytes, codes, same}
use tc_ledger.Py.Hex.{hex, fromhex}
use tc_ledger.Py.Text.{drop_0x}
use tc_ledger.Py.Text.Runtime.{Runtime}
use tc_ledger.Py.Json.{Json, null, bool, int, float, truthy}
use tc_ledger.Merkle.Hash.{Sha256}
use tc_ledger.Settlement.Types.{SettlementEvidence, AgreementState}
use tc_ledger.Cross.Types.{
  Reason, secret_digest_mismatch, secret_undecodable, secret_not_supplied, lock_not_before_refund,
  claim_not_before_refund, claimed_with_refund, refunded_with_claim, SecretStatus, Ordering,
}

-- What is appended where a check fails.
abbrev pub unless : Bool → Reason → List Reason
unless b reason = if b then [] else reason ∷ []

-- a.lower() == b.lower()
abbrev pub same_lower : Runtime → Str → Str → Bool
same_lower rt a b = same (rt.lower a) (rt.lower b)

abbrev pub nonempty : Str → Bool
nonempty s = not (length s == 0)

-- The same for a value that may be None: that has no `lower`, and is refused before.
abbrev pub same_lower_some : Runtime → Str → Option Str → Bool
same_lower_some rt a none = false
same_lower_some rt a (some b) = same_lower rt a b

abbrev pub nonempty_some : Option Str → Bool
nonempty_some none = false
nonempty_some (some s) = nonempty s

unfoldable pub contract_match : Runtime → AgreementState → SettlementEvidence → Bool
contract_match rt agreement settlement =
    same_lower_some rt agreement.contract_id settlement.contract_id

unfoldable pub hashlock_match : Runtime → AgreementState → SettlementEvidence → Bool
hashlock_match rt agreement settlement =
    nonempty agreement.hashlock
    && (nonempty_some settlement.hashlock
        && same_lower_some rt agreement.hashlock settlement.hashlock)

unfoldable pub amount_match : AgreementState → SettlementEvidence → Bool
amount_match agreement settlement = same agreement.amount settlement.amount

unfoldable pub asset_match : Runtime → AgreementState → SettlementEvidence → Bool
asset_match rt agreement settlement = same_lower_some rt agreement.asset settlement.asset

-- `sha256(secret_bytes).hexdigest()` against the hashlock, or what the decoding raised.
unfoldable pub compare_bytes : Sha256 → Runtime → Result Bytes → Str → SecretStatus × List Reason
compare_bytes sha rt (ok secret_bytes) hashlock =
    if same_lower rt (hex (sha.digest secret_bytes)) (drop_0x hashlock)
    then (SecretStatus.verified, [])
    else (SecretStatus.mismatch, secret_digest_mismatch ∷ [])
compare_bytes sha rt (err e) hashlock = (SecretStatus.mismatch, secret_undecodable ∷ [])

-- The revealed secret against the hashlock of the agreement.
unfoldable pub compare_secret : Sha256 → Runtime → Str → Str → SecretStatus × List Reason
compare_secret sha rt secret hashlock = compare_bytes sha rt (fromhex (drop_0x secret)) hashlock

-- `if settlement.secret`, of a claimed settlement.
unfoldable pub supplied_secret : Sha256 → Runtime → Option Str → Str → SecretStatus × List Reason
supplied_secret sha rt (some (c ∷ s)) hashlock = compare_secret sha rt (c ∷ s) hashlock
supplied_secret sha rt _ hashlock = (SecretStatus.missing, secret_not_supplied ∷ [])

unfoldable pub secret_check :
    Sha256 → Runtime → AgreementState → SettlementEvidence → SecretStatus × List Reason
secret_check sha rt agreement settlement =
    if same settlement.settlement_status (codes "claimed")
      || same settlement.settlement_status (codes "claimed-on-rail")
    then supplied_secret sha rt settlement.secret agreement.hashlock
    else (SecretStatus.not_applicable, [])

-- `a is not None and b is not None and a >= b`
abbrev pub not_before : Option ℤ → Option ℤ → Bool
not_before (some a) (some b) = int_le b a
not_before _ _ = false

unfoldable pub temporal_check : SettlementEvidence → Ordering × List Reason
temporal_check settlement =
    let lock_late = not_before settlement.lock_timestamp settlement.refund_timestamp in
    let claim_late = not_before settlement.claim_timestamp settlement.refund_timestamp in
    (
      (if claim_late
          then Ordering.claim_too_late
          else if lock_late
          then Ordering.lock_too_late
          else Ordering.verified),
      unless (not lock_late) lock_not_before_refund
          ++ unless (not claim_late) claim_not_before_refund,
    )

-- abs(a - b)
abbrev pub distance : ℤ → ℤ → ℕ
distance (pos a) (pos b) = (a - b) + (b - a)
distance (negsuc a) (negsuc b) = (a - b) + (b - a)
distance (pos a) (negsuc b) = a + b + 1
distance (negsuc a) (pos b) = a + b + 1

-- abs(x - b) > 300 for a float x that is integral, or no number
abbrev pub float_varies : Result ℤ → ℤ → Bool
float_varies (ok n) b = ltb 300 (distance n b)
float_varies (err e) b = false

-- `abs(refund_after_ms // 1000 - refund_timestamp) > 300`; `//` wants a number.
unfoldable pub refund_varies : Runtime → Json → ℤ → Result Bool
refund_varies rt (int (pos n)) t = ok (ltb 300 (distance (pos (n / 1000)) t))
refund_varies rt (int (negsuc n)) t = ok (ltb 300 (distance (negsuc (n / 1000)) t))
refund_varies rt (bool b) t = ok (ltb 300 (distance (pos 0) t))
refund_varies rt (float f) t = ok (float_varies (rt.int_floordiv f 1000) t)
refund_varies rt _ t = err type_error

unfoldable pub refund_warning : Runtime → AgreementState → SettlementEvidence → Result Bool
refund_warning rt agreement settlement = elim agreement.refund_after_ms [
  | null ↦ ok false
  | j ↦ elim settlement.refund_timestamp [
    | none ↦ ok false
    | some t ↦ refund_varies rt agreement.refund_after_ms t
  ]
]

unfoldable pub lifecycle_check : SettlementEvidence → Bool × List Reason
lifecycle_check settlement =
    if same settlement.settlement_status (codes "claimed")
    then (
      not (truthy settlement.refund_tx),
      unless (not (truthy settlement.refund_tx)) claimed_with_refund,
    )
    else if same settlement.settlement_status (codes "refunded")
    then (
      not (truthy settlement.claim_tx),
      unless (not (truthy settlement.claim_tx)) refunded_with_claim,
    )
    else (true, [])
