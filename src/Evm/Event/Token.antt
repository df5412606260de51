-- ===== src/Evm/Event/Token.antt =====
-- The token transfer behind a Locked event that `parse_and_verify_htlc_event` returns.
use tc_ledger.Prelude.{
  ◌≡◌, subst, refl, sym, ◌∙◌, ap, Bool, true, Bool-cases, inl, inr, Option, none, some,
}
use tc_ledger.Py.Result.{ok, ok_value, nothing_found, >>=-eq-ok}
use tc_ledger.Py.Str.{Str, codes}
use tc_ledger.Py.Text.Runtime.{Runtime}
use tc_ledger.Py.Json.{Fields, Items, str, list, nil, cons, get_default}
use tc_ledger.Settlement.Normalize.{normalize_address, normalize_amount_str}
use tc_ledger.Cross.Binding.{is_token, normalize_optional}
use tc_ledger.Evm.Transfer.{Expected, Transfer, nonzero, logs_of, parse_and_verify_erc20_transfer}
use tc_ledger.Evm.Transfer.Sound.{OneOf, IsTransferLog, parse_and_verify_erc20_transfer_sound}
use tc_ledger.Evm.Event.{LockTerms, locked, HtlcEvent, token_verified, parse_and_verify_htlc_event}
use tc_ledger.Evm.Event.Sound.{
  Backed, IsEventLog, event_of_topics_sound, parse_and_verify_htlc_event-IsEventLog,
}

module _ (rt : Runtime) where
  -- A log of the receipt is a Transfer event of the token, from the payer to the contract, of the amount,
  -- each in its normal form.
  abbrev pub HasTransfer : Fields → Str → Str → Str → Str → Type 0
  HasTransfer receipt token payer contract amount =
      (want : Expected) × (t : Transfer) × (nonzero rt (normalize_address (str token))
        ≡ some want.token)
      × (normalize_address (str payer) ≡ some want.payer)
      × (normalize_address (str contract) ≡ some want.htlc)
      × (normalize_amount_str rt (str amount) ≡ ok (some want.amount))
      × OneOf (IsTransferLog rt want t) (logs_of (get_default receipt (codes "logs") (list nil)))

  token_verified_sound :
      (receipt : Fields) (token payer contract amount : Str) (v : Option Bool)
      → token_verified rt receipt (some token) payer contract amount ≡ ok v
      → is_token rt (some token) ≡ true
      → (v ≡ some true) × HasTransfer receipt token payer contract amount
  unfolding token_verified
  token_verified_sound receipt token payer contract amount v k nonzero_token =
      let (t, found, k1) =
        >>=-eq-ok
          (parse_and_verify_erc20_transfer rt receipt (str token) (str payer) (str contract)
            (str amount))
          _ (rw nonzero_token at k) in
      let (want, a, b, c, d, log) =
        parse_and_verify_erc20_transfer_sound rt receipt (str token) (str payer) (str contract)
          (str amount) t found in
      (sym (ok_value k1), (want, t, a, b, c, d, log))

  event-Backed :
      (receipt : Fields) (expected_htlc : Option Str) (e : HtlcEvent) (items : Items)
      → OneOf (IsEventLog rt receipt expected_htlc e) items
      → Backed rt receipt e.contract_address e.details
  event-Backed receipt expected_htlc e nil o = absurd o
  event-Backed receipt expected_htlc e (cons j items) (inl l) =
      (event_of_topics_sound rt receipt e.contract_address _ _ e l.decoded).1
  event-Backed receipt expected_htlc e (cons j items) (inr l) =
      event-Backed receipt expected_htlc e items l

  -- For a Locked event of a token, whose address is not zero, that `parse_and_verify_htlc_event` returns,
  -- the same receipt has a log of a Transfer of that token, from the payer to the contract of the event,
  -- of the event's amount; and the event says that the transfer is verified.
  pub parse_and_verify_htlc_event-transfer :
      (receipt : Fields) (htlc id type : Option Str) (e : HtlcEvent) (terms : LockTerms)
      (token : Str)
      → parse_and_verify_htlc_event rt receipt htlc id type ≡ ok e
      → e.details ≡ locked terms
      → terms.token ≡ some token
      → is_token rt (some token) ≡ true
      → (terms.erc20_transfer_verified ≡ some true)
        × HasTransfer receipt token terms.payer_address e.contract_address terms.amount
  parse_and_verify_htlc_event-transfer receipt htlc id type e terms token h is_locked has_token
        nonzero_token =
      let in_log = (parse_and_verify_htlc_event-IsEventLog rt receipt htlc id type e h).1 in
      let backed =
        subst (Backed rt receipt e.contract_address) is_locked
          (event-Backed receipt (normalize_optional htlc) e _ in_log) in
      token_verified_sound receipt token terms.payer_address e.contract_address terms.amount
        terms.erc20_transfer_verified
        (subst
          (λ o.
            token_verified rt receipt o terms.payer_address e.contract_address terms.amount
            ≡ ok terms.erc20_transfer_verified)
          has_token backed)
        nonzero_token

  flagged :
      (receipt : Fields) (o : Option Str) (payer contract amount : Str)
      → token_verified rt receipt o payer contract amount ≡ ok (some true)
      → (token : Str) × (o ≡ some token) × HasTransfer receipt token payer contract amount
  unfolding token_verified
  flagged receipt none payer contract amount h = cc
  flagged receipt (some token) payer contract amount h =
      elim (Bool-cases (is_token rt (some token))) [
        | inl nonzero_token ↦ (
          token,
          refl,
          (token_verified_sound receipt token payer contract amount (some true) h nonzero_token).1,
        )
        | inr ether ↦ absurd (nothing_found (rw ether at h))
      ]

  -- A Locked event that says that its transfer is verified is of a token, and the transfer is in the
  -- same receipt.
  pub verified-HasTransfer :
      (receipt : Fields) (htlc id type : Option Str) (e : HtlcEvent) (terms : LockTerms)
      → parse_and_verify_htlc_event rt receipt htlc id type ≡ ok e
      → e.details ≡ locked terms
      → terms.erc20_transfer_verified ≡ some true
      → (token : Str) × (terms.token ≡ some token)
        × HasTransfer receipt token terms.payer_address e.contract_address terms.amount
  verified-HasTransfer receipt htlc id type e terms h is_locked verified =
      let in_log = (parse_and_verify_htlc_event-IsEventLog rt receipt htlc id type e h).1 in
      let backed =
        subst (Backed rt receipt e.contract_address) is_locked
          (event-Backed receipt (normalize_optional htlc) e _ in_log) in
      flagged receipt terms.token terms.payer_address e.contract_address terms.amount
        (backed ∙ ap ok verified)
