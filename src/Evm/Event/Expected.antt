-- ===== src/Evm/Event/Expected.antt =====
-- Events that `parse_and_verify_htlc_event` returns, against the expected HTLC, contract and type.
use tc_ledger.Prelude.{
  ◌≡◌, ◌<◌, subst, sym, ◌∙◌, ap, true, Option, none, some, [], ◌∷◌, length, inl, inr, arith,
}
use tc_ledger.Py.Result.{ok}
use tc_ledger.Py.Int.{pos}
use tc_ledger.Py.Str.{Str, codes, same→eq}
use tc_ledger.Py.Text.Runtime.{Runtime}
use tc_ledger.Py.Json.{Json, Fields, Items, str, list, nil, cons, get, get_default}
use tc_ledger.Settlement.Normalize.{normalize_hex, normalize_address}
use tc_ledger.Settlement.Normalize.Lower.{
  lower-normalize_hex, normalize_address-normalize_hex, normalize_address_idem,
}
use tc_ledger.Cross.Terms.{same_lower, same_lower_some}
use tc_ledger.Cross.Binding.{normalize_optional}
use tc_ledger.Evm.Transfer.{logs_of}
use tc_ledger.Evm.Transfer.Sound.{OneOf}
use tc_ledger.Evm.Event.{
  HtlcEvent, event_type, normalize_id, status_of, id_matches, address_matches_expected,
  parse_and_verify_htlc_event,
}
use tc_ledger.Evm.Event.Sound.{
  IsNormalized, IsEventLog, event_of_topics_sound, parse_and_verify_htlc_event-IsEventLog,
}

-- What each log of an event has, some log of it has.
OneOf_any :
    {P : Json → Type 0} {Q : Type 0} (items : Items) → ((j : Json) → P j → Q) → OneOf P items → Q
OneOf_any nil each h = absurd h
OneOf_any (cons j items) each (inl h) = each j h
OneOf_any (cons j items) each (inr h) = OneOf_any items each h

module _ (rt : Runtime) where
  -- Normalized texts that are equal up to case are equal.
  same_lower-normalize_hex :
      (j k : Json) (a b : Str)
      → normalize_hex j ≡ some a
      → normalize_hex k ≡ some b
      → same_lower rt a b ≡ true
      → a ≡ b
  same_lower-normalize_hex j k a b ha hb h =
      sym (lower-normalize_hex rt j a ha)
      ∙ same→eq (rt.lower a) (rt.lower b) h
      ∙ lower-normalize_hex rt k b hb

  module _ (receipt : Fields) (htlc id type : Option Str) (e : HtlcEvent)
      (parsed : parse_and_verify_htlc_event rt receipt htlc id type ≡ ok e) where
    -- The address of the event is normal.
    pub event-address : normalize_address (str e.contract_address) ≡ some e.contract_address
    event-address =
        OneOf_any _
          (λ j (log : IsEventLog rt receipt _ e j). normalize_address_idem _ _ log.address)
          (parse_and_verify_htlc_event-IsEventLog rt receipt htlc id type e parsed).1

    -- The contract of the event is normal, where there is one.
    pub event-IsNormalized : IsNormalized rt receipt e.contract_id
    event-IsNormalized =
        OneOf_any _
          (λ j (log : IsEventLog rt receipt _ e j).
            (event_of_topics_sound rt receipt e.contract_address _ _ e log.decoded).2)
          (parse_and_verify_htlc_event-IsEventLog rt receipt htlc id type e parsed).1

    -- The address is the expected one, if that normalizes.
    pub event-expected_address :
        (j : Json) (a : Str)
        → normalize_address j ≡ some a
        → normalize_optional htlc ≡ some a
        → e.contract_address ≡ a
    event-expected_address j a normal expected =
        OneOf_any _ of_log
          (parse_and_verify_htlc_event-IsEventLog rt receipt htlc id type e parsed).1
      where
        of_log :
            (k : Json)
            → IsEventLog rt receipt (normalize_optional htlc) e k
            → e.contract_address ≡ a
        of_log k log =
            same_lower-normalize_hex (get log.log (codes "address")) j e.contract_address a
              (normalize_address-normalize_hex _ _ log.address)
              (normalize_address-normalize_hex _ _ normal)
              (subst (λ o. address_matches_expected rt o e.contract_address ≡ true) expected
                log.expected)

    -- The contract is the expected one, if that normalizes.
    pub event-expected_id :
        (j : Json) (c : Str)
        → normalize_hex j ≡ some c
        → normalize_id id ≡ some c
        → e.contract_id ≡ some c
    event-expected_id j c normal expected = same_contract e.contract_id event-IsNormalized (
        subst (λ o. id_matches rt o e ≡ true) expected
          (parse_and_verify_htlc_event-IsEventLog rt receipt htlc id type e parsed).2)
      where
        same_contract :
            (o : Option Str)
            → IsNormalized rt receipt o
            → same_lower_some rt c o ≡ true
            → o ≡ some c
        same_contract none n h = cc
        same_contract (some d) (topic, n) h =
            ap some (sym (same_lower-normalize_hex j topic c d normal n h))

  -- If the expected HTLC address and the expected contract normalize and the expected type is not
  -- empty, then an event that `parse_and_verify_htlc_event` returns is in one of the logs of a receipt
  -- with status 1; its address and its contract are the expected ones, normalized, and its type is the
  -- expected one up to letter case.
  pub parse_and_verify_htlc_event_sound :
      (receipt : Fields) (htlc id type address contract : Str) (e : HtlcEvent)
      → normalize_address (str htlc) ≡ some address
      → normalize_hex (str id) ≡ some contract
      → 0 < length type
      → parse_and_verify_htlc_event rt receipt (some htlc) (some id) (some type) ≡ ok e
      → (status_of rt (get receipt (codes "status")) ≡ ok (pos 1))
        × OneOf
            (IsEventLog rt receipt (some address) e)
            (logs_of (get_default receipt (codes "logs") (list nil)))
        × (e.contract_address ≡ address)
        × (e.contract_id ≡ some contract)
        × (rt.lower (event_type e.details) ≡ rt.lower type)
  parse_and_verify_htlc_event_sound receipt htlc id [] address contract e a c n h =
      absurd (omega arith)
  parse_and_verify_htlc_event_sound receipt htlc id (t ∷ type) address contract e a c n h =
      let (good, in_log, _, of_type) =
        parse_and_verify_htlc_event-IsEventLog rt receipt (some htlc) (some id) (some (t ∷ type)) e
          h in
      (
        good,
        subst
            (λ o.
              OneOf (IsEventLog rt receipt o e)
                (logs_of (get_default receipt (codes "logs") (list nil))))
            a in_log,
        event-expected_address receipt (some htlc) (some id) (some (t ∷ type)) e h (str htlc)
            address a a,
        event-expected_id receipt (some htlc) (some id) (some (t ∷ type)) e h (str id) contract c c,
        same→eq (rt.lower (event_type e.details)) (rt.lower (t ∷ type)) of_type,
      )
