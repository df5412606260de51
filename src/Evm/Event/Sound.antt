-- ===== src/Evm/Event/Sound.antt =====
-- What an event that `parse_and_verify_htlc_event` returns says of the receipt.
use tc_ledger.Prelude.{
  ◌≡◌, subst, refl, sym, ◌∙◌, ap, true, not, ◌&&◌, &&_true, Bool-cases, inl, inr, Option, none,
  some, List, [], ◌∷◌, ◌++◌, All, ltb, length,
}
use tc_ledger.Py.Result.{
  Result, ok, evm_verification_error, raise_if, raise_if-not, ok_value, nothing_found, >>=-eq-ok,
}
use tc_ledger.Py.Int.{ℤ, pos, int_eq, int_eq→eq}
use tc_ledger.Py.Str.{Str, codes, same}
use tc_ledger.Py.Text.{int_text}
use tc_ledger.Py.Text.Runtime.{Runtime, text_of}
use tc_ledger.Py.Json.{Json, Fields, Items, str, list, dict, nil, cons, get, get_default}
use tc_ledger.Settlement.Normalize.{normalize_hex, normalize_address}
use tc_ledger.Cross.Binding.{normalize_optional}
use tc_ledger.Evm.Transfer.{slice, topic_address, logs_of, is_nil, prepend}
use tc_ledger.Evm.Transfer.Sound.{OneOf}
use tc_ledger.Evm.Event.{
  locked_topic, claimed_topic, refunded_topic, Details, locked, HtlcEvent, normalize_id, status_of,
  block_of, differ, address_matches_expected, data_hex_of, token_verified, locked_event,
  claimed_event, locked_topics, claimed_topics, refunded_topics, event_of_topics, event_at,
  event_of, events_of, id_matches, type_matches, matching, only_event, parse_and_verify_htlc_event,
}

module _ (rt : Runtime) (receipt : Fields) where
  -- The transfer that the fields of a Locked event stand for has been looked up.
  abbrev pub Backed : Str → Details → Type 0
  Backed address (locked terms) =
      token_verified rt receipt terms.token terms.payer_address address terms.amount
      ≡ ok terms.erc20_transfer_verified
  Backed address _ = Unit

  -- The contract of an event is a normalized topic.
  abbrev pub IsNormalized : Option Str → Type 0
  IsNormalized o = (topic : Json) × (normalize_hex topic ≡ o)

  abbrev pub IsAt : Str → HtlcEvent → Type 0
  IsAt address e =
      (e.contract_address ≡ address) × Backed address e.details × IsNormalized e.contract_id

  locked_event_sound :
      (address data_hex : Str) (block_number : ℤ) (topic1 : Json) (payer payee : Option Str)
      (e : HtlcEvent)
      → locked_event rt receipt address data_hex block_number topic1 payer payee ≡ ok (some e)
      → IsAt address e
  unfolding locked_event
  locked_event_sound address data_hex block_number topic1 none payee e h = cc
  locked_event_sound address data_hex block_number topic1 (some p) none e h = cc
  locked_event_sound address data_hex block_number topic1 (some p) (some q) e h =
      elim (Bool-cases (ltb (length data_hex) 256)) [
        | inl short ↦ absurd (nothing_found (rw short at h))
        | inr long ↦
            let (amount, _, h1) =
              >>=-eq-ok (rt.parse_int 16 (slice 64 128 data_hex)) _ (rw long at h) in
            let (refund_ts, _, h2) = >>=-eq-ok (rt.parse_int 16 (slice 192 256 data_hex)) _ h1 in
            let (verified, v, h3) =
              >>=-eq-ok
                (token_verified rt receipt
                  (normalize_address (str (codes "0x" ++ slice 24 64 data_hex))) p address
                  (int_text amount))
                _ h2 in
            subst (IsAt address) (found (ok_value h3)) (refl, v, (topic1, refl))
      ]
    where
      found : {u v : HtlcEvent} → ◌≡◌ {A = Option HtlcEvent} (some u) (some v) → u ≡ v
      found x = cc

  claimed_event_sound :
      (address data_hex : Str) (block_number : ℤ) (topics : Items) (e : HtlcEvent)
      → ◌≡◌ {A = Result (Option HtlcEvent)}
          (ok (claimed_topics rt receipt address data_hex block_number topics))
          (ok (some e))
      → IsAt address e
  unfolding claimed_event
  claimed_event_sound address data_hex block_number nil e h = cc
  claimed_event_sound address data_hex block_number (cons topic1 rest) e h =
      elim (Bool-cases (ltb (length data_hex) 64)) [
        | inl short ↦ absurd (nothing_found (rw short at h))
        | inr long ↦ subst (IsAt address) (found (rw long at h)) (refl, tt, (topic1, refl))
      ]
    where
      found :
          {u v : HtlcEvent}
          → ◌≡◌ {A = Result (Option HtlcEvent)} (ok (some u)) (ok (some v))
          → u ≡ v
      found x = cc

  refunded_event_sound :
      (address : Str) (block_number : ℤ) (topics : Items) (e : HtlcEvent)
      → ◌≡◌ {A = Result (Option HtlcEvent)}
          (ok (refunded_topics rt receipt address block_number topics))
          (ok (some e))
      → IsAt address e
  refunded_event_sound address block_number nil e h = cc
  refunded_event_sound address block_number (cons topic1 rest) e h =
      subst (IsAt address) (found h) (refl, tt, (topic1, refl))
    where
      found :
          {u v : HtlcEvent}
          → ◌≡◌ {A = Result (Option HtlcEvent)} (ok (some u)) (ok (some v))
          → u ≡ v
      found x = cc

  locked_topics_sound :
      (address data_hex : Str) (block_number : ℤ) (topics : Items) (e : HtlcEvent)
      → locked_topics rt receipt address data_hex block_number topics ≡ ok (some e)
      → IsAt address e
  locked_topics_sound address data_hex block_number (cons topic1 (cons topic2 (cons topic3 rest))) e
        h =
      locked_event_sound address data_hex block_number topic1 (topic_address topic2)
        (topic_address topic3) e h
  locked_topics_sound address data_hex block_number nil e h = cc
  locked_topics_sound address data_hex block_number (cons topic1 nil) e h = cc
  locked_topics_sound address data_hex block_number (cons topic1 (cons topic2 nil)) e h = cc

  pub event_of_topics_sound :
      (address : Str) (data_raw topics : Json) (e : HtlcEvent)
      → event_of_topics rt receipt address data_raw topics ≡ ok (some e)
      → IsAt address e
  unfolding event_of_topics
  event_of_topics_sound address data_raw (list (cons topic0 topics)) e h =
      let (block_number, _, h1) =
        >>=-eq-ok (block_of rt (get_default receipt (codes "blockNumber") (str (codes "0")))) _ h in
      let topic = rt.lower (text_of rt topic0) in
      let data_hex = data_hex_of rt data_raw in
      elim (Bool-cases (same topic locked_topic)) [
        | inl a ↦ locked_topics_sound address data_hex block_number topics e (rw a at h1)
        | inr a ↦ elim (Bool-cases (same topic claimed_topic)) [
          | inl b ↦ claimed_event_sound address data_hex block_number topics e (rw (a, b) at h1)
          | inr b ↦ elim (Bool-cases (same topic refunded_topic)) [
            | inl c ↦ refunded_event_sound address block_number topics e (rw (a, b, c) at h1)
            | inr c ↦ absurd (nothing_found (rw (a, b, c) at h1))
          ]
        ]
      ]
  event_of_topics_sound address data_raw _ e h = cc

  -- A log that records the event e: it is of the event's contract, which is the expected one, and its
  -- topics and data are decoded to e.
  pub record IsEventLog (expected_htlc : Option Str) (e : HtlcEvent) (j : Json) : Type 0 where
    pub log : Fields
    pub entry : j ≡ dict log
    pub address : normalize_address (get log (codes "address")) ≡ some e.contract_address
    pub expected : address_matches_expected rt expected_htlc e.contract_address ≡ true
    pub decoded :
        event_of_topics rt receipt e.contract_address
          (get_default log (codes "data") (str []))
          (get_default log (codes "topics") (list nil))
        ≡ ok (some e)

  module _ (expected_htlc : Option Str) where
    event_at_sound :
        (address : Option Str) (log : Fields) (e : HtlcEvent)
        → event_at rt receipt expected_htlc address log ≡ ok (some e)
        → (address ≡ some e.contract_address)
          × (address_matches_expected rt expected_htlc e.contract_address ≡ true)
          × (event_of_topics rt receipt e.contract_address
                (get_default log (codes "data") (str []))
                (get_default log (codes "topics") (list nil))
              ≡ ok (some e))
    unfolding event_at
    event_at_sound none log e h = cc
    event_at_sound (some address) log e h =
        elim (Bool-cases (address_matches_expected rt expected_htlc address)) [
          | inr other ↦ absurd (nothing_found (rw other at h))
          | inl expected ↦
              let data_raw = get_default log (codes "data") (str []) in
              let topics = get_default log (codes "topics") (list nil) in
              let decoded : event_of_topics rt receipt address data_raw topics ≡ ok (some e) =
                rw expected at h in
              let same_address = (event_of_topics_sound address data_raw topics e decoded).0 in
              (
                ap some (sym same_address),
                rw same_address expected,
                subst (λ a. event_of_topics rt receipt a data_raw topics ≡ ok (some e))
                    (sym same_address) decoded,
              )
        ]

    event_of_sound :
        (j : Json) (e : HtlcEvent)
        → event_of rt receipt expected_htlc j ≡ ok (some e)
        → IsEventLog expected_htlc e j
    unfolding event_of
    event_of_sound (dict log) e h =
        let (address, expected, decoded) =
          event_at_sound (normalize_address (get log (codes "address"))) log e h in
        record {
          log = log;
          entry = refl;
          address = address;
          expected = expected;
          decoded = decoded;
        }
    event_of_sound _ e h = cc

    events_of_sound :
        (items : Items) (l : List HtlcEvent)
        → events_of rt receipt expected_htlc items ≡ ok l
        → All (λ e. OneOf (IsEventLog expected_htlc e) items) l
    unfolding events_of
    events_of_sound nil [] h = tt
    events_of_sound nil (e ∷ l) h = cc
    events_of_sound (cons j items) l h =
        let (first, e, h1) = >>=-eq-ok (event_of rt receipt expected_htlc j) _ h in
        let (others, e', h2) = >>=-eq-ok (events_of rt receipt expected_htlc items) _ h1 in
        rw (sym (ok_value h2))
          (prepended others first e (later others (events_of_sound items others e')))
      where
        later :
            (m : List HtlcEvent)
            → All (λ e. OneOf (IsEventLog expected_htlc e) items) m
            → All (λ e. OneOf (IsEventLog expected_htlc e) (cons j items)) m
        later [] a = tt
        later (t ∷ m) a = (inr a.0, later m a.1)

        prepended :
            (m : List HtlcEvent) (o : Option HtlcEvent)
            → event_of rt receipt expected_htlc j ≡ ok o
            → All (λ e. OneOf (IsEventLog expected_htlc e) (cons j items)) m
            → All (λ e. OneOf (IsEventLog expected_htlc e) (cons j items)) (prepend o m)
        prepended m none q a = a
        prepended m (some e) q a = (inl (event_of_sound j e q), a)

module _ (rt : Runtime) where
  -- Of the events that match, each is one of the events, and matches.
  matching-All :
      (P : HtlcEvent → Type 0) (id type : Option Str) (l : List HtlcEvent)
      → All P l
      → All
          (λ e. P e × (id_matches rt id e ≡ true) × (type_matches rt type e ≡ true))
          (matching rt id type l)
  unfolding matching
  matching-All P id type [] a = tt
  matching-All P id type (e ∷ l) a =
      elim (Bool-cases (id_matches rt id e && type_matches rt type e)) [
        | inl matches ↦
            let both = &&_true (id_matches rt id e) _ matches in
            rw matches ((a.0, both.0, both.1), matching-All P id type l a.1)
        | inr differs ↦ rw differs (matching-All P id type l a.1)
      ]

  only-All :
      (P : HtlcEvent → Type 0) (l : List HtlcEvent) (e : HtlcEvent)
      → All P l
      → only_event l ≡ ok e
      → P e
  only-All P [] e a h = cc
  only-All P (d ∷ []) e a h = subst P (ok_value h) a.0
  only-All P (d ∷ d' ∷ l) e a h = cc

  -- The event is in one of the logs of a receipt with status 1, and passes every filter.
  pub parse_and_verify_htlc_event-IsEventLog :
      (receipt : Fields) (htlc id type : Option Str) (e : HtlcEvent)
      → parse_and_verify_htlc_event rt receipt htlc id type ≡ ok e
      → (status_of rt (get receipt (codes "status")) ≡ ok (pos 1))
        × OneOf
            (IsEventLog rt receipt (normalize_optional htlc) e)
            (logs_of (get_default receipt (codes "logs") (list nil)))
        × (id_matches rt (normalize_id id) e ≡ true)
        × (type_matches rt type e ≡ true)
  unfolding parse_and_verify_htlc_event
  parse_and_verify_htlc_event-IsEventLog receipt htlc id type e h =
      let expected = normalize_optional htlc in
      let logs = logs_of (get_default receipt (codes "logs") (list nil)) in
      let (status, s, h1) = >>=-eq-ok (status_of rt (get receipt (codes "status"))) _ h in
      let (_, good, h2) =
        >>=-eq-ok (raise_if (not (int_eq status (pos 1))) evm_verification_error) _ h1 in
      let (_, _, h3) =
        >>=-eq-ok
          (raise_if (differ rt (normalize_address (get receipt (codes "to"))) expected)
            evm_verification_error)
          _ h2 in
      let (_, _, h4) = >>=-eq-ok (raise_if (is_nil logs) evm_verification_error) _ h3 in
      let (found, f, h5) = >>=-eq-ok (events_of rt receipt expected logs) _ h4 in
      let one : int_eq status (pos 1) ≡ true = raise_if-not _ _ good in
      let (in_log, of_id, of_type) =
        only-All
          (λ u.
            OneOf (IsEventLog rt receipt expected u) logs
            × (id_matches rt (normalize_id id) u ≡ true)
            × (type_matches rt type u ≡ true))
          (matching rt (normalize_id id) type found) e
          (matching-All (λ u. OneOf (IsEventLog rt receipt expected u) logs) (normalize_id id) type
            found (events_of_sound rt receipt expected logs found f))
          h5 in
      (s ∙ ap ok (int_eq→eq status (pos 1) one), in_log, of_id, of_type)
