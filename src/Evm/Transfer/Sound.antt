-- ===== src/Evm/Transfer/Sound.antt =====
-- What a transfer that `parse_and_verify_erc20_transfer` returns says of the receipt.
use tc_ledger.Prelude.{
  ◌≡◌, subst, refl, sym, ◌∙◌, ap, true, ◌&&◌, &&_true, Bool-cases, ◌⊎◌, inl, inr, Option, none,
  some, List, [], ◌∷◌, All,
}
use tc_ledger.Py.Result.{ok, evm_verification_error, raise_if, ok_value, nothing_found, >>=-eq-ok}
use tc_ledger.Py.Str.{Str, codes, same, same→eq}
use tc_ledger.Py.Text.Runtime.{Runtime, text_of}
use tc_ledger.Py.Json.{Json, Fields, Items, str, list, dict, nil, cons, get, get_default}
use tc_ledger.Settlement.Normalize.{normalize_address, normalize_amount_str}
use tc_ledger.Settlement.Parse.{or_raise}
use tc_ledger.Cross.Terms.{same_lower}
use tc_ledger.Evm.Transfer.{
  Expected, Transfer, transfer_topic, topic_address, same_some, nonzero, logs_of, is_nil,
  data_amount, checked_amount, checked_parties, checked_topics, checked_address, transfer_of,
  transfers, prepend, first_transfer, parse_and_verify_erc20_transfer,
}

-- One of the items has the property.
abbrev pub OneOf : (Json → Type 0) → Items → Type 0
OneOf P nil = ⊥
OneOf P (cons j items) = P j ⊎ OneOf P items

-- The log of an expected token transfer: it is of the token's contract, its first topic is that of
-- Transfer events, the two others hold the payer and the HTLC, and its data is the amount.
pub record IsTransferLog (rt : Runtime) (want : Expected) (t : Transfer) (j : Json) : Type 0 where
  pub log : Fields
  pub entry : j ≡ dict log
  pub address : normalize_address (get log (codes "address")) ≡ some t.token
  pub token : same_lower rt t.token want.token ≡ true
  pub topic0 : Json
  pub topic1 : Json
  pub topic2 : Json
  pub rest : Items
  pub topics :
      get_default log (codes "topics") (list nil)
      ≡ list (cons topic0 (cons topic1 (cons topic2 rest)))
  pub event : same (rt.lower (text_of rt topic0)) (rt.lower transfer_topic) ≡ true
  pub sender : topic_address topic1 ≡ some t.sender
  pub payer : same_lower rt t.sender want.payer ≡ true
  pub recipient : topic_address topic2 ≡ some t.recipient
  pub htlc : same_lower rt t.recipient want.htlc ≡ true
  pub amount : data_amount rt (get log (codes "data")) ≡ ok (some t.amount)
  pub paid : normalize_amount_str rt (str t.amount) ≡ ok (some want.amount)

module _ (rt : Runtime) (want : Expected) where
  same_some-eq : (o : Option Str) (s : Str) → same_some o s ≡ true → o ≡ some s
  same_some-eq none s h = cc
  same_some-eq (some t) s h = ap some (same→eq t s h)

  amount_sound :
      (address sender recipient : Str) (o : Option Str) (t : Transfer)
      → checked_amount rt want address sender recipient o ≡ ok (some t)
      → (address ≡ t.token)
        × (sender ≡ t.sender)
        × (recipient ≡ t.recipient)
        × (o ≡ some t.amount)
        × (normalize_amount_str rt (str t.amount) ≡ ok (some want.amount))
  unfolding checked_amount
  amount_sound address sender recipient none t h = cc
  amount_sound address sender recipient (some amount) t h =
      let (norm, e, h1) = >>=-eq-ok (normalize_amount_str rt (str amount)) _ h in
      elim (Bool-cases (same_some norm want.amount)) [
        | inr differs ↦ absurd (nothing (rw differs at (ok_value h1)))
        | inl equal ↦
            let found = something (rw equal at (ok_value h1)) in
            rw (sym found) (refl, refl, refl, refl, e ∙ ap ok (same_some-eq norm want.amount equal))
      ]
    where
      nothing : {u : Transfer} → ◌≡◌ {A = Option Transfer} none (some u) → ⊥
      nothing q = cc

      something : {u v : Transfer} → ◌≡◌ {A = Option Transfer} (some u) (some v) → u ≡ v
      something q = cc

  parties_sound :
      (address : Str) (data_raw : Json) (sender recipient : Option Str) (t : Transfer)
      → checked_parties rt want address data_raw sender recipient ≡ ok (some t)
      → (address ≡ t.token)
        × (sender ≡ some t.sender)
        × (same_lower rt t.sender want.payer ≡ true)
        × (recipient ≡ some t.recipient)
        × (same_lower rt t.recipient want.htlc ≡ true)
        × (data_amount rt data_raw ≡ ok (some t.amount))
        × (normalize_amount_str rt (str t.amount) ≡ ok (some want.amount))
  unfolding checked_parties
  parties_sound address data_raw none recipient t h = cc
  parties_sound address data_raw (some s) none t h = cc
  parties_sound address data_raw (some s) (some r) t h =
      elim (Bool-cases (same_lower rt s want.payer && same_lower rt r want.htlc)) [
        | inr differs ↦ absurd (nothing_found (rw differs at h))
        | inl matches ↦
            let both = &&_true (same_lower rt s want.payer) _ matches in
            let (o, e, h1) = >>=-eq-ok (data_amount rt data_raw) _ (rw matches at h) in
            let (a, b, c, d, paid) = amount_sound address s r o t h1 in
            (a, ap some b, rw b at both.0, ap some c, rw c at both.1, e ∙ ap ok d, paid)
      ]

  -- The three topics of a log of which a transfer was found.
  abbrev IsTopics : Transfer → Json → Type 0
  IsTopics t j =
      (topic0 topic1 topic2 : Json) × (rest : Items) × (j
        ≡ list (cons topic0 (cons topic1 (cons topic2 rest))))
      × (same (rt.lower (text_of rt topic0)) (rt.lower transfer_topic) ≡ true)
      × (topic_address topic1 ≡ some t.sender)
      × (topic_address topic2 ≡ some t.recipient)

  checked_topics-IsTopics :
      (address : Str) (data_raw topics : Json) (t : Transfer)
      → checked_topics rt want address data_raw topics ≡ ok (some t)
      → IsTopics t topics
        × (address ≡ t.token)
        × (same_lower rt t.sender want.payer ≡ true)
        × (same_lower rt t.recipient want.htlc ≡ true)
        × (data_amount rt data_raw ≡ ok (some t.amount))
        × (normalize_amount_str rt (str t.amount) ≡ ok (some want.amount))
  unfolding checked_topics
  checked_topics-IsTopics address data_raw (list (cons topic0 (cons topic1 (cons topic2 rest)))) t
        h =
      elim (Bool-cases (same (rt.lower (text_of rt topic0)) (rt.lower transfer_topic))) [
        | inr other ↦ absurd (nothing_found (rw other at h))
        | inl event ↦
            let (a, b, c, d, e, f, g) =
              parties_sound address data_raw (topic_address topic1) (topic_address topic2) t
                (rw event at h) in
            ((topic0, topic1, topic2, rest, refl, event, b, d), a, c, e, f, g)
      ]
  checked_topics-IsTopics address data_raw _ t h = cc

  address_sound :
      (address : Option Str) (log : Fields) (t : Transfer)
      → checked_address rt want address log ≡ ok (some t)
      → (address ≡ some t.token)
        × (same_lower rt t.token want.token ≡ true)
        × IsTopics t (get_default log (codes "topics") (list nil))
        × (same_lower rt t.sender want.payer ≡ true)
        × (same_lower rt t.recipient want.htlc ≡ true)
        × (data_amount rt (get log (codes "data")) ≡ ok (some t.amount))
        × (normalize_amount_str rt (str t.amount) ≡ ok (some want.amount))
  unfolding checked_address
  address_sound none log t h = cc
  address_sound (some address) log t h = elim (Bool-cases (same_lower rt address want.token)) [
    | inr other ↦ absurd (nothing_found (rw other at h))
    | inl token ↦
        let (topics, a, payer, htlc, amount, paid) =
          checked_topics-IsTopics address (get log (codes "data"))
            (get_default log (codes "topics") (list nil)) t (rw token at h) in
        (ap some a, rw a at token, topics, payer, htlc, amount, paid)
  ]

  transfer_of_sound :
      (j : Json) (t : Transfer) → transfer_of rt want j ≡ ok (some t) → IsTransferLog rt want t j
  unfolding transfer_of
  transfer_of_sound (dict log) t h =
      let (
        address,
        token,
        (topic0, topic1, topic2, rest, topics, event, sender, recipient),
        payer,
        htlc,
        amount,
        paid,
      ) =
        address_sound (normalize_address (get log (codes "address"))) log t h in
      record {
        log = log;
        entry = refl;
        address = address;
        token = token;
        topic0 = topic0;
        topic1 = topic1;
        topic2 = topic2;
        rest = rest;
        topics = topics;
        event = event;
        sender = sender;
        payer = payer;
        recipient = recipient;
        htlc = htlc;
        amount = amount;
        paid = paid;
      }
  transfer_of_sound _ t h = cc

  transfers_sound :
      (items : Items) (l : List Transfer)
      → transfers rt want items ≡ ok l
      → All (λ t. OneOf (IsTransferLog rt want t) items) l
  unfolding transfers
  transfers_sound nil [] h = tt
  transfers_sound nil (t ∷ l) h = cc
  transfers_sound (cons j items) l h =
      let (first, e, h1) = >>=-eq-ok (transfer_of rt want j) _ h in
      let (others, e', h2) = >>=-eq-ok (transfers rt want items) _ h1 in
      rw (sym (ok_value h2))
        (prepended others first e (later others (transfers_sound items others e')))
    where
      later :
          (m : List Transfer)
          → All (λ t. OneOf (IsTransferLog rt want t) items) m
          → All (λ t. OneOf (IsTransferLog rt want t) (cons j items)) m
      later [] a = tt
      later (t ∷ m) a = (inr a.0, later m a.1)

      prepended :
          (m : List Transfer) (o : Option Transfer)
          → transfer_of rt want j ≡ ok o
          → All (λ t. OneOf (IsTransferLog rt want t) (cons j items)) m
          → All (λ t. OneOf (IsTransferLog rt want t) (cons j items)) (prepend o m)
      prepended m none q a = a
      prepended m (some t) q a = (inl (transfer_of_sound j t q), a)

module _ (rt : Runtime) where
  or_raise-ok : (o : Option Str) {s : Str} → or_raise evm_verification_error o ≡ ok s → o ≡ some s
  or_raise-ok none h = cc
  or_raise-ok (some s) h = cc

  -- A transfer that `parse_and_verify_erc20_transfer` returns is in one of the logs of the receipt: a
  -- Transfer event of the expected token, which is not the zero address, from the payer to the HTLC,
  -- of the expected amount.
  pub parse_and_verify_erc20_transfer_sound :
      (receipt : Fields) (token payer htlc amount : Json) (t : Transfer)
      → parse_and_verify_erc20_transfer rt receipt token payer htlc amount ≡ ok t
      → (want : Expected) × (nonzero rt (normalize_address token) ≡ some want.token)
        × (normalize_address payer ≡ some want.payer)
        × (normalize_address htlc ≡ some want.htlc)
        × (normalize_amount_str rt amount ≡ ok (some want.amount))
        × OneOf (IsTransferLog rt want t) (logs_of (get_default receipt (codes "logs") (list nil)))
  unfolding parse_and_verify_erc20_transfer
  parse_and_verify_erc20_transfer_sound receipt token payer htlc amount t h =
      let (amount?, a, h1) = >>=-eq-ok (normalize_amount_str rt amount) _ h in
      let (tok, b, h2) =
        >>=-eq-ok (or_raise evm_verification_error (nonzero rt (normalize_address token))) _ h1 in
      let (pay, c, h3) =
        >>=-eq-ok (or_raise evm_verification_error (normalize_address payer)) _ h2 in
      let (lock, d, h4) =
        >>=-eq-ok (or_raise evm_verification_error (normalize_address htlc)) _ h3 in
      let (sum, e, h5) = >>=-eq-ok (or_raise evm_verification_error amount?) _ h4 in
      let logs = logs_of (get_default receipt (codes "logs") (list nil)) in
      let (_, _, h6) = >>=-eq-ok (raise_if (is_nil logs) evm_verification_error) _ h5 in
      let want : Expected = record { token = tok; payer = pay; htlc = lock; amount = sum } in
      let (found, f, h7) = >>=-eq-ok (transfers rt want logs) _ h6 in
      (
        want,
        or_raise-ok _ b,
        or_raise-ok _ c,
        or_raise-ok _ d,
        a ∙ ap ok (or_raise-ok _ e),
        first (λ u. OneOf (IsTransferLog rt want u) logs) found
            (transfers_sound rt want logs found f) h7,
      )
    where
      first : (P : Transfer → Type 0) (l : List Transfer) → All P l → first_transfer l ≡ ok t → P t
      first P [] k q = cc
      first P (u ∷ l) k q = subst P (ok_value q) k.0
