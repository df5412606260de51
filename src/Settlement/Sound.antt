-- ===== src/Settlement/Sound.antt =====
-- What settlement evidence looks like that `parse_settlement_evidence` accepts.
use tc_ledger.Prelude.{ℕ, [], ◌≡◌, refl, sym, ap, Option, none, some, ◌++◌, arith, length, ◌==◌}
use tc_ledger.Py.Result.{ok, value_error, raise_if, ok_value, >>=-eq-ok}
use tc_ledger.Py.Str.{Str, Bytes, IsBytes, codes}
use tc_ledger.Py.Hex.{hex, length-hex}
use tc_ledger.Py.Text.{strip}
use tc_ledger.Py.Text.Runtime.{Runtime, text_of}
use tc_ledger.Py.Json.{Json, Fields, str, dict, get, get_default}
use tc_ledger.Settlement.Normalize.{
  normalize_hex, normalize_address, normalize_amount_str, of_length,
}
use tc_ledger.Settlement.Normalize.Shape.{normalize_hex-hex, normalize_address-hex}
use tc_ledger.Settlement.Types.{SettlementEvidence}
use tc_ledger.Settlement.Parse.{
  or_raise, first_of, int_of_optional, parse_ts, zero_address, parse_settlement_fields,
  parse_settlement_evidence,
}

-- The text of a digest: `0x` and the hex text of 32 bytes.
abbrev pub IsDigestText : Str → Type 0
IsDigestText s = (b : Bytes) × IsBytes b × (s ≡ codes "0x" ++ hex b) × (length b ≡ 32)

-- The text of an address.
abbrev pub IsAddressText : Str → Type 0
IsAddressText s = (b : Bytes) × IsBytes b × (s ≡ codes "0x" ++ hex b) × (length b ≡ 20)

of_length-some :
    (n : ℕ) (o : Option Str) (t : Str) → of_length n o ≡ some t → (length t ≡ n) × (o ≡ some t)
of_length-some n none t q = cc
of_length-some n (some u) t q = ground (arith, q)

or_raise-some : (o : Option Str) {t : Str} → or_raise value_error o ≡ ok t → o ≡ some t
or_raise-some none h = cc
or_raise-some (some t) h = cc

digest_text :
    (j : Json) {t : Str}
    → or_raise value_error (of_length 66 (normalize_hex j)) ≡ ok t
    → IsDigestText t
digest_text j {t} h =
    let (long, normal) = of_length-some 66 (normalize_hex j) t (or_raise-some _ h) in
    let (b, bytes, shape, _) = normalize_hex-hex j t normal in
    (b, bytes, shape, omega (arith, length-hex b, ap length shape))

module _ (rt : Runtime) where
  parse_settlement_fields-shape :
      (fields : Fields) (e : SettlementEvidence)
      → parse_settlement_fields rt fields ≡ ok e
      → (e.provenance ≡ codes "self_attested")
        × ((c : Str) × (e.contract_id ≡ some c) × IsDigestText c)
        × ((l : Str) × (e.hashlock ≡ some l) × IsDigestText l)
        × ((a : Str) × (e.asset ≡ some a) × IsAddressText a)
  unfolding parse_settlement_fields
  parse_settlement_fields-shape fields e h =
      let (_, _, h1) =
        >>=-eq-ok
          (raise_if
            (length (
                strip (
                  text_of rt (
                    get_default fields (codes "rail")
                      (get_default fields (codes "settlement_rail") (str (codes "evm-htlc"))))))
              == 0)
            value_error)
          _ h in
      let (contract_id, c, h2) =
        >>=-eq-ok
          (or_raise value_error (
            of_length 66 (
              normalize_hex (
                get_default fields (codes "contract_id") (
                  get_default fields (codes "contractId")
                    (get_default fields (codes "contract") (str [])))))))
          _ h1 in
      let (asset, a, h3) =
        >>=-eq-ok
          (or_raise value_error (
            normalize_address (
              get_default fields (codes "asset")
                (get_default fields (codes "token") (str zero_address)))))
          _ h2 in
      let (amount?, _, h4) =
        >>=-eq-ok (normalize_amount_str rt (get_default fields (codes "amount") (str (codes "0"))))
          _ h3 in
      let (amount, _, h5) = >>=-eq-ok (or_raise value_error amount?) _ h4 in
      let (hashlock, l, h6) =
        >>=-eq-ok
          (or_raise value_error (
            of_length 66 (
              normalize_hex (
                get_default fields (codes "hashlock")
                  (get_default fields (codes "statement") (str []))))))
          _ h5 in
      let (_, _, h7) =
        >>=-eq-ok
          (parse_ts rt
            (first_of fields (codes "lock_timestamp") (codes "lockTimestamp") (codes "locked_at")))
          _ h6 in
      let (_, _, h8) =
        >>=-eq-ok
          (parse_ts rt (
            first_of fields (codes "refund_timestamp") (codes "refundTimestamp")
              (codes "refund_after")))
          _ h7 in
      let (_, _, h9) =
        >>=-eq-ok
          (parse_ts rt (
            first_of fields (codes "claim_timestamp") (codes "claimTimestamp")
              (codes "claimed_at")))
          _ h8 in
      let (_, _, h10) =
        >>=-eq-ok
          (int_of_optional rt
            (get_default fields (codes "block_number") (get fields (codes "blockNumber"))))
          _ h9 in
      let (_, _, h11) =
        >>=-eq-ok
          (int_of_optional rt
            (get_default fields (codes "chain_id") (get fields (codes "chainId"))))
          _ h10 in
      rw (sym (ok_value h11)) (
        refl,
        (contract_id, refl, digest_text _ c),
        (hashlock, refl, digest_text _ l),
        (asset, refl, normalize_address-hex _ asset (or_raise-some _ a)),
      )

  -- Evidence that is parsed is self-attested, whatever the input says of itself; its contract and its
  -- hashlock are the texts of 32 bytes, and its asset is the text of 20 bytes.
  pub parse_settlement_evidence-shape :
      (j : Json) (e : SettlementEvidence)
      → parse_settlement_evidence rt j ≡ ok e
      → (e.provenance ≡ codes "self_attested")
        × ((c : Str) × (e.contract_id ≡ some c) × IsDigestText c)
        × ((l : Str) × (e.hashlock ≡ some l) × IsDigestText l)
        × ((a : Str) × (e.asset ≡ some a) × IsAddressText a)
  unfolding parse_settlement_evidence
  parse_settlement_evidence-shape (dict fields) e h = parse_settlement_fields-shape fields e h
  parse_settlement_evidence-shape _ e h = cc

  pub parse_settlement_evidence-self_attested :
      (j : Json) (e : SettlementEvidence)
      → parse_settlement_evidence rt j ≡ ok e
      → e.provenance ≡ codes "self_attested"
  parse_settlement_evidence-self_attested j e h = (parse_settlement_evidence-shape j e h).0
