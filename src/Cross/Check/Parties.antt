-- ===== src/Cross/Check/Parties.antt =====
-- What a conformant proof shows of the secret, of the payer and of the token transfer, and that evidence
-- that a caller supplies is never enough.
use tc_ledger.Prelude.{
  ◌≡◌, ◌⊎◌, ◌||◌, refl, Bool, true, false, &&_true, Bool-cases, inl, inr, Option, none, some, List,
  [], ◌∷◌,
}
use tc_ledger.Py.Result.{Result, ok, err}
use tc_ledger.Py.Str.{Str, Bytes, codes, same}
use tc_ledger.Py.Hex.{hex, fromhex}
use tc_ledger.Py.Text.{drop_0x}
use tc_ledger.Py.Text.Runtime.{Runtime}
use tc_ledger.Py.Json.{Json, Fields, str, truthy}
use tc_ledger.Merkle.Hash.{Sha256}
use tc_ledger.Crypto.Secp256k1.{secp256k1_pubkey_to_address}
use tc_ledger.Settlement.Normalize.{normalize_address}
use tc_ledger.Settlement.Types.{SettlementEvidence, AgreementState, TranscriptEvidence}
use tc_ledger.Settlement.Parse.{parse_settlement_evidence}
use tc_ledger.Settlement.Sound.{parse_settlement_evidence-self_attested}
use tc_ledger.Cross.Types.{Reason, Report, payer_key_mismatch, payer_key_invalid}
use tc_ledger.Cross.Terms.{
  same_lower, nonempty, compare_bytes, compare_secret, supplied_secret, secret_check,
}
use tc_ledger.Cross.Binding.{
  key_binding, derived_binding, address_matches, transfer_check, is_on_chain, is_token, is_true,
}
use tc_ledger.Cross.Check.{cross_check}
use tc_ledger.Cross.Check.Evidence.{conformant-IsClear}

cons_not_nil : {r : Reason} {l : List Reason} → r ∷ l ≡ [] → ⊥
cons_not_nil h = cc

module _ (sha : Sha256) (rt : Runtime) where
  -- The secret whose bytes hash to the hashlock.
  abbrev pub Opens : Str → Str → Type 0
  Opens secret hashlock =
      (b : Bytes) × (fromhex (drop_0x secret) ≡ ok b)
      × (same_lower rt (hex (sha.digest b)) (drop_0x hashlock) ≡ true)

  compared_bytes :
      (r : Result Bytes) (hashlock : Str)
      → (compare_bytes sha rt r hashlock).1 ≡ []
      → (b : Bytes) × (r ≡ ok b) × (same_lower rt (hex (sha.digest b)) (drop_0x hashlock) ≡ true)
  unfolding compare_bytes
  compared_bytes (ok b) hashlock h =
      elim (Bool-cases (same_lower rt (hex (sha.digest b)) (drop_0x hashlock))) [
        | inl matches ↦ (b, refl, matches)
        | inr differs ↦ absurd (cons_not_nil (rw differs at h))
      ]
  compared_bytes (err x) hashlock h = absurd (cons_not_nil h)

  opened_secret :
      (secret : Option Str) (hashlock : Str)
      → (supplied_secret sha rt secret hashlock).1 ≡ []
      → (s : Str) × (secret ≡ some s) × Opens s hashlock
  unfolding supplied_secret compare_secret
  opened_secret none hashlock h = absurd (cons_not_nil h)
  opened_secret (some []) hashlock h = absurd (cons_not_nil h)
  opened_secret (some (c ∷ s)) hashlock h =
      (c ∷ s, refl, compared_bytes (fromhex (drop_0x (c ∷ s))) hashlock h)

  derived_address :
      (r : Result Str) (address : Option Str) (a b : Reason)
      → (derived_binding rt r address a b).1 ≡ []
      → (derived paid : Str) × (r ≡ ok derived)
        × (address ≡ some paid)
        × (same_lower rt derived paid ≡ true)
  unfolding derived_binding
  derived_address (err e) address a b h = absurd (cons_not_nil h)
  derived_address (ok derived) none a b h = absurd (cons_not_nil h)
  derived_address (ok derived) (some paid) a b h =
      elim (Bool-cases (address_matches rt derived (some paid))) [
        | inl matches ↦ (derived, paid, refl, refl, (&&_true (nonempty paid) _ matches).1)
        | inr differs ↦ absurd (cons_not_nil (rw differs at h))
      ]

  module _ (anchors : Fields) (agreement : AgreementState) (transcript : TranscriptEvidence)
      (settlement : SettlementEvidence) (report : Report)
      (checked : cross_check sha rt anchors agreement transcript settlement ≡ ok report)
      (conformant : report.is_conformant ≡ true) where
    -- A conformant proof of a claimed settlement has a secret whose SHA-256 digest is the hashlock of
    -- the agreement, up to letter case.
    pub conformant-secret :
        settlement.settlement_status ≡ codes "claimed"
        → (s : Str) × (settlement.secret ≡ some s) × Opens s agreement.hashlock
    unfolding secret_check
    conformant-secret claimed =
        let clear =
          conformant-IsClear sha rt anchors agreement transcript settlement report checked
            conformant in
        let is_claimed : same settlement.settlement_status (codes "claimed") ≡ true =
          rw claimed refl in
        opened_secret settlement.secret agreement.hashlock (rw is_claimed at (clear.secret))

    -- If the agreement of a conformant proof names a payment key of the payer, then the settlement was
    -- paid from the address of that key, up to letter case.
    pub conformant-payer :
        truthy agreement.payer_payment_key ≡ true
        → (derived paid : Str) × (secp256k1_pubkey_to_address agreement.payer_payment_key
            ≡ ok derived)
          × (settlement.payer_address ≡ some paid)
          × (same_lower rt derived paid ≡ true)
    unfolding key_binding
    conformant-payer keyed =
        let clear =
          conformant-IsClear sha rt anchors agreement transcript settlement report checked
            conformant in
        derived_address (secp256k1_pubkey_to_address agreement.payer_payment_key)
          settlement.payer_address payer_key_mismatch payer_key_invalid (rw keyed at (clear.payer))

    -- In a conformant proof whose agreement is about a token, and whose evidence has the provenance
    -- "rpc_receipt_verified" or "cryptographic_receipt_proof", the token transfer has been verified.
    pub conformant-transfer :
        is_token rt (normalize_address (str agreement.asset)) ≡ true
        → (settlement.provenance ≡ codes "rpc_receipt_verified")
          ⊎ (settlement.provenance ≡ codes "cryptographic_receipt_proof")
        → settlement.erc20_transfer_verified ≡ some true
    unfolding transfer_check
    conformant-transfer token receipts =
        let clear =
          conformant-IsClear sha rt anchors agreement transcript settlement report checked
            conformant in
        let is_receipt = from_receipts receipts in
        elim (Bool-cases (is_true settlement.erc20_transfer_verified)) [
          | inl verified ↦ is_true-some settlement.erc20_transfer_verified verified
          | inr unverified ↦
              absurd (cons_not_nil (rw (token, is_receipt, unverified) at (clear.transfer)))
        ]
      where
        is_true-some : (o : Option Bool) → is_true o ≡ true → o ≡ some true
        is_true-some none e = cc
        is_true-some (some true) e = refl
        is_true-some (some false) e = cc

        from_receipts :
            (settlement.provenance ≡ codes "rpc_receipt_verified")
              ⊎ (settlement.provenance ≡ codes "cryptographic_receipt_proof")
            → (same settlement.provenance (codes "rpc_receipt_verified")
                || same settlement.provenance (codes "cryptographic_receipt_proof"))
              ≡ true
        from_receipts (inl rpc) = rw rpc refl
        from_receipts (inr proof) = rw proof refl

  -- A proof from settlement evidence that a caller supplies is not conformant, whatever the evidence
  -- says: `parse_settlement_evidence` never gives provenance from the chain.
  pub parsed-not_conformant :
      (evidence : Json) (anchors : Fields) (agreement : AgreementState)
      (transcript : TranscriptEvidence) (settlement : SettlementEvidence) (report : Report)
      → parse_settlement_evidence rt evidence ≡ ok settlement
      → cross_check sha rt anchors agreement transcript settlement ≡ ok report
      → report.is_conformant ≡ false
  unfolding is_on_chain
  parsed-not_conformant evidence anchors agreement transcript settlement report parsed checked =
      elim (Bool-cases report.is_conformant) [
        | inr refused ↦ refused
        | inl conformant ↦
            let clear =
              conformant-IsClear sha rt anchors agreement transcript settlement report checked
                conformant in
            let attested = parse_settlement_evidence-self_attested rt evidence settlement parsed in
            let impossible : false ≡ true = rw attested at (clear.on_chain) in cc
      ]
