-- ===== src/Evm/Event/Typed.antt =====
-- Events of an expected type have the fields of that type.
use tc_ledger.Prelude.{◌≡◌, refl, true, &&_true, Option, [], ◌∷◌, ltb, arith, All, ◌<◌}
use tc_ledger.Py.Str.{Str, codes, same}
use tc_ledger.Py.Text.{all_chars, ascii_lower}
use tc_ledger.Py.Text.Runtime.{Runtime}
use tc_ledger.Evm.Event.{Details, locked, claimed, refunded, event_type}

ascii-All : (s : Str) → all_chars (λ c. ltb c 128) s ≡ true → All (λ c. c < 128) s
ascii-All [] h = tt
ascii-All (c ∷ s) h =
    let (first, rest) = &&_true (ltb c 128) _ h in (ground (arith, first), ascii-All s rest)

module _ (rt : Runtime) where
  lower_locked : rt.lower (codes "Locked") ≡ codes "locked"
  unfolding ascii_lower
  lower_locked = rt.lower_ascii (codes "Locked") (ascii-All (codes "Locked") refl)

  lower_claimed : rt.lower (codes "Claimed") ≡ codes "claimed"
  unfolding ascii_lower
  lower_claimed = rt.lower_ascii (codes "Claimed") (ascii-All (codes "Claimed") refl)

  lower_refunded : rt.lower (codes "Refunded") ≡ codes "refunded"
  unfolding ascii_lower
  lower_refunded = rt.lower_ascii (codes "Refunded") (ascii-All (codes "Refunded") refl)

  -- The fields of an event are those of its type.
  pub details_claimed :
      (d : Details)
      → same (rt.lower (event_type d)) (rt.lower (codes "Claimed")) ≡ true
      → (secret : Option Str) × (d ≡ claimed secret)
  details_claimed (locked terms) h = let wrong = rw (lower_locked, lower_claimed) at h in cc
  details_claimed (claimed secret) h = (secret, refl)
  details_claimed refunded h = let wrong = rw (lower_refunded, lower_claimed) at h in cc

  pub details_refunded :
      (d : Details)
      → same (rt.lower (event_type d)) (rt.lower (codes "Refunded")) ≡ true
      → d ≡ refunded
  details_refunded (locked terms) h = let wrong = rw (lower_locked, lower_refunded) at h in cc
  details_refunded (claimed secret) h = let wrong = rw (lower_claimed, lower_refunded) at h in cc
  details_refunded refunded h = refl
