-- ===== src/Tests/Toy.antt =====
-- A concrete function in the place of SHA-256: a checksum, 32 times.
use tc_ledger.Prelude.{ℕ, zero, suc, ◌+◌, ◌*◌, ◌%◌, ◌<◌, ◌≡◌, ap, refl, [], ◌∷◌, length, arith}
use tc_ledger.Py.Str.{Bytes, IsBytes}
use tc_ledger.Merkle.Hash.{Sha256}

abbrev checksum : Bytes → ℕ
checksum [] = 7
checksum (b ∷ bs) = (b + 31 * checksum bs) % 256

checksum_bound : (b : Bytes) → checksum b < 256
checksum_bound [] = omega arith
checksum_bound (x ∷ b) = omega arith

abbrev replicate : ℕ → ℕ → Bytes
replicate zero b = []
replicate (suc n) b = b ∷ replicate n b

length-replicate : (n b : ℕ) → length (replicate n b) ≡ n
length-replicate zero b = refl
length-replicate (suc n) b = ap suc (length-replicate n b)

All-replicate : (n b : ℕ) → b < 256 → IsBytes (replicate n b)
All-replicate zero b h = tt
All-replicate (suc n) b h = (h, All-replicate n b h)

pub toy_length : (b : Bytes) → length (replicate 32 (checksum b)) ≡ 32
toy_length b = length-replicate 32 (checksum b)

pub toy_bytes : (b : Bytes) → IsBytes (replicate 32 (checksum b))
toy_bytes b = All-replicate 32 (checksum b) (checksum_bound b)

abbrev pub toy : Sha256
toy = record {
  digest = λ b. replicate 32 (checksum b);
  digest_length = toy_length;
  digest_bytes = toy_bytes;
}
