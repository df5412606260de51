-- ===== src/Merkle/Start.antt =====
-- Where the verifier's loop over a consistency proof starts: the shift by the trailing zero bits of
-- the old size leads to the level at which the old tree's last node stands alone.
use Prim.Native.Nat.{bit_and}
use tc_ledger.Prelude.{
  ℕ, zero, suc, ◌-◌, ◌/◌, ◌%◌, ◌≤◌, ◌<◌, ◌≡◌, inl, inr, refl, sym, ◌∙◌, ap, parity, true, some,
  List, [], ◌∷◌, ◌++◌, ◌==◌, length, take, get_elem?, get_elem?-lt, All, arith,
}
use tc_ledger.Py.Str.{Bytes}
use tc_ledger.Merkle.Hash.{Sha256, IsHash, node}
use tc_ledger.Merkle.Tree.{pairs, length-pairs}
use tc_ledger.Merkle.Levels.{pairs-IsHash}
use tc_ledger.Merkle.Split.{root-pairs}
use tc_ledger.Merkle.Audit.{audit, audit_odd, audit-odd, audit-even}
use tc_ledger.Merkle.Consistency.{shift_while_odd}
use tc_ledger.Merkle.Generator.{tree_root}
use tc_ledger.Merkle.PowerTest.{power_test_odd, power_test_even}

module _ {A : Type 0} where
  take_last :
      (l : List A) (i : ℕ) (a : A) → get_elem? l i ≡ some a → take (suc i) l ≡ take i l ++ a ∷ []
  take_last [] i a e = cc
  take_last (x ∷ l) zero a e = cc
  take_last (x ∷ l) (suc i) a e = ap (λ t. x ∷ t) (take_last l i a e)

  take_upto :
      (l : List A) (i j : ℕ) (a : A)
      → suc i ≡ j
      → get_elem? l i ≡ some a
      → take i l ++ a ∷ [] ≡ take j l
  take_upto l i j a q e = rw (← q) (sym (take_last l i a e))

  pub pairs-take :
      (node : A → A → A) (l : List A) (m : ℕ)
      → m % 2 ≡ 0
      → m ≤ length l
      → pairs node (take m l) ≡ take (m / 2) (pairs node l)
  unfolding pairs
  pairs-take node l zero h p = refl
  pairs-take node l (suc zero) h p = absurd (omega arith)
  pairs-take node [] (suc (suc m)) h p = elim p [ ]
  pairs-take node (x ∷ []) (suc (suc m)) h p = absurd (omega arith)
  pairs-take node (x ∷ y ∷ l) (suc (suc m)) h p =
      let half : suc (suc m) / 2 ≡ suc (m / 2) = omega arith in
      rw half (ap (λ t. node x y ∷ t) (pairs-take node l m (omega arith) (omega arith)))

shift_while_odd_done : (f i s : ℕ) → i % 2 ≡ 0 → shift_while_odd f i s ≡ (i, s)
unfolding shift_while_odd
shift_while_odd_done zero i s h = refl
shift_while_odd_done (suc f) i s h = ground arith

shift_while_odd_step :
    (f i s : ℕ) → i % 2 ≡ 1 → shift_while_odd (suc f) i s ≡ shift_while_odd f (i / 2) (s / 2)
unfolding shift_while_odd
shift_while_odd_step f i s h = let odd : (i % 2 == 1) ≡ true = ground arith in rw odd

-- The start for a prefix of `m` elements of `l`.
pub record Start (sha : Sha256) (f m : ℕ) (l : List Bytes) : Type 0 where
  pub level : List Bytes
  pub index : ℕ
  pub final : Bytes
  pub hashes : All IsHash level
  pub inside : suc index < length level
  pub at_index : get_elem? level index ≡ some final
  pub shifted : shift_while_odd f (m - 1) (length l - 1) ≡ (index, length level - 1)
  pub old_root : tree_root sha (take index level ++ final ∷ []) ≡ tree_root sha (take m l)
  pub new_root : tree_root sha level ≡ tree_root sha l
  pub proof : audit (node sha) (suc f) m l true ≡ audit_odd (node sha) index level true
  pub single : (bit_and m (m - 1) == 0) ≡ (index == 0)

module _ (sha : Sha256) where
  Start-odd : (f m : ℕ) (l : List Bytes) → All IsHash l → m % 2 ≡ 1 → m < length l → Start sha f m l
  Start-odd f m l hl odd p =
      let (a, e) = get_elem?-lt l (m - 1) (omega arith) in
      let back : suc (m - 1) ≡ m = omega arith in
      record {
        level = l;
        index = m - 1;
        final = a;
        hashes = hl;
        inside = omega arith;
        at_index = e;
        shifted = shift_while_odd_done f (m - 1) (length l - 1) (omega arith);
        old_root = ap (tree_root sha) (take_upto l (m - 1) m a back e);
        new_root = refl;
        proof = audit-odd (node sha) f m l true odd;
        single = power_test_odd m odd;
      }

  Start-even :
      (f m : ℕ) (l : List Bytes)
      → m % 2 ≡ 0
      → 0 < m
      → m < length l
      → Start sha f (m / 2) (pairs (node sha) l)
      → Start sha (suc f) m l
  Start-even f m l even p q s =
      let half : (m - 1) / 2 ≡ m / 2 - 1 = omega arith in
      let size = length-pairs (node sha) l in
      let up : (length l - 1) / 2 ≡ length (pairs (node sha) l) - 1 = omega arith in
      record {
        level = s.level;
        index = s.index;
        final = s.final;
        hashes = s.hashes;
        inside = s.inside;
        at_index = s.at_index;
        shifted =
            shift_while_odd_step f (m - 1) (length l - 1) (omega arith) ∙ rw (half, up) s.shifted;
        old_root =
            s.old_root
            ∙ ap (tree_root sha) (sym (pairs-take (node sha) l m even (omega arith)))
            ∙ root-pairs (node sha) (sha.digest []) (take m l);
        new_root = s.new_root ∙ root-pairs (node sha) (sha.digest []) l;
        proof = audit-even (node sha) (suc f) m l true even ∙ s.proof;
        single = power_test_even m p even ∙ s.single;
      }

  pub start :
      (f m : ℕ) (l : List Bytes) → All IsHash l → 0 < m → m ≤ suc f → m < length l → Start sha f m l
  start zero m l hl p h q = Start-odd zero m l hl (omega arith) q
  start (suc f) m l hl p h q = elim (parity m) [
    | inr odd ↦ Start-odd (suc f) m l hl odd q
    | inl even ↦
        let size = length-pairs (node sha) l in
        Start-even f m l even p q (
          start f (m / 2) (pairs (node sha) l) (pairs-IsHash sha l hl) (omega arith) (omega arith)
            (omega arith))
  ]
