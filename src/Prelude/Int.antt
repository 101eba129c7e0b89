-- ===== src/Prelude/Int.antt =====
-- Signed integers over the native numbers, under the library's names.
-- Sums and orders go through the two parts of an integer, which are numbers that `omega` reads.
use Prim.Native.Nat.{ℕ, suc, ◌+◌, ◌-◌, ◌*◌, ◌^◌, ◌≤◌}
use mathlib.Core.Path.{◌≡◌}
use mathlib.Core.Bool.{Bool, true, false, not}
use native.Mathlib.Omega.{arith}
use omniajit.Prelude.Tests.{ltb, leb, if◌then◌else◌}

-- `negsuc n` is -(n + 1).
pub data ℤ : Type 0 where
  pos : ℕ → ℤ
  negsuc : ℕ → ℤ

abbrev pub pos_part : ℤ → ℕ
pos_part (pos n) = n
pos_part (negsuc n) = 0

abbrev pub neg_part : ℤ → ℕ
neg_part (pos n) = 0
neg_part (negsuc n) = suc n

-- a - b, as an integer.
abbrev pub sub_ℕ : ℕ → ℕ → ℤ
sub_ℕ a b = if leb b a then pos (a - b) else negsuc (b - a - 1)

infixl 65 ◌+ℤ◌
infixl 70 ◌*ℤ◌
unfoldable pub ◌+ℤ◌ : ℤ → ℤ → ℤ
a +ℤ b = sub_ℕ (pos_part a + pos_part b) (neg_part a + neg_part b)

unfoldable pub ◌*ℤ◌ : ℤ → ℤ → ℤ
a *ℤ b =
    sub_ℕ (pos_part a * pos_part b + neg_part a * neg_part b)
      (pos_part a * neg_part b + neg_part a * pos_part b)

-- The integer that a word of `w` bits stands for in two's complement.
abbrev pub signed : ℕ → ℕ → ℤ
signed w a = if ltb a (2 ^ (w - 1)) then pos a else negsuc (2 ^ w - a - 1)

pub eq_of_parts : (a b : ℤ) → pos_part a + neg_part b ≡ pos_part b + neg_part a → a ≡ b
eq_of_parts a b h = ground arith

-- One lemma for each operation lets `omega` work with the operations shut.
pub +ℤ_parts :
    (a b : ℤ)
    → pos_part (a +ℤ b) + neg_part a + neg_part b ≡ neg_part (a +ℤ b) + pos_part a + pos_part b
unfolding ◌+ℤ◌
+ℤ_parts a b = ground arith

pub *ℤ_parts :
    (a b : ℤ)
    → pos_part (a *ℤ b) + (pos_part a * neg_part b + neg_part a * pos_part b)
      ≡ neg_part (a *ℤ b) + (pos_part a * pos_part b + neg_part a * neg_part b)
unfolding ◌*ℤ◌
*ℤ_parts a b = ground arith

-- The integer of a sign and a magnitude.
abbrev pub with_sign : Bool → ℕ → ℤ
with_sign false n = pos n
with_sign true n = sub_ℕ 0 n

pub with_sign_neg : (n : ℕ) → (pos_part (with_sign true n) ≡ 0) × (neg_part (with_sign true n) ≡ n)
with_sign_neg n = ground arith

abbrev pub differ : Bool → Bool → Bool
differ false b = b
differ true b = not b

-- A quotient and a remainder with the signs that truncation gives them make up the dividend.
pub signed_sum :
    (sa sb : Bool) (q m r : ℕ)
    → with_sign (differ sa sb) q *ℤ with_sign sb m +ℤ with_sign sa r ≡ with_sign sa (q * m + r)
unfolding not
signed_sum false false q m r = eq_of_parts _ _ (grind (arith, +ℤ_parts, *ℤ_parts))
signed_sum false true q m r = eq_of_parts _ _ (grind (arith, +ℤ_parts, *ℤ_parts, with_sign_neg))
signed_sum true false q m r = eq_of_parts _ _ (grind (arith, +ℤ_parts, *ℤ_parts, with_sign_neg))
signed_sum true true q m r = eq_of_parts _ _ (grind (arith, +ℤ_parts, *ℤ_parts, with_sign_neg))

-- The same for a quotient rounded down, where the signs of dividend and divisor differ.
pub floored_sum :
    (sb : Bool) (q m r : ℕ)
    → r ≤ m
    → with_sign true (q + 1) *ℤ with_sign sb m +ℤ with_sign sb (m - r)
      ≡ with_sign (not sb) (q * m + r)
unfolding not
floored_sum false q m r h =
    let (p, n) = with_sign_neg (q + 1) in
    let prod = rw (p, n) at (*ℤ_parts (with_sign true (q + 1)) (pos m)) in
    eq_of_parts _ _ (omega (arith, prod, +ℤ_parts, with_sign_neg (q * m + r)))
floored_sum true q m r h =
    let (p, n) = with_sign_neg (q + 1) in
    let (p', n') = with_sign_neg m in
    let prod = rw (p, n, p', n') at (*ℤ_parts (with_sign true (q + 1)) (with_sign true m)) in
    eq_of_parts _ _ (omega (arith, prod, +ℤ_parts, with_sign_neg (m - r)))

abbrev pub ltb_ℤ : ℤ → ℤ → Bool
ltb_ℤ a b = ltb (pos_part a + neg_part b) (pos_part b + neg_part a)
