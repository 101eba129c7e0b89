-- ===== src/Carith/Division.antt =====
-- Truncating division, and the floored remainder of the interpreter.
use omniajit.Prelude.{
  ℕ, zero, suc, ◌*◌, ◌/◌, ◌%◌, ◌^◌, ◌≤◌, ◌<◌, ◌≡◌, ◌≢◌, ◌⊎◌, inl, sym, arith, dec_lt, Bool, true,
  not, if◌then◌else◌,
}
use omniajit.Prelude.Int.{◌+ℤ◌, ◌*ℤ◌, signed, with_sign, differ, signed_sum}
use native.Mathlib.Nat.{div-add-mod', mod-lt, div-one}
use omniajit.Carith.{divi64, modi64, magnitude, negate, is_negative, quotient, int_min, minus_one}

signed_parts : (a : ℕ) → a < 2 ^ 64 → signed 64 a ≡ with_sign (is_negative 64 a) (magnitude 64 a)
signed_parts a h = ground arith

-- A magnitude with a sign put on it, where the word has room.
signed_result :
    (s : Bool) (m : ℕ)
    → (m < 2 ^ 63) ⊎ ((m ≡ 2 ^ 63) × (s ≡ true))
    → signed 64 (if s then negate 64 m else m) ≡ with_sign s m
signed_result s m h = ground arith

quotient-signed :
    (a b : ℕ)
    → quotient a b ≡ (
        let m = magnitude 64 a / magnitude 64 b in
        if differ (is_negative 64 a) (is_negative 64 b) then negate 64 m else m)
unfolding not
quotient-signed a b = ground arith

div-le_half : (a b : ℕ) → 2 ≤ b → 2 * (a / b) ≤ a
div-le_half a (suc (suc b)) h = omega (arith, div-add-mod' a (suc (suc b)))
div-le_half a zero h = absurd (omega arith)
div-le_half a (suc zero) h = absurd (omega arith)

-- The quotient has room unless it is `2 ^ 63` and positive.
quotient_fits :
    (a b : ℕ)
    → a < 2 ^ 64
    → b < 2 ^ 64
    → b ≢ 0
    → (a ≢ int_min) ⊎ (b ≢ minus_one)
    → let m = magnitude 64 a / magnitude 64 b in
      (m < 2 ^ 63) ⊎ ((m ≡ 2 ^ 63) × (differ (is_negative 64 a) (is_negative 64 b) ≡ true))
unfolding not
quotient_fits a b ha hb nz fits = elim (dec_lt 1 (magnitude 64 b)) [
  | yes p ↦ ground (arith, div-le_half (magnitude 64 a) (magnitude 64 b) p)
  | no p ↦ let one : magnitude 64 b ≡ 1 = ground arith in rw (one, div-one) (ground arith)
]

remainder_bound :
    (a b : ℕ)
    → a < 2 ^ 64
    → b < 2 ^ 64
    → b ≢ 0
    → (magnitude 64 (modi64 a b) < magnitude 64 b)
      × ((modi64 a b ≡ 0) ⊎ (is_negative 64 (modi64 a b) ≡ is_negative 64 a))
unfolding modi64
remainder_bound a b ha hb nz = ground (arith, mod-lt (magnitude 64 a) {m = magnitude 64 b})

division_sum :
    (a b : ℕ)
    → a < 2 ^ 64
    → b < 2 ^ 64
    → b ≢ 0
    → (a ≢ int_min) ⊎ (b ≢ minus_one)
    → signed 64 (divi64 a b) *ℤ signed 64 b +ℤ signed 64 (modi64 a b) ≡ signed 64 a
division_sum a b ha hb nz fits =
    let m = magnitude 64 a / magnitude 64 b in
    let r = magnitude 64 a % magnitude 64 b in
    let sa = is_negative 64 a in
    let sb = is_negative 64 b in
    let div : divi64 a b ≡ quotient a b = unfold divi64 in ground arith in
    let rem : modi64 a b ≡ (if sa then negate 64 r else r) = unfold modi64 in ground arith in
    let r_fits : (r < 2 ^ 63) ⊎ ((r ≡ 2 ^ 63) × (sa ≡ true)) =
      inl (ground (arith, mod-lt (magnitude 64 a) {m = magnitude 64 b})) in
    rw
      (
        div,
        rem,
        quotient-signed a b,
        signed_result (differ sa sb) m (quotient_fits a b ha hb nz fits),
        signed_result sa r r_fits,
        signed_parts b hb,
        signed_sum sa sb m (magnitude 64 b) r,
        div-add-mod' (magnitude 64 a) (magnitude 64 b),
      )
      (sym (signed_parts a ha))

-- Where the divisor is not zero and the quotient fits, the results of `lj_carith_divi64` and
-- `lj_carith_modi64` are the quotient and the remainder of the signed division that truncates:
-- they make up the dividend, and the remainder is smaller than the divisor and has the sign of
-- the dividend or is zero.
pub signed_division :
    (a b : ℕ)
    → a < 2 ^ 64
    → b < 2 ^ 64
    → b ≢ 0
    → (a ≢ int_min) ⊎ (b ≢ minus_one)
    → (signed 64 (divi64 a b) *ℤ signed 64 b +ℤ signed 64 (modi64 a b) ≡ signed 64 a)
      × (magnitude 64 (modi64 a b) < magnitude 64 b)
      × ((modi64 a b ≡ 0) ⊎ (is_negative 64 (modi64 a b) ≡ is_negative 64 a))
signed_division a b ha hb nz fits =
    let (bound, sign) = remainder_bound a b ha hb nz in
    (division_sum a b ha hb nz fits, bound, sign)
