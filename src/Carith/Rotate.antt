-- ===== src/Carith/Rotate.antt =====
-- Rotations of 64 bit words.
use omniajit.Prelude.{
  ℕ, ◌+◌, ◌-◌, ◌*◌, ◌/◌, ◌%◌, ◌^◌, ◌<◌, ◌≡◌, sym, ◌∙◌, ap, arith, bit_or, dec_lt,
}
use omniajit.Prelude.Bits.{bit_or_high, bit_or_self}
use omniajit.Prelude.Powers.{pow-add}
use native.Mathlib.Nat.{
  div-add-mod', mod-lt, one-le-pow, div-lt_iff_lt-mul, div-one, mod-eq_of_lt,
  add-mul-mod_self_right, div-eq_of_lt-le,
}
use omniajit.Carith.{word, rol64, ror64, complement}

pow_split : (a b : ℕ) → a + b ≡ 64 → 2 ^ a * 2 ^ b ≡ 2 ^ 64
pow_split a b e = sym (pow-add 2 a b) ∙ ap (λ (t : ℕ). 2 ^ t) e

-- Both factors are positive.
product_fits : (x A B : ℕ) → x < B → 0 < A → x * A < A * B
product_fits x A B h pos = grind arith

-- The two halves change places.
rotate_halves :
    (a b hi lo : ℕ)
    → a + b ≡ 64
    → hi < 2 ^ a
    → lo < 2 ^ b
    → bit_or (word ((hi * 2 ^ b + lo) * 2 ^ a)) ((hi * 2 ^ b + lo) / 2 ^ b) ≡ lo * 2 ^ a + hi
rotate_halves a b hi lo e hh hl = rw (low, high) (bit_or_high a lo hi hh)
  where
    expand : (hi * 2 ^ b + lo) * 2 ^ a ≡ lo * 2 ^ a + hi * 2 ^ 64
    expand = omega (arith, ap (λ (t : ℕ). hi * t) (pow_split a b e))

    small : lo * 2 ^ a < 2 ^ 64
    small =
        rw (← pow_split a b e) (product_fits lo (2 ^ a) (2 ^ b) hl (one-le-pow a 2 (omega arith)))

    low : word ((hi * 2 ^ b + lo) * 2 ^ a) ≡ lo * 2 ^ a
    low = rw (expand, add-mul-mod_self_right) (mod-eq_of_lt small)

    high : (hi * 2 ^ b + lo) / 2 ^ b ≡ hi
    high = div-eq_of_lt-le {k = hi} (2 ^ b) (omega arith) (omega arith)

rotate_back :
    (a b x : ℕ)
    → a + b ≡ 64
    → x < 2 ^ 64
    → let y = bit_or (word (x * 2 ^ a)) (x / 2 ^ b) in bit_or (word (y * 2 ^ b)) (y / 2 ^ a) ≡ x
rotate_back a b x e h = rw (← split) (
    rw (rotate_halves a b (x / 2 ^ b) (x % 2 ^ b) e hi_fits lo_fits)
      (rotate_halves b a (x % 2 ^ b) (x / 2 ^ b) (omega arith) lo_fits hi_fits))
  where
    split : x / 2 ^ b * 2 ^ b + x % 2 ^ b ≡ x
    split = div-add-mod' x (2 ^ b)

    lo_fits : x % 2 ^ b < 2 ^ b
    lo_fits = mod-lt x (one-le-pow b 2 (omega arith))

    hi_fits : x / 2 ^ b < 2 ^ a
    hi_fits = (div-lt_iff_lt-mul (one-le-pow b 2 (omega arith))).1 (rw (pow_split a b e) h)

-- Rotating a 64 bit word left and then right by the same distance gives the word back.
pub ror64-rol64 : (x sh : ℕ) → x < 2 ^ 64 → ror64 (rol64 x sh) sh ≡ x
unfolding ror64 rol64
ror64-rol64 x sh h = elim (dec_lt 0 (sh % 64)) [
  | yes p ↦
      let e : complement (sh % 64) ≡ 64 - sh % 64 = omega arith in
      rw e (rotate_back (sh % 64) (64 - sh % 64) x (omega arith) h)
  | no p ↦
      let e : sh % 64 ≡ 0 = omega arith in
      let same : x * 1 % 2 ^ 64 ≡ x = omega arith in
      rw (e, same, div-one, bit_or_self, same, div-one) (bit_or_self x)
]
