-- ===== src/Strfmt/Digits.antt =====
-- The shape of the decimal form: its bytes, its value, its length and its first digit.
use omniajit.Prelude.{
  ℕ, zero, suc, ◌+◌, ◌*◌, ◌/◌, ◌%◌, ◌^◌, ◌≤◌, ◌<◌, ◌≡◌, refl, sym, ap, ◌∙◌, arith, List, [], ◌∷◌,
  ◌++◌, length, length-append, All, All-append, dec_lt,
}
use native.Mathlib.Nat.{pow-suc, one-le-pow, div-div-eq-div-mul, mul_comm}
use omniajit.Strscan.{peek}
use omniajit.Strfmt.Decimal.{decimal, decimal_last, decimal_more}

abbrev pub IsDigit : ℕ → Type 0
IsDigit c = (b'0' ≤ c) × (c ≤ b'9')

pub decimal-All : (f n : ℕ) → n < 10 ^ suc f → All IsDigit (decimal f n)
decimal-All zero n h = rw (decimal_last zero n h) (omega arith)
decimal-All (suc f) n h = elim (dec_lt n 10) [
  | yes p ↦ rw (decimal_last (suc f) n p) (omega arith)
  | no p ↦ rw (decimal_more f n (omega arith)) (
      All-append IsDigit (decimal f (n / 10)) _
        (decimal-All f (n / 10) (omega (arith, pow-suc 10 (suc f)))) (omega arith))
]

-- The value as a scanner computes it, in a 32 bit word.
unfoldable pub value32 : ℕ → List ℕ → ℕ
value32 x [] = x
value32 x (c ∷ p) = value32 ((x * 10 + c % 16) % 2 ^ 32) p

value32-append :
    (x c : ℕ) (p : List ℕ) → value32 x (p ++ (c ∷ [])) ≡ (value32 x p * 10 + c % 16) % 2 ^ 32
unfolding value32
value32-append x c [] = refl
value32-append x c (d ∷ p) = value32-append ((x * 10 + d % 16) % 2 ^ 32) c p

pub value32-decimal : (f n : ℕ) → n < 10 ^ suc f → value32 0 (decimal f n) ≡ n % 2 ^ 32
value32-decimal zero n h = rw (decimal_last zero n h) (unfold value32 in omega arith)
value32-decimal (suc f) n h = elim (dec_lt n 10) [
  | yes p ↦ rw (decimal_last (suc f) n p) (unfold value32 in omega arith)
  | no p ↦
      rw
        (
          decimal_more f n (omega arith),
          value32-append,
          value32-decimal f (n / 10) (omega (arith, pow-suc 10 (suc f))),
        )
        (omega arith)
]

peek-append : (p : List ℕ) (c : ℕ) → 0 < length p → peek (p ++ (c ∷ [])) ≡ peek p
peek-append [] c h = absurd (omega arith)
peek-append (d ∷ p) c h = refl

-- A number with `suc n` digits.
pub decimal-length :
    (n f u : ℕ)
    → n ≤ f
    → 10 ^ n ≤ u
    → u < 10 ^ suc n
    → (length (decimal f u) ≡ suc n) × (peek (decimal f u) ≡ b'0' + u / 10 ^ n)
decimal-length zero f u h lo hi = rw (decimal_last f u hi) (refl, omega arith)
decimal-length (suc n) zero u h lo hi = absurd (omega arith)
decimal-length (suc n) (suc f) u h lo hi =
    let (len, head) =
      decimal-length n f (u / 10) (omega arith) (omega (arith, pow-suc 10 n))
        (omega (arith, pow-suc 10 (suc n))) in
    let div : u / 10 / 10 ^ n ≡ u / 10 ^ suc n =
      div-div-eq-div-mul u 10 (10 ^ n)
      ∙ ap (λ (t : ℕ). u / t) (mul_comm 10 (10 ^ n) ∙ sym (pow-suc 10 n)) in
    let ten : 10 ≤ u = omega (arith, pow-suc 10 n, one-le-pow n 10) in
    rw (decimal_more f u ten) (
      omega (arith, length-append (decimal f (u / 10)) ((b'0' + u % 10) ∷ []), len),
      peek-append (decimal f (u / 10)) _ (omega (arith, len)) ∙ rw (head, div),
    )

pub length-decimal-le : (n f u : ℕ) → u < 10 ^ suc n → length (decimal f u) ≤ suc n
length-decimal-le n zero u h = unfold decimal in omega arith
length-decimal-le zero (suc f) u h = rw (decimal_last (suc f) u h) (omega arith)
length-decimal-le (suc n) (suc f) u h = elim (dec_lt u 10) [
  | yes p ↦ rw (decimal_last (suc f) u p) (omega arith)
  | no p ↦ rw (decimal_more f u (omega arith)) (
      omega (
        arith,
        length-append (decimal f (u / 10)) ((b'0' + u % 10) ∷ []),
        length-decimal-le n f (u / 10) (omega (arith, pow-suc 10 (suc n))),
      ))
]

pub length-decimal-pos : (f u : ℕ) → 0 < length (decimal f u)
unfolding decimal
length-decimal-pos zero u = omega arith
length-decimal-pos (suc f) u =
    ground (arith, length-append (decimal f (u / 10)) ((b'0' + u % 10) ∷ []))

-- The first digit of a positive number is not zero.
pub peek-decimal-pos : (f u : ℕ) → 0 < u → u < 10 ^ suc f → b'1' ≤ peek (decimal f u)
peek-decimal-pos zero u pos h = rw (decimal_last zero u h) (omega arith)
peek-decimal-pos (suc f) u pos h = elim (dec_lt u 10) [
  | yes p ↦ rw (decimal_last (suc f) u p) (omega arith)
  | no p ↦ rw (decimal_more f u (omega arith)) (
      omega (
        arith,
        peek-append (decimal f (u / 10)) (b'0' + u % 10) (length-decimal-pos f (u / 10)),
        peek-decimal-pos f (u / 10) (omega arith) (omega (arith, pow-suc 10 (suc f))),
      ))
]
