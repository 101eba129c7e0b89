-- ===== src/Strfmt/Decimal.antt =====
-- `lj_strfmt_wint` writes the shortest decimal form.
use omniajit.Prelude.{
  ℕ, zero, suc, ◌+◌, ◌-◌, ◌*◌, ◌/◌, ◌%◌, ◌^◌, ◌≤◌, ◌<◌, ◌≡◌, refl, ◌∙◌, arith, List, [], ◌∷◌, ◌++◌,
  ltb, leb, if◌then◌else◌, dec_lt,
}
use mathlib.Core.List.{append_assoc}
use omniajit.Strfmt.Wint.{
  wint_d, wint_x, dig1, dig2, dig3, dig4, dig5, dig6, dig7, dig8, dig10, wint_u, wint,
}

-- The multiplications are exact in the range where they are used.
tens : (x : ℕ) → x < 100 → (wint_d x 10 10 ≡ x / 10) × (wint_x x 10 10 ≡ x % 10)
tens x h = (omega arith, omega arith)

hundreds : (x : ℕ) → x < 1000 → (wint_d x 12 100 ≡ x / 100) × (wint_x x 12 100 ≡ x % 100)
hundreds x h = (omega arith, omega arith)

thousands : (x : ℕ) → x < 10000 → (wint_d x 23 1000 ≡ x / 1000) × (wint_x x 23 1000 ≡ x % 1000)
thousands x h = (omega arith, omega arith)

-- The decimal digits of a number of at most `suc f` digits, the highest first, with no leading zero.
unfoldable pub decimal : ℕ → ℕ → List ℕ
decimal zero n = (b'0' + n) ∷ []
decimal (suc f) n =
    let high = decimal f (n / 10) in
    if ltb n 10 then (b'0' + n) ∷ [] else high ++ ((b'0' + n % 10) ∷ [])

pub decimal_last : (f n : ℕ) → n < 10 → decimal f n ≡ (b'0' + n) ∷ []
unfolding decimal
decimal_last zero n h = refl
decimal_last (suc f) n h = ground arith

pub decimal_more :
    (f n : ℕ) → 10 ≤ n → decimal (suc f) n ≡ decimal f (n / 10) ++ ((b'0' + n % 10) ∷ [])
unfolding decimal
decimal_more f n h = ground arith

-- The four digits of the low word, as written and as read off by divisions.
dig2-digits : (u : ℕ) → u < 100 → dig2 u ≡ (b'0' + u / 10) ∷ (b'0' + u % 10) ∷ []
unfolding dig2 dig1
dig2-digits u h = let (d, x) = tens u h in rw (x, d) (ground arith)

dig3-digits :
    (u : ℕ) → u < 1000 → dig3 u ≡ (b'0' + u / 100) ∷ (b'0' + u / 10 % 10) ∷ (b'0' + u % 10) ∷ []
unfolding dig3
dig3-digits u h =
    let (d, x) = hundreds u h in rw (x, d, dig2-digits (u % 100) (omega arith)) (ground arith)

dig4-digits :
    (u : ℕ)
    → u < 10000
    → dig4 u
      ≡ (b'0' + u / 1000) ∷ (b'0' + u / 100 % 10) ∷ (b'0' + u / 10 % 10) ∷ (b'0' + u % 10) ∷ []
unfolding dig4
dig4-digits u h =
    let (d, x) = thousands u h in rw (x, d, dig3-digits (u % 1000) (omega arith)) (ground arith)

-- A number below 10000, by the label where its digits start.
short-decimal :
    (f u : ℕ)
    → u < 10000
    → (if ltb u 10
        then dig1 u
        else if ltb u 100
        then dig2 u
        else if ltb u 1000
        then dig3 u
        else dig4 u)
      ≡ decimal (suc (suc (suc f))) u
short-decimal f u h = elim (dec_lt u 10) [
  | yes p ↦ rw (decimal_last (suc (suc (suc f))) u p) (unfold dig1 in ground arith)
  | no p ↦
      let d1 = decimal_more (suc (suc f)) u (omega arith) in
      elim (dec_lt u 100) [
        | yes q ↦ ground (arith, d1, decimal_last (suc (suc f)) (u / 10), dig2-digits u)
        | no q ↦
            let d2 = decimal_more (suc f) (u / 10) (omega arith) in
            elim (dec_lt u 1000) [
              | yes r ↦ ground (arith, d1, d2, decimal_last (suc f) (u / 10 / 10), dig3-digits u)
              | no r ↦ ground (
                arith,
                d1,
                d2,
                decimal_more f (u / 10 / 10),
                decimal_last f (u / 10 / 10 / 10),
                dig4-digits u,
              )
            ]
      ]
]

-- Four more digits behind a number that is not zero.
four_more :
    (f v u : ℕ)
    → 0 < v
    → u < 10000
    → decimal (suc (suc (suc (suc f)))) (v * 10000 + u) ≡ decimal f v ++ dig4 u
four_more f v u pos h =
    let n = v * 10000 + u in
    let e : v * 10000 + u ≡ n = refl in
    let d1 = decimal_more (suc (suc (suc f))) n (omega arith) in
    let d2 = decimal_more (suc (suc f)) (n / 10) (omega arith) in
    let d3 = decimal_more (suc f) (n / 10 / 10) (omega arith) in
    let d4 = decimal_more f (n / 10 / 10 / 10) (omega arith) in
    let q : n / 10 / 10 / 10 / 10 ≡ v = omega arith in
    d1
    ∙ rw (d2, d3, d4, append_assoc, append_assoc, append_assoc, q, dig4-digits u h) (ground arith)

-- The labels in the middle write the digits of the high word, then those of the low word.
high-append :
    (v u : ℕ)
    → (if ltb v 10
        then dig5 v u
        else if ltb v 100
        then dig6 v u
        else if ltb v 1000
        then dig7 v u
        else dig8 v u)
      ≡ (if ltb v 10
          then dig1 v
          else if ltb v 100
          then dig2 v
          else if ltb v 1000
          then dig3 v
          else dig4 v)
        ++ dig4 u
unfolding dig8 dig7 dig6 dig5 dig4 dig3 dig2 dig1
high-append v u = ground arith

dig10-append : (w v u : ℕ) → w < 100 → dig10 w v u ≡ decimal 3 w ++ (dig4 v ++ dig4 u)
unfolding dig10 dig8 dig7 dig6 dig5
dig10-append w v u h = elim (dec_lt w 10) [
  | yes p ↦ rw (decimal_last 3 w p) (unfold dig4 dig3 dig2 dig1 in ground arith)
  | no p ↦
      let (d, x) = tens w h in
      rw (decimal_more 2 w (omega arith), decimal_last 2 (w / 10) (omega arith))
        (unfold dig4 dig3 dig2 dig1 in ground arith)
]

-- The words of `wint_u`, as they are computed there.
wint_u-decimal : (u : ℕ) → u < 2 ^ 32 → wint_u u ≡ decimal 11 u
unfolding wint_u
wint_u-decimal u h =
    let v = u / 10000 in
    let u' = u - u / 10000 * 10000 in
    let w = u / 10000 / 10000 in
    let v' = u / 10000 - u / 10000 / 10000 * 10000 in
    let whole : u / 10000 * 10000 + u' ≡ u = omega arith in
    let whole' : w * 10000 + v' ≡ u / 10000 = omega arith in
    elim (dec_lt u 10000) [
      | yes p ↦ ground (arith, short-decimal 8 u p)
      | no p ↦
          let split : decimal 11 u ≡ decimal 7 (u / 10000) ++ dig4 u' =
            rw whole at (four_more 7 (u / 10000) u' (omega arith) (omega arith)) in
          elim (dec_lt (u / 10000) 10000) [
            | yes q ↦
                ground (arith, split, high-append (u / 10000) u', short-decimal 4 (u / 10000) q)
            | no q ↦
                let split' : decimal 7 (u / 10000) ≡ decimal 3 w ++ dig4 v' =
                  rw whole' at (four_more 3 w v' (omega arith) (omega arith)) in
                ground (
                  arith,
                  split,
                  split',
                  dig10-append w v' u',
                  append_assoc (decimal 3 w) (dig4 v') (dig4 u'),
                )
          ]
    ]

-- lj_strfmt_wint, which divides by multiplications and shifts, writes the sign and the shortest
-- decimal form of every int32_t.
pub wint-decimal :
    (k : ℕ)
    → k < 2 ^ 32
    → wint k ≡ (if leb (2 ^ 31) k then b'-' ∷ decimal 11 (2 ^ 32 - k) else decimal 11 k)
unfolding wint
wint-decimal k h = ground (arith, wint_u-decimal ((2 ^ 32 - k) % 2 ^ 32), wint_u-decimal k)
