-- ===== src/Str/Compare/Words.antt =====
-- The rounds of `lj_str_cmp`, by the bytes of the words that they compare.
use omniajit.Prelude.{
  ℕ, zero, suc, ◌+◌, ◌-◌, ◌*◌, ◌/◌, ◌%◌, ◌^◌, ◌≤◌, ◌<◌, ◌≡◌, refl, ap, ◌∙◌, sym, arith, List, [],
  ◌∷◌, All, length, drop, get_or, ltb, leb, ◌==◌, if◌then◌else◌, Option, none, some, true, false,
  Bool-cases, inl, inr, ◌⊎◌,
}
use omniajit.Prelude.Int.{ℤ, pos, negsuc, sub_ℕ}
use omniajit.Str.Hash.{getu32, bswap}
use omniajit.Str.Compare.{compare_words, compare_loop}

-- The order of strings by their bytes, a prefix before what it is a prefix of.
abbrev pub lex : List ℕ → List ℕ → ℤ
lex [] [] = pos 0
lex [] (y ∷ ys) = negsuc 0
lex (x ∷ xs) [] = pos 1
lex (x ∷ xs) (y ∷ ys) = if ltb x y then negsuc 0 else if ltb y x then pos 1 else lex xs ys

abbrev pub sign : ℤ → ℤ
sign (pos zero) = pos 0
sign (pos (suc n)) = pos 1
sign (negsuc n) = negsuc 0

pub byte_lt : (m : List ℕ) (j : ℕ) → All (λ x. x < 256) m → get_or m j 0 < 256
byte_lt [] j h = omega arith
byte_lt (x ∷ m) zero h = h.0
byte_lt (x ∷ m) (suc j) h = byte_lt m j h.1

-- A word with its bytes in reverse.
bswap_word :
    (x0 x1 x2 x3 : ℕ)
    → x0 < 256
    → x1 < 256
    → x2 < 256
    → x3 < 256
    → bswap (x0 + x1 * 2 ^ 8 + x2 * 2 ^ 16 + x3 * 2 ^ 24)
      ≡ x0 * 2 ^ 24 + x1 * 2 ^ 16 + x2 * 2 ^ 8 + x3
bswap_word x0 x1 x2 x3 h0 h1 h2 h3 = omega arith

-- The value of the first bytes of a word, where `r` of them are left.
abbrev top : ℕ → List ℕ → ℕ
top r m = bswap (getu32 m 0) / 2 ^ (32 - 8 * r)

abbrev pub verdict : ℕ → ℕ → Option ℤ
verdict p q = if p == q then none else some (if ltb p q then negsuc 0 else pos 1)

words_last :
    (r va vb : ℕ)
    → 0 < r
    → r < 4
    → compare_words (2 ^ 32 - r) va vb
      ≡ verdict (bswap va / 2 ^ (32 - 8 * r)) (bswap vb / 2 ^ (32 - 8 * r))
unfolding compare_words
words_last zero va vb h l = absurd (omega arith)
words_last (suc zero) va vb h l = refl
words_last (suc (suc zero)) va vb h l = refl
words_last (suc (suc (suc zero))) va vb h l = refl
words_last (suc (suc (suc (suc r)))) va vb h l = absurd (omega arith)

words_full : (i va vb : ℕ) → i < 2 ^ 32 - 3 → compare_words i va vb ≡ verdict (bswap va) (bswap vb)
unfolding compare_words
words_full i va vb h =
    let e : leb (2 ^ 32 - 3) i ≡ false = ground arith in rw (e, if◌then◌else◌) refl

verdict_self : (p q : ℕ) → p ≡ q → verdict p q ≡ none
verdict_self p q e = ground arith

pub loop_end : (fuel i n : ℕ) (a b : List ℕ) → n ≤ i → compare_loop fuel i n a b ≡ none
unfolding compare_loop
loop_end zero i n a b h = refl
loop_end (suc fuel) i n a b h = let e : ltb i n ≡ false = ground arith in rw (e, if◌then◌else◌) refl

-- The round with at most three bytes left, and the others.
loop_last :
    (fuel i n r : ℕ) (a b : List ℕ)
    → n ≡ i + r
    → 0 < r
    → r < 4
    → n < 2 ^ 31
    → compare_loop (suc fuel) i n a b ≡ verdict (top r a) (top r b)
unfolding compare_loop
loop_last fuel i n r a b e h l small =
    let more : ltb i n ≡ true = ground (arith, e, h) in
    let left : (i + 2 ^ 32 - n) % 2 ^ 32 ≡ 2 ^ 32 - r = omega (arith, e, h, l, small) in
    elim (Bool-cases (getu32 a 0 == getu32 b 0)) [
      | inl same ↦
          let words : getu32 a 0 ≡ getu32 b 0 = ground (arith, same) in
          rw (more, same, if◌then◌else◌)
            (loop_end fuel (i + 4) n (drop 4 a) (drop 4 b) (omega (arith, e, l))
              ∙ sym (
                  verdict_self (top r a) (top r b)
                    (ap (λ (w : ℕ). bswap w / 2 ^ (32 - 8 * r)) words)))
      | inr other ↦
          rw (more, other, if◌then◌else◌)
            (ap (λ (k : ℕ). compare_words k (getu32 a 0) (getu32 b 0)) left
              ∙ words_last r (getu32 a 0) (getu32 b 0) h l)
    ]

pub loop_full :
    (fuel i n : ℕ) (a b : List ℕ)
    → i + 4 ≤ n
    → n < 2 ^ 31
    → compare_loop (suc fuel) i n a b ≡ (
        if getu32 a 0 == getu32 b 0
        then compare_loop fuel (i + 4) n (drop 4 a) (drop 4 b)
        else verdict (bswap (getu32 a 0)) (bswap (getu32 b 0)))
unfolding compare_loop
loop_full fuel i n a b h small =
    let more : ltb i n ≡ true = ground (arith, h) in
    let early : (i + 2 ^ 32 - n) % 2 ^ 32 < 2 ^ 32 - 3 = omega (arith, h, small) in
    let same = words_full ((i + 2 ^ 32 - n) % 2 ^ 32) (getu32 a 0) (getu32 b 0) early in
    rw (more, same, if◌then◌else◌) refl

-- The bytes of the words.
module _ (m : List ℕ) (h : All (λ x. x < 256) m) where
  pub full_word :
      bswap (getu32 m 0)
      ≡ get_or m 0 0 * 2 ^ 24 + get_or m 1 0 * 2 ^ 16 + get_or m 2 0 * 2 ^ 8 + get_or m 3 0
  full_word =
      bswap_word (get_or m 0 0) (get_or m 1 0) (get_or m 2 0) (get_or m 3 0) (byte_lt m 0 h)
        (byte_lt m 1 h) (byte_lt m 2 h) (byte_lt m 3 h)

  top_one : top 1 m ≡ get_or m 0 0
  top_one = omega (arith, full_word, byte_lt m 1 h, byte_lt m 2 h, byte_lt m 3 h)

  top_two : top 2 m ≡ get_or m 0 0 * 256 + get_or m 1 0
  top_two = omega (arith, full_word, byte_lt m 2 h, byte_lt m 3 h)

  top_three : top 3 m ≡ (get_or m 0 0 * 256 + get_or m 1 0) * 256 + get_or m 2 0
  top_three = omega (arith, full_word, byte_lt m 3 h)

abbrev pub finish : ℕ → ℕ → Option ℤ → ℤ
finish la lb none = sub_ℕ la lb
finish la lb (some r) = r

abbrev pub order : ℕ → ℕ → ℤ → ℤ
order p q z = if ltb p q then negsuc 0 else if ltb q p then pos 1 else z

pub verdict-order :
    (p q la lb : ℕ) (z : ℤ)
    → sign (sub_ℕ la lb) ≡ z
    → sign (finish la lb (verdict p q)) ≡ order p q z
verdict-order p q la lb z h = ground arith

-- Two bytes are compared one after the other.
pub order_pair :
    (x y p q : ℕ) (z : ℤ)
    → p < 256
    → q < 256
    → order (x * 256 + p) (y * 256 + q) z ≡ order x y (order p q z)
order_pair x y p q z hp hq = ground arith

pub sign_ends :
    (k : ℕ) (a b : List ℕ)
    → (length a ≡ 0) ⊎ (length b ≡ 0)
    → sign (sub_ℕ (k + length a) (k + length b)) ≡ lex a b
sign_ends k [] [] h = ground arith
sign_ends k [] (y ∷ ys) h = ground arith
sign_ends k (x ∷ xs) [] h = ground arith
sign_ends k (x ∷ xs) (y ∷ ys) h = absurd (ground (arith, h))

-- Two, three and four bytes.
order_three :
    (x y p q v w : ℕ) (z : ℤ)
    → p < 256
    → q < 256
    → v < 256
    → w < 256
    → order ((x * 256 + p) * 256 + v) ((y * 256 + q) * 256 + w) z
      ≡ order x y (order p q (order v w z))
order_three x y p q v w z hp hq hv hw =
    order_pair (x * 256 + p) (y * 256 + q) v w z hv hw ∙ order_pair x y p q (order v w z) hp hq

pub order_four :
    (x y p q v w t u : ℕ) (z : ℤ)
    → p < 256
    → q < 256
    → v < 256
    → w < 256
    → t < 256
    → u < 256
    → order (((x * 256 + p) * 256 + v) * 256 + t) (((y * 256 + q) * 256 + w) * 256 + u) z
      ≡ order x y (order p q (order v w (order t u z)))
order_four x y p q v w t u z hp hq hv hw ht hu =
    order_pair ((x * 256 + p) * 256 + v) ((y * 256 + q) * 256 + w) t u z ht hu
    ∙ order_three x y p q v w (order t u z) hp hq hv hw

-- The end of the comparison: a string is used up behind `r` bytes.
module _ (fuel i n la lb : ℕ) (small : n < 2 ^ 31) (A B : List ℕ) (ha : All (λ x. x < 256) A)
    (hb : All (λ x. x < 256) B) (z : ℤ) (rest : sign (sub_ℕ la lb) ≡ z) where
  last :
      (r : ℕ)
      → n ≡ i + r
      → 0 < r
      → r < 4
      → sign (finish la lb (compare_loop (suc fuel) i n A B)) ≡ order (top r A) (top r B) z
  last r e h l =
      ap (λ o. sign (finish la lb o)) (loop_last fuel i n r A B e h l small)
      ∙ verdict-order (top r A) (top r B) la lb z rest

  pub last_one :
      n ≡ i + 1
      → sign (finish la lb (compare_loop (suc fuel) i n A B))
        ≡ order (get_or A 0 0) (get_or B 0 0) z
  last_one e =
      last 1 e (omega arith) (omega arith) ∙ (λ j. order (top_one A ha j) (top_one B hb j) z)

  pub last_two :
      n ≡ i + 2
      → sign (finish la lb (compare_loop (suc fuel) i n A B))
        ≡ order (get_or A 0 0) (get_or B 0 0) (order (get_or A 1 0) (get_or B 1 0) z)
  last_two e =
      last 2 e (omega arith) (omega arith)
      ∙ (λ j. order (top_two A ha j) (top_two B hb j) z)
      ∙ order_pair (get_or A 0 0) (get_or B 0 0) (get_or A 1 0) (get_or B 1 0) z (byte_lt A 1 ha)
          (byte_lt B 1 hb)

  pub last_three :
      n ≡ i + 3
      → sign (finish la lb (compare_loop (suc fuel) i n A B))
        ≡ order
            (get_or A 0 0)
            (get_or B 0 0)
            (order (get_or A 1 0) (get_or B 1 0) (order (get_or A 2 0) (get_or B 2 0) z))
  last_three e =
      last 3 e (omega arith) (omega arith)
      ∙ (λ j. order (top_three A ha j) (top_three B hb j) z)
      ∙ order_three (get_or A 0 0) (get_or B 0 0) (get_or A 1 0) (get_or B 1 0) (get_or A 2 0)
          (get_or B 2 0) z (byte_lt A 1 ha) (byte_lt B 1 hb) (byte_lt A 2 ha) (byte_lt B 2 hb)
