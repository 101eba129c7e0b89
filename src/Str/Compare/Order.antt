-- ===== src/Str/Compare/Order.antt =====
-- `lj_str_cmp` orders strings as their bytes are ordered.
use omniajit.Prelude.{
  ℕ, zero, suc, ◌+◌, ◌*◌, ◌^◌, ◌≤◌, ◌<◌, ◌≡◌, ◌≢◌, refl, ap, ◌∙◌, sym, arith, List, [], ◌∷◌, ◌++◌,
  All, length, drop, get_or, ltb, ◌==◌, if◌then◌else◌, Option, none, some, true, false, Bool-cases,
  inl, inr, ◌⊎◌,
}
use omniajit.Prelude.Int.{ℤ, sub_ℕ}
use omniajit.Str.Hash.{getu32, bswap}
use omniajit.Str.Compare.{compare_loop, lj_str_cmp}
use omniajit.Str.Compare.Words.{
  lex, sign, byte_lt, verdict, loop_end, loop_full, full_word, finish, order, order_four, sign_ends,
  last_one, last_two, last_three,
}

-- Different words are different with their bytes in reverse, too.
apart :
    (x p v t y q w u : ℕ)
    → x < 256
    → p < 256
    → v < 256
    → t < 256
    → y < 256
    → q < 256
    → w < 256
    → u < 256
    → ((x * 256 + p) * 256 + v) * 256 + t ≡ ((y * 256 + q) * 256 + w) * 256 + u
    → x + p * 2 ^ 8 + v * 2 ^ 16 + t * 2 ^ 24 ≡ y + q * 2 ^ 8 + w * 2 ^ 16 + u * 2 ^ 24
apart x p v t y q w u h1 h2 h3 h4 h5 h6 h7 h8 e = omega arith

-- What is left of two strings at `i`, and the length `n` of the shorter one.
record IsLeft (i n la lb : ℕ) (a b : List ℕ) : Type 0 where
  first : la ≡ i + length a
  second : lb ≡ i + length b
  le_first : n ≤ la
  le_second : n ≤ lb
  shorter : (n ≡ la) ⊎ (n ≡ lb)
  small : n < 2 ^ 31

ends :
    (i n la lb : ℕ) (a b : List ℕ)
    → IsLeft i n la lb a b
    → (length a ≡ 0) ⊎ (length b ≡ 0)
    → sign (sub_ℕ la lb) ≡ lex a b
ends i n la lb a b h e = (λ j. sign (sub_ℕ (h.first j) (h.second j))) ∙ sign_ends i a b e

order_self : (p q : ℕ) (z : ℤ) → p ≡ q → order p q z ≡ z
order_self p q z e = ground arith

verdict_ne : (p q la lb : ℕ) (z : ℤ) → p ≢ q → sign (finish la lb (verdict p q)) ≡ order p q z
verdict_ne p q la lb z ne = ground (arith, ne)

-- The value of a word with its bytes in reverse.
abbrev value : List ℕ → ℕ
value m = ((get_or m 0 0 * 256 + get_or m 1 0) * 256 + get_or m 2 0) * 256 + get_or m 3 0

bswap-value : (m : List ℕ) → All (λ x. x < 256) m → bswap (getu32 m 0) ≡ value m
bswap-value m h = omega (arith, full_word m h)

-- A round that is not the last one.
full :
    (fuel i n la lb : ℕ) (A B : List ℕ) (z : ℤ)
    → i + 4 ≤ n
    → n < 2 ^ 31
    → All (λ x. x < 256) A
    → All (λ x. x < 256) B
    → sign (finish la lb (compare_loop fuel (i + 4) n (drop 4 A) (drop 4 B))) ≡ z
    → sign (finish la lb (compare_loop (suc fuel) i n A B))
      ≡ order (get_or A 0 0) (get_or B 0 0) (
          order
            (get_or A 1 0)
            (get_or B 1 0)
            (order (get_or A 2 0) (get_or B 2 0) (order (get_or A 3 0) (get_or B 3 0) z)))
full fuel i n la lb A B z h small ha hb rest =
    ap (λ o. sign (finish la lb o)) (loop_full fuel i n A B h small)
    ∙ by_words (Bool-cases (getu32 A 0 == getu32 B 0))
    ∙ order_four (get_or A 0 0) (get_or B 0 0) (get_or A 1 0) (get_or B 1 0) (get_or A 2 0)
        (get_or B 2 0) (get_or A 3 0) (get_or B 3 0) z (byte_lt A 1 ha) (byte_lt B 1 hb)
        (byte_lt A 2 ha) (byte_lt B 2 hb) (byte_lt A 3 ha) (byte_lt B 3 hb)
  where
    va : bswap (getu32 A 0) ≡ value A
    va = bswap-value A ha

    vb : bswap (getu32 B 0) ≡ value B
    vb = bswap-value B hb

    by_words :
        ((getu32 A 0 == getu32 B 0) ≡ true) ⊎ ((getu32 A 0 == getu32 B 0) ≡ false)
        → sign (
            finish la lb (
              if getu32 A 0 == getu32 B 0
              then compare_loop fuel (i + 4) n (drop 4 A) (drop 4 B)
              else verdict (bswap (getu32 A 0)) (bswap (getu32 B 0))))
          ≡ order (value A) (value B) z
    by_words (inl e) =
        let words : getu32 A 0 ≡ getu32 B 0 = ground (arith, e) in
        let values : value A ≡ value B = sym va ∙ ap bswap words ∙ vb in
        rw (e, if◌then◌else◌) (rest ∙ sym (order_self (value A) (value B) z values))
    by_words (inr e) =
        let words : getu32 A 0 ≢ getu32 B 0 = ground (arith, e) in
        let values : value A ≢ value B = λ q. words (
          apart (get_or A 0 0) (get_or A 1 0) (get_or A 2 0) (get_or A 3 0) (get_or B 0 0)
            (get_or B 1 0) (get_or B 2 0) (get_or B 3 0) (byte_lt A 0 ha) (byte_lt A 1 ha)
            (byte_lt A 2 ha) (byte_lt A 3 ha) (byte_lt B 0 hb) (byte_lt B 1 hb) (byte_lt B 2 hb)
            (byte_lt B 3 hb) q) in
        rw (e, if◌then◌else◌)
          ((λ j. sign (finish la lb (verdict (va j) (vb j))))
            ∙ verdict_ne (value A) (value B) la lb z values)

-- Behind a byte of both.
next :
    (i n la lb x y : ℕ) (a b : List ℕ)
    → IsLeft i n la lb (x ∷ a) (y ∷ b)
    → IsLeft (i + 1) n la lb a b
next i n la lb x y a b h = record {
  first = omega (arith, h.first);
  second = omega (arith, h.second);
  le_first = h.le_first;
  le_second = h.le_second;
  shorter = h.shorter;
  small = h.small;
}

four_on :
    (i n la lb : ℕ) (a b : List ℕ)
    → IsLeft (i + 1 + 1 + 1 + 1) n la lb a b
    → IsLeft (i + 4) n la lb a b
four_on i n la lb a b h = record {
  first = omega (arith, h.first);
  second = omega (arith, h.second);
  le_first = h.le_first;
  le_second = h.le_second;
  shorter = h.shorter;
  small = h.small;
}

abbrev Bytes : List ℕ → Type 0
Bytes m = All (λ x. x < 256) m

loop-lex :
    (fuel i n la lb : ℕ) (a b ta tb : List ℕ)
    → IsLeft i n la lb a b
    → n ≤ i + fuel
    → Bytes (a ++ ta)
    → Bytes (b ++ tb)
    → sign (finish la lb (compare_loop fuel i n (a ++ ta) (b ++ tb))) ≡ lex a b
loop-lex fuel i n la lb [] b ta tb h le ha hb =
    ap (λ o. sign (finish la lb o))
      (loop_end fuel i n ta (b ++ tb) (omega (arith, h.first, h.le_first)))
    ∙ ends i n la lb [] b h (inl refl)
loop-lex fuel i n la lb (x ∷ a) [] ta tb h le ha hb =
    ap (λ o. sign (finish la lb o))
      (loop_end fuel i n (x ∷ a ++ ta) tb (omega (arith, h.second, h.le_second)))
    ∙ ends i n la lb (x ∷ a) [] h (inr refl)
loop-lex zero i n la lb (x ∷ a) (y ∷ b) ta tb h le ha hb =
    absurd (ground (arith, h.first, h.second, h.shorter, le))
loop-lex (suc fuel) i n la lb (x0 ∷ []) (y0 ∷ b) ta tb h le ha hb =
    last_one fuel i n la lb h.small (x0 ∷ ta) (y0 ∷ b ++ tb) ha hb (lex ([]) (b))
      (ends (i + 1) n la lb ([]) (b) (next i n la lb x0 y0 ([]) (b) (h)) (inl refl))
      (ground (arith, h.first, h.second, h.shorter, h.le_first, h.le_second))
loop-lex (suc fuel) i n la lb (x0 ∷ x1 ∷ a) (y0 ∷ []) ta tb h le ha hb =
    last_one fuel i n la lb h.small (x0 ∷ x1 ∷ a ++ ta) (y0 ∷ tb) ha hb (lex (x1 ∷ a) ([]))
      (ends (i + 1) n la lb (x1 ∷ a) ([]) (next i n la lb x0 y0 (x1 ∷ a) ([]) (h)) (inr refl))
      (ground (arith, h.first, h.second, h.shorter, h.le_first, h.le_second))
loop-lex (suc fuel) i n la lb (x0 ∷ x1 ∷ []) (y0 ∷ y1 ∷ b) ta tb h le ha hb =
    last_two fuel i n la lb h.small (x0 ∷ x1 ∷ ta) (y0 ∷ y1 ∷ b ++ tb) ha hb (lex ([]) (b))
      (ends (i + 1 + 1) n la lb ([]) (b)
        (next (i + 1) n la lb x1 y1 ([]) (b) (next i n la lb x0 y0 (x1 ∷ []) (y1 ∷ b) (h)))
        (inl refl))
      (ground (arith, h.first, h.second, h.shorter, h.le_first, h.le_second))
loop-lex (suc fuel) i n la lb (x0 ∷ x1 ∷ x2 ∷ a) (y0 ∷ y1 ∷ []) ta tb h le ha hb =
    last_two fuel i n la lb h.small (x0 ∷ x1 ∷ x2 ∷ a ++ ta) (y0 ∷ y1 ∷ tb) ha hb
      (lex (x2 ∷ a) ([]))
      (ends (i + 1 + 1) n la lb (x2 ∷ a) ([])
        (next (i + 1) n la lb x1 y1 (x2 ∷ a) ([])
          (next i n la lb x0 y0 (x1 ∷ x2 ∷ a) (y1 ∷ []) (h)))
        (inr refl))
      (ground (arith, h.first, h.second, h.shorter, h.le_first, h.le_second))
loop-lex (suc fuel) i n la lb (x0 ∷ x1 ∷ x2 ∷ []) (y0 ∷ y1 ∷ y2 ∷ b) ta tb h le ha hb =
    last_three fuel i n la lb h.small (x0 ∷ x1 ∷ x2 ∷ ta) (y0 ∷ y1 ∷ y2 ∷ b ++ tb) ha hb
      (lex ([]) (b))
      (ends (i + 1 + 1 + 1) n la lb ([]) (b)
        (next (i + 1 + 1) n la lb x2 y2 ([]) (b) (
          next (i + 1) n la lb x1 y1 (x2 ∷ []) (y2 ∷ b)
            (next i n la lb x0 y0 (x1 ∷ x2 ∷ []) (y1 ∷ y2 ∷ b) (h))))
        (inl refl))
      (ground (arith, h.first, h.second, h.shorter, h.le_first, h.le_second))
loop-lex (suc fuel) i n la lb (x0 ∷ x1 ∷ x2 ∷ x3 ∷ a) (y0 ∷ y1 ∷ y2 ∷ []) ta tb h le ha hb =
    last_three fuel i n la lb h.small (x0 ∷ x1 ∷ x2 ∷ x3 ∷ a ++ ta) (y0 ∷ y1 ∷ y2 ∷ tb) ha hb
      (lex (x3 ∷ a) ([]))
      (ends (i + 1 + 1 + 1) n la lb (x3 ∷ a) ([])
        (next (i + 1 + 1) n la lb x2 y2 (x3 ∷ a) ([]) (
          next (i + 1) n la lb x1 y1 (x2 ∷ x3 ∷ a) (y2 ∷ [])
            (next i n la lb x0 y0 (x1 ∷ x2 ∷ x3 ∷ a) (y1 ∷ y2 ∷ []) (h))))
        (inr refl))
      (ground (arith, h.first, h.second, h.shorter, h.le_first, h.le_second))
loop-lex (suc fuel) i n la lb (x0 ∷ x1 ∷ x2 ∷ x3 ∷ a) (y0 ∷ y1 ∷ y2 ∷ y3 ∷ b) ta tb h le ha hb =
    let left : IsLeft (i + 4) n la lb a b = four_on i n la lb a b (
      next (i + 1 + 1 + 1) n la lb x3 y3 (a) (b) (
        next (i + 1 + 1) n la lb x2 y2 (x3 ∷ a) (y3 ∷ b) (
          next (i + 1) n la lb x1 y1 (x2 ∷ x3 ∷ a) (y2 ∷ y3 ∷ b)
            (next i n la lb x0 y0 (x1 ∷ x2 ∷ x3 ∷ a) (y1 ∷ y2 ∷ y3 ∷ b) (h))))) in
    full fuel i n la lb (x0 ∷ x1 ∷ x2 ∷ x3 ∷ a ++ ta) (y0 ∷ y1 ∷ y2 ∷ y3 ∷ b ++ tb) (lex a b)
      (ground (arith, h.first, h.second, h.shorter)) h.small ha hb
      (loop-lex fuel (i + 4) n la lb a b ta tb left (omega (arith, le)) ha.1.1.1.1 hb.1.1.1.1)

-- The sign of what `lj_str_cmp` returns, which compares four bytes at a time, is the order of the
-- two strings by their bytes, with a prefix before what it is a prefix of, whatever bytes follow the
-- strings in memory. The strings are shorter than 2^31.
pub lj_str_cmp-lex :
    (a b ta tb : List ℕ)
    → length a < 2 ^ 31
    → length b < 2 ^ 31
    → All (λ x. x < 256) (a ++ ta)
    → All (λ x. x < 256) (b ++ tb)
    → sign (lj_str_cmp (a ++ ta) (length a) (b ++ tb) (length b)) ≡ lex a b
unfolding lj_str_cmp
lj_str_cmp-lex a b ta tb sa sb ha hb =
    let n = if ltb (length b) (length a) then length b else length a in
    let left : IsLeft 0 n (length a) (length b) a b = record {
      first = omega arith;
      second = omega arith;
      le_first = ground arith;
      le_second = ground arith;
      shorter = which (Bool-cases (ltb (length b) (length a)));
      small = ground (arith, sa, sb);
    } in
    by_result (compare_loop n 0 n (a ++ ta) (b ++ tb))
    ∙ loop-lex n 0 n (length a) (length b) a b ta tb left (omega arith) ha hb
  where
    which :
        (ltb (length b) (length a) ≡ true) ⊎ (ltb (length b) (length a) ≡ false)
        → ((if ltb (length b) (length a) then length b else length a) ≡ length a)
          ⊎ ((if ltb (length b) (length a) then length b else length a) ≡ length b)
    which (inl e) = inr (rw (e, if◌then◌else◌) refl)
    which (inr e) = inl (rw (e, if◌then◌else◌) refl)

    by_result :
        (o : Option ℤ)
        → sign (elim o [ none ↦ sub_ℕ (length a) (length b) | some r ↦ r ])
          ≡ sign (finish (length a) (length b) o)
    by_result none = refl
    by_result (some r) = refl
