-- ===== src/Strscan/Dec.antt =====
-- `strscan_dec`: decimal numbers. The buffer `xi` holds two digits in each byte.
pub mod Circular
use omniajit.Prelude.{
  ℕ, zero, suc, ◌+◌, ◌-◌, ◌*◌, ◌/◌, ◌%◌, ◌^◌, bit_and, bit_or, List, [], ◌∷◌, ◌++◌, Bool, not, ◌&&◌,
  ◌||◌, ltb, leb, ◌==◌, if◌then◌else◌, Option, none, some, length, get_or, drop, true, false,
}
use omniajit.Prelude.Int.{ℤ, pos, negsuc, ◌+ℤ◌, ltb_ℤ, pos_part, neg_part}
use omniajit.Strscan.{
  Fmt, error, num, imag, int, u32, i64, u64, Opts, Doubles, Value, i32, w64, double, Outcome,
  failed, scanned, stuck, peek, next, skip_dot, signed32, signed64, int_limit,
}
use Circular.{to_double}

abbrev is_zero : ℤ → Bool
is_zero e = pos_part e + neg_part e == 0

-- The parity of an exponent, and half of it rounded down.
abbrev is_odd : ℤ → Bool
is_odd e = (pos_part e + neg_part e) % 2 == 1

-- Scan `i` digits in pairs; a digit that is left over is the high one of its byte.
unfoldable pub pairs : ℕ → List ℕ → List ℕ × List ℕ
pairs zero p = ([], p)
pairs (suc zero) p = let q = skip_dot p in (10 * (peek q % 16) ∷ [], next q)
pairs (suc (suc i)) p =
    let q = skip_dot p in
    let r = skip_dot (next q) in
    let (xi, s) = pairs i (next r) in ((10 * (peek q % 16) + peek r % 16) ∷ xi, s)

-- `xip[-1] |= 1`
unfoldable pub mark_last : List ℕ → List ℕ
mark_last [] = []
mark_last (d ∷ []) = bit_or d 1 ∷ []
mark_last (d ∷ e ∷ xi) = d ∷ mark_last (e ∷ xi)

-- The loop over the digits behind the 800th: is there one that is not zero?
unfoldable pub excess : ℕ → List ℕ → Bool
excess zero p = false
excess (suc n) p =
    let q = skip_dot p in let rest = excess n (next q) in if peek q == b'0' then rest else true

-- `while (ex10 > 0 && dig <= 18) *xip++ = 0, ex10 -= 2, dig += 2;`, ten rounds at most.
unfoldable pub simplify : ℕ → List ℕ → ℤ → ℕ → List ℕ × ℤ × ℕ
simplify zero xi ex10 dig = (xi, ex10, dig)
simplify (suc fuel) xi ex10 dig =
    let rest = simplify fuel (xi ++ (0 ∷ [])) (ex10 +ℤ negsuc 1) (dig + 2) in
    if ltb_ℤ (pos 0) ex10 && leb dig 18 then rest else (xi, ex10, dig)

-- The digits, the exponent and the number of digits as the code has them before its fast path.
unfoldable pub scan_digits : List ℕ → ℤ → ℕ → List ℕ × ℤ × ℕ
unfolding pairs mark_last excess simplify
scan_digits p ex10 zero = ([], pos 0, 0)
scan_digits p ex10 (suc n) =
    let dig = suc n in
    let i = if ltb 800 dig then 800 else dig in
    let ex = ex10 +ℤ pos (dig - 800) in
    let odd = is_odd (ex +ℤ pos i) in
    let q = if odd then skip_dot p else p in
    let first = if odd then peek q % 16 ∷ [] else [] in
    let i' = if odd then i - 1 else i in
    let (rest, r) = pairs i' (if odd then next q else p) in
    let left = i' % 2 == 1 in
    let xi = first ++ rest in
    let ex' = if left then ex +ℤ negsuc 0 else ex in
    let dig' = if left then dig + 1 else dig in
    if ltb 800 dig'
    then (if excess (dig' - 800) r then mark_last xi else xi, ex', 800)
    else simplify 10 xi ex' dig'

-- `for (xis = xi+1; xis < xip; xis++) x = x * 100 + *xis;`, from `x = xi[0]`
unfoldable pub value_of : ℕ → List ℕ → ℕ
value_of x [] = x
value_of x (d ∷ xi) = value_of ((x * 100 + d) % 2 ^ 64) xi

module _ (doubles : Doubles) where
  open doubles use {D, of_int64}

  -- The slow path, which only a format for doubles may take.
  unfoldable pub slow_path : List ℕ → ℤ → Fmt → Opts → Bool → Outcome D
  slow_path xi ex10 int opt neg = if opt.c then failed else to_double doubles num xi ex10 neg
  slow_path xi ex10 u32 opt neg = failed
  slow_path xi ex10 i64 opt neg = failed
  slow_path xi ex10 u64 opt neg = failed
  slow_path xi ex10 fmt opt neg = to_double doubles fmt xi ex10 neg

  -- The code at the label `plainnumber`; a value from `2 ^ 63` on goes to the slow path.
  unfoldable pub plain_number : List ℕ → ℤ → Fmt → Opts → Bool → ℕ → Outcome D
  unfolding slow_path
  plain_number xi ex10 fmt opt neg x =
      if leb (2 ^ 63) x
      then slow_path xi ex10 fmt opt neg
      else scanned fmt (double (if neg then doubles.neg (of_int64 x) else of_int64 x))

  -- The switch over the format in the fast path.
  unfoldable pub integer_format : List ℕ → ℤ → Fmt → Opts → Bool → ℕ → Outcome D
  unfolding plain_number
  integer_format xi ex10 int opt neg x =
      if not opt.tonum && ltb x (int_limit neg)
      then scanned int (i32 (signed32 neg x))
      else if not opt.c
      then plain_number xi ex10 num opt neg x
      else if leb (2 ^ 32) x
      then failed
      else scanned u32 (i32 (signed32 neg x))
  integer_format xi ex10 u32 opt neg x =
      if leb (2 ^ 32) x then failed else scanned u32 (i32 (signed32 neg x))
  integer_format xi ex10 i64 opt neg x = scanned i64 (w64 (signed64 neg x))
  integer_format xi ex10 u64 opt neg x = scanned u64 (w64 (signed64 neg x))
  integer_format xi ex10 fmt opt neg x = plain_number xi ex10 fmt opt neg x

  unfoldable pub strscan_dec : List ℕ → Fmt → Opts → ℤ → Bool → ℕ → Outcome D
  unfolding scan_digits value_of integer_format slow_path
  strscan_dec p fmt opt ex10 neg n =
      let (xi, ex, dig) = scan_digits p ex10 n in
      let first = get_or xi 0 0 in
      let x = value_of first (drop 1 xi) in
      if leb dig 20 && is_zero ex && not (dig == 20 && (ltb 18 first || ltb x (2 ^ 63)))
      then integer_format xi ex fmt opt neg x
      else slow_path xi ex fmt opt neg
