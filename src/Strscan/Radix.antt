-- ===== src/Strscan/Radix.antt =====
-- `strscan_hex`, `strscan_oct` and `strscan_bin`.
use omniajit.Prelude.{
  ℕ, zero, suc, ◌+◌, ◌-◌, ◌*◌, ◌/◌, ◌%◌, ◌^◌, bit_or, List, Bool, not, ◌&&◌, ◌||◌, ltb, leb, ◌==◌,
  if◌then◌else◌, Option, none, some,
}
use omniajit.Prelude.Int.{ℤ, pos, ◌+ℤ◌, pos_part, neg_part}
use omniajit.Strscan.{
  Fmt, num, int, u32, i64, u64, Opts, Doubles, i32, w64, double, Outcome, failed, scanned, peek,
  next, skip_dot, signed32, signed64, int_limit,
}
use omniajit.Strscan.Double.{strscan_double}

-- Scan `i` hex digits: the word and the pointer behind them.
unfoldable pub hex_digits : ℕ → ℕ → List ℕ → ℕ × List ℕ
hex_digits zero x p = (x, p)
hex_digits (suc i) x p =
    let q = skip_dot p in
    let d = if ltb b'9' (peek q) then peek q + 9 else peek q in
    hex_digits i ((x * 16 + d % 16) % 2 ^ 64) (next q)

-- The rounding effect of the digits behind the sixteenth.
unfoldable pub hex_excess : ℕ → ℕ → List ℕ → ℕ
hex_excess zero x p = x
hex_excess (suc i) x p =
    let q = skip_dot p in hex_excess i (if peek q == b'0' then x else bit_or x 1) (next q)

-- Reduce the range, then convert to a double.
abbrev reduce : ℕ → ℕ
reduce x = if leb (2 ^ 62) x then bit_or (x / 4) (x % 4) else x

abbrev reduce_ex : ℕ → ℤ → ℤ
reduce_ex x ex2 = if leb (2 ^ 62) x then ex2 +ℤ pos 2 else ex2

module _ (doubles : Doubles) where
  open doubles use {D}

  unfoldable pub reduced : Fmt → ℕ → ℤ → Bool → Outcome D
  reduced fmt x ex2 neg =
      scanned fmt (double (strscan_double doubles (reduce x) (reduce_ex x ex2) neg))

  -- The end of `strscan_hex` and of `strscan_bin`: `most` digits fill an `int32_t` word.
  unfoldable pub radix_format : ℕ → Fmt → Opts → ℕ → ℤ → Bool → ℕ → Outcome D
  unfolding reduced
  radix_format most int opt x ex2 neg dig =
      if not opt.tonum && ltb x (int_limit neg)
      then scanned int (i32 (signed32 neg x))
      else if not opt.c
      then reduced num x ex2 neg
      else if ltb most dig
      then failed
      else scanned u32 (i32 (signed32 neg x))
  radix_format most u32 opt x ex2 neg dig =
      if ltb most dig then failed else scanned u32 (i32 (signed32 neg x))
  radix_format most i64 opt x ex2 neg dig =
      if ltb (most + most) dig then failed else scanned i64 (w64 (signed64 neg x))
  radix_format most u64 opt x ex2 neg dig =
      if ltb (most + most) dig then failed else scanned u64 (w64 (signed64 neg x))
  radix_format most fmt opt x ex2 neg dig = reduced fmt x ex2 neg

  unfoldable pub strscan_hex : List ℕ → Fmt → Opts → ℤ → Bool → ℕ → Outcome D
  unfolding hex_digits hex_excess radix_format
  strscan_hex p fmt opt ex2 neg dig =
      let (x, q) = hex_digits (if ltb 16 dig then 16 else dig) 0 p in
      radix_format 8 fmt opt (hex_excess (dig - 16) x q) (ex2 +ℤ pos (4 * (dig - 16))) neg dig

  unfoldable pub oct_digits : ℕ → ℕ → List ℕ → Option ℕ
  oct_digits zero x p = some x
  oct_digits (suc dig) x p =
      let rest = oct_digits dig ((x * 8 + peek p % 8) % 2 ^ 64) (next p) in
      if leb b'0' (peek p) && leb (peek p) b'7' then rest else none

  unfoldable pub oct_format : Fmt → ℕ → Bool → Outcome D
  oct_format int x neg =
      let fmt = if leb (int_limit neg) x then u32 else int in
      if leb (2 ^ 32) x then failed else scanned fmt (i32 (signed32 neg x))
  oct_format u32 x neg = if leb (2 ^ 32) x then failed else scanned u32 (i32 (signed32 neg x))
  oct_format fmt x neg = scanned fmt (w64 (signed64 neg x))

  unfoldable pub strscan_oct : List ℕ → Fmt → Bool → ℕ → Outcome D
  unfolding oct_digits oct_format
  strscan_oct p fmt neg dig =
      if ltb 22 dig || dig == 22 && ltb b'1' (peek p)
      then failed
      else elim (oct_digits dig 0 p) [ none ↦ failed | some x ↦ oct_format fmt x neg ]

  unfoldable pub bin_digits : ℕ → ℕ → List ℕ → Option ℕ
  bin_digits zero x p = some x
  bin_digits (suc dig) x p =
      let rest = bin_digits dig (bit_or (x * 2 % 2 ^ 64) (peek p % 2)) (next p) in
      if peek p - peek p % 2 == b'0' then rest else none

  unfoldable pub strscan_bin : List ℕ → Fmt → Opts → ℤ → Bool → ℕ → Outcome D
  unfolding bin_digits radix_format
  strscan_bin p fmt opt ex2 neg dig =
      if not (pos_part ex2 + neg_part ex2 == 0) || ltb 64 dig
      then failed
      else elim (bin_digits dig 0 p) [
        | none ↦ failed
        | some x ↦ radix_format 32 fmt opt x ex2 neg dig
      ]
