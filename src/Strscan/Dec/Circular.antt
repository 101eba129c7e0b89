-- ===== src/Strscan/Dec/Circular.antt =====
-- The slow path of `strscan_dec`: the digits stand in a circular buffer of 512 bytes, and the
-- number is scaled by powers of 64 until its integer part has 17 or 18 digits.
use omniajit.Prelude.{
  ℕ, zero, suc, ◌+◌, ◌-◌, ◌*◌, ◌/◌, ◌%◌, ◌^◌, bit_or, List, ◌++◌, Bool, not, ◌&&◌, ◌||◌, true,
  false, ◌==◌, if◌then◌else◌, length, get_or, set, replicate, Option, none, some,
}
use omniajit.Prelude.Int.{ℤ, pos, negsuc, ◌+ℤ◌, ltb_ℤ, pos_part, neg_part, sub_ℕ}
use omniajit.Strscan.{Fmt, Doubles, double, Outcome, scanned, stuck}
use omniajit.Strscan.Double.{strscan_double}

-- `DNEXT`, `DPREV` and `DLEN`
abbrev dnext : ℕ → ℕ
dnext a = (a + 1) % 512

abbrev dprev : ℕ → ℕ
dprev a = (a + 511) % 512

abbrev dlen : ℕ → ℕ → ℕ
dlen lo hi = (lo + 512 - hi) % 512

pub record Digits : Type 0 where
  pub xi : List ℕ
  pub hi : ℕ
  pub lo : ℕ
  pub idig : ℤ
  pub ex2 : ℤ

abbrev pub at : Digits → ℕ → ℕ
at b i = get_or b.xi i 0

-- One byte of the up-scaling: its new value, and the carry by a multiplication and a shift.
abbrev pub carry : ℕ → ℕ
carry d = d / 4 * 5243 / 2 ^ 17

-- The inner loop from `i` down to `hi`; `last` is `DPREV(lo)` there. The result has the carry.
unfoldable pub scale_up_bytes : ℕ → Digits → ℕ → ℕ → Digits × ℕ
scale_up_bytes zero b i cy = (b, cy)
scale_up_bytes (suc fuel) b i cy =
    let d = at b i * 64 + cy in
    let cy' = carry d in
    let r = d - cy' * 100 in
    let b' = record b { xi = set b.xi i (r % 256) } in
    let b'' = if r == 0 && i == dprev b.lo then record b' { lo = i } else b' in
    let rest = scale_up_bytes fuel b'' (dprev i) cy' in if i == b.hi then (b', cy') else rest

-- What follows the inner loop if a carry is left.
unfoldable pub push_carry : Digits → ℕ → Digits
push_carry b cy =
    let hi' = dprev b.hi in
    let last = dprev b.lo in
    let b' =
      if at b last == 0
      then record b { lo = last }
      else if hi' == b.lo
      then record b {
        lo = last;
        xi = set b.xi (dprev last) (bit_or (at b (dprev last)) (at b last));
      }
      else b in
    record b' { hi = hi'; xi = set b'.xi hi' (cy % 256); idig = b.idig +ℤ pos 1 }

unfoldable pub scale_up : ℕ → Digits → Option Digits
unfolding scale_up_bytes push_carry
scale_up zero b = none
scale_up (suc fuel) b =
    let b' = record b { ex2 = b.ex2 +ℤ negsuc 5 } in
    let (c, cy) = scale_up_bytes 512 b' (dprev b.lo) 0 in
    let rest = scale_up fuel (if cy == 0 then c else push_carry c cy) in
    if ltb_ℤ b.idig (pos 9) && ltb_ℤ b.idig (pos (dlen b.lo b.hi)) then rest else some b

-- The `do` loop from `i` up to `lo`, with the carry at its end.
unfoldable pub scale_down_bytes : ℕ → Digits → ℕ → ℕ → Digits × ℕ
scale_down_bytes zero b i cy = (b, cy)
scale_down_bytes (suc fuel) b i cy =
    let c = cy + at b i in
    let d = c / 64 % 256 in
    let b' = record b { xi = set b.xi i d } in
    let b'' =
      if d == 0 && i == b.hi
      then record b' { hi = dnext b.hi; idig = b.idig +ℤ negsuc 0 }
      else b' in
    let cy' = 100 * (c % 64) in
    let rest = scale_down_bytes fuel b'' (dnext i) cy' in
    if dnext i == b.lo then (b'', cy') else rest

-- `while (cy)`: the bytes behind `lo`.
unfoldable pub append_carry : ℕ → Digits → ℕ → Digits
append_carry zero b cy = b
append_carry (suc fuel) b cy =
    let last = dprev b.lo in
    let b' = record b { xi = set b.xi b.lo (cy / 64 % 256); lo = dnext b.lo } in
    let rest = append_carry fuel b' (100 * (cy % 64)) in
    if cy == 0
    then b
    else if b.hi == b.lo
    then record b { xi = set b.xi last (bit_or (at b last) 1) }
    else rest

unfoldable pub scale_down : ℕ → Digits → Option Digits
unfolding scale_down_bytes append_carry
scale_down zero b = none
scale_down (suc fuel) b =
    let (c, cy) = scale_down_bytes 512 (record b { ex2 = b.ex2 +ℤ pos 6 }) b.hi 0 in
    let rest = scale_down fuel (append_carry 512 c cy) in
    if ltb_ℤ (pos 9) b.idig then rest else some b

-- Collect the digits of the integer part: the word, the position and what is left of `idig`.
unfoldable pub collect : ℕ → Digits → ℕ → ℕ → ℕ × ℕ × ℕ
collect zero b x i = (x, i, 0)
collect (suc n) b x i =
    let rest = collect n b ((x * 100 + at b i) % 2 ^ 64) (dnext i) in
    if n == 0 || i == b.lo then (x, i, n) else rest

unfoldable pub times_hundred : ℕ → ℕ → ℕ
times_hundred zero x = x
times_hundred (suc n) x = times_hundred n (x * 100 % 2 ^ 64)

-- Is there a digit that is not zero from `i` up to `lo`?
unfoldable pub sticky : ℕ → Digits → ℕ → Bool
sticky zero b i = false
sticky (suc fuel) b i =
    let rest = sticky fuel b (dnext i) in
    if not (at b i == 0) then true else if dnext i == b.lo then false else rest

-- Half of an exponent that is even.
abbrev half : ℤ → ℤ
half e = sub_ℕ (pos_part e / 2) (neg_part e / 2)

module _ (doubles : Doubles) where
  open doubles use {D, of_int64, inf}

  abbrev with_neg : Bool → D → D
  with_neg neg n = if neg then doubles.neg n else n

  unfoldable pub finish : Digits → Bool → D
  unfolding collect times_hundred sticky
  finish b neg =
      let (x, i, left) = collect (pos_part b.idig) b (at b b.hi) (dnext b.hi) in
      if i == b.lo
      then strscan_double doubles (times_hundred left x) b.ex2 neg
      else let x' = x * 2 % 2 ^ 64 in
        strscan_double doubles (if sticky 512 b i then bit_or x' 1 else x') (b.ex2 +ℤ negsuc 0) neg

  -- Each round of a scaling loop moves the number by a factor of 64, so that 1024 rounds pass the
  -- range that is left behind the tests for overflow and underflow.
  unfoldable pub to_double : Fmt → List ℕ → ℤ → Bool → Outcome D
  unfolding scale_up scale_down finish
  to_double fmt xi ex10 neg =
      let idig = pos (length xi) +ℤ half ex10 in
      let b : Digits = record {
        xi = xi ++ replicate (512 - length xi) 0;
        hi = 0;
        lo = length xi;
        idig = idig;
        ex2 = pos 0;
      } in
      if ltb_ℤ (pos 155) idig
      then scanned fmt (double (with_neg neg inf))
      else if ltb_ℤ idig (negsuc 162)
      then scanned fmt (double (with_neg neg (of_int64 0)))
      else elim (scale_up 1024 b) [
        | none ↦ stuck
        | some b' ↦ elim (scale_down 1024 b') [
          | none ↦ stuck
          | some b'' ↦ scanned fmt (double (finish b'' neg))
        ]
      ]
