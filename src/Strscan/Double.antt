-- ===== src/Strscan/Double.antt =====
-- `strscan_double`: the final conversion to a double.
use omniajit.Prelude.{
  ℕ, zero, suc, ◌+◌, ◌-◌, ◌/◌, ◌%◌, ◌^◌, bit_and, Bool, not, ◌&&◌, ◌||◌, ltb, ◌==◌, if◌then◌else◌,
}
use omniajit.Prelude.Int.{ℤ, pos, negsuc, ◌+ℤ◌, ltb_ℤ, neg_part, pos_part}
use omniajit.Strscan.{Doubles}

-- The index of the highest bit of a word that is not zero, `__builtin_clzll(x)^63`.
unfoldable pub high_bit : ℕ → ℕ → ℕ
high_bit zero x = 0
high_bit (suc bits) x = let rest = high_bit bits (x / 2) in if ltb x 2 then 0 else suc rest

-- Where the result is a denormal: round to even at the bit that it will lose. `rb` is `1 <<
-- (-1075-ex2)`.
unfoldable pub round_denormal : ℕ → ℤ → ℕ
unfolding high_bit
round_denormal x ex2 =
    let top = pos (high_bit 64 x) +ℤ ex2 in
    if ltb_ℤ (negsuc 1022) top || ltb_ℤ top (negsuc 1074)
    then x
    else let rb = 2 ^ (neg_part ex2 - 1075) in
      let odd =
        not (bit_and x rb == 0) && not (bit_and x ((rb + rb + rb + 2 ^ 64 - 1) % 2 ^ 64) == 0) in
      let x' = if odd then (x + rb + rb) % 2 ^ 64 else x in x' - x' % (rb + rb)

module _ (doubles : Doubles) where
  open doubles use {D, of_int64, neg, ldexp}

  unfoldable pub strscan_double : ℕ → ℤ → Bool → D
  unfolding round_denormal
  strscan_double x ex2 negative =
      let x' = if ltb_ℤ ex2 (negsuc 1073) && not (x == 0) then round_denormal x ex2 else x in
      let n = if negative then neg (of_int64 x') else of_int64 x' in
      if pos_part ex2 + neg_part ex2 == 0 then n else ldexp n ex2
