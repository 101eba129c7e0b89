-- ===== src/Str/Compare.antt =====
-- `lj_str_cmp` (lib/luajit/src/lj_str.c), on a little endian machine: four bytes at a time.
pub mod Words
pub mod Order
use omniajit.Prelude.{
  ℕ, zero, suc, ◌+◌, ◌-◌, ◌*◌, ◌/◌, ◌%◌, ◌^◌, List, drop, ltb, leb, ◌==◌, if◌then◌else◌, Option,
  none, some,
}
use omniajit.Prelude.Int.{ℤ, pos, negsuc, sub_ℕ}
use omniajit.Str.Hash.{getu32, bswap}

-- What the loop returns for two words that differ, if it does: `i` has 32 bits, and at most three
-- bytes are left where it is -3 or more as an `int32_t`.
unfoldable pub compare_words : ℕ → ℕ → ℕ → Option ℤ
compare_words i va vb =
    let shift = (32 + i * 8) % 2 ^ 32 in
    let last = leb (2 ^ 32 - 3) i in
    let wa = if last then bswap va / 2 ^ shift else bswap va in
    let wb = if last then bswap vb / 2 ^ shift else bswap vb in
    let result = if ltb wa wb then negsuc 0 else pos 1 in if wa == wb then none else some result

-- The loop, from `i` on, where `a` and `b` are what is in memory from there. It returns, or ends.
unfoldable pub compare_loop : ℕ → ℕ → ℕ → List ℕ → List ℕ → Option ℤ
unfolding compare_words
compare_loop zero i n a b = none
compare_loop (suc fuel) i n a b =
    let rest = compare_loop fuel (i + 4) n (drop 4 a) (drop 4 b) in
    let differ = compare_words ((i + 2 ^ 32 - n) % 2 ^ 32) (getu32 a 0) (getu32 b 0) in
    if ltb i n then if getu32 a 0 == getu32 b 0 then rest else differ else none

-- Of two strings by what is in memory from their first bytes on, and by their lengths.
unfoldable pub lj_str_cmp : List ℕ → ℕ → List ℕ → ℕ → ℤ
unfolding compare_loop
lj_str_cmp a alen b blen =
    let n = if ltb blen alen then blen else alen in
    let ended : ℤ = sub_ℕ alen blen in elim (compare_loop n 0 n a b) [ none ↦ ended | some r ↦ r ]
