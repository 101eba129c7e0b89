-- ===== src/Str/Hash.antt =====
-- The string hashes of a build without its own: `hash_sparse` and `hash_dense`
-- (lib/luajit/src/lj_str.c). All numbers are 32 bit words, but for the seed, which has 64 bits.
use omniajit.Prelude.{
  ℕ, zero, suc, ◌+◌, ◌-◌, ◌*◌, ◌/◌, ◌%◌, ◌^◌, bit_or, bit_xor, List, length, get_or, ltb, leb,
  if◌then◌else◌,
}

abbrev pub byte : List ℕ → ℕ → ℕ
byte str i = get_or str i 0

-- `lj_getu32(str + i)`, on a little endian machine.
abbrev pub getu32 : List ℕ → ℕ → ℕ
getu32 str i =
    byte str i + byte str (i + 1) * 2 ^ 8 + byte str (i + 2) * 2 ^ 16 + byte str (i + 3) * 2 ^ 24

abbrev pub rol : ℕ → ℕ → ℕ
rol x n = bit_or (x * 2 ^ n % 2 ^ 32) (x / 2 ^ (32 - n))

abbrev pub bswap : ℕ → ℕ
bswap x =
    x % 2 ^ 8 * 2 ^ 24
    + x / 2 ^ 8 % 2 ^ 8 * 2 ^ 16
    + x / 2 ^ 16 % 2 ^ 8 * 2 ^ 8
    + x / 2 ^ 24 % 2 ^ 8

abbrev pub add32 : ℕ → ℕ → ℕ
add32 x y = (x + y) % 2 ^ 32

abbrev pub sub32 : ℕ → ℕ → ℕ
sub32 x y = (x + 2 ^ 32 - y % 2 ^ 32) % 2 ^ 32

-- `x ^= y; x -= lj_rol(y, n);`
abbrev pub mix : ℕ → ℕ → ℕ → ℕ
mix x y n = sub32 (bit_xor x y) (rol y n)

unfoldable pub hash_sparse : ℕ → List ℕ → ℕ
hash_sparse seed str =
    let len = length str in
    let long = leb 4 len in
    let h0 = bit_xor len (seed % 2 ^ 32) in
    let a0 = if long then getu32 str 0 else byte str 0 in
    let h1 = bit_xor h0 (if long then getu32 str (len - 4) else byte str (len - 1)) in
    let b0 = if long then getu32 str (len / 2 - 2) else byte str (len / 2) in
    let h2 = mix h1 b0 14 in
    let b1 = if long then add32 b0 (getu32 str (len / 4 - 1)) else b0 in
    let a1 = mix a0 h2 11 in let b2 = mix b1 a1 25 in mix h2 b2 16

pub record Mixed : Type 0 where
  pub a : ℕ
  pub b : ℕ
  pub h : ℕ

-- The body of the loop, at the words from `p` on.
unfoldable pub dense_round : List ℕ → ℕ → Mixed → Mixed
dense_round str p m =
    let b0 = add32 m.b (getu32 str (p + 4)) in
    let h1 = mix (add32 m.h (getu32 str (p + 8))) b0 14 in
    let a1 = mix (add32 m.a (getu32 str p)) h1 11 in record { a = a1; b = mix b0 a1 25; h = h1 }

-- The rounds behind the first one, at 0, 12, 24 and so on.
unfoldable pub dense_rounds : List ℕ → ℕ → Mixed → Mixed
unfolding dense_round
dense_rounds str zero m = m
dense_rounds str (suc n) m = dense_round str (n * 12) (dense_rounds str n m)

-- The first round is at `pe = len - 12`; the others are those at places below it.
unfoldable pub hash_dense : ℕ → ℕ → List ℕ → ℕ
unfolding dense_rounds
hash_dense seed h str =
    let b = bswap (rol (bit_xor h (seed / 2 ^ 32 % 2 ^ 32)) 4) in
    let pe = length str - 12 in
    let first = dense_round str pe (record { a = seed % 2 ^ 32; b = b; h = h }) in
    let m = dense_rounds str ((pe + 11) / 12) first in
    let h1 = mix m.h m.b 16 in
    let a1 = mix m.a h1 4 in if ltb 12 (length str) then mix m.b a1 14 else b
