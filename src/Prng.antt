-- ===== src/Prng.antt =====
-- The pseudo random numbers of `lj_prng_u64` (lib/luajit/src/lj_prng.c): four generators whose
-- states are 64 bit words.
use omniajit.Prelude.{ℕ, ◌-◌, ◌*◌, ◌/◌, ◌%◌, ◌^◌, bit_and, bit_xor}

pub record PrngState : Type 0 where
  pub u0 : ℕ
  pub u1 : ℕ
  pub u2 : ℕ
  pub u3 : ℕ

-- `TW223_GEN`: the next state `z` of a generator; the mask has the `k` top bits.
unfoldable pub tw223_gen : ℕ → ℕ → ℕ → ℕ → ℕ
tw223_gen k q s z =
    let low = bit_xor (z * 2 ^ q % 2 ^ 64) z / 2 ^ (k - s) in
    bit_xor low (bit_and z (2 ^ 64 - 2 ^ (64 - k)) * 2 ^ s % 2 ^ 64)

unfoldable pub lj_prng_u64 : PrngState → PrngState × ℕ
unfolding tw223_gen
lj_prng_u64 rs =
    let z0 = tw223_gen 63 31 18 rs.u0 in
    let z1 = tw223_gen 58 19 28 rs.u1 in
    let z2 = tw223_gen 55 24 7 rs.u2 in
    let z3 = tw223_gen 47 21 8 rs.u3 in
    let next : PrngState = record { u0 = z0; u1 = z1; u2 = z2; u3 = z3 } in
    (next, bit_xor (bit_xor (bit_xor z0 z1) z2) z3)

-- `lj_prng_seed_fixed`
abbrev pub seed_fixed : PrngState
seed_fixed = record {
  u0 = 0xa0d277570a345b8c;
  u1 = 0x764a296c5d4aa64f;
  u2 = 0x51220704070adeaa;
  u3 = 0x2a2717b5a7b7b927;
}
