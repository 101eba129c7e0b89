-- ===== src/Uleb/Read.antt =====
-- The readers of ULEB128 numbers return what `lj_strfmt_wuleb128` wrote.
use omniajit.Prelude.{
  ℕ, zero, suc, ◌+◌, ◌*◌, ◌/◌, ◌%◌, ◌^◌, ◌≤◌, ◌<◌, ◌≡◌, ap, arith, List, ◌∷◌, ◌++◌, some, dec_lt,
  ◌∙◌,
}
use omniajit.Prelude.Bits.{bit_or_fields}
use native.Mathlib.Nat.{div-add-mod', pow-le-pow_right}
use native.Mathlib.Numerals.{towards_suc}
use omniajit.Uleb.{wuleb128, ruleb128_loop, ruleb128}
use omniajit.Uleb.Write.{wuleb128_last, wuleb128_more, seven_bits}

next_group : (sh : ℕ) → 2 ^ sh * 128 ≡ 2 ^ (sh + 7)
next_group sh = simp towards_suc (omega arith)

-- What a round reads of `v` from bit `sh` on, and what it leaves.
split_group : (v sh : ℕ) → v % 128 * 2 ^ sh + v / 2 ^ 7 * 2 ^ (sh + 7) ≡ v * 2 ^ sh
split_group v sh =
    let above : v / 2 ^ 7 * (2 ^ sh * 128) ≡ v / 2 ^ 7 * 2 ^ (sh + 7) =
      ap (λ (t : ℕ). v / 2 ^ 7 * t) (next_group sh) in
    omega (arith, above, ap (λ (t : ℕ). t * 2 ^ sh) (div-add-mod' v 128))

-- A shift that keeps a positive value below `2 ^ 32` is less than 32.
pub shift_fits : (q s : ℕ) → 0 < q → q * 2 ^ s < 2 ^ 32 → s < 32
shift_fits zero s pos h = elim pos [ ]
shift_fits (suc q) s pos h = elim (dec_lt s 32) [
  | yes p ↦ p
  | no p ↦
      let big : 2 ^ 32 ≤ 2 ^ s = pow-le-pow_right (omega arith) {i = 32} (omega arith) in
      absurd (omega arith)
]

-- One round, on a last byte and on a byte with the top bit set.
read_last :
    (w acc s : ℕ) (rest : List ℕ)
    → w < 128
    → s < 32
    → acc < 2 ^ s
    → acc + w * 2 ^ s < 2 ^ 32
    → ruleb128_loop acc s (w ∷ rest) ≡ some (acc + w * 2 ^ s, rest)
unfolding ruleb128_loop
read_last w acc s rest hw hs ha fits = ground (arith, seven_bits w, bit_or_fields s acc w)

read_more :
    (g acc s : ℕ) (rest : List ℕ)
    → g < 128
    → s < 32
    → acc < 2 ^ s
    → acc + g * 2 ^ s < 2 ^ 32
    → ruleb128_loop acc s ((g + 128) ∷ rest) ≡ ruleb128_loop (acc + g * 2 ^ s) (s + 7) rest
unfolding ruleb128_loop
read_more g acc s rest hg hs ha fits = ground (arith, seven_bits (g + 128), bit_or_fields s acc g)

group_fits : (g acc s : ℕ) → g < 128 → acc < 2 ^ s → acc + g * 2 ^ s < 2 ^ (s + 7)
group_fits g acc s hg ha = grind (arith, next_group s)

-- `acc` is what was read so far, and `w` what is still to be read, from bit `s` on.
pub ruleb128_loop-wuleb128 :
    (k w acc s : ℕ) (rest : List ℕ)
    → w < 128 ^ suc k
    → s < 32
    → acc < 2 ^ s
    → acc + w * 2 ^ s < 2 ^ 32
    → ruleb128_loop acc s (wuleb128 w ++ rest) ≡ some (acc + w * 2 ^ s, rest)
ruleb128_loop-wuleb128 zero w acc s rest hw hs ha fits =
    rw (wuleb128_last w (omega arith)) (read_last w acc s rest (omega arith) hs ha fits)
ruleb128_loop-wuleb128 (suc k) w acc s rest hw hs ha fits = elim (dec_lt w 128) [
  | yes p ↦ rw (wuleb128_last w p) (read_last w acc s rest p hs ha fits)
  | no p ↦
      let split = split_group w s in
      let inner =
        read_more (w % 128) acc s (wuleb128 (w / 2 ^ 7) ++ rest) (omega arith) hs ha
          (omega arith) in
      let ih =
        ruleb128_loop-wuleb128 k (w / 2 ^ 7) (acc + w % 128 * 2 ^ s) (s + 7) rest (omega arith)
          (shift_fits (w / 2 ^ 7) (s + 7) (omega arith) (omega arith))
          (group_fits (w % 128) acc s (omega arith) ha) (omega arith) in
      rw (wuleb128_more w (omega arith)) (inner ∙ ih ∙ ap (λ (n : ℕ). some (n, rest)) (omega arith))
]

-- `lj_buf_ruleb128` returns the 32 bit number that `lj_strfmt_wuleb128` wrote, and leaves
-- whatever follows it.
pub ruleb128-wuleb128 :
    (v : ℕ) (rest : List ℕ) → v < 2 ^ 32 → ruleb128 (wuleb128 v ++ rest) ≡ some (v, rest)
ruleb128-wuleb128 v rest h = elim (dec_lt v 128) [
  | yes p ↦ rw (wuleb128_last v p) (unfold ruleb128 in ground arith)
  | no p ↦
      let more =
        ruleb128_loop-wuleb128 4 (v / 2 ^ 7) (v % 128) 7 rest (omega arith) (omega arith)
          (omega arith) (omega arith) in
      rw (wuleb128_more v (omega arith))
        (unfold ruleb128 in ground (arith, more, seven_bits (v % 128 + 128)))
]
