-- ===== src/Bcdump/Signed.antt =====
-- The 33 bit form: the patched bytes are the ULEB128 form of the unwrapped `2 * k`.
use omniajit.Prelude.{
  ℕ, ◌+◌, ◌-◌, ◌*◌, ◌/◌, ◌%◌, ◌^◌, ◌≤◌, ◌<◌, ◌≡◌, bit_and, bit_or, arith, List, [], ◌∷◌, ◌++◌, some,
  dec_lt,
}
use omniajit.Prelude.Bits.{bit_and_step, bit_and_mask, bit_or_fields, bit_and_top, bit_or_top}
use omniajit.Uleb.{wuleb128, uleb128_33}
use omniajit.Uleb.Write.{wuleb128_last, wuleb128_more}
use omniajit.Uleb.Read.{ruleb128_loop-wuleb128}
use omniajit.Bcdump.{patch, low_bits, sar27, save_int, save_num}

low_bits_small : (k : ℕ) → k < 2 ^ 31 → low_bits k ≡ 2 * k
unfolding low_bits
low_bits_small k h = ground (arith, bit_and_top 31 0 k h, bit_or_fields 32 (2 * k) 0)

low_bits_large : (k : ℕ) → 2 ^ 31 ≤ k → k < 2 ^ 32 → low_bits k ≡ 2 ^ 31 + 2 * k % 2 ^ 31
unfolding low_bits
low_bits_large k h l = ground (
  arith,
  bit_and_top 31 1 (k - 2 ^ 31) (omega arith),
  bit_or_top 31 (2 * k / 2 ^ 31 % 2) (2 * k % 2 ^ 31) (omega arith) (omega arith),
)

-- The bits of the patched byte.
two_bits : (h : ℕ) → bit_and h 0x18 ≡ h / 8 % 4 * 8
two_bits h = omega (
  arith,
  bit_and_step h 0x18,
  bit_and_step (h / 2) 12,
  bit_and_step (h / 2 / 2) 6,
  bit_and_mask 2 (h / 2 / 2 / 2),
)

patched_byte : (b h : ℕ) → bit_or (bit_and b 7) (bit_and h 0x18) ≡ b % 8 + h / 8 % 4 * 8
patched_byte b h =
    ground (arith, two_bits h, bit_and_mask 3 b, bit_or_fields 3 (b % 8) (h / 8 % 4) (omega arith))

-- A number from `2 ^ 28` on, below `2 ^ 35`, takes five bytes.
five_bytes :
    (v : ℕ)
    → 2 ^ 28 ≤ v
    → v < 2 ^ 35
    → wuleb128 v
      ≡ (v % 128 + 128)
        ∷ (v / 2 ^ 7 % 128 + 128)
        ∷ (v / 2 ^ 14 % 128 + 128)
        ∷ (v / 2 ^ 21 % 128 + 128)
        ∷ v / 2 ^ 28
        ∷ []
five_bytes v h l =
    rw
      (
        wuleb128_more v (omega arith),
        wuleb128_more (v / 2 ^ 7) (omega arith),
        wuleb128_more (v / 2 ^ 7 / 2 ^ 7) (omega arith),
        wuleb128_more (v / 2 ^ 7 / 2 ^ 7 / 2 ^ 7) (omega arith),
        wuleb128_last (v / 2 ^ 7 / 2 ^ 7 / 2 ^ 7 / 2 ^ 7) (omega arith),
      )
      (ground arith)

-- Patching the last byte turns the 32 bit form into the form of the full sum.
patch-wuleb128 :
    (v w h : ℕ)
    → 2 ^ 28 ≤ v
    → v < 2 ^ 32
    → 2 ^ 28 ≤ w
    → w < 2 ^ 33
    → v % 2 ^ 31 ≡ w % 2 ^ 31
    → h / 8 % 4 ≡ w / 2 ^ 31
    → patch h (wuleb128 v) ≡ wuleb128 w
unfolding patch
patch-wuleb128 v w h v1 v2 w1 w2 e f =
    rw (five_bytes v v1 (omega arith), five_bytes w w1 (omega arith), patched_byte (v / 2 ^ 28) h)
      (ground arith)

-- An `int32_t` constant is written as the unwrapped sum.
pub save_int-wuleb128 : (k : ℕ) → k < 2 ^ 32 → save_int k ≡ wuleb128 (2 * k)
unfolding save_int
save_int-wuleb128 k h = elim (dec_lt k (2 ^ 31)) [
  | yes p ↦ ground (arith, low_bits_small k p)
  | no p ↦
      ground
        (arith, low_bits_large k (omega arith) h, patch-wuleb128 (low_bits k) (2 * k) (sar27 k))
]

pub save_num-wuleb128 :
    (lo hi : ℕ) → lo < 2 ^ 32 → save_num lo hi ≡ wuleb128 (1 + 2 * lo) ++ wuleb128 hi
unfolding save_num
save_num-wuleb128 lo hi h = elim (dec_lt lo (2 ^ 31)) [
  | yes p ↦ ground (arith, low_bits_small lo p)
  | no p ↦ ground (
    arith,
    low_bits_large lo (omega arith) h,
    patch-wuleb128 (1 + low_bits lo) (1 + 2 * lo) (lo / 2 ^ 27),
  )
]

-- `bcread_uleb128_33` returns the number without its lowest bit.
pub uleb128_33-wuleb128 :
    (n : ℕ) (rest : List ℕ) → n < 2 ^ 33 → uleb128_33 (wuleb128 n ++ rest) ≡ some (n / 2, rest)
uleb128_33-wuleb128 n rest h = elim (dec_lt n 128) [
  | yes p ↦ rw (wuleb128_last n p) (unfold uleb128_33 in ground arith)
  | no p ↦
      let more =
        ruleb128_loop-wuleb128 4 (n / 2 ^ 7) (n % 128 / 2) 6 rest (omega arith) (omega arith)
          (omega arith) (omega arith) in
      rw (wuleb128_more n (omega arith))
        (unfold uleb128_33 in ground (arith, more, bit_and_mask 6 ((n % 128 + 128) / 2)))
]
