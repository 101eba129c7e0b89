-- ===== src/Uleb/Write.antt =====
-- What `lj_strfmt_wuleb128` writes, in plain arithmetic: groups of seven bits, lowest first.
use omniajit.Prelude.{
  ℕ, ◌+◌, ◌/◌, ◌%◌, ◌^◌, ◌≤◌, ◌<◌, ◌≡◌, bit_and, bit_or, arith, [], ◌∷◌, Acc, dec_le,
}
use omniajit.Prelude.Bits.{bit_and_mask, bit_or_fields}
use mathlib.Core.Logic.{dif_pos, dif_neg}
use native.Mathlib.Bridge.{le_prop}
use omniajit.Uleb.{wuleb128_loop, wuleb128, shr_seven_lt}

pub seven_bits : (v : ℕ) → bit_and v 0x7f ≡ v % 128
seven_bits v = bit_and_mask 7 v

marked_group : (v : ℕ) → bit_or (bit_and v 0x7f) 0x80 ≡ v % 128 + 128
marked_group v = omega (arith, bit_or_fields 7 (bit_and v 0x7f) 1, seven_bits v)

-- One round, at any proof that the loop ends.
loop_last : (v : ℕ) (w : Acc ◌<◌ v) → v < 128 → wuleb128_loop v w ≡ v ∷ []
unfolding wuleb128_loop
loop_last v (Acc.intro _ f) h = dif_neg (dec_le 128 v) (omega arith) _ _

loop_round :
    (v : ℕ) (f : (m : ℕ) → m < v → Acc ◌<◌ m) (h : 128 ≤ v)
    → wuleb128_loop v (Acc.intro v f)
      ≡ bit_or (bit_and v 0x7f) 0x80 ∷ wuleb128_loop (v / 2 ^ 7) (f _ (shr_seven_lt v h))
unfolding wuleb128_loop
loop_round v f h = dif_pos (dec_le 128 v) le_prop h _ _

-- The loop does not depend on that proof.
loop_irrelevant : (v : ℕ) (w w' : Acc ◌<◌ v) → wuleb128_loop v w ≡ wuleb128_loop v w'
loop_irrelevant v (Acc.intro _ f) (Acc.intro _ g) = elim (dec_le 128 v) [
  | yes p ↦
      let ih = loop_irrelevant (v / 2 ^ 7) (f _ (shr_seven_lt v p)) (g _ (shr_seven_lt v p)) in
      rw (loop_round v f p, loop_round v g p, ih)
  | no p ↦ rw (loop_last v (Acc.intro v f) (omega arith), loop_last v (Acc.intro v g) (omega arith))
]

-- A number below 128 is its own encoding.
pub wuleb128_last : (v : ℕ) → v < 128 → wuleb128 v ≡ v ∷ []
unfolding wuleb128
wuleb128_last v h = loop_last v _ h

pub wuleb128_more : (v : ℕ) → 128 ≤ v → wuleb128 v ≡ (v % 128 + 128) ∷ wuleb128 (v / 2 ^ 7)
unfolding wuleb128
wuleb128_more v h = go v _ _ h
  where
    go :
        (v : ℕ) (w : Acc ◌<◌ v) (w' : Acc ◌<◌ (v / 2 ^ 7))
        → 128 ≤ v
        → wuleb128_loop v w ≡ (v % 128 + 128) ∷ wuleb128_loop (v / 2 ^ 7) w'
    go v (Acc.intro _ f) w' h =
        rw (loop_round v f h, marked_group v, loop_irrelevant (v / 2 ^ 7) _ w')
