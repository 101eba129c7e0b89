-- ===== src/Carith/Examples.antt =====
-- Runs of the 64 bit operations.
use omniajit.Prelude.{ℕ, ◌%◌, ◌^◌, ◌<◌, ◌≡◌, ◌⊎◌, inl, refl, arith, some, ◌||◌, ◌&&◌, not}
use omniajit.Prelude.Int.{ℤ, ◌+ℤ◌, ◌*ℤ◌, signed}
use omniajit.Carith.{
  divi64, modi64, modi, powu64, square_even, multiply_bits, powi64, rol64, ror64, magnitude,
  is_negative, shift64, bsar,
}
use omniajit.Carith.Division.{signed_division}
use omniajit.Carith.Modulo.{modi_lem}
use omniajit.Carith.Power.{powu64_lem}
use omniajit.Carith.Rotate.{ror64-rol64}

abbrev minus_seven : ℕ
minus_seven = 0xffff_ffff_ffff_fff9

divi64_run : divi64 minus_seven 2 ≡ 0xffff_ffff_ffff_fffd
unfolding divi64 ◌||◌ ◌&&◌
divi64_run = refl

modi_run : modi 0xffff_fff9 3 ≡ 2
unfolding modi ◌&&◌ not
modi_run = refl

powi64_run : powi64 3 41 ≡ some 18026252303461234787
unfolding powi64 powu64 square_even multiply_bits
powi64_run = refl

sar64_run : shift64 minus_seven 1 bsar ≡ 0xffff_ffff_ffff_fffc
unfolding shift64
sar64_run = refl

signed_division_example :
    (signed 64 (divi64 minus_seven 2) *ℤ signed 64 2 +ℤ signed 64 (modi64 minus_seven 2)
      ≡ signed 64 minus_seven)
    × (magnitude 64 (modi64 minus_seven 2) < magnitude 64 2)
    × ((modi64 minus_seven 2 ≡ 0)
        ⊎ (is_negative 64 (modi64 minus_seven 2) ≡ is_negative 64 minus_seven))
signed_division_example =
    signed_division minus_seven 2 (omega arith) (omega arith) (omega arith) (inl (omega arith))

modi_lem_example :
    (q : ℤ) × (q *ℤ signed 32 3 +ℤ signed 32 (modi 0xffff_fff9 3) ≡ signed 32 0xffff_fff9)
    × (magnitude 32 (modi 0xffff_fff9 3) < magnitude 32 3)
    × ((modi 0xffff_fff9 3 ≡ 0) ⊎ (is_negative 32 (modi 0xffff_fff9 3) ≡ is_negative 32 3))
modi_lem_example = modi_lem 0xffff_fff9 3 (omega arith) (omega arith) (omega arith)

powu64_lem_example : powu64 3 41 ≡ some (3 ^ 41 % 2 ^ 64)
powu64_lem_example = powu64_lem 3 41 (omega arith) (omega arith)

ror64-rol64_example : ror64 (rol64 0x8000_0000_0000_0001 3) 3 ≡ 0x8000_0000_0000_0001
ror64-rol64_example = ror64-rol64 0x8000_0000_0000_0001 3 (omega arith)
