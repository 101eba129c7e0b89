-- ===== src/Carith/Modulo.antt =====
-- The floored remainder of `lj_vm_modi`.
use omniajit.Prelude.{
  ℕ, ◌+◌, ◌-◌, ◌/◌, ◌%◌, ◌^◌, ◌<◌, ◌≡◌, ◌≢◌, ◌⊎◌, sym, bit_xor, arith, Bool, true, not, ◌&&◌, ◌==◌,
  if◌then◌else◌,
}
use omniajit.Prelude.Bits.{bit_xor-div-pow, bit_xor_bits}
use omniajit.Prelude.Int.{ℤ, ◌+ℤ◌, ◌*ℤ◌, signed, with_sign, differ, signed_sum, floored_sum}
use native.Mathlib.Nat.{div-add-mod', mod-lt}
use omniajit.Carith.{modi, magnitude, negate, is_negative}

-- The sign of an exclusive or.
xor_sign :
    (a b : ℕ)
    → a < 2 ^ 32
    → b < 2 ^ 32
    → is_negative 32 (bit_xor a b) ≡ differ (is_negative 32 a) (is_negative 32 b)
unfolding not
xor_sign a b ha hb = ground (arith, bit_xor-div-pow 31 a b, bit_xor_bits (a / 2 ^ 31) (b / 2 ^ 31))

-- The magnitude of the result: what is missing to the next multiple, if the signs differ.
abbrev floored : ℕ → ℕ → ℕ
floored a b =
    let r = magnitude 32 a % magnitude 32 b in
    if differ (is_negative 32 a) (is_negative 32 b) && not (r == 0) then magnitude 32 b - r else r

modi-floored :
    (a b : ℕ)
    → a < 2 ^ 32
    → b < 2 ^ 32
    → b ≢ 0
    → modi a b ≡ (if is_negative 32 b then negate 32 (floored a b) else floored a b)
unfolding modi not
modi-floored a b ha hb nz =
    let r = magnitude 32 a % magnitude 32 b in
    ground (
      arith,
      mod-lt (magnitude 32 a) {m = magnitude 32 b},
      xor_sign a b,
      xor_sign r b,
      xor_sign ((r + 2 ^ 32 - magnitude 32 b) % 2 ^ 32) b,
    )

floored-lt : (a b : ℕ) → a < 2 ^ 32 → b < 2 ^ 32 → b ≢ 0 → floored a b < magnitude 32 b
unfolding not
floored-lt a b ha hb nz = ground (arith, mod-lt (magnitude 32 a) {m = magnitude 32 b})

signed_parts : (a : ℕ) → a < 2 ^ 32 → signed 32 a ≡ with_sign (is_negative 32 a) (magnitude 32 a)
signed_parts a h = ground arith

-- A magnitude below that of a word, with a sign put on it.
signed_result :
    (s : Bool) (m : ℕ)
    → m < 2 ^ 31
    → let w = if s then negate 32 m else m in
      (signed 32 w ≡ with_sign s m) × (magnitude 32 w ≡ m) × ((w ≡ 0) ⊎ (is_negative 32 w ≡ s))
signed_result s m h = ground arith

-- The quotient rounded down.
abbrev floor_quotient : ℕ → ℕ → ℤ
floor_quotient a b =
    let q = magnitude 32 a / magnitude 32 b in
    let d = differ (is_negative 32 a) (is_negative 32 b) in
    if d && not (magnitude 32 a % magnitude 32 b == 0)
    then with_sign true (q + 1)
    else with_sign d q

floor_sum :
    (a b : ℕ)
    → a < 2 ^ 32
    → b < 2 ^ 32
    → b ≢ 0
    → floor_quotient a b *ℤ with_sign (is_negative 32 b) (magnitude 32 b)
        +ℤ with_sign (is_negative 32 b) (floored a b)
      ≡ with_sign (is_negative 32 a) (magnitude 32 a)
unfolding not
floor_sum a b ha hb nz =
    let q = magnitude 32 a / magnitude 32 b in
    let r = magnitude 32 a % magnitude 32 b in
    ground (
      arith,
      div-add-mod' (magnitude 32 a) (magnitude 32 b),
      mod-lt (magnitude 32 a) {m = magnitude 32 b},
      floored_sum (is_negative 32 b) q (magnitude 32 b) r,
      signed_sum (is_negative 32 a) (is_negative 32 b) q (magnitude 32 b) r,
    )

-- `lj_vm_modi` returns the remainder of the division rounded down: it has the sign of the divisor
-- or is zero, its magnitude is less than the divisor's, and it differs from the dividend by a
-- multiple of the divisor.
pub modi_lem :
    (a b : ℕ)
    → a < 2 ^ 32
    → b < 2 ^ 32
    → b ≢ 0
    → (q : ℤ) × (q *ℤ signed 32 b +ℤ signed 32 (modi a b) ≡ signed 32 a)
      × (magnitude 32 (modi a b) < magnitude 32 b)
      × ((modi a b ≡ 0) ⊎ (is_negative 32 (modi a b) ≡ is_negative 32 b))
modi_lem a b ha hb nz =
    let small = floored-lt a b ha hb nz in
    let (value, size, sign) = signed_result (is_negative 32 b) (floored a b) (ground arith) in
    (
      floor_quotient a b,
      rw (modi-floored a b ha hb nz, value, signed_parts b hb, floor_sum a b ha hb nz)
          (sym (signed_parts a ha)),
      rw (modi-floored a b ha hb nz, size) small,
      rw (modi-floored a b ha hb nz) sign,
    )
