-- ===== src/Prelude/Bits.antt =====
-- The bit operations of the native numbers as arithmetic, at every width.
use Prim.Native.Nat.{
  ℕ, zero, suc, ◌+◌, ◌-◌, ◌*◌, ◌/◌, ◌%◌, ◌^◌, ◌≤◌, ◌<◌, min, max, bit_and, bit_or, bitwise, digits,
  bit_and-bitwise, bit_or-bitwise, bit_xor, bit_xor-bitwise, differ,
}
use mathlib.Core.Path.{◌≡◌, refl, ap, sym, ◌∙◌}
use native.Mathlib.Nat.{pow-suc, one-le-pow, div-one, mul_comm, div-div-eq-div-mul}
use native.Mathlib.Omega.{arith}

-- A bitwise operation by its value `z` for a left operand of zero and by `f` on single digits.
module _ (z : ℕ → ℕ) (f : ℕ → ℕ → ℕ) where
  digits_zero : (fuel b : ℕ) → digits z f fuel 0 b ≡ z b
  digits_zero zero b = refl
  digits_zero (suc fuel) b = refl

  more_fuel : (a fuel more b : ℕ) → a ≤ fuel → a ≤ more → digits z f fuel a b ≡ digits z f more a b
  more_fuel zero fuel more b h l = digits_zero fuel b ∙ sym (digits_zero more b)
  more_fuel (suc a) (suc fuel) (suc more) b h l =
      let low = f (suc a % 2) (b % 2) in
      ap (λ (high : ℕ). high * 2 + low)
        (more_fuel (suc a / 2) fuel more (b / 2) (omega arith) (omega arith))
  more_fuel (suc a) zero more b h l = absurd (omega arith)
  more_fuel (suc a) (suc fuel) zero b h l = absurd (omega arith)

  lowest_digit :
      ((b : ℕ) → z b ≡ z (b / 2) * 2 + f 0 (b % 2))
      → (a b : ℕ) → bitwise z f a b ≡ bitwise z f (a / 2) (b / 2) * 2 + f (a % 2) (b % 2)
  lowest_digit left zero b = left b
  lowest_digit left (suc a) b =
      let low = f (suc a % 2) (b % 2) in
      ap (λ (high : ℕ). high * 2 + low)
        (more_fuel (suc a / 2) a (suc a / 2) (b / 2) (omega arith) (omega arith))

pub bit_and_step : (x y : ℕ) → bit_and x y ≡ bit_and (x / 2) (y / 2) * 2 + min (x % 2) (y % 2)
bit_and_step x y = simp bit_and-bitwise (lowest_digit (λ b. 0) min (λ b. omega arith) x y)

pub bit_or_step : (x y : ℕ) → bit_or x y ≡ bit_or (x / 2) (y / 2) * 2 + max (x % 2) (y % 2)
bit_or_step x y = simp bit_or-bitwise (lowest_digit (λ b. b) max (λ b. omega arith) x y)

bit_or-zero_left : (b : ℕ) → bit_or 0 b ≡ b
bit_or-zero_left b = simp bit_or-bitwise refl

bit_and-zero_left : (b : ℕ) → bit_and 0 b ≡ 0
bit_and-zero_left b = simp bit_and-bitwise refl

field_suc : (hi w : ℕ) → 2 * (hi * 2 ^ w) ≡ hi * 2 ^ suc w
field_suc hi w = grind (arith, pow-suc 2 w)

-- `lo | (hi << w)` is a sum where `lo` fits in `w` bits.
pub bit_or_fields : (w lo hi : ℕ) → lo < 2 ^ w → bit_or lo (hi * 2 ^ w) ≡ lo + hi * 2 ^ w
bit_or_fields (suc w) lo hi fits =
    let high = bit_or_fields w (lo / 2) hi (omega arith) in
    ground (arith, high, field_suc hi w, bit_or_step lo (hi * 2 ^ suc w))
bit_or_fields zero zero hi fits = omega (arith, bit_or-zero_left (hi * 2 ^ 0))
bit_or_fields zero (suc lo) hi fits = absurd (omega arith)

bit_and-zero : (n a : ℕ) → a ≤ n → bit_and a 0 ≡ 0
bit_and-zero n zero h = refl
bit_and-zero zero (suc a) h = absurd (omega arith)
bit_and-zero (suc n) (suc a) h =
    omega (arith, bit_and_step (suc a) 0, bit_and-zero n (suc a / 2) (omega arith))

low_field : (w hi lo : ℕ) → lo < 2 ^ w → bit_and (hi * 2 ^ w + lo) (2 ^ w - 1) ≡ lo
low_field (suc w) hi lo fits =
    let word = hi * 2 ^ suc w + lo in
    let low = bit_and_step word (2 ^ suc w - 1) in
    ground (arith, low, low_field w hi (lo / 2) (omega arith), field_suc hi w, pow-suc 2 w)
low_field zero hi lo fits =
    let word = hi * 2 ^ 0 + lo in omega (arith, bit_and-zero word word (omega arith))

-- The mask of the `w` low bits takes the remainder by `2 ^ w`.
pub bit_and_mask : (w word : ℕ) → bit_and word (2 ^ w - 1) ≡ word % 2 ^ w
bit_and_mask w word =
    let one = one-le-pow w 2 in ground (arith, low_field w (word / 2 ^ w) (word % 2 ^ w), one)

-- A single bit, the top one of its word.
pub bit_and_top : (k q r : ℕ) → r < 2 ^ k → bit_and (q * 2 ^ k + r) (2 ^ k) ≡ q % 2 * 2 ^ k
bit_and_top zero q r h = omega (
  arith,
  bit_and_step (q * 2 ^ 0 + r) 1,
  bit_and-zero ((q * 2 ^ 0 + r) / 2) ((q * 2 ^ 0 + r) / 2) (omega arith),
)
bit_and_top (suc k) q r h = ground (
  arith,
  bit_and_step (q * 2 ^ suc k + r) (2 ^ suc k),
  field_suc q k,
  field_suc (q % 2) k,
  pow-suc 2 k,
  bit_and_top k q (r / 2) (omega arith),
)

pub bit_or_top : (k q r : ℕ) → q < 2 → r < 2 ^ k → bit_or (q * 2 ^ k + r) (2 ^ k) ≡ 2 ^ k + r
bit_or_top zero zero zero hq h = refl
bit_or_top zero (suc zero) zero hq h = refl
bit_or_top zero (suc (suc q)) r hq h = absurd (omega arith)
bit_or_top zero q (suc r) hq h = absurd (omega arith)
bit_or_top (suc k) q r hq h = ground (
  arith,
  bit_or_step (q * 2 ^ suc k + r) (2 ^ suc k),
  field_suc q k,
  pow-suc 2 k,
  bit_or_top k q (r / 2) hq (omega arith),
)

pub bit_xor_step : (a b : ℕ) → bit_xor a b ≡ bit_xor (a / 2) (b / 2) * 2 + differ (a % 2) (b % 2)
bit_xor_step a b = simp bit_xor-bitwise (lowest_digit (λ b. b) differ (λ b. omega arith) a b)

differ-lt : (x y : ℕ) → x < 2 → y < 2 → differ x y < 2
differ-lt zero y h l = l
differ-lt (suc zero) zero h l = omega arith
differ-lt (suc zero) (suc zero) h l = omega arith
differ-lt (suc zero) (suc (suc y)) h l = absurd (omega arith)
differ-lt (suc (suc x)) y h l = absurd (omega arith)

bit_xor-div-two : (a b : ℕ) → bit_xor a b / 2 ≡ bit_xor (a / 2) (b / 2)
bit_xor-div-two a b =
    omega (arith, bit_xor_step a b, differ-lt (a % 2) (b % 2) (omega arith) (omega arith))

-- The bits from the `k`th on of an exclusive or.
pub bit_xor-div-pow : (k a b : ℕ) → bit_xor a b / 2 ^ k ≡ bit_xor (a / 2 ^ k) (b / 2 ^ k)
bit_xor-div-pow zero a b = simp div-one refl
bit_xor-div-pow (suc k) a b =
    rw
      (
        pow-suc,
        mul_comm (2 ^ k) 2,
        ← div-div-eq-div-mul,
        ← div-div-eq-div-mul,
        ← div-div-eq-div-mul,
        bit_xor-div-two,
      )
      (bit_xor-div-pow k (a / 2) (b / 2))

pub bit_xor_bits : (p q : ℕ) → p < 2 → q < 2 → bit_xor p q ≡ (p + q) % 2
bit_xor_bits zero zero h l = refl
bit_xor_bits zero (suc zero) h l = refl
bit_xor_bits (suc zero) zero h l = refl
bit_xor_bits (suc zero) (suc zero) h l = refl
bit_xor_bits p (suc (suc q)) h l = absurd (omega arith)
bit_xor_bits (suc (suc p)) q h l = absurd (omega arith)

bit_or-zero : (n a : ℕ) → a ≤ n → bit_or a 0 ≡ a
bit_or-zero n zero h = refl
bit_or-zero zero (suc a) h = absurd (omega arith)
bit_or-zero (suc n) (suc a) h =
    omega (arith, bit_or_step (suc a) 0, bit_or-zero n (suc a / 2) (omega arith))

-- `(q << k) | r` is a sum where `r` fits in `k` bits.
pub bit_or_high : (k q r : ℕ) → r < 2 ^ k → bit_or (q * 2 ^ k) r ≡ q * 2 ^ k + r
bit_or_high zero q r h = ground (arith, bit_or-zero (q * 2 ^ 0) (q * 2 ^ 0) (omega arith))
bit_or_high (suc k) q r h =
    ground
      (arith, bit_or_step (q * 2 ^ suc k) r, field_suc q k, bit_or_high k q (r / 2) (omega arith))

bit_or_self_fuel : (n a : ℕ) → a ≤ n → bit_or a a ≡ a
bit_or_self_fuel n zero h = refl
bit_or_self_fuel zero (suc a) h = absurd (omega arith)
bit_or_self_fuel (suc n) (suc a) h =
    omega (arith, bit_or_step (suc a) (suc a), bit_or_self_fuel n (suc a / 2) (omega arith))

pub bit_or_self : (a : ℕ) → bit_or a a ≡ a
bit_or_self a = bit_or_self_fuel a a (omega arith)
