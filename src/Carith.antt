-- ===== src/Carith.antt =====
-- 64 bit integer arithmetic of the FFI and of the JIT compiler's constant folding:
-- lib/luajit/src/lj_carith.c from `lj_carith_shl64` on, and `lj_vm_modi` of
-- lib/luajit/src/lj_vmmath.c. A word is a number below `2 ^ 64` (`2 ^ 32` for `lj_vm_modi`), and
-- a signed word is its two's complement pattern.
pub mod Division
pub mod Modulo
pub mod Power
pub mod Rotate
mod Examples
use omniajit.Prelude.{
  ℕ, zero, suc, ◌+◌, ◌-◌, ◌*◌, ◌/◌, ◌%◌, ◌^◌, bit_or, bit_xor, leb, ltb, ◌==◌, if◌then◌else◌, Bool,
  true, false, ◌&&◌, ◌||◌, not, Option, none, some,
}

abbrev pub word : ℕ → ℕ
word a = a % 2 ^ 64

-- `-x` on a word of `w` bits, the sign bit, and the magnitude of the signed value.
abbrev pub negate : ℕ → ℕ → ℕ
negate w a = (2 ^ w - a) % 2 ^ w

abbrev pub is_negative : ℕ → ℕ → Bool
is_negative w a = leb (2 ^ (w - 1)) a

abbrev pub magnitude : ℕ → ℕ → ℕ
magnitude w a = if is_negative w a then negate w a else a

-- The operators `/` and `%` of C on `int64_t`, which truncate towards zero.
abbrev pub quotient : ℕ → ℕ → ℕ
quotient a b =
    let q = magnitude 64 a / magnitude 64 b in
    if is_negative 64 a
    then if is_negative 64 b then q else negate 64 q
    else if is_negative 64 b
    then negate 64 q
    else q

abbrev pub remainder : ℕ → ℕ → ℕ
remainder a b =
    let r = magnitude 64 a % magnitude 64 b in if is_negative 64 a then negate 64 r else r

abbrev pub int_min : ℕ
int_min = 0x8000_0000_0000_0000

abbrev pub minus_one : ℕ
minus_one = 0xffff_ffff_ffff_ffff

unfoldable pub divu64 : ℕ → ℕ → ℕ
divu64 a b = if b == 0 then int_min else a / b

unfoldable pub divi64 : ℕ → ℕ → ℕ
divi64 a b = if b == 0 || a == int_min && b == minus_one then int_min else quotient a b

unfoldable pub modu64 : ℕ → ℕ → ℕ
modu64 a b = if b == 0 then int_min else a % b

unfoldable pub modi64 : ℕ → ℕ → ℕ
modi64 a b = if b == 0 then int_min else if a == int_min && b == minus_one then 0 else remainder a b

-- `for (; (k & 1) == 0; k >>= 1) x *= x;`, with the values of `x` and `k` behind it. `none` means
-- that the fuel ran out.
unfoldable pub square_even : ℕ → ℕ → ℕ → Option (ℕ × ℕ)
square_even zero x k = none
square_even (suc fuel) x k =
    let rest = square_even fuel (word (x * x)) (k / 2) in if k % 2 == 0 then rest else some (x, k)

-- The loop `for (;;)` over `x`, `y` and `k`, and the product behind it.
unfoldable pub multiply_bits : ℕ → ℕ → ℕ → ℕ → Option ℕ
multiply_bits zero x y k = none
multiply_bits (suc fuel) x y k =
    let x' = word (x * x) in
    let rest = multiply_bits fuel x' (if k % 2 == 1 then word (y * x') else y) (k / 2) in
    if k == 1 then some (word (y * x')) else rest

-- A 64 bit exponent takes 64 rounds of each loop at most.
unfoldable pub powu64 : ℕ → ℕ → Option ℕ
powu64 x k = if k == 0 then some 1 else elim (square_even 64 x k) [
  | none ↦ none
  | some (x', k') ↦ let y = x' in if k' / 2 == 0 then some y else multiply_bits 64 x' y (k' / 2)
]

unfoldable pub powi64 : ℕ → ℕ → Option ℕ
powi64 x k =
    if k == 0
    then some 1
    else if is_negative 64 k
    then if x == 0
      then some 0x7fff_ffff_ffff_ffff
      else if x == 1
      then some 1
      else if x == minus_one
      then some (if k % 2 == 1 then minus_one else 1)
      else some 0
    else powu64 x k

unfoldable pub shl64 : ℕ → ℕ → ℕ
shl64 x sh = word (x * 2 ^ (sh % 64))

unfoldable pub shr64 : ℕ → ℕ → ℕ
shr64 x sh = x / 2 ^ (sh % 64)

-- The sign bit fills the high bits.
unfoldable pub sar64 : ℕ → ℕ → ℕ
sar64 x sh =
    let n = sh % 64 in if is_negative 64 x then x / 2 ^ n + (2 ^ 64 - 2 ^ (64 - n)) else x / 2 ^ n

-- `-(int)n & 63`
abbrev pub complement : ℕ → ℕ
complement n = (64 - n) % 64

unfoldable pub rol64 : ℕ → ℕ → ℕ
rol64 x sh = let n = sh % 64 in bit_or (word (x * 2 ^ n)) (x / 2 ^ complement n)

unfoldable pub ror64 : ℕ → ℕ → ℕ
ror64 x sh = let n = sh % 64 in bit_or (word (x * 2 ^ complement n)) (x / 2 ^ n)

pub data ShiftOp : Type 0 where
  bshl bshr bsar brol bror : ShiftOp

unfoldable pub shift64 : ℕ → ℕ → ShiftOp → ℕ
unfolding shl64 shr64 sar64 rol64 ror64
shift64 x sh bshl = shl64 x sh
shift64 x sh bshr = shr64 x sh
shift64 x sh bsar = sar64 x sh
shift64 x sh brol = rol64 x sh
shift64 x sh bror = ror64 x sh

-- `lj_vm_modi`: `y - ub` and `-y` wrap, and `a^b < 0` is the test of the sign bit.
unfoldable pub modi : ℕ → ℕ → ℕ
modi a b =
    let ub = magnitude 32 b in
    let y = magnitude 32 a % ub in
    let y' =
      if not (y == 0) && is_negative 32 (bit_xor a b) then (y + 2 ^ 32 - ub) % 2 ^ 32 else y in
    if is_negative 32 (bit_xor y' b) then negate 32 y' else y'
