-- ===== src/Strscan.antt =====
-- Conversion of strings to numbers, lib/luajit/src/lj_strscan.c: the types that its parts share.
-- A pointer into the string is the list of the bytes from there on. The byte behind the last one
-- is the terminating NUL, where every loop of the code stops.
pub mod Double
pub mod Radix
pub mod Dec
pub mod Scan
pub mod Integers
mod Examples
use omniajit.Prelude.{ℕ, ◌+◌, ◌-◌, ◌%◌, ◌^◌, bit_or, List, [], ◌∷◌, Bool, ◌==◌, if◌then◌else◌, drop}
use omniajit.Prelude.Int.{ℤ}

-- `StrScanFmt`
pub data Fmt : Type 0 where
  error num imag int u32 i64 u64 : Fmt

-- The flags `STRSCAN_OPT_*`.
pub record Opts : Type 0 where
  pub toint : Bool
  pub tonum : Bool
  pub imag : Bool
  pub ll : Bool
  pub c : Bool

-- The arithmetic of doubles, which is the processor's and the C library's. `of_int64` converts a
-- word below `2 ^ 63`; an `int32_t` is its pattern.
pub record Doubles : Type 1 where
  pub D : Type 0
  pub of_int64 : ℕ → D
  pub of_int32 : ℕ → D
  pub num2int : D → ℕ
  pub neg : D → D
  pub ldexp : D → ℤ → D
  pub equal : D → D → Bool
  pub inf : D
  pub nan : D

-- What is stored in the `TValue`: through `o->i`, `o->u64` or `o->n`.
pub data Value (D : Type 0) : Type 0 where
  i32 : ℕ → Value D
  w64 : ℕ → Value D
  double : D → Value D

-- The format that is returned, with the value; `stuck` is a loop of the model out of fuel.
pub data Outcome (D : Type 0) : Type 0 where
  failed : Outcome D
  scanned : Fmt → Value D → Outcome D
  stuck : Outcome D

abbrev pub peek : List ℕ → ℕ
peek [] = 0
peek (c ∷ p) = c

abbrev pub next : List ℕ → List ℕ
next p = drop 1 p

-- `*p != '.' ? *p : *++p`, and the pointer to that byte.
abbrev pub skip_dot : List ℕ → List ℕ
skip_dot p = if peek p == b'.' then next p else p

-- `casecmp(c, k)`
abbrev pub casecmp : ℕ → ℕ → Bool
casecmp c k = bit_or c 0x20 == k

-- `neg ? -(int32_t)x : (int32_t)x` and `neg ? (uint64_t)-(int64_t)x : x`
abbrev pub signed32 : Bool → ℕ → ℕ
signed32 neg x = if neg then (2 ^ 32 - x % 2 ^ 32) % 2 ^ 32 else x % 2 ^ 32

abbrev pub signed64 : Bool → ℕ → ℕ
signed64 neg x = if neg then (2 ^ 64 - x) % 2 ^ 64 else x

-- `0x80000000u+neg`
abbrev pub int_limit : Bool → ℕ
int_limit neg = if neg then 0x8000_0001 else 0x8000_0000
