-- ===== src/Bcdump.antt =====
-- The number constants of a bytecode dump: `bcwrite_knum` (lib/luajit/src/lj_bcwrite.c) and
-- `bcread_knum` (lib/luajit/src/lj_bcread.c). The children of this module model the rest of both
-- files.
-- A `TValue` that holds a number is the bit pattern of an `int32_t`, or the two 32 bit words of a
-- double. The buffer that `lj_buf_more` provides has room for 10 bytes a constant.
pub mod Result
pub mod Words
pub mod Input
pub mod Template
pub mod Proto
pub mod Load
pub mod Signed
pub mod Knum
mod Examples
use omniajit.Prelude.{
  ℕ, zero, suc, ◌+◌, ◌*◌, ◌/◌, ◌%◌, ◌^◌, ◌<◌, ◌≡◌, bit_and, bit_or, List, [], ◌∷◌, ◌++◌, ltb, leb,
  ◌==◌, ◌&&◌, if◌then◌else◌, Bool, true, false, Option, none, some,
}
use omniajit.Uleb.{wuleb128, ruleb128, uleb128_33}

pub data Number : Type 0 where
  int : ℕ → Number
  num : ℕ → ℕ → Number

-- Are these the words of -0?
abbrev pub is_negzero : ℕ → ℕ → Bool
is_negzero lo hi = lo == 0 && hi == 2 ^ 31

-- The conversions between doubles and `int32_t`, which are the processor's. `narrow lo hi` is
-- `some k` if the double with these words equals `(lua_Number)k`, as -0 does for 0. But for -0,
-- `(lua_Number)k` then has the same words.
pub record Floats : Type 0 where
  pub narrow : ℕ → ℕ → Option ℕ
  pub widen : ℕ → ℕ × ℕ
  pub narrow-lt : (lo hi k : ℕ) → narrow lo hi ≡ some k → k < 2 ^ 32
  pub widen-narrow :
      (lo hi k : ℕ) → is_negzero lo hi ≡ false → narrow lo hi ≡ some k → widen k ≡ (lo, hi)

infixl 5 ◌>>=◌
abbrev pub ◌>>=◌ : {A B : Type 0} → Option A → (A → Option B) → Option B
none >>= f = none
some a >>= f = f a

-- `p[-1] = (p[-1] & 7) | (h & 0x18)` behind the bytes `p` that were just written.
unfoldable pub patch : ℕ → List ℕ → List ℕ
patch h [] = []
patch h (b ∷ []) = bit_or (bit_and b 7) (bit_and h 0x18) ∷ []
patch h (b ∷ c ∷ p) = b ∷ patch h (c ∷ p)

-- `2*k | (k & 0x80000000u)` on 32 bit words.
unfoldable pub low_bits : ℕ → ℕ
low_bits k = bit_or (2 * k % 2 ^ 32) (bit_and k 0x8000_0000)

-- `k >> 27` of a negative `int32_t`, which repeats the sign bit.
abbrev pub sar27 : ℕ → ℕ
sar27 k = k / 2 ^ 27 + 0xffff_ffe0

-- The code at the label `save_int`.
unfoldable pub save_int : ℕ → List ℕ
unfolding patch low_bits
save_int k = let p = wuleb128 (low_bits k) in if leb 0x8000_0000 k then patch (sar27 k) p else p

-- The words of a number that is not narrowed.
unfoldable pub save_num : ℕ → ℕ → List ℕ
unfolding patch low_bits
save_num lo hi =
    let p = wuleb128 (1 + low_bits lo) in
    (if leb 0x8000_0000 lo then patch (lo / 2 ^ 27) p else p) ++ wuleb128 hi

-- `LJ_DUALNUM` is a build option.
module _ (dualnum : Bool) (floats : Floats) where
  open floats use {narrow, widen}

  unfoldable pub write_number : Number → List ℕ
  unfolding save_int save_num
  write_number (int k) = save_int k
  write_number (num lo hi) =
      if dualnum
      then save_num lo hi
      else elim (narrow lo hi) [ some k ↦ save_int k | none ↦ save_num lo hi ]

  unfoldable pub bcwrite_knum : List Number → List ℕ
  unfolding write_number
  bcwrite_knum [] = []
  bcwrite_knum (o ∷ k) = write_number o ++ bcwrite_knum k

  -- `setintV`: without `LJ_DUALNUM` the integer is stored as a double.
  unfoldable pub setint : ℕ → Number
  setint k = if dualnum then int k else let (lo, hi) = widen k in num lo hi

  unfoldable pub read_number : List ℕ → Option (Number × List ℕ)
  unfolding setint
  read_number [] = none
  read_number (b ∷ p) =
      let isnum = bit_and b 1 in
      do
        (lo, q) ← uleb128_33 (b ∷ p)
        if isnum == 0 then some (setint lo, q) else do (hi, r) ← ruleb128 q; some (num lo hi, r)

  unfoldable pub bcread_knum : ℕ → List ℕ → Option (List Number × List ℕ)
  unfolding read_number
  bcread_knum zero p = some ([], p)
  bcread_knum (suc n) p = do (o, q) ← read_number p; (k, r) ← bcread_knum n q; some (o ∷ k, r)
