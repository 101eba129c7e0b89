-- ===== src/Uleb.antt =====
-- ULEB128 numbers: `lj_strfmt_wuleb128` (lib/luajit/src/lj_strfmt.c), `lj_buf_ruleb128`
-- (lib/luajit/src/lj_buf.c) and `bcread_uleb128_33` (lib/luajit/src/lj_bcread.c).
-- Memory is a list of bytes. A writer returns the bytes that it stores from `p` on. A reader
-- returns the number and the bytes behind the new `p`; `none` is undefined behaviour of the C
-- code: a read past the end of the memory, or a shift of a 32 bit value by 32 or more.
pub mod Write
pub mod Read
mod Examples
use omniajit.Prelude.{
  ℕ, ◌+◌, ◌*◌, ◌/◌, ◌%◌, ◌^◌, ◌≤◌, ◌<◌, bit_and, bit_or, arith, dite, dec_le, List, [], ◌∷◌, ltb,
  leb, if◌then◌else◌, Option, none, some, Acc, lt_wf,
}

pub shr_seven_lt : (v : ℕ) → 0x80 ≤ v → v / 2 ^ 7 < v
shr_seven_lt v h = omega arith

-- The loop `for (; v >= 0x80; v >>= 7)`, and the store of the last group behind it.
unfoldable pub wuleb128_loop : (v : ℕ) → Acc ◌<◌ v → List ℕ
wuleb128_loop v (Acc.intro _ smaller) =
    dite (dec_le 0x80 v)
      (λ h. bit_or (bit_and v 0x7f) 0x80 ∷ wuleb128_loop (v / 2 ^ 7) (smaller _ (shr_seven_lt v h)))
      (λ _. v ∷ [])

unfoldable pub wuleb128 : ℕ → List ℕ
wuleb128 v = wuleb128_loop v (lt_wf.apply v)

-- `do { v |= ((*p & 0x7f) << (sh += 7)); } while (*p++ >= 0x80)`. The second argument is the
-- shift of the next byte, that is `sh + 7`.
unfoldable pub ruleb128_loop : ℕ → ℕ → List ℕ → Option (ℕ × List ℕ)
ruleb128_loop v s [] = none
ruleb128_loop v s (b ∷ p) =
    let v' = bit_or v (bit_and b 0x7f * 2 ^ s % 2 ^ 32) in
    let more = ruleb128_loop v' (s + 7) p in
    if ltb 31 s then none else if leb 0x80 b then more else some (v', p)

unfoldable pub ruleb128 : List ℕ → Option (ℕ × List ℕ)
unfolding ruleb128_loop
ruleb128 [] = none
ruleb128 (v ∷ p) = if leb 0x80 v then ruleb128_loop (bit_and v 0x7f) 7 p else some (v, p)

-- The lowest bit of the first byte is dropped.
unfoldable pub uleb128_33 : List ℕ → Option (ℕ × List ℕ)
unfolding ruleb128_loop
uleb128_33 [] = none
uleb128_33 (b ∷ p) =
    let v = b / 2 in if leb 0x40 v then ruleb128_loop (bit_and v 0x3f) 6 p else some (v, p)
