-- ===== src/Func/Closure/Count.antt =====
-- The counter of the closures of a prototype, three bits of its flags.
use omniajit.Prelude.{
  ℕ, ◌+◌, ◌*◌, ◌/◌, ◌%◌, ◌^◌, ◌<◌, ◌≡◌, ◌∙◌, ap, arith, bit_and, ltb, if◌then◌else◌,
}
use omniajit.Prelude.Bits.{bit_and_top}
use omniajit.Func.Closure.{closure_flags}

-- The three bits that count the closures of a prototype stop at 7, and the count never changes the
-- other flags.
pub closure_flags_lem :
    (flags : ℕ)
    → flags < 2 ^ 8
    → closure_flags flags ≡ (if ltb flags (7 * 2 ^ 5) then flags + 2 ^ 5 else flags)
unfolding closure_flags
closure_flags_lem flags h =
    let count = flags + 0x20 in
    let e : count / 2 ^ 3 ≡ count / 2 ^ 8 * 2 ^ 5 + count / 2 ^ 3 % 2 ^ 5 = omega arith in
    let carry : bit_and (count / 2 ^ 3) (2 ^ 5) ≡ count / 2 ^ 8 % 2 * 2 ^ 5 =
      ap (λ (n : ℕ). bit_and n (2 ^ 5)) e
      ∙ bit_and_top 5 (count / 2 ^ 8) (count / 2 ^ 3 % 2 ^ 5) (omega arith) in
    ground (arith, carry)
