-- ===== src/Char.antt =====
-- Character classes: the table `lj_char_bits` (lib/luajit/src/lj_char.c) and the tests of
-- lib/luajit/src/lj_char.h that the number scanner and the lexer use.
pub mod Classes
mod Examples
use omniajit.Prelude.{ℕ, suc, ◌+◌, ◌-◌, ◌/◌, bit_and, List, [], ◌∷◌, get_or, Bool, not, ◌==◌}

-- The entry of `c` stands at `c + 1`: the first one is for -1, the end of the input.
char_bits : List ℕ
char_bits =
    0 ∷ 1 ∷ 1 ∷ 1 ∷ 1 ∷ 1 ∷ 1 ∷ 1 ∷ 1 ∷ 1 ∷ 3 ∷ 3 ∷ 3 ∷ 3 ∷ 3 ∷ 1 ∷ 1 ∷ 1 ∷ 1 ∷ 1 ∷ 1 ∷ 1 ∷ 1 ∷ 1
    ∷ 1 ∷ 1 ∷ 1 ∷ 1 ∷ 1 ∷ 1 ∷ 1 ∷ 1 ∷ 1 ∷ 2 ∷ 4 ∷ 4 ∷ 4 ∷ 4 ∷ 4 ∷ 4 ∷ 4 ∷ 4 ∷ 4 ∷ 4 ∷ 4 ∷ 4 ∷ 4 ∷ 4
    ∷ 4 ∷ 152 ∷ 152 ∷ 152 ∷ 152 ∷ 152 ∷ 152 ∷ 152 ∷ 152 ∷ 152 ∷ 152 ∷ 4 ∷ 4 ∷ 4 ∷ 4 ∷ 4 ∷ 4 ∷ 4
    ∷ 176 ∷ 176 ∷ 176 ∷ 176 ∷ 176 ∷ 176 ∷ 160 ∷ 160 ∷ 160 ∷ 160 ∷ 160 ∷ 160 ∷ 160 ∷ 160 ∷ 160 ∷ 160
    ∷ 160 ∷ 160 ∷ 160 ∷ 160 ∷ 160 ∷ 160 ∷ 160 ∷ 160 ∷ 160 ∷ 160 ∷ 4 ∷ 4 ∷ 4 ∷ 4 ∷ 132 ∷ 4 ∷ 208
    ∷ 208 ∷ 208 ∷ 208 ∷ 208 ∷ 208 ∷ 192 ∷ 192 ∷ 192 ∷ 192 ∷ 192 ∷ 192 ∷ 192 ∷ 192 ∷ 192 ∷ 192 ∷ 192
    ∷ 192 ∷ 192 ∷ 192 ∷ 192 ∷ 192 ∷ 192 ∷ 192 ∷ 192 ∷ 192 ∷ 4 ∷ 4 ∷ 4 ∷ 4 ∷ 1 ∷ 128 ∷ 128 ∷ 128
    ∷ 128 ∷ 128 ∷ 128 ∷ 128 ∷ 128 ∷ 128 ∷ 128 ∷ 128 ∷ 128 ∷ 128 ∷ 128 ∷ 128 ∷ 128 ∷ 128 ∷ 128 ∷ 128
    ∷ 128 ∷ 128 ∷ 128 ∷ 128 ∷ 128 ∷ 128 ∷ 128 ∷ 128 ∷ 128 ∷ 128 ∷ 128 ∷ 128 ∷ 128 ∷ 128 ∷ 128 ∷ 128
    ∷ 128 ∷ 128 ∷ 128 ∷ 128 ∷ 128 ∷ 128 ∷ 128 ∷ 128 ∷ 128 ∷ 128 ∷ 128 ∷ 128 ∷ 128 ∷ 128 ∷ 128 ∷ 128
    ∷ 128 ∷ 128 ∷ 128 ∷ 128 ∷ 128 ∷ 128 ∷ 128 ∷ 128 ∷ 128 ∷ 128 ∷ 128 ∷ 128 ∷ 128 ∷ 128 ∷ 128 ∷ 128
    ∷ 128 ∷ 128 ∷ 128 ∷ 128 ∷ 128 ∷ 128 ∷ 128 ∷ 128 ∷ 128 ∷ 128 ∷ 128 ∷ 128 ∷ 128 ∷ 128 ∷ 128 ∷ 128
    ∷ 128 ∷ 128 ∷ 128 ∷ 128 ∷ 128 ∷ 128 ∷ 128 ∷ 128 ∷ 128 ∷ 128 ∷ 128 ∷ 128 ∷ 128 ∷ 128 ∷ 128 ∷ 128
    ∷ 128 ∷ 128 ∷ 128 ∷ 128 ∷ 128 ∷ 128 ∷ 128 ∷ 128 ∷ 128 ∷ 128 ∷ 128 ∷ 128 ∷ 128 ∷ 128 ∷ 128 ∷ 128
    ∷ 128 ∷ 128 ∷ 128 ∷ 128 ∷ 128 ∷ 128 ∷ 128 ∷ 128 ∷ 128 ∷ 128 ∷ 128 ∷ 128 ∷ 128 ∷ []

abbrev pub char_space : ℕ
char_space = 0x02

abbrev pub char_digit : ℕ
char_digit = 0x08

abbrev pub char_xdigit : ℕ
char_xdigit = 0x10

-- `lj_char_isa(c, t)` of a byte `c`.
unfoldable pub is_a : ℕ → ℕ → Bool
unfolding char_bits
is_a c t = not (bit_and (get_or char_bits (suc c) 0) t == 0)

abbrev pub is_space : ℕ → Bool
is_space c = is_a c char_space

abbrev pub is_digit : ℕ → Bool
is_digit c = is_a c char_digit
