-- ===== src/Char/Examples.antt =====
-- The classes of a byte.
use omniajit.Prelude.{◌≡◌, arith, true, false}
use omniajit.Char.{is_a, is_space, is_digit, char_xdigit}
use omniajit.Char.Classes.{is_a-range}

is_a-range_example :
    (is_digit b'f' ≡ false) × (is_space b'f' ≡ false) × (is_a b'f' char_xdigit ≡ true)
is_a-range_example = is_a-range b'f' (omega arith)
