-- ===== src/Char/Classes.antt =====
-- The classes of the table as ranges of bytes.
use omniajit.Prelude.{ℕ, zero, suc, ◌<◌, ◌≡◌, refl, arith, Bool, true, not, ◌&&◌, ◌||◌, leb, ◌==◌}
use omniajit.Char.{is_a, is_space, is_digit, char_xdigit}

-- Two tests that agree on every number below a bound, checked one by one.
agree_below : (ℕ → Bool) → (ℕ → Bool) → ℕ → Bool
agree_below f g zero = true
agree_below f g (suc n) = (f n && g n || not (f n) && not (g n)) && agree_below f g n

agree_below_lem : (f g : ℕ → Bool) (n : ℕ) → agree_below f g n ≡ true → (c : ℕ) → c < n → f c ≡ g c
unfolding agree_below ◌&&◌ ◌||◌ not
agree_below_lem f g zero e c h = absurd (omega arith)
agree_below_lem f g (suc n) e c h = ground (arith, agree_below_lem f g n (ground arith) c)

-- A byte is a digit in the table exactly if it lies between `'0'` and `'9'`.
pub is_digit-range : (c : ℕ) → c < 256 → is_digit c ≡ leb b'0' c && leb c b'9'
unfolding agree_below is_a ◌&&◌ ◌||◌ not
is_digit-range = agree_below_lem is_digit (λ c. leb b'0' c && leb c b'9') 256 refl

is_space-range : (c : ℕ) → c < 256 → is_space c ≡ c == b' ' || leb 9 c && leb c 13
unfolding agree_below is_a ◌&&◌ ◌||◌ not
is_space-range = agree_below_lem is_space (λ c. c == b' ' || leb 9 c && leb c 13) 256 refl

is_xdigit-range :
    (c : ℕ)
    → c < 256
    → is_a c char_xdigit
      ≡ (leb b'0' c && leb c b'9') || (leb b'A' c && leb c b'F') || (leb b'a' c && leb c b'f')
unfolding agree_below is_a ◌&&◌ ◌||◌ not
is_xdigit-range =
    agree_below_lem (λ c. is_a c char_xdigit)
      (λ c. (leb b'0' c && leb c b'9') || (leb b'A' c && leb c b'F') || (leb b'a' c && leb c b'f'))
      256 refl

-- The table `lj_char_bits` classes every byte as ASCII does: the decimal digits, the white space
-- of the C locale, and the hexadecimal digits of both cases.
pub is_a-range :
    (c : ℕ)
    → c < 256
    → (is_digit c ≡ leb b'0' c && leb c b'9')
      × (is_space c ≡ c == b' ' || leb 9 c && leb c 13)
      × (is_a c char_xdigit
          ≡ (leb b'0' c && leb c b'9') || (leb b'A' c && leb c b'F') || (leb b'a' c && leb c b'f'))
is_a-range c h = (is_digit-range c h, is_space-range c h, is_xdigit-range c h)
