-- ===== src/Bcdump/Words.antt =====
-- Words in memory: instructions of 4 bytes, upvalue references of 2 bytes and line numbers of 1, 2
-- or 4 bytes, in the byte order of a build. `be` is `LJ_BE`.
use omniajit.Prelude.{
  ℕ, zero, suc, ◌+◌, ◌*◌, ◌/◌, ◌%◌, ◌^◌, ◌<◌, ◌≡◌, refl, ap, arith, List, [], ◌∷◌, ◌++◌, length,
  All, Bool, true, false, not, if◌then◌else◌,
}

pub data Width : Type 0 where
  one two four : Width

abbrev pub size : Width → ℕ
size one = 1
size two = 2
size four = 4

abbrev pub limit : Width → ℕ
limit one = 2 ^ 8
limit two = 2 ^ 16
limit four = 2 ^ 32

-- The bytes of a word.
unfoldable pub bytes : Bool → Width → ℕ → List ℕ
bytes be one w = w ∷ []
bytes false two w = w % 2 ^ 8 ∷ w / 2 ^ 8 ∷ []
bytes true two w = w / 2 ^ 8 ∷ w % 2 ^ 8 ∷ []
bytes false four w = w % 2 ^ 8 ∷ w / 2 ^ 8 % 2 ^ 8 ∷ w / 2 ^ 16 % 2 ^ 8 ∷ w / 2 ^ 24 ∷ []
bytes true four w = w / 2 ^ 24 ∷ w / 2 ^ 16 % 2 ^ 8 ∷ w / 2 ^ 8 % 2 ^ 8 ∷ w % 2 ^ 8 ∷ []

unfoldable pub block : Bool → Width → List ℕ → List ℕ
block be width [] = []
block be width (w ∷ ws) = bytes be width w ++ block be width ws

-- `n` words of a block of memory.
unfoldable pub words : Bool → Width → ℕ → List ℕ → List ℕ
words be width zero p = []
words be one (suc n) (a ∷ p) = a ∷ words be one n p
words false two (suc n) (a ∷ b ∷ p) = (a + b * 2 ^ 8) ∷ words false two n p
words true two (suc n) (a ∷ b ∷ p) = (a * 2 ^ 8 + b) ∷ words true two n p
words false four (suc n) (a ∷ b ∷ c ∷ d ∷ p) =
    (a + b * 2 ^ 8 + c * 2 ^ 16 + d * 2 ^ 24) ∷ words false four n p
words true four (suc n) (a ∷ b ∷ c ∷ d ∷ p) =
    (a * 2 ^ 24 + b * 2 ^ 16 + c * 2 ^ 8 + d) ∷ words true four n p
words be width (suc n) p = []

-- `lj_bswap`, and the swap of a 16 bit word.
unfoldable pub swap : Width → ℕ → ℕ
swap one w = w
swap two w = (w / 2 ^ 8 + w * 2 ^ 8) % 2 ^ 16
swap four w =
    w / 2 ^ 24 + w / 2 ^ 16 % 2 ^ 8 * 2 ^ 8 + w / 2 ^ 8 % 2 ^ 8 * 2 ^ 16 + w % 2 ^ 8 * 2 ^ 24

unfoldable pub swap_all : Width → List ℕ → List ℕ
unfolding swap
swap_all width [] = []
swap_all width (w ∷ ws) = swap width w ∷ swap_all width ws

pub length-block :
    (be : Bool) (width : Width) (ws : List ℕ) → length (block be width ws) ≡ length ws * size width
unfolding block bytes
length-block be one [] = omega arith
length-block be two [] = omega arith
length-block be four [] = omega arith
length-block be one (w ∷ ws) = omega (arith, length-block be one ws)
length-block false two (w ∷ ws) = omega (arith, length-block false two ws)
length-block true two (w ∷ ws) = omega (arith, length-block true two ws)
length-block false four (w ∷ ws) = omega (arith, length-block false four ws)
length-block true four (w ∷ ws) = omega (arith, length-block true four ws)

pub words-block :
    (be : Bool) (width : Width) (ws p : List ℕ)
    → All (λ w. w < limit width) ws
    → words be width (length ws) (block be width ws ++ p) ≡ ws
unfolding words block bytes
words-block be one [] p h = refl
words-block be two [] p h = refl
words-block be four [] p h = refl
words-block be one (w ∷ ws) p h = rw (words-block be one ws p h.1)
words-block false two (w ∷ ws) p h =
    rw (words-block false two ws p h.1) (ap (λ (v : ℕ). v ∷ ws) (omega arith))
words-block true two (w ∷ ws) p h =
    rw (words-block true two ws p h.1) (ap (λ (v : ℕ). v ∷ ws) (omega arith))
words-block false four (w ∷ ws) p h =
    rw (words-block false four ws p h.1) (ap (λ (v : ℕ). v ∷ ws) (omega arith))
words-block true four (w ∷ ws) p h =
    rw (words-block true four ws p h.1) (ap (λ (v : ℕ). v ∷ ws) (omega arith))

pub swap_all-words-block :
    (be : Bool) (width : Width) (ws p : List ℕ)
    → All (λ w. w < limit width) ws
    → swap_all width (words be width (length ws) (block (not be) width ws ++ p)) ≡ ws
unfolding words block bytes swap_all swap
swap_all-words-block be one [] p h = refl
swap_all-words-block be two [] p h = refl
swap_all-words-block be four [] p h = refl
swap_all-words-block be one (w ∷ ws) p h = rw (swap_all-words-block be one ws p h.1)
swap_all-words-block false two (w ∷ ws) p h =
    rw (swap_all-words-block false two ws p h.1) (ap (λ (v : ℕ). v ∷ ws) (omega arith))
swap_all-words-block true two (w ∷ ws) p h =
    rw (swap_all-words-block true two ws p h.1) (ap (λ (v : ℕ). v ∷ ws) (omega arith))
swap_all-words-block false four (w ∷ ws) p h =
    rw (swap_all-words-block false four ws p h.1) (ap (λ (v : ℕ). v ∷ ws) (omega arith))
swap_all-words-block true four (w ∷ ws) p h =
    rw (swap_all-words-block true four ws p h.1) (ap (λ (v : ℕ). v ∷ ws) (omega arith))

-- `bcread_swap`: do the byte orders of the dump and of the build differ?
abbrev pub differ : Bool → Bool → Bool
differ of be = if of then not be else be

-- A block that was copied from a dump, with the swap that follows.
unfoldable pub read_words : Bool → Bool → Width → ℕ → List ℕ → List ℕ
read_words of be width n p =
    if differ of be then swap_all width (words be width n p) else words be width n p

-- A build of either byte order reads back the words that a build of either byte order wrote.
pub read_words-block :
    (of be : Bool) (width : Width) (ws p : List ℕ)
    → All (λ w. w < limit width) ws
    → read_words of be width (length ws) (block of width ws ++ p) ≡ ws
unfolding read_words
read_words-block false false width ws p h = words-block false width ws p h
read_words-block true true width ws p h = words-block true width ws p h
read_words-block false true width ws p h = swap_all-words-block true width ws p h
read_words-block true false width ws p h = swap_all-words-block false width ws p h
