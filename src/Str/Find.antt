-- ===== src/Str/Find.antt =====
-- `lj_str_find` and `lj_str_haspattern` (lib/luajit/src/lj_str.c).
pub mod First
use omniajit.Prelude.{
  ℕ, zero, suc, ◌+◌, ◌-◌, ◌≤◌, ◌<◌, ◌≡◌, refl, ap, ◌∙◌, sym, arith, List, [], ◌∷◌, ◌++◌, All,
  length, take, drop, get_or, leb, ltb, ◌==◌, if◌then◌else◌, Bool, true, false, Bool-cases, inl,
  inr, not, ◌&&◌, ◌||◌, Option, none, some,
}
use mathlib.Core.Path.{subst}
use omniajit.Char.{is_a}
use omniajit.Str.{same_bytes}
use omniajit.Str.Count.{same_bytes_self, same_bytes_eq}

-- `memchr(s, c, n)`, as a distance from `s`.
unfoldable pub memchr : List ℕ → ℕ → ℕ → Option ℕ
memchr s c zero = none
memchr [] c (suc n) = none
memchr (x ∷ s) c (suc n) =
    let rest : Option ℕ = elim (memchr s c n) [ none ↦ none | some k ↦ some (suc k) ] in
    if x == c then some 0 else rest

-- `memcmp(s, p, plen) == 0`
abbrev pub matches : List ℕ → List ℕ → Bool
matches s p = same_bytes (take (length p) s) p

-- The loop: `i` is the distance of `s` from the start of the string, `c` the first character of
-- the string that is looked for and `p` the others. A loop with more rounds than `fuel` finds nothing.
unfoldable pub find_loop : ℕ → ℕ → List ℕ → List ℕ → ℕ → ℕ → Option ℕ
unfolding memchr same_bytes
find_loop zero c p s slen i = none
find_loop (suc fuel) c p s slen i = elim (memchr s c slen) [
  | none ↦ none
  | some q ↦
      let next = find_loop fuel c p (drop (suc q) s) (slen - suc q) (i + suc q) in
      if matches (drop (suc q) s) p then some (i + q) else next
]

-- The distance of what is found from the start of the string.
unfoldable pub lj_str_find : List ℕ → List ℕ → Option ℕ
unfolding find_loop
lj_str_find s [] = some 0
lj_str_find s (c ∷ p) =
    let slen = length s - length p in
    let found = find_loop slen c p s slen 0 in if leb (length p + 1) (length s) then found else none

abbrev pub char_punct : ℕ
char_punct = 0x04

-- `strchr("^$*+?.([%-", c)`, which finds the end of that string, too.
abbrev pub in_magic : ℕ → Bool
in_magic c =
    c == 0
    || c == b'^'
    || c == b'$'
    || c == b'*'
    || c == b'+'
    || c == b'?'
    || c == b'.'
    || c == b'('
    || c == b'['
    || c == b'%'
    || c == b'-'

-- Does the string have one of the characters with a meaning in patterns?
unfoldable pub lj_str_haspattern : List ℕ → Bool
lj_str_haspattern [] = false
lj_str_haspattern (c ∷ s) =
    let rest = lj_str_haspattern s in if is_a c char_punct && in_magic c then true else rest
