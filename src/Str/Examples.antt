-- ===== src/Str/Examples.antt =====
-- Runs of the functions on strings.
use omniajit.Prelude.{
  arith, ◌++◌, ℕ, zero, suc, get_or, ◌-◌, ◌^◌, ◌≡◌, refl, List, [], ◌∷◌, true, false, Option, some,
  none, inl, ◌↔◌,
}
use omniajit.Func.{pause}
use omniajit.Char.{is_a}
use omniajit.Prng.{seed_fixed}
use omniajit.Str.{State, NewStr, interned}
use omniajit.Str.Ops.{lj_str_resize, lj_str_new, lj_str_init}
use omniajit.Str.Hash.{hash_sparse, hash_dense}
use omniajit.Str.Table.{IsStrtab}
use omniajit.Str.Init.{lj_str_init-IsStrtab}
use omniajit.Str.Intern.{IsNew, lj_str_new-IsNew}
use omniajit.Str.Reach.{Reach, Step, interning}
use omniajit.Prelude.Int.{pos}
use omniajit.Str.Compare.{lj_str_cmp}
use omniajit.Str.Compare.Words.{lex, sign}
use omniajit.Str.Compare.Order.{lj_str_cmp-lex}
use omniajit.Str.Find.{lj_str_find, lj_str_haspattern}
use omniajit.Str.Find.First.{IsFirst, lj_str_find-IsFirst}

abbrev unused : State
unused = record {
  tab = λ i. [];
  secondary = λ i. false;
  mask = 2 ^ 32 - 1;
  num = 0;
  ids = record { id = 0; idreseed = 0; prng = seed_fixed };
  second = false;
  seed = 0;
  currentwhite = 0x21;
  gcstate = pause;
  fresh = 100;
}

abbrev start : State
start = lj_str_init hash_sparse hash_dense unused

start-IsStrtab : IsStrtab hash_sparse hash_dense start
start-IsStrtab =
    lj_str_init-IsStrtab hash_sparse hash_dense unused
      (record { mask = refl; num = refl; white = inl refl; pause = refl })

abbrev hello : List ℕ
hello = b'h' ∷ b'e' ∷ b'l' ∷ b'l' ∷ b'o' ∷ []

-- The object of a result.
abbrev place : Option (State × NewStr) → ℕ
place (some (s, interned r)) = r
place (some (s, n)) = 0
place none = 0

abbrev next : Option (State × NewStr) → State
next none = unused
next (some (s, n)) = s

abbrev new : List ℕ → State → Option (State × NewStr)
new = lj_str_new hash_sparse hash_dense

first_place : place (new hello start) ≡ 100
unfolding lj_str_new lj_str_init hash_sparse hash_dense
first_place = refl

second_place : place (new hello (next (new (b'x' ∷ []) (next (new hello start))))) ≡ 100
unfolding lj_str_new lj_str_init hash_sparse hash_dense
second_place = refl

lj_str_new-IsNew_example : IsNew hash_sparse hash_dense hello start (new hello start)
lj_str_new-IsNew_example = lj_str_new-IsNew hash_sparse hash_dense hello start start-IsStrtab

abbrev one_string : State
one_string = next (new hello start)

abbrev two_strings : State
two_strings = lj_str_resize hash_sparse hash_dense (2 ^ 1 - 1) (next (new (b'x' ∷ []) one_string))

first_new : lj_str_new hash_sparse hash_dense hello start ≡ some (one_string, interned 100)
unfolding lj_str_new lj_str_init hash_sparse hash_dense
first_new = refl

other_new :
    lj_str_new hash_sparse hash_dense (b'x' ∷ []) one_string
    ≡ some (next (new (b'x' ∷ []) one_string), interned 101)
unfolding lj_str_new lj_str_init hash_sparse hash_dense
other_new = refl

again_new :
    lj_str_new hash_sparse hash_dense hello two_strings
    ≡ some (next (new hello two_strings), interned 100)
unfolding lj_str_new lj_str_init hash_sparse hash_dense
again_new = refl

between : Reach hash_sparse hash_dense one_string two_strings
between =
    Reach.step (Reach.step Reach.here (Step.new (b'x' ∷ []) (interned 101) other_new))
      (Step.resize 1)

interning_example : (◌≡◌ {A = ℕ} 100 100) ↔ (hello ≡ hello)
interning_example =
    interning hash_sparse hash_dense hello hello 100 100 start one_string two_strings
      (next (new hello two_strings)) start-IsStrtab first_new between again_new

lj_str_find_example : lj_str_find (b'a' ∷ hello) (b'l' ∷ b'o' ∷ []) ≡ some 4
unfolding lj_str_find
lj_str_find_example = refl

lj_str_find-IsFirst_example : IsFirst hello (b'l' ∷ []) (lj_str_find hello (b'l' ∷ []))
lj_str_find-IsFirst_example = lj_str_find-IsFirst hello (b'l' ∷ [])

lj_str_haspattern_example : lj_str_haspattern (b'a' ∷ b'%' ∷ []) ≡ true
unfolding lj_str_haspattern is_a
lj_str_haspattern_example = refl

-- With hashes that collide the strings are rehashed.
abbrev numbers : ℕ → State → State
numbers zero s = s
numbers (suc n) s =
    let s' = numbers n s in
    elim (lj_str_new (λ seed str. 0) (λ seed h str. get_or str 0 0) (n ∷ []) s') [
      | none ↦ s'
      | some (t, r) ↦ t
    ]

numbers_second :
    let s = numbers 36 (lj_str_init (λ seed str. 0) (λ seed h str. get_or str 0 0) unused) in
    (s.secondary 0 ≡ true) × (s.num ≡ 36)
unfolding lj_str_new lj_str_init
numbers_second = (refl, refl)

-- Two strings that differ in their fifth byte, with other bytes behind them.
lj_str_cmp-lex_example :
    sign (lj_str_cmp (hello ++ 255 ∷ 7 ∷ []) 5 (b'h' ∷ b'e' ∷ b'l' ∷ b'l' ∷ b'p' ∷ 3 ∷ []) 5)
    ≡ lex hello (b'h' ∷ b'e' ∷ b'l' ∷ b'l' ∷ b'p' ∷ [])
lj_str_cmp-lex_example =
    lj_str_cmp-lex hello (b'h' ∷ b'e' ∷ b'l' ∷ b'l' ∷ b'p' ∷ []) (255 ∷ 7 ∷ []) (3 ∷ [])
      (omega arith) (omega arith) (omega arith) (omega arith)

lj_str_cmp_prefix : lj_str_cmp (hello ++ 255 ∷ []) 5 (b'h' ∷ b'e' ∷ 9 ∷ []) 2 ≡ pos 3
unfolding lj_str_cmp
lj_str_cmp_prefix = refl
