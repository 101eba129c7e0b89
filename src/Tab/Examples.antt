-- ===== src/Tab/Examples.antt =====
-- The length of two tables.
use omniajit.Prelude.{ℕ, ◌≡◌, refl, arith, [], ◌∷◌, false, none, some, ◌==◌, ◌&&◌, ◌⊎◌, length}
use omniajit.Tab.Sizes.{best, fls, bestasize, hsize2hbits}
use omniajit.Tab.Optimal.{IsMaximal, IsChoice, total, bestasize_lem}
use omniajit.Tab.Next.{traversal, next_index, tab_nkeys, vals}
use omniajit.Tab.Traversal.{indexes, slots, traversal-nkeys}
use omniajit.Tab.{Tab, Numbers, nilnode, num, getint, getinth, find_num, hashnum, hashrot, hashmask}
use omniajit.Tab.Length.{
  is_set, tab_len, tab_len_hint, tab_len_slow, widen, linear_search, binary_search,
}
use omniajit.Tab.Search.{Border}
use omniajit.Tab.Border.{WellFormed, tab_len-Border, tab_len_hint-Border}

-- Numbers whose high word is the integer.
abbrev numbers : Numbers
numbers = record { of_int = λ i. (0, i); equal = λ a b. a.0 == b.0 && a.1 == b.1 }

-- An array part with the slots 0 to 4, where 1, 2 and 4 are set, and an empty hash part.
abbrev holes : Tab ℕ
holes = record {
  array = none ∷ some 10 ∷ some 20 ∷ none ∷ some 40 ∷ [];
  node = nilnode ∷ [];
  hmask = 0;
}

-- The keys 5 and 6 follow in the hash part, in one chain.
abbrev mixed : Tab ℕ
mixed = record {
  array = none ∷ some 10 ∷ some 20 ∷ none ∷ some 40 ∷ [];
  node =
      record { val = some 60; key = num 0 6; next = none }
      ∷ record { val = some 50; key = num 0 5; next = some 0 }
      ∷ [];
  hmask = 1;
}

mixed_len : tab_len numbers mixed ≡ some 6
unfolding tab_len tab_len_slow widen linear_search binary_search getint getinth find_num hashnum
    hashrot hashmask
mixed_len = refl

mixed-WellFormed : WellFormed mixed
mixed-WellFormed = (λ h. absurd (omega arith), omega arith)

holes-WellFormed : WellFormed holes
holes-WellFormed = (λ h. refl, omega arith)

mixed_3 : is_set numbers mixed 3 ≡ false
unfolding getint
mixed_3 = refl

holes_3 : is_set numbers holes 3 ≡ false
unfolding getint
holes_3 = refl

tab_len-Border_example :
    (n : ℕ) × (tab_len numbers mixed ≡ some n) × Border (is_set numbers mixed) n
tab_len-Border_example =
    tab_len-Border numbers mixed mixed-WellFormed 3 (omega arith) (omega arith) mixed_3

tab_len_hint-Border_example :
    (n : ℕ) × (tab_len_hint numbers holes 2 ≡ some n) × Border (is_set numbers holes) n
tab_len_hint-Border_example =
    tab_len_hint-Border numbers holes 2 (omega arith) holes-WellFormed 3 (omega arith) (omega arith)
      holes_3

holes_hint : tab_len_hint numbers holes 2 ≡ some 2
unfolding tab_len_hint ◌&&◌
holes_hint = refl

-- Three keys up to 2, one of 3 and 4, none up to 8, and one up to 16.
bestasize_lem_example :
    let r = bestasize (3 ∷ 1 ∷ 0 ∷ 1 ∷ []) 5 in
    IsMaximal 0 0 (3 ∷ 1 ∷ 0 ∷ 1 ∷ []) r.0
    × (((r.0 ≡ 0) × (r.1 ≡ 0)) ⊎ IsChoice 0 0 (3 ∷ 1 ∷ 0 ∷ 1 ∷ []) r.0 r.1)
unfolding total
bestasize_lem_example = bestasize_lem (3 ∷ 1 ∷ 0 ∷ 1 ∷ []) 5 refl (omega arith) (omega arith)

bestasize_5 : bestasize (3 ∷ 1 ∷ 0 ∷ 1 ∷ []) 5 ≡ (5, 17)
unfolding bestasize best ◌&&◌
bestasize_5 = refl

hsize2hbits_9 : hsize2hbits 9 ≡ 4
unfolding hsize2hbits fls
hsize2hbits_9 = refl

traversal-nkeys_example :
    (traversal mixed 7 0 ≡ indexes 0 (slots mixed))
    × (length (traversal mixed 7 0) ≡ tab_nkeys mixed)
traversal-nkeys_example = traversal-nkeys mixed 7 mixed-WellFormed (unfold vals in omega arith)

mixed_visits : traversal mixed 7 0 ≡ 1 ∷ 2 ∷ 4 ∷ 5 ∷ 6 ∷ []
unfolding traversal next_index
mixed_visits = refl
