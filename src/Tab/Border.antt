-- ===== src/Tab/Border.antt =====
-- The length of a table is a border, `lj_tab_len` and `lj_tab_len_hint`.
use omniajit.Prelude.{
  ℕ, zero, suc, ◌+◌, ◌-◌, ◌^◌, ◌≤◌, ◌<◌, ◌≡◌, ◌⊎◌, inl, inr, refl, ap, ◌∙◌, arith, List, [], get_or,
  length, ◌∷◌, Bool, true, false, not, ◌&&◌, ltb, leb, ◌==◌, if◌then◌else◌, none, some, Bool-cases,
  dec_lt,
}
use omniajit.Tab.{
  Tab, Numbers, nilnode, asize, slot, getint, getinth, find_num, node_at, Node, is_key, hashnum,
}
use omniajit.Tab.Length.{
  is_some, is_set, binary_search, tab_len_slow, tab_len, tab_len_hint, next_of,
}
use omniajit.Tab.Search.{Border, binary_search-Border, binary_search-lt, widen-Border}

-- Without a hash part there is the `nilnode` only, and the array part has a maximal size.
abbrev pub WellFormed : {V : Type 0} → Tab V → Type 0
WellFormed t = (t.hmask ≡ 0 → t.node ≡ nilnode ∷ []) × (asize t ≤ 2 ^ 27 + 1)

module _ {V : Type 0} (numbers : Numbers) (t : Tab V) where
  is_set-slot : (i : ℕ) → i < asize t → is_set numbers t i ≡ is_some (slot t i)
  unfolding getint
  is_set-slot i h = let inside : ltb i (asize t) ≡ true = ground arith in rw (is_set, inside) refl

  get_or-nilnode : (n : ℕ) → get_or (nilnode {V = V} ∷ []) n nilnode ≡ nilnode
  get_or-nilnode zero = refl
  get_or-nilnode (suc n) = refl

  -- No key is found where all nodes are the `nilnode`.
  find_num-nilnode :
      (k : ℕ × ℕ) (fuel n : ℕ) → t.node ≡ nilnode ∷ [] → find_num numbers t k fuel n ≡ none
  unfolding find_num
  find_num-nilnode k zero n only = refl
  find_num-nilnode k (suc fuel) n only =
      let node : node_at t n ≡ nilnode =
        ap (λ (ns : List (Node V)). get_or ns n nilnode) only ∙ get_or-nilnode n in
      let shut : is_key numbers k (node_at t n) ≡ false = ap (is_key numbers k) node in
      let last : (node_at t n).next ≡ none = ap (λ (m : Node V). m.next) node in
      rw (find_num, shut, last) refl

  is_set-above : (i : ℕ) → WellFormed t → t.hmask ≡ 0 → asize t ≤ i → is_set numbers t i ≡ false
  unfolding getint getinth
  is_set-above i wf none_there h =
      let outside : ltb i (asize t) ≡ false = ground arith in
      let k = numbers.of_int i in
      let absent = find_num-nilnode k (length t.node) (hashnum t k.0 k.1) (wf.0 none_there) in
      rw (is_set, outside, if◌then◌else◌, getinth, absent) refl

  tab_len_slow-Border :
      (hi k : ℕ)
      → WellFormed t
      → (hi ≡ 0) ⊎ (is_set numbers t hi ≡ true)
      → hi ≤ 2 ^ 27
      → 0 < k
      → k < 2 ^ 31
      → is_set numbers t k ≡ false
      → (n : ℕ) × (tab_len_slow numbers t hi ≡ some n) × Border (is_set numbers t) n
  unfolding tab_len_slow
  tab_len_slow-Border hi k wf l le some_key bound e =
      widen-Border numbers t k some_key bound e 31 hi (hi + 1) l (omega arith) (omega arith)
        (omega arith)

  -- Behind the search of the array part.
  full-Border :
      (hi k : ℕ)
      → WellFormed t
      → (hi ≡ 0) ⊎ (is_set numbers t hi ≡ true)
      → hi ≡ asize t - 1
      → 0 < k
      → k < 2 ^ 31
      → is_set numbers t k ≡ false
      → (n : ℕ) × ((if t.hmask == 0 then some hi else tab_len_slow numbers t hi) ≡ some n)
        × Border (is_set numbers t) n
  full-Border hi k wf l last some_key bound e = elim (Bool-cases (t.hmask == 0)) [
    | inl flat ↦
        let z : t.hmask ≡ 0 = ground (arith, flat) in
        rw flat (hi, refl, (l, is_set-above (suc hi) wf z (omega arith)))
    | inr mixed ↦
        rw (mixed, if◌then◌else◌)
          (tab_len_slow-Border hi k wf l (omega (arith, wf.1)) some_key bound e)
  ]

  array-Border :
      (hi : ℕ)
      → 0 < hi
      → hi ≡ asize t - 1
      → is_some (slot t hi) ≡ false
      → Border (is_set numbers t) (binary_search (λ mid. is_some (slot t mid)) hi 0 hi)
  array-Border hi some_slot last empty =
      let f : ℕ → Bool = λ mid. is_some (slot t mid) in
      let n = binary_search f hi 0 hi in
      let found = binary_search-Border f hi 0 hi some_slot (omega arith) (inl refl) empty in
      let below = binary_search-lt f hi 0 hi some_slot in
      (
        elim found.0 [ inl z ↦ inl z | inr s ↦ inr (is_set-slot n (omega arith) ∙ s) ],
        is_set-slot (suc n) (omega arith) ∙ found.1,
      )

  -- Is the last slot of the array part empty?
  abbrev in_array : Bool
  in_array = ltb 0 (asize t - 1) && not (is_some (slot t (asize t - 1)))

  tab_len-array :
      in_array ≡ true
      → tab_len numbers t
        ≡ some (binary_search (λ mid. is_some (slot t mid)) (asize t - 1) 0 (asize t - 1))
  unfolding tab_len
  tab_len-array h = rw h refl

  tab_len-full :
      in_array ≡ false
      → tab_len numbers t
        ≡ (if t.hmask == 0 then some (asize t - 1) else tab_len_slow numbers t (asize t - 1))
  unfolding tab_len
  tab_len-full h = rw h refl

  -- `lj_tab_len` ends and returns a border of the table, by every one of its searches: a key with a
  -- value, or 0, whose next key has none. Some positive `int32_t` has no value in the table, which
  -- has fewer slots than that.
  pub tab_len-Border :
      WellFormed t
      → (k : ℕ) → 0 < k
      → k < 2 ^ 31
      → is_set numbers t k ≡ false
      → (n : ℕ) × (tab_len numbers t ≡ some n) × Border (is_set numbers t) n
  unfolding ◌&&◌
  tab_len-Border wf k some_key bound e =
      let hi = asize t - 1 in
      elim (Bool-cases in_array) [
        | inl h ↦ rw (tab_len-array h) (
          binary_search (λ mid. is_some (slot t mid)) hi 0 hi,
          refl,
          array-Border hi (ground (arith, h)) refl (ground (arith, h)),
        )
        | inr h ↦
            let empty : (0 < hi) → is_some (slot t hi) ≡ true = λ p. ground (arith, h, p) in
            let l : (hi ≡ 0) ⊎ (is_set numbers t hi ≡ true) = elim (dec_lt 0 hi) [
              | yes p ↦ inr (is_set-slot hi (omega arith) ∙ empty p)
              | no p ↦ inl (omega arith)
            ] in
            rw (tab_len-full h) (full-Border hi k wf l refl some_key bound e)
      ]

  -- The hint is returned only if it is a border that the array part shows.
  hint-cases :
      (hint : ℕ)
      → hint + 1 < 2 ^ 64
      → (tab_len_hint numbers t hint ≡ tab_len numbers t)
        ⊎ ((tab_len_hint numbers t hint ≡ some hint)
            × (hint < asize t)
            × (is_some (slot t hint) ≡ true)
            × (((next_of hint < asize t) × (is_some (slot t (next_of hint)) ≡ false))
                ⊎ ((asize t ≤ next_of hint) × (t.hmask ≡ 0))))
  unfolding tab_len_hint ◌&&◌ not
  hint-cases hint fits =
      let one_more : next_of hint ≡ hint + 1 = omega (arith, fits) in
      elim (Bool-cases (ltb (next_of hint) (asize t))) [
        | inl inside ↦
            elim (Bool-cases (is_some (slot t hint) && not (is_some (slot t (next_of hint))))) [
              | inl both ↦ inr (
                rw (tab_len_hint, inside, if◌then◌else◌, both) refl,
                ground (arith, inside, one_more),
                ground (arith, both),
                inl (ground (arith, inside), ground (arith, both)),
              )
              | inr other ↦ inl (rw (tab_len_hint, inside, if◌then◌else◌, other) refl)
            ]
        | inr outside ↦
            elim (Bool-cases
              (leb (next_of hint) (asize t) && t.hmask == 0 && is_some (slot t hint))) [
                | inl all ↦ inr (
                  rw (tab_len_hint, outside, if◌then◌else◌, all) refl,
                  ground (arith, all, one_more),
                  ground (arith, all),
                  inr (ground (arith, outside), ground (arith, all)),
                )
                | inr other ↦ inl (rw (tab_len_hint, outside, if◌then◌else◌, other) refl)
              ]
      ]

  -- `lj_tab_len_hint` ends and returns a border of the table for every hint that is smaller than the
  -- largest `size_t`. Some positive `int32_t` has no value in the table.
  pub tab_len_hint-Border :
      (hint : ℕ)
      → hint + 1 < 2 ^ 64
      → WellFormed t
      → (k : ℕ) → 0 < k
      → k < 2 ^ 31
      → is_set numbers t k ≡ false
      → (n : ℕ) × (tab_len_hint numbers t hint ≡ some n) × Border (is_set numbers t) n
  tab_len_hint-Border hint fits wf k some_key bound e = elim (hint-cases hint fits) [
    | inl same ↦ rw same (tab_len-Border wf k some_key bound e)
    | inr (same, inside, here, above) ↦
        let one_more : suc hint ≡ next_of hint = omega (arith, fits) in
        rw same (
          hint,
          refl,
          (
            inr (is_set-slot hint inside ∙ here),
            elim above [
              | inl (next, empty) ↦
                  ap (is_set numbers t) one_more ∙ (is_set-slot (next_of hint) next ∙ empty)
              | inr (end, flat) ↦
                  ap (is_set numbers t) one_more ∙ is_set-above (next_of hint) wf flat end
            ],
          ),
        )
  ]
