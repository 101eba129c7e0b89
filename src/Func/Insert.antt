-- ===== src/Func/Insert.antt =====
-- The list of open upvalues stays in order when one is inserted, and a search finds that.
use omniajit.Prelude.{
  ℕ, ◌<◌, ◌≡◌, refl, arith, List, [], ◌∷◌, All, leb, ◌==◌, if◌then◌else◌, false, Bool-cases, inl,
  inr, none, some,
}
use omniajit.Func.{Upval, State, search, insert}
use omniajit.Func.Chain.{IsChain, Same, below_more}

module _ {V : Type 0} where
  -- What holds between two operations on upvalues.
  abbrev pub IsOpen : State V → Type 0
  IsOpen s = IsChain s.uv s.fresh s.openupval

  pub search_lem :
      (uv : ℕ → Upval V) (slot fresh : ℕ) (ps : List ℕ) (p : ℕ)
      → IsChain uv fresh ps
      → search uv slot ps ≡ some p
      → ((uv p).slot ≡ slot) × ((uv p).closed ≡ false) × (p < fresh)
  unfolding search
  search_lem uv slot fresh [] p chain e = absurd (ground (arith, e))
  search_lem uv slot fresh (q ∷ ps) p (old, is_open, below, chain) e =
      elim (Bool-cases (leb slot (uv q).slot)) [
        | inr f ↦ absurd (ground (arith, e, f))
        | inl f ↦ elim (Bool-cases ((uv q).slot == slot)) [
          | inr g ↦ search_lem uv slot fresh ps p chain (rw (f, g, if◌then◌else◌) at e)
          | inl g ↦
              let here : some q ≡ some p = rw (f, g, if◌then◌else◌) at e in
              let same : q ≡ p = cc in rw (← same) (ground (arith, g), is_open, old)
        ]
      ]

  -- The search looks at the slots only.
  pub search-Same :
      (uv uv' : ℕ → Upval V) (slot : ℕ) (ps : List ℕ)
      → All (λ q. Same uv uv' q) ps
      → search uv' slot ps ≡ search uv slot ps
  unfolding search
  search-Same uv uv' slot [] same = refl
  search-Same uv uv' slot (q ∷ ps) same = rw (same.0.0, search-Same uv uv' slot ps same.1) refl

  pub search-insert :
      (uv uv' : ℕ → Upval V) (slot new : ℕ) (ps : List ℕ)
      → All (λ q. Same uv uv' q) ps
      → (uv' new).slot ≡ slot
      → search uv slot ps ≡ none
      → search uv' slot (insert uv slot new ps) ≡ some new
  unfolding search insert
  search-insert uv uv' slot new [] same here e = ground (arith, here)
  search-insert uv uv' slot new (q ∷ ps) same here e = elim (Bool-cases (leb slot (uv q).slot)) [
    | inr f ↦ rw (f, if◌then◌else◌) (ground (arith, here))
    | inl f ↦ elim (Bool-cases ((uv q).slot == slot)) [
      | inl g ↦ absurd (ground (arith, e, f, g))
      | inr g ↦
          rw (f, if◌then◌else◌, same.0.0, f, g, if◌then◌else◌)
            (search-insert uv uv' slot new ps same.1 here (rw (f, g, if◌then◌else◌) at e))
    ]
  ]

  All-insert :
      (uv : ℕ → Upval V) (slot new : ℕ) (ps : List ℕ) (P : ℕ → Type 0)
      → P new
      → All P ps
      → All P (insert uv slot new ps)
  unfolding insert
  All-insert uv slot new [] P here h = (here, tt)
  All-insert uv slot new (q ∷ ps) P here h = elim (Bool-cases (leb slot (uv q).slot)) [
    | inl f ↦ rw (f, if◌then◌else◌) (h.0, All-insert uv slot new ps P here h.1)
    | inr f ↦ rw (f, if◌then◌else◌) (here, h)
  ]

  pub insert-IsChain :
      (uv uv' : ℕ → Upval V) (slot new fresh : ℕ) (ps : List ℕ)
      → All (λ q. Same uv uv' q) ps
      → (uv' new).slot ≡ slot
      → (uv' new).closed ≡ false
      → new < fresh
      → search uv slot ps ≡ none
      → IsChain uv' fresh ps
      → IsChain uv' fresh (insert uv slot new ps)
  unfolding search insert
  insert-IsChain uv uv' slot new fresh [] same here is_open le e h = (le, is_open, tt, tt)
  insert-IsChain uv uv' slot new fresh (q ∷ ps) same here is_open le e (old, q_open, below, h) =
      elim (Bool-cases (leb slot (uv q).slot)) [
        | inr f ↦
            let higher : (uv' q).slot < (uv' new).slot = ground (arith, f, same.0.0, here) in
            let all = below_more uv' (uv' q).slot (uv' new).slot ps (omega (arith, higher)) below in
            rw (f, if◌then◌else◌) (le, is_open, (higher, all), (old, q_open, below, h))
        | inl f ↦ elim (Bool-cases ((uv q).slot == slot)) [
          | inl g ↦ absurd (ground (arith, e, f, g))
          | inr g ↦
              let lower : (uv' new).slot < (uv' q).slot = ground (arith, f, g, same.0.0, here) in
              let rest : search uv slot ps ≡ none = rw (f, g, if◌then◌else◌) at e in
              rw (f, if◌then◌else◌)
                (
                  old,
                  q_open,
                  All-insert uv slot new ps (λ r. (uv' r).slot < (uv' q).slot) lower below,
                  insert-IsChain uv uv' slot new fresh ps same.1 here is_open le rest h,
                )
        ]
      ]
