-- ===== src/Func/Find.antt =====
-- `func_finduv` keeps the list of open upvalues, and finds each of them again.
use omniajit.Prelude.{
  ℕ, ◌+◌, ◌<◌, ◌≡◌, refl, ap, ◌∙◌, arith, List, [], ◌∷◌, All, leb, ◌==◌, if◌then◌else◌, true, false,
  Bool-cases, Option-cases, inl, inr, none, some,
}
use omniajit.Func.{Upval, State, search, insert, found, create, func_finduv}
use omniajit.Func.Chain.{IsChain, Same, Same-IsChain, set_uv_self, set_uv-Same, All-Same, chain_old}
use omniajit.Func.Insert.{IsOpen, search_lem, search-Same, search-insert, insert-IsChain}

-- The list without one upvalue.
abbrev pub others : ℕ → List ℕ → List ℕ
others p [] = []
others p (q ∷ ps) = if q == p then others p ps else q ∷ others p ps

module _ {V : Type 0} where
  -- An upvalue that was found keeps its place.
  pub found-Same : (p : ℕ) (s : State V) (q : ℕ) → Same s.uv (found p s).uv q
  unfolding found
  found-Same p s q = elim (Bool-cases (q == p)) [
    | inl e ↦
        let same : p ≡ q = ground (arith, e) in
        rw (e, if◌then◌else◌) (ap (λ r. (s.uv r).slot) same, ap (λ r. (s.uv r).closed) same)
    | inr e ↦ rw (e, if◌then◌else◌) (refl, refl)
  ]

  -- The upvalue is open, points to the slot, and is what a search for the slot finds.
  abbrev pub IsHit : ℕ → State V × ℕ → Type 0
  IsHit slot (s, p) =
      IsOpen s
      × ((s.uv p).slot ≡ slot)
      × ((s.uv p).closed ≡ false)
      × (search s.uv slot s.openupval ≡ some p)

  found-IsHit :
      (slot p : ℕ) (s : State V)
      → IsOpen s
      → search s.uv slot s.openupval ≡ some p
      → IsHit slot (found p s, p)
  found-IsHit slot p s h e =
      let s' = found p s in
      let same =
        All-Same s.uv s'.uv (λ q. q < s.fresh) s.openupval (λ q old. found-Same p s q)
          (chain_old s.uv s.fresh s.openupval h) in
      let (here, is_open, old) = search_lem s.uv slot s.fresh s.openupval p h e in
      (
        (unfold found in Same-IsChain s.uv s'.uv s.fresh s.fresh s.openupval (omega arith) same h),
        (found-Same p s p).0 ∙ here,
        (found-Same p s p).1 ∙ is_open,
        (unfold found in search-Same s.uv s'.uv slot s.openupval same ∙ e),
      )

  pub create_slot : (slot : ℕ) (s : State V) → ((create slot s).uv s.fresh).slot ≡ slot
  unfolding create
  create_slot slot s = ap (λ (u : Upval V). u.slot) (set_uv_self s.uv s.fresh _)

  create_open : (slot : ℕ) (s : State V) → ((create slot s).uv s.fresh).closed ≡ false
  unfolding create
  create_open slot s = ap (λ (u : Upval V). u.closed) (set_uv_self s.uv s.fresh _)

  -- The other open upvalues keep their places.
  pub create-Same :
      (slot : ℕ) (s : State V) → IsOpen s → All (λ q. Same s.uv (create slot s).uv q) s.openupval
  unfolding create
  create-Same slot s h =
      All-Same s.uv (create slot s).uv (λ q. q < s.fresh) s.openupval
        (λ q old. set_uv-Same s.uv s.fresh _ q (λ e. absurd (omega (arith, e, old))))
        (chain_old s.uv s.fresh s.openupval h)

  create-IsHit :
      (slot : ℕ) (s : State V)
      → IsOpen s
      → search s.uv slot s.openupval ≡ none
      → IsHit slot (create slot s, s.fresh)
  create-IsHit slot s h e =
      let uv' = (create slot s).uv in
      let same = create-Same slot s h in
      let here = create_slot slot s in
      let is_open = create_open slot s in
      let old : IsChain uv' (s.fresh + 1) s.openupval =
        Same-IsChain s.uv uv' s.fresh (s.fresh + 1) s.openupval (omega arith) same h in
      (
        (unfold create in
            insert-IsChain s.uv uv' slot s.fresh (s.fresh + 1) s.openupval same here is_open
              (omega arith) e old),
        here,
        is_open,
        (unfold create in search-insert s.uv uv' slot s.fresh s.openupval same here e),
      )

  pub func_finduv-IsHit : (slot : ℕ) (s : State V) → IsOpen s → IsHit slot (func_finduv slot s)
  unfolding func_finduv
  func_finduv-IsHit slot s h = elim (Option-cases (search s.uv slot s.openupval)) [
    | inl e ↦ rw (func_finduv, e) (create-IsHit slot s h e)
    | inr (p, e) ↦ rw (func_finduv, e) (found-IsHit slot p s h e)
  ]

  pub func_finduv-found :
      (slot : ℕ) (s : State V) (p : ℕ)
      → search s.uv slot s.openupval ≡ some p
      → func_finduv slot s ≡ (found p s, p)
  unfolding func_finduv
  func_finduv-found slot s p e = rw (func_finduv, e) refl

  -- The other open upvalues are the same as before, in the same order, and all that were open have
  -- kept their slots and are open.
  abbrev pub Keeps : State V → State V × ℕ → Type 0
  Keeps s (s', p) =
      (others p s'.openupval ≡ others p s.openupval) × All (λ q. Same s.uv s'.uv q) s.openupval

  abbrev pub IsFound : ℕ → State V → State V × ℕ → Type 0
  IsFound slot s (s', p) = IsHit slot (s', p) × Keeps s (s', p)

  others-insert :
      (uv : ℕ → Upval V) (slot new : ℕ) (ps : List ℕ)
      → others new (insert uv slot new ps) ≡ others new ps
  unfolding insert
  others-insert uv slot new [] =
      let same : (new == new) ≡ true = ground arith in rw (same, if◌then◌else◌) refl
  others-insert uv slot new (q ∷ ps) = elim (Bool-cases (leb slot (uv q).slot)) [
    | inl f ↦ rw (f, if◌then◌else◌, others-insert uv slot new ps) refl
    | inr f ↦
        let same : (new == new) ≡ true = ground arith in
        rw (f, if◌then◌else◌, same, if◌then◌else◌) refl
  ]

  func_finduv-Keeps : (slot : ℕ) (s : State V) → IsOpen s → Keeps s (func_finduv slot s)
  unfolding func_finduv found create
  func_finduv-Keeps slot s h = elim (Option-cases (search s.uv slot s.openupval)) [
    | inl e ↦
        rw (func_finduv, e) (others-insert s.uv slot s.fresh s.openupval, create-Same slot s h)
    | inr (p, e) ↦
        rw (func_finduv, e)
          (
            refl,
            All-Same s.uv (found p s).uv (λ q. q < s.fresh) s.openupval (λ q old. found-Same p s q)
                (chain_old s.uv s.fresh s.openupval h),
          )
  ]

  -- `func_finduv` keeps the open upvalues in order, from the top of the stack down and one for each
  -- slot, and returns the open upvalue of the slot, which a search finds. The other open upvalues are
  -- those of before, in the same order, and no upvalue of the list changes its slot or is closed;
  -- before, the list is in order.
  pub func_finduv-IsFound :
      (slot : ℕ) (s : State V) → IsOpen s → IsFound slot s (func_finduv slot s)
  func_finduv-IsFound slot s h = (func_finduv-IsHit slot s h, func_finduv-Keeps slot s h)

  -- Another search for the slot finds the same upvalue, and creates none.
  pub func_finduv_again :
      (slot : ℕ) (s : State V)
      → IsOpen s
      → let (s1, p) = func_finduv slot s in
        let (s2, q) = func_finduv slot s1 in
        (q ≡ p) × (s2.fresh ≡ s1.fresh) × (s2.openupval ≡ s1.openupval)
  unfolding found
  func_finduv_again slot s h =
      let (is_open, here, open_uv, e) = func_finduv-IsHit slot s h in
      let (s1, p) = func_finduv slot s in
      let hit = func_finduv-found slot s1 p e in
      (
        ap (λ (r : State V × ℕ). r.1) hit,
        ap (λ (r : State V × ℕ). r.0.fresh) hit,
        ap (λ (r : State V × ℕ). r.0.openupval) hit,
      )
