-- ===== src/Func/Closure/Keeps.antt =====
-- An operation on upvalues keeps the list in order, and what is found for a slot.
use omniajit.Prelude.{
  ℕ, ◌<◌, ◌≡◌, ◌≢◌, refl, ap, ◌∙◌, sym, arith, List, [], ◌∷◌, All, leb, ◌==◌, if◌then◌else◌, false,
  Bool-cases, Option-cases, inl, inr, none, some,
}
use omniajit.Func.{Upval, State, search, insert, found, create, func_finduv}
use omniajit.Func.Chain.{Same, Same-IsChain, All-Same, chain_old}
use omniajit.Func.Insert.{IsOpen, search-Same}
use omniajit.Func.Find.{create_slot, found-Same, create-Same, func_finduv-IsHit}
use omniajit.Func.Closure.{describe}

module _ {V : Type 0} where
  -- The upvalue `p` is what a search for the slot finds.
  abbrev pub Finds : State V → ℕ → ℕ → Type 0
  Finds s slot p = search s.uv slot s.openupval ≡ some p

  search-insert_other :
      (uv uv' : ℕ → Upval V) (slot other new : ℕ) (ps : List ℕ)
      → All (λ q. Same uv uv' q) ps
      → (uv' new).slot ≡ slot
      → other ≢ slot
      → search uv' other (insert uv slot new ps) ≡ search uv other ps
  unfolding search insert
  search-insert_other uv uv' slot other new [] same here ne = ground (arith, here, ne)
  search-insert_other uv uv' slot other new (q ∷ ps) same here ne =
      elim (Bool-cases (leb slot (uv q).slot)) [
        | inl f ↦
            rw
              (
                f,
                if◌then◌else◌,
                same.0.0,
                search-insert_other uv uv' slot other new ps same.1 here ne,
              )
              refl
        | inr f ↦
            rw (f, if◌then◌else◌)
              (elim (Bool-cases (leb other (uv' new).slot)) [
                | inl g ↦
                    let not_here : ((uv' new).slot == other) ≡ false = ground (arith, here, ne) in
                    rw (g, not_here, if◌then◌else◌) (search-Same uv uv' other (q ∷ ps) same)
                | inr g ↦
                    let lower : leb other (uv q).slot ≡ false = ground (arith, f, g, here) in
                    rw (g, lower, if◌then◌else◌) refl
              ])
      ]

  found-Finds : (r : ℕ) (s : State V) (t p : ℕ) → IsOpen s → Finds s t p → Finds (found r s) t p
  found-Finds r s t p h e =
      let same =
        All-Same s.uv (found r s).uv (λ q. q < s.fresh) s.openupval (λ q old. found-Same r s q)
          (chain_old s.uv s.fresh s.openupval h) in
      (unfold found in search-Same s.uv (found r s).uv t s.openupval same ∙ e)

  create-Finds :
      (slot : ℕ) (s : State V) (t p : ℕ)
      → IsOpen s
      → search s.uv slot s.openupval ≡ none
      → Finds s t p
      → Finds (create slot s) t p
  create-Finds slot s t p h none_yet e =
      let ne : t ≢ slot = λ same.
        let clash : some p ≡ none =
          sym e ∙ (ap (λ (t : ℕ). search s.uv t s.openupval) same ∙ none_yet) in
        ground (arith, clash) in
      (unfold create in
        search-insert_other s.uv (create slot s).uv slot t s.fresh s.openupval
          (create-Same slot s h) (create_slot slot s) ne
        ∙ e)

  func_finduv-Finds :
      (slot : ℕ) (s : State V) (t p : ℕ) → IsOpen s → Finds s t p → Finds (func_finduv slot s).0 t p
  unfolding func_finduv
  func_finduv-Finds slot s t p h e = elim (Option-cases (search s.uv slot s.openupval)) [
    | inl f ↦ rw (func_finduv, f) (create-Finds slot s t p h f e)
    | inr (r, f) ↦ rw (func_finduv, f) (found-Finds r s t p h e)
  ]

  -- The list is in order, and every slot that was found is found as before.
  pub record Keeps (s : State V) (s' : State V) : Type 0 where
    pub chain : IsOpen s'
    pub finds : (t p : ℕ) → Finds s t p → Finds s' t p

  describe_place : (pc v p : ℕ) (s : State V) (q : ℕ) → Same s.uv (describe pc v p s).uv q
  describe_place pc v p s q = elim (Bool-cases (q == p)) [
    | inl e ↦
        let same : p ≡ q = ground (arith, e) in
        rw (e, if◌then◌else◌) (ap (λ r. (s.uv r).slot) same, ap (λ r. (s.uv r).closed) same)
    | inr e ↦ rw (e, if◌then◌else◌) (refl, refl)
  ]

  pub describe-Keeps : (pc v p : ℕ) (s : State V) → IsOpen s → Keeps s (describe pc v p s)
  describe-Keeps pc v p s h =
      let s' = describe pc v p s in
      let same =
        All-Same s.uv s'.uv (λ q. q < s.fresh) s.openupval (λ q old. describe_place pc v p s q)
          (chain_old s.uv s.fresh s.openupval h) in
      record {
        chain = Same-IsChain s.uv s'.uv s.fresh s.fresh s.openupval (omega arith) same h;
        finds = λ t q e. search-Same s.uv s'.uv t s.openupval same ∙ e;
      }

  -- A state behind two others.
  pub Keeps-Keeps : (s s1 s2 : State V) → Keeps s s1 → Keeps s1 s2 → Keeps s s2
  Keeps-Keeps s s1 s2 h k = record { chain = k.chain; finds = λ t p e. k.finds t p (h.finds t p e) }

  pub func_finduv-Keeps : (slot : ℕ) (s : State V) → IsOpen s → Keeps s (func_finduv slot s).0
  func_finduv-Keeps slot s h = record {
    chain = (func_finduv-IsHit slot s h).0;
    finds = λ t p e. func_finduv-Finds slot s t p h e;
  }
