-- ===== src/Func/Close.antt =====
-- `lj_func_closeuv` closes the upvalues of the slots that go away, and no value changes.
use omniajit.Prelude.{
  ℕ, ◌<◌, ◌≡◌, refl, ap, ◌∙◌, sym, arith, List, [], ◌∷◌, All, leb, ltb, ◌==◌, if◌then◌else◌, Bool,
  true, false, Bool-cases, inl, inr,
}
use omniajit.Func.{
  Upval, State, isdead, unlink, lj_func_freeuv, lj_gc_closeuv, closeuv_loop, lj_func_closeuv,
}
use omniajit.Func.Chain.{IsChain, Same, Same-IsChain, set_uv-Same, All-Same, below_more}
use omniajit.Func.Insert.{IsOpen}

module _ {V : Type 0} where
  -- What a closure reads and writes through the upvalue.
  abbrev pub value : State V → ℕ → V
  value s p = if (s.uv p).closed then (s.uv p).tv else s.stack (s.uv p).slot

  -- The upvalues of the list whose slots are below `level`.
  abbrev pub lower_ones : (ℕ → Upval V) → ℕ → List ℕ → List ℕ
  lower_ones uv level [] = []
  lower_ones uv level (p ∷ ps) =
      if ltb (uv p).slot level then p ∷ lower_ones uv level ps else lower_ones uv level ps

  -- The stack and the values of all upvalues are as before, and the open upvalues that are below
  -- `level` are kept, and no others.
  pub record IsClosed (level : ℕ) (s : State V) (s' : State V) : Type 0 where
    pub stack : s'.stack ≡ s.stack
    pub values : (p : ℕ) → value s' p ≡ value s p
    pub chain : IsOpen s'
    pub below : All (λ p. (s'.uv p).slot < level) s'.openupval
    pub kept : s'.openupval ≡ lower_ones s.uv level s.openupval

  lower_ones-Same :
      (uv uv' : ℕ → Upval V) (level : ℕ) (ps : List ℕ)
      → All (λ q. Same uv uv' q) ps
      → lower_ones uv' level ps ≡ lower_ones uv level ps
  lower_ones-Same uv uv' level [] same = refl
  lower_ones-Same uv uv' level (p ∷ ps) same =
      rw (same.0.0, lower_ones-Same uv uv' level ps same.1) refl

  lower_ones_all :
      (uv : ℕ → Upval V) (level : ℕ) (ps : List ℕ)
      → All (λ q. (uv q).slot < level) ps
      → lower_ones uv level ps ≡ ps
  lower_ones_all uv level [] h = refl
  lower_ones_all uv level (p ∷ ps) h =
      let low : ltb (uv p).slot level ≡ true = ground (arith, h.0) in
      rw (low, if◌then◌else◌, lower_ones_all uv level ps h.1) refl

  module _ (tviswhite : V → Bool) where
    closeuv_value :
        (p : ℕ) (s : State V) (q : ℕ)
        → (s.uv p).closed ≡ false
        → value (lj_gc_closeuv tviswhite p s) q ≡ value s q
    unfolding lj_gc_closeuv
    closeuv_value p s q h = elim (Bool-cases (q == p)) [
      | inl e ↦
          let same : p ≡ q = ground (arith, e) in
          let at_p : value s p ≡ s.stack (s.uv p).slot = rw (h, if◌then◌else◌) refl in
          rw (e, if◌then◌else◌) (sym at_p ∙ ap (value s) same)
      | inr e ↦ rw (e, if◌then◌else◌) refl
    ]

    closeuv-Same :
        (p : ℕ) (s : State V) (ps : List ℕ)
        → All (λ q. (s.uv q).slot < (s.uv p).slot) ps
        → All (λ q. Same s.uv (lj_gc_closeuv tviswhite p s).uv q) ps
    unfolding lj_gc_closeuv
    closeuv-Same p s ps below =
        let uv' = (lj_gc_closeuv tviswhite p s).uv in
        let other : (q : ℕ) → (s.uv q).slot < (s.uv p).slot → Same s.uv uv' q = λ q lower.
          set_uv-Same s.uv p _ q (λ e. absurd (omega (arith, lower, ap (λ r. (s.uv r).slot) e))) in
        All-Same s.uv uv' (λ q. (s.uv q).slot < (s.uv p).slot) ps other below

    closeuv-IsChain :
        (p : ℕ) (s : State V) (ps : List ℕ)
        → All (λ q. (s.uv q).slot < (s.uv p).slot) ps
        → IsChain s.uv s.fresh ps
        → IsChain (lj_gc_closeuv tviswhite p s).uv s.fresh ps
    closeuv-IsChain p s ps below h =
        Same-IsChain s.uv (lj_gc_closeuv tviswhite p s).uv s.fresh s.fresh ps (omega arith)
          (closeuv-Same p s ps below) h

    -- The state behind a round.
    after :
        (level : ℕ) (s s1 s' : State V)
        → s1.stack ≡ s.stack
        → ((q : ℕ) → value s1 q ≡ value s q)
        → lower_ones s1.uv level s1.openupval ≡ lower_ones s.uv level s.openupval
        → IsClosed level s1 s'
        → IsClosed level s s'
    after level s s1 s' stack values kept h = record {
      stack = h.stack ∙ stack;
      values = λ q. h.values q ∙ values q;
      chain = h.chain;
      below = h.below;
      kept = h.kept ∙ kept;
    }

    closeuv_loop-IsClosed :
        (level : ℕ) (ps : List ℕ) (s : State V)
        → IsChain s.uv s.fresh ps
        → let s0 = record s { openupval = ps } in
          IsClosed level s0 (closeuv_loop tviswhite level ps s0)
    unfolding closeuv_loop
    closeuv_loop-IsClosed level [] s h = record {
      stack = refl;
      values = λ p. refl;
      chain = tt;
      below = tt;
      kept = refl;
    }
    closeuv_loop-IsClosed level (p ∷ ps) s (old, is_open, lower, h) =
        let start = record s { openupval = p ∷ ps } in
        elim (Bool-cases (leb level (s.uv p).slot)) [
          | inr e ↦
              let all_below : All (λ q. (s.uv q).slot < level) (p ∷ ps) = (
                ground (arith, e),
                below_more s.uv (s.uv p).slot level ps (ground (arith, e)) lower,
              ) in
              rw (e, if◌then◌else◌)
                (record {
                  stack = refl;
                  values = λ q. refl;
                  chain = (old, is_open, lower, h);
                  below = all_below;
                  kept = sym (lower_ones_all s.uv level (p ∷ ps) all_below);
                })
          | inl e ↦
              let high : ltb (s.uv p).slot level ≡ false = ground (arith, e) in
              let rest : lower_ones s.uv level ps ≡ lower_ones s.uv level (p ∷ ps) =
                rw (high, if◌then◌else◌) refl in
              elim (Bool-cases (isdead s.currentwhite (s.uv p).marked)) [
                | inl f ↦
                    let n = lj_func_freeuv p (record s { openupval = ps }) in
                    rw (e, f, if◌then◌else◌)
                      (after level start n (closeuv_loop tviswhite level ps n) refl (λ q. refl) rest
                        (closeuv_loop-IsClosed level ps n h))
                | inr f ↦
                    let s0 = record s { openupval = ps; uvhead = unlink p s.uvhead } in
                    let n = lj_gc_closeuv tviswhite p s0 in
                    rw (e, f, if◌then◌else◌)
                      (after level start n (closeuv_loop tviswhite level ps n) refl
                        (λ q. closeuv_value p s0 q is_open)
                        (lower_ones-Same s.uv n.uv level ps (closeuv-Same p s0 ps lower) ∙ rest)
                        (closeuv_loop-IsClosed level ps n (closeuv-IsChain p s0 ps lower h)))
              ]
        ]

    -- lj_func_closeuv leaves exactly the open upvalues below its level, in their order, and
    -- changes neither the stack nor what a closure reads through any upvalue; before, the list is
    -- in order.
    pub lj_func_closeuv-IsClosed :
        (level : ℕ) (s : State V) → IsOpen s → IsClosed level s (lj_func_closeuv tviswhite level s)
    unfolding lj_func_closeuv
    lj_func_closeuv-IsClosed level s h = closeuv_loop-IsClosed level s.openupval s h
