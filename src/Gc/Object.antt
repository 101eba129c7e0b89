-- ===== src/Gc/Object.antt =====
-- `gc_mark` marks an object, and handles all that it marks.
use omniajit.Prelude.{
  ℕ, zero, suc, ◌≤◌, ◌<◌, ◌≡◌, refl, ap, sym, arith, [], ◌∷◌, All, if◌then◌else◌, Bool, true, false,
  Bool-cases, Option, none, some, inl, inr,
}
use mathlib.Core.Path.{subst}
use omniajit.Gc.{
  nil, plain, ref, Body, str, cdata, udata, upval, thread, proto, lua_func, c_func, trace, tab,
  State, gray2black, recolor, mark_if, mark_body, gc_mark, max_depth, gc_markobj,
}
use omniajit.Gc.Reach.{
  white, Marked, iswhite-gray2black, children_of, children, rank, rank_bounds, IsListed, FitsIn,
}
use omniajit.Gc.Mark.{
  recolor_same, Handled, Ext, Ext-refl, Ext-trans, same-Ext, painted, painted-Marked, finish,
}

module _ (body : ℕ → Body) (fr2 : Bool) (finalizer : Option ℕ) (n : ℕ) (Q : ℕ → Type 0)
    (closed : (o : ℕ) → Q o → All Q (children body fr2 finalizer o))
    (bounded : (o : ℕ) → All (λ r. r < n) (children body fr2 finalizer o))
    (fits : (o : ℕ) → FitsIn body fr2 finalizer (body o)) where
  abbrev pub Grown : ℕ → State → State → Type 0
  Grown = Ext body fr2 finalizer n Q closed bounded fits

  abbrev pub Done : State → ℕ → Type 0
  Done = Handled body fr2 finalizer n Q closed bounded fits

  pub after : (s t u : State) → Grown 0 s t → Grown 0 t u → Grown 0 s u
  after = Ext-trans body fr2 finalizer n Q closed bounded fits 0 0

  pub weaken : (s t : State) → Grown 0 s t → Grown 1 s t
  weaken s t e = record {
    grow = e.grow;
    gray = e.gray;
    new = e.new;
    list = e.list;
    bound = omega (arith, e.bound);
  }

  pub blacken-Grown : (o : ℕ) (s : State) → Grown 0 s (recolor gray2black o s)
  blacken-Grown o s =
      same-Ext body fr2 finalizer n Q closed bounded fits s (recolor gray2black o s)
        (recolor_same gray2black o s iswhite-gray2black) refl

  pub push-Grown :
      (o : ℕ) (s : State)
      → Marked s o
      → IsListed body fr2 finalizer (body o)
      → Grown 1 s (record s { gray = o ∷ s.gray })
  push-Grown o s h k = record {
    grow = λ r m. m;
    gray = λ r i. inr i;
    new = λ r m. inl m;
    list = λ a. ((h, k), a);
    bound = omega arith;
  }

  -- An object that may be marked.
  abbrev pub IsObj : ℕ → ℕ → Type 0
  IsObj d r = (rank body fr2 finalizer (body r) ≤ d) × (r < n) × Q r

  -- Marking one object.
  abbrev pub Marks : State → State → ℕ → Type 0
  Marks s s' r = Grown 0 s s' × Marked s' r

  abbrev MarksAll : ℕ → (ℕ → State → State) → Type 0
  MarksAll d mark = (r : ℕ) (s : State) → IsObj d r → white s r ≡ true → Marks s (mark r s) r

  mark_if-Marks :
      (d : ℕ) (mark : ℕ → State → State) (r : ℕ) (s : State)
      → MarksAll d mark
      → IsObj d r
      → Marks s (mark_if mark r s) r
  mark_if-Marks d mark r s h q = elim (Bool-cases (white s r)) [
    | inl e ↦ rw (e, if◌then◌else◌) (h r s q e)
    | inr e ↦ rw (e, if◌then◌else◌) (Ext-refl body fr2 finalizer n Q closed bounded fits s, e)
  ]

  module _ (d : ℕ) (mark : ℕ → State → State) (o : ℕ) (s : State) (h : MarksAll d mark) where
    pushed :
        (b : Body)
        → body o ≡ b
        → IsListed body fr2 finalizer b
        → Marked s o
        → let s' = record s { gray = o ∷ s.gray } in Grown 1 s s' × Done s' o
    pushed b e k m =
        (push-Grown o s m (subst (IsListed body fr2 finalizer) (sym e) k), inr (inl refl))

    leaf : children body fr2 finalizer o ≡ [] → Grown 1 s s × Done s o
    leaf e = (
      weaken s s (Ext-refl body fr2 finalizer n Q closed bounded fits s),
      inl (subst (All (Marked s)) (sym e) tt),
    )

    blacken_if :
        (black : Bool) (t : State) → Grown 0 t (if black then recolor gray2black o t else t)
    blacken_if true t = blacken-Grown o t
    blacken_if false t = Ext-refl body fr2 finalizer n Q closed bounded fits t

    -- What is known of the objects that this one refers to.
    parts :
        (b : Body)
        → body o ≡ b
        → Q o
        → All Q (children_of body fr2 finalizer o b)
          × All (λ r. r < n) (children_of body fr2 finalizer o b)
          × FitsIn body fr2 finalizer b
    parts b e q = (
      subst (λ (c : Body). All Q (children_of body fr2 finalizer o c)) e (closed o q),
      subst (λ (c : Body). All (λ r. r < n) (children_of body fr2 finalizer o c)) e (bounded o),
      subst (FitsIn body fr2 finalizer) e (fits o),
    )

    all-Done :
        (b : Body)
        → body o ≡ b
        → (t : State) → All (Marked t) (children_of body fr2 finalizer o b)
        → Done t o
    all-Done b e t a =
        inl (subst (λ (c : Body). All (Marked t) (children_of body fr2 finalizer o c)) (sym e) a)

    mark_body-Done :
        (b : Body)
        → body o ≡ b
        → rank body fr2 finalizer b ≤ suc d
        → Q o
        → Marked s o
        → Grown 1 s (mark_body mark o b s) × Done (mark_body mark o b s) o
    unfolding mark_body
    mark_body-Done str e le q m = leaf (ap (children_of body fr2 finalizer o) e)
    mark_body-Done cdata e le q m = leaf (ap (children_of body fr2 finalizer o) e)
    mark_body-Done (udata none env) e le q m =
        let t = recolor gray2black o s in
        let v = mark_if mark env t in
        let of_env = parts (udata none env) e q in
        let env_marked =
          mark_if-Marks d mark env t h (omega (arith, le, of_env.2.0), of_env.1.0, of_env.0.0) in
        (
          weaken s v (after s t v (blacken-Grown o s) env_marked.0),
          all-Done (udata none env) e v (env_marked.1, tt),
        )
    mark_body-Done (udata (some mt) env) e le q m =
        let t = recolor gray2black o s in
        let (qs, ns, rs) = parts (udata (some mt) env) e q in
        let u = mark_if mark mt t in
        let v = mark_if mark env u in
        let mt_marked = mark_if-Marks d mark mt t h (omega (arith, le, rs.0), ns.0, qs.0) in
        let env_marked = mark_if-Marks d mark env u h (omega (arith, le, rs.1.0), ns.1.0, qs.1.0) in
        (
          weaken s v (after s u v (after s t u (blacken-Grown o s) mt_marked.0) env_marked.0),
          all-Done (udata (some mt) env) e v (env_marked.0.grow mt mt_marked.1, (env_marked.1, tt)),
        )
    mark_body-Done (upval black nil) e le q m =
        let t = if black then recolor gray2black o s else s in
        (weaken s t (blacken_if black s), all-Done (upval black nil) e t tt)
    mark_body-Done (upval black plain) e le q m =
        let t = if black then recolor gray2black o s else s in
        (weaken s t (blacken_if black s), all-Done (upval black plain) e t tt)
    mark_body-Done (upval black (ref r)) e le q m =
        let (qs, ns, rs) = parts (upval black (ref r)) e q in
        let t = mark_if mark r s in
        let v = if black then recolor gray2black o t else t in
        let marked = mark_if-Marks d mark r s h (omega (arith, le, rs.0), ns.0, qs.0) in
        let black_t = blacken_if black t in
        (
          weaken s v (after s t v marked.0 black_t),
          all-Done (upval black (ref r)) e v (black_t.grow r marked.1, tt),
        )
    mark_body-Done (thread stack env frames) e le q m = pushed (thread stack env frames) e tt m
    mark_body-Done (proto chunkname kgc first) e le q m = pushed (proto chunkname kgc first) e tt m
    mark_body-Done (lua_func env pt uvs) e le q m = pushed (lua_func env pt uvs) e tt m
    mark_body-Done (c_func env vs) e le q m = pushed (c_func env vs) e tt m
    mark_body-Done (trace traceno kgc links startpt) e le q m =
        pushed (trace traceno kgc links startpt) e tt m
    mark_body-Done (tab t) e le q m = pushed (tab t) e tt m

  gc_mark-Marks :
      (d o : ℕ) (s : State)
      → IsObj d o
      → white s o ≡ true
      → Marks s (gc_mark body fr2 finalizer d o s) o
  unfolding gc_mark
  gc_mark-Marks zero o s q w = absurd (omega (arith, rank_bounds body fr2 finalizer (body o), q.0))
  gc_mark-Marks (suc d) o s q w =
      let t = painted body fr2 finalizer n Q closed bounded fits o s in
      let done =
        mark_body-Done d (gc_mark body fr2 finalizer d) o t (gc_mark-Marks d) (body o) refl q.0 q.2
          (painted-Marked body fr2 finalizer n Q closed bounded fits o s) in
      finish body fr2 finalizer n Q closed bounded fits o s _ q.1 q.2 w done.0 done.1

  pub gc_markobj-Marks :
      (r : ℕ) (s : State) → r < n → Q r → Marks s (gc_markobj body fr2 finalizer r s) r
  unfolding gc_markobj
  gc_markobj-Marks r s lt q =
      mark_if-Marks max_depth (gc_mark body fr2 finalizer max_depth) r s (gc_mark-Marks max_depth)
        ((rank_bounds body fr2 finalizer (body r)).1, lt, q)
