-- ===== src/Gc/Traverse.antt =====
-- The traversals mark all that an object refers to.
use omniajit.Prelude.{
  ℕ, ◌<◌, ◌≡◌, refl, ap, ◌∙◌, sym, arith, List, [], ◌∷◌, ◌++◌, ◌==◌, All, All-append, if◌then◌else◌,
  Bool, true, false, Bool-cases, Option, none, some, inl, inr,
}
use mathlib.Core.Path.{subst}
use omniajit.Gc.{
  Value, nil, plain, ref, Body, str, State, iswhite, white2gray, recolor, is_nil, links_of,
  gc_markobj, gc_marktv, mark_objs, mark_values, mark_some, mark_nodes,
}
use omniajit.Gc.Ops.{gc_marktrace, mark_traces}
use omniajit.Gc.Reach.{
  white, Marked, objs, all_objs, node_objs, children_of, children, IsListed, FitsIn,
}
use omniajit.Gc.Mark.{
  recolor_other, recolor_same, All-grow, Ext-refl, same-Ext, painted, painted-Marked, finish,
}
use omniajit.Gc.Object.{Grown, after, weaken, push-Grown, gc_markobj-Marks}

pub All-left : (P : ℕ → Type 0) (xs ys : List ℕ) → All P (xs ++ ys) → All P xs
All-left P [] ys h = tt
All-left P (x ∷ xs) ys h = (h.0, All-left P xs ys h.1)

pub All-right : (P : ℕ → Type 0) (xs ys : List ℕ) → All P (xs ++ ys) → All P ys
All-right P [] ys h = h
All-right P (x ∷ xs) ys h = All-right P xs ys h.1

-- Where keys and values are weak there is nothing to mark.
pub no_nodes : (P : ℕ → Type 0) (node : List (Value × Value)) → All P (node_objs true true node)
no_nodes P [] = tt
no_nodes P ((key, nil) ∷ node) = no_nodes P node
no_nodes P ((key, plain) ∷ node) = no_nodes P node
no_nodes P ((key, ref r) ∷ node) = no_nodes P node

module _ (body : ℕ → Body) (fr2 : Bool) (finalizer : Option ℕ) (n : ℕ) (Q : ℕ → Type 0)
    (closed : (o : ℕ) → Q o → All Q (children body fr2 finalizer o))
    (bounded : (o : ℕ) → All (λ r. r < n) (children body fr2 finalizer o))
    (fits : (o : ℕ) → FitsIn body fr2 finalizer (body o)) where
  abbrev pub Known : ℕ → Type 0
  Known r = (r < n) × Q r

  abbrev pub Grows : State → State → Type 0
  Grows = Grown body fr2 finalizer n Q closed bounded fits 0

  -- Marking some objects.
  abbrev pub MarksList : State → State → List ℕ → Type 0
  MarksList s t rs = Grows s t × All (Marked t) rs

  pub nothing : (s : State) → MarksList s s []
  nothing s = (Ext-refl body fr2 finalizer n Q closed bounded fits s, tt)

  pub in_turn :
      (s t u : State) (rs qs : List ℕ)
      → MarksList s t rs
      → MarksList t u qs
      → MarksList s u (rs ++ qs)
  in_turn s t u rs qs (a, h) (b, k) = (
    after body fr2 finalizer n Q closed bounded fits s t u a b,
    All-append (Marked u) rs qs
        (All-grow body fr2 finalizer n Q closed bounded fits t u rs b.grow h) k,
  )

  -- A change that keeps the colours.
  pub quiet :
      (f : ℕ → ℕ) (o : ℕ) (s : State) (rs : List ℕ)
      → ((m : ℕ) → iswhite (f m) ≡ iswhite m)
      → All (Marked s) rs
      → MarksList s (recolor f o s) rs
  quiet f o s rs same h =
      let e =
        same-Ext body fr2 finalizer n Q closed bounded fits s (recolor f o s)
          (recolor_same f o s same) refl in
      (e, All-grow body fr2 finalizer n Q closed bounded fits s (recolor f o s) rs e.grow h)

  pub markobj-List :
      (r : ℕ) (s : State) → Known r → MarksList s (gc_markobj body fr2 finalizer r s) (r ∷ [])
  markobj-List r s k =
      let m = gc_markobj-Marks body fr2 finalizer n Q closed bounded fits r s k.0 k.1 in
      (m.0, (m.1, tt))

  pub mark_objs-List :
      (rs : List ℕ) (s : State) → All Known rs → MarksList s (mark_objs body fr2 finalizer rs s) rs
  unfolding mark_objs
  mark_objs-List [] s k = nothing s
  mark_objs-List (r ∷ rs) s k =
      let t = gc_markobj body fr2 finalizer r s in
      in_turn s t (mark_objs body fr2 finalizer rs t) (r ∷ []) rs (markobj-List r s k.0)
        (mark_objs-List rs t k.1)

  pub gc_marktv-List :
      (v : Value) (s : State)
      → All Known (objs v)
      → MarksList s (gc_marktv body fr2 finalizer v s) (objs v)
  unfolding gc_marktv
  gc_marktv-List nil s k = nothing s
  gc_marktv-List plain s k = nothing s
  gc_marktv-List (ref r) s k = markobj-List r s k.0

  pub mark_values-List :
      (vs : List Value) (s : State)
      → All Known (all_objs vs)
      → MarksList s (mark_values body fr2 finalizer vs s) (all_objs vs)
  unfolding mark_values
  mark_values-List [] s k = nothing s
  mark_values-List (v ∷ vs) s k =
      let t = gc_marktv body fr2 finalizer v s in
      in_turn s t (mark_values body fr2 finalizer vs t) (objs v) (all_objs vs)
        (gc_marktv-List v s (All-left Known (objs v) (all_objs vs) k))
        (mark_values-List vs t (All-right Known (objs v) (all_objs vs) k))

  pub mark_some-List :
      (p : Option ℕ) (s : State)
      → All Known (links_of p)
      → MarksList s (mark_some body fr2 finalizer p s) (links_of p)
  mark_some-List none s k = nothing s
  mark_some-List (some r) s k = markobj-List r s k.0

  -- A value that is marked unless it is weak.
  mark_unless :
      (weak : Bool) (v : Value) (s : State)
      → All Known (if weak then [] else objs v)
      → MarksList s
          (if weak then s else gc_marktv body fr2 finalizer v s)
          (if weak then [] else objs v)
  mark_unless true v s k = nothing s
  mark_unless false v s k = gc_marktv-List v s k

  mark_node :
      (absent wk wv : Bool) (key val : Value) (s : State)
      → let rs =
          if absent then [] else (if wk then [] else objs key) ++ (if wv then [] else objs val) in
        let s1 = if wk then s else gc_marktv body fr2 finalizer key s in
        let s2 = if wv then s1 else gc_marktv body fr2 finalizer val s1 in
        All Known rs → MarksList s (if absent then s else s2) rs
  mark_node true wk wv key val s k = nothing s
  mark_node false wk wv key val s k =
      let ks = if wk then [] else objs key in
      let vs = if wv then [] else objs val in
      let t = if wk then s else gc_marktv body fr2 finalizer key s in
      let u = if wv then t else gc_marktv body fr2 finalizer val t in
      in_turn s t u ks vs (mark_unless wk key s (All-left Known ks vs k))
        (mark_unless wv val t (All-right Known ks vs k))

  pub mark_nodes-List :
      (wk wv : Bool) (node : List (Value × Value)) (s : State)
      → All Known (node_objs wk wv node)
      → MarksList s (mark_nodes body fr2 finalizer wk wv node s) (node_objs wk wv node)
  unfolding mark_nodes
  mark_nodes-List wk wv [] s k = nothing s
  mark_nodes-List wk wv ((key, val) ∷ node) s k =
      let rs =
        if is_nil val then [] else (if wk then [] else objs key) ++ (if wv then [] else objs val) in
      let s1 = if wk then s else gc_marktv body fr2 finalizer key s in
      let s2 = if wv then s1 else gc_marktv body fr2 finalizer val s1 in
      let t = if is_nil val then s else s2 in
      in_turn s t (mark_nodes body fr2 finalizer wk wv node t) rs (node_objs wk wv node)
        (mark_node (is_nil val) wk wv key val s (All-left Known rs (node_objs wk wv node) k))
        (mark_nodes-List wk wv node t (All-right Known rs (node_objs wk wv node) k))

  gc_marktrace-List :
      (r : ℕ) (s : State)
      → Known r
      → IsListed body fr2 finalizer (body r)
      → MarksList s (gc_marktrace body fr2 finalizer r s) (r ∷ [])
  unfolding gc_marktrace
  gc_marktrace-List r s k l = elim (Bool-cases (white s r)) [
    | inl e ↦
        let t = painted body fr2 finalizer n Q closed bounded fits r s in
        let u = record t { gray = r ∷ t.gray } in
        let m =
          finish body fr2 finalizer n Q closed bounded fits r s u k.0 k.1 e
            (push-Grown body fr2 finalizer n Q closed bounded fits r t
              (painted-Marked body fr2 finalizer n Q closed bounded fits r s) l)
            (inr (inl refl)) in
        rw (e, if◌then◌else◌) (m.0, (m.1, tt))
    | inr e ↦ rw (e, if◌then◌else◌) (Ext-refl body fr2 finalizer n Q closed bounded fits s, (e, tt))
  ]

  pub mark_traces-List :
      (rs : List ℕ) (s : State)
      → All Known rs
      → All (λ r. IsListed body fr2 finalizer (body r)) rs
      → MarksList s (mark_traces body fr2 finalizer rs s) rs
  unfolding mark_traces
  mark_traces-List [] s k l = nothing s
  mark_traces-List (r ∷ rs) s k l =
      let t = gc_marktrace body fr2 finalizer r s in
      in_turn s t (mark_traces body fr2 finalizer rs t) (r ∷ []) rs (gc_marktrace-List r s k.0 l.0)
        (mark_traces-List rs t k.1 l.1)

  -- The mark of a string, whatever its colour.
  pub mark_str-List :
      (r : ℕ) (s : State) → Known r → body r ≡ str → MarksList s (recolor white2gray r s) (r ∷ [])
  mark_str-List r s k e =
      let t = painted body fr2 finalizer n Q closed bounded fits r s in
      let self = painted-Marked body fr2 finalizer n Q closed bounded fits r s in
      elim (Bool-cases (white s r)) [
        | inl w ↦
            let none = ap (children_of body fr2 finalizer r) e in
            let m =
              finish body fr2 finalizer n Q closed bounded fits r s t k.0 k.1 w
                (weaken body fr2 finalizer n Q closed bounded fits t t
                  (Ext-refl body fr2 finalizer n Q closed bounded fits t))
                (inl (subst (All (Marked t)) (sym none) tt)) in
            (m.0, (m.1, tt))
        | inr w ↦
            let same : (p : ℕ) → white t p ≡ white s p = λ p. elim (Bool-cases (p == r)) [
              | inl q ↦
                  let at : r ≡ p = ground (arith, q) in
                  subst (λ (x : ℕ). white t x ≡ white s x) at (self ∙ sym w)
              | inr q ↦ recolor_other white2gray r s p (ground (arith, q))
            ] in
            (same-Ext body fr2 finalizer n Q closed bounded fits s t same refl, (self, tt))
      ]
