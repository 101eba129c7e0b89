-- ===== src/Gc/Kinds.antt =====
-- `propagatemark` marks all that an object refers to, for each kind of object.
use omniajit.Prelude.{
  ℕ, ◌<◌, refl, ap, ◌∙◌, List, [], ◌∷◌, ◌++◌, ◌==◌, All, if◌then◌else◌, Bool, true, false, not,
  ◌&&◌, Bool-cases, Option, inl, inr,
}
use mathlib.Core.Path.{subst}
use omniajit.Gc.{
  Value, Tab, Body, str, cdata, udata, upval, thread, proto, lua_func, c_func, trace, tab, State,
  white2gray, black2gray, weak_bits, recolor, links_of, gc_markobj, mark_objs, mark_values,
  mark_some, mark_nodes, is_place,
}
use omniajit.Gc.Ops.{
  keys_weak, vals_weak, any_weak, gc_traverse_tab, mark_traces, gc_traverse_trace,
  gc_traverse_proto, gc_traverse_thread, propagate_body,
}
use omniajit.Gc.Reach.{
  Marked, all_objs, node_objs, iswhite-black2gray, iswhite-weak_bits, children_of, children,
  tab_objs, are_keys_weak, IsListed, FitsIn,
}
use omniajit.Gc.Mark.{recolor_same, All-grow, Ext-refl, same-Ext}
use omniajit.Gc.Object.{after}
use omniajit.Gc.Traverse.{
  All-left, All-right, no_nodes, Known, MarksList, nothing, in_turn, quiet, markobj-List,
  mark_objs-List, mark_values-List, mark_some-List, mark_nodes-List, mark_traces-List,
  mark_str-List,
}
use omniajit.Gc.Weak.{keys_weak_lem, vals_weak_lem}

module _ (body : ℕ → Body) (fr2 : Bool) (finalizer : Option ℕ) (n : ℕ) (Q : ℕ → Type 0)
    (closed : (o : ℕ) → Q o → All Q (children body fr2 finalizer o))
    (bounded : (o : ℕ) → All (λ r. r < n) (children body fr2 finalizer o))
    (fits : (o : ℕ) → FitsIn body fr2 finalizer (body o)) where
  abbrev AllKnown : List ℕ → Type 0
  AllKnown = All (Known body fr2 finalizer n Q closed bounded fits)

  abbrev AllMarks : State → State → List ℕ → Type 0
  AllMarks = MarksList body fr2 finalizer n Q closed bounded fits

  abbrev known_left : (xs ys : List ℕ) → AllKnown (xs ++ ys) → AllKnown xs
  known_left = All-left (Known body fr2 finalizer n Q closed bounded fits)

  abbrev known_right : (xs ys : List ℕ) → AllKnown (xs ++ ys) → AllKnown ys
  known_right = All-right (Known body fr2 finalizer n Q closed bounded fits)

  -- Nothing is marked, but the object may become a weak table.
  weak_table :
      (o : ℕ) (b key val : Bool) (s : State) (rs : List ℕ)
      → All (Marked s) rs
      → AllMarks s
          (if b then recolor (weak_bits key val) o (record s { weak = o ∷ s.weak }) else s)
          rs
  weak_table o true key val s rs h =
      let s' = recolor (weak_bits key val) o (record s { weak = o ∷ s.weak }) in
      let same =
        recolor_same (weak_bits key val) o (record s { weak = o ∷ s.weak })
          (iswhite-weak_bits key val) in
      let e = same-Ext body fr2 finalizer n Q closed bounded fits s s' same refl in
      (e, All-grow body fr2 finalizer n Q closed bounded fits s s' rs e.grow h)
  weak_table o false key val s rs h = (Ext-refl body fr2 finalizer n Q closed bounded fits s, h)

  values_unless :
      (weak : Bool) (vs : List Value) (s : State)
      → AllKnown (if weak then [] else all_objs vs)
      → AllMarks s
          (if weak then s else mark_values body fr2 finalizer vs s)
          (if weak then [] else all_objs vs)
  values_unless true vs s k = nothing body fr2 finalizer n Q closed bounded fits s
  values_unless false vs s k = mark_values-List body fr2 finalizer n Q closed bounded fits vs s k

  values_then_nodes :
      (key val : Bool) (t : Tab) (s : State)
      → let vs = if val then [] else all_objs t.array in
        let s3 = if val then s else mark_values body fr2 finalizer t.array s in
        AllKnown (vs ++ node_objs key val t.node)
        → AllMarks s
            (mark_nodes body fr2 finalizer key val t.node s3)
            (vs ++ node_objs key val t.node)
  values_then_nodes key val t s k =
      let vs = if val then [] else all_objs t.array in
      let s3 = if val then s else mark_values body fr2 finalizer t.array s in
      let ns = node_objs key val t.node in
      in_turn body fr2 finalizer n Q closed bounded fits s s3
        (mark_nodes body fr2 finalizer key val t.node s3) vs ns
        (values_unless val t.array s (known_left vs ns k))
        (mark_nodes-List body fr2 finalizer n Q closed bounded fits key val t.node s3
          (known_right vs ns k))

  -- The array part and the hash part, of which nothing is marked if keys and values are weak.
  parts_of :
      (key val : Bool) (t : Tab) (s : State)
      → let vs = if val then [] else all_objs t.array in
        let s3 = if val then s else mark_values body fr2 finalizer t.array s in
        let s4 = mark_nodes body fr2 finalizer key val t.node s3 in
        AllKnown (vs ++ node_objs key val t.node)
        → AllMarks s (if key && val then s else s4) (vs ++ node_objs key val t.node)
  parts_of true true t s k =
      (Ext-refl body fr2 finalizer n Q closed bounded fits s, no_nodes (Marked s) t.node)
  parts_of false val t s k = values_then_nodes false val t s k
  parts_of true false t s k = values_then_nodes true false t s k

  -- The table as the loop over the mode found it.
  traverse_tab_found :
      (o : ℕ) (t : Tab) (s : State)
      → let found =
          tab_objs (keys_weak body fr2 finalizer o t) (vals_weak body fr2 finalizer o t) t in
        AllKnown found → AllMarks s (gc_traverse_tab body fr2 finalizer o t s).0 found
  unfolding gc_traverse_tab
  traverse_tab_found o t s k =
      let key = keys_weak body fr2 finalizer o t in
      let val = vals_weak body fr2 finalizer o t in
      let is_weak = any_weak body fr2 finalizer t && not (is_place finalizer o) in
      let ms = links_of t.metatable in
      let rs = (if val then [] else all_objs t.array) ++ node_objs key val t.node in
      let s1 = mark_some body fr2 finalizer t.metatable s in
      let s2 =
        if is_weak then recolor (weak_bits key val) o (record s1 { weak = o ∷ s1.weak }) else s1 in
      let (a, m) =
        mark_some-List body fr2 finalizer n Q closed bounded fits t.metatable s
          (known_left ms rs k) in
      let (b, m2) = weak_table o is_weak key val s1 ms m in
      in_turn body fr2 finalizer n Q closed bounded fits s s2 _ ms rs
        (after body fr2 finalizer n Q closed bounded fits s s1 s2 a b, m2)
        (parts_of key val t s2 (known_right ms rs k))

  gc_traverse_tab-All :
      (o : ℕ) (t : Tab) (s : State)
      → AllKnown (children_of body fr2 finalizer o (tab t))
      → AllMarks s
          (gc_traverse_tab body fr2 finalizer o t s).0
          (children_of body fr2 finalizer o (tab t))
  gc_traverse_tab-All o t s =
      let s' = (gc_traverse_tab body fr2 finalizer o t s).0 in
      let keys = keys_weak_lem body fr2 finalizer o t in
      let vals = vals_weak_lem body fr2 finalizer o t in
      let both =
        ap (λ (key : Bool). tab_objs key (vals_weak body fr2 finalizer o t) t) keys
        ∙ ap (λ (val : Bool). tab_objs (are_keys_weak body fr2 finalizer o t) val t) vals in
      subst (λ (rs : List ℕ). AllKnown rs → AllMarks s s' rs) both (traverse_tab_found o t s)

  gray_if :
      (b : Bool) (o : ℕ) (s : State) (rs : List ℕ)
      → All (Marked s) rs
      → AllMarks s (if b then recolor black2gray o s else s) rs
  gray_if true o s rs h =
      quiet body fr2 finalizer n Q closed bounded fits black2gray o s rs iswhite-black2gray h
  gray_if false o s rs h = (Ext-refl body fr2 finalizer n Q closed bounded fits s, h)

  -- All the objects of a kind that the gray list can have.
  pub propagate_body-All :
      (o : ℕ) (b : Body) (s : State)
      → AllKnown (children_of body fr2 finalizer o b)
      → FitsIn body fr2 finalizer b
      → IsListed body fr2 finalizer b
      → AllMarks s (propagate_body body fr2 finalizer o b s) (children_of body fr2 finalizer o b)
  unfolding propagate_body gc_traverse_trace gc_traverse_proto gc_traverse_thread
  propagate_body-All o str s k f l = nothing body fr2 finalizer n Q closed bounded fits s
  propagate_body-All o cdata s k f l = nothing body fr2 finalizer n Q closed bounded fits s
  propagate_body-All o (udata mt env) s k f l = absurd l
  propagate_body-All o (upval black v) s k f l = absurd l
  propagate_body-All o (tab t) s k f l =
      let cs = children_of body fr2 finalizer o (tab t) in
      let r = gc_traverse_tab body fr2 finalizer o t s in
      let (a, m) = gc_traverse_tab-All o t s k in
      let (b, m2) = gray_if r.1 o r.0 cs m in
      (after body fr2 finalizer n Q closed bounded fits s r.0 _ a b, m2)
  propagate_body-All o (lua_func env pt uvs) s k f l =
      let s1 = gc_markobj body fr2 finalizer env s in
      let s2 = gc_markobj body fr2 finalizer pt s1 in
      let h = in_turn body fr2 finalizer n Q closed bounded fits in
      h s s1 _ (env ∷ []) (pt ∷ uvs)
        (markobj-List body fr2 finalizer n Q closed bounded fits env s k.0)
        (h s1 s2 _ (pt ∷ []) uvs
          (markobj-List body fr2 finalizer n Q closed bounded fits pt s1 k.1.0)
          (mark_objs-List body fr2 finalizer n Q closed bounded fits uvs s2 k.1.1))
  propagate_body-All o (c_func env vs) s k f l =
      let s1 = gc_markobj body fr2 finalizer env s in
      in_turn body fr2 finalizer n Q closed bounded fits s s1 _ (env ∷ []) (all_objs vs)
        (markobj-List body fr2 finalizer n Q closed bounded fits env s k.0)
        (mark_values-List body fr2 finalizer n Q closed bounded fits vs s1 k.1)
  propagate_body-All o (proto chunkname kgc first) s k f l =
      let h = in_turn body fr2 finalizer n Q closed bounded fits in
      let s1 = recolor white2gray chunkname s in
      let s2 = mark_objs body fr2 finalizer kgc s1 in
      let ls = links_of first in
      h s s1 _ (chunkname ∷ []) (kgc ++ ls)
        (mark_str-List body fr2 finalizer n Q closed bounded fits chunkname s k.0 f.0)
        (h s1 s2 _ kgc ls
          (mark_objs-List body fr2 finalizer n Q closed bounded fits kgc s1 (known_left kgc ls k.1))
          (mark_traces-List body fr2 finalizer n Q closed bounded fits ls s2
            (known_right kgc ls k.1) f.1))
  propagate_body-All o (thread stack env frames) s k f l =
      let h = in_turn body fr2 finalizer n Q closed bounded fits in
      let s1 = recolor black2gray o (record s { grayagain = o ∷ s.grayagain }) in
      let same =
        recolor_same black2gray o (record s { grayagain = o ∷ s.grayagain }) iswhite-black2gray in
      let s2 = mark_values body fr2 finalizer stack s1 in
      let s3 = gc_markobj body fr2 finalizer env s2 in
      let vs = all_objs stack in
      let fs = if fr2 then [] else frames in
      let ks = known_right vs (env ∷ fs) k in
      h s s1 _ [] (vs ++ env ∷ fs)
        (same-Ext body fr2 finalizer n Q closed bounded fits s s1 same refl, tt)
        (h s1 s2 _ vs (env ∷ fs)
          (mark_values-List body fr2 finalizer n Q closed bounded fits stack s1
            (known_left vs (env ∷ fs) k))
          (h s2 s3 _ (env ∷ []) fs
            (markobj-List body fr2 finalizer n Q closed bounded fits env s2 ks.0)
            (mark_objs-List body fr2 finalizer n Q closed bounded fits fs s3 ks.1)))
  propagate_body-All o (trace traceno kgc links startpt) s k f l =
      elim (Bool-cases (traceno == 0)) [
        | inl e ↦ rw (e, if◌then◌else◌) (nothing body fr2 finalizer n Q closed bounded fits s)
        | inr e ↦
            let ks : AllKnown (kgc ++ (links ++ startpt ∷ [])) =
              subst (λ (b : Bool). AllKnown (if b then [] else kgc ++ (links ++ startpt ∷ []))) e
                k in
            let ls = known_right kgc (links ++ startpt ∷ []) ks in
            let h = in_turn body fr2 finalizer n Q closed bounded fits in
            let s1 = mark_objs body fr2 finalizer kgc s in
            let s2 = mark_traces body fr2 finalizer links s1 in
            rw (e, if◌then◌else◌)
              (h s s1 _ kgc (links ++ startpt ∷ [])
                (mark_objs-List body fr2 finalizer n Q closed bounded fits kgc s
                  (known_left kgc (links ++ startpt ∷ []) ks))
                (h s1 s2 _ links (startpt ∷ [])
                  (mark_traces-List body fr2 finalizer n Q closed bounded fits links s1
                    (known_left links (startpt ∷ []) ls) f)
                  (markobj-List body fr2 finalizer n Q closed bounded fits startpt s2
                    (known_right links (startpt ∷ []) ls).0)))
      ]
