-- ===== src/Gc/Ops.antt =====
-- The traversals and the propagation (lib/luajit/src/lj_gc.c).
use omniajit.Prelude.{
  ℕ, zero, suc, List, [], ◌∷◌, ◌==◌, if◌then◌else◌, Bool, true, false, not, ◌&&◌, ◌||◌, Option,
  none, some,
}
use omniajit.Gc.{
  Body, State, Tab, Value, black2gray, c_func, gc_markobj, gc_marktv, gray2black, is_place, iswhite,
  links_of, lua_func, mark_nodes, mark_objs, mark_some, mark_values, mode_in, proto, recolor, tab,
  thread, trace, weak_bits, weak_key, weak_val, white2gray,
}

-- The objects, the build option `LJ_FR2`, and the table of finalizers of the FFI, if there is one.
module _ (body : ℕ → Body) (fr2 : Bool) (finalizer : Option ℕ) where
  -- The mode of the table with this metatable.
  abbrev pub mode_of : Option ℕ → List ℕ
  mode_of none = []
  mode_of (some mt) = mode_in (body mt)

  -- What is weak in the table `o`: its keys, its values. The table of finalizers has weak keys, if
  -- its mode makes it weak at all, and is not a weak table otherwise.
  abbrev pub any_weak : Tab → Bool
  any_weak t = weak_key (mode_of t.metatable) || weak_val (mode_of t.metatable)

  abbrev pub keys_weak : ℕ → Tab → Bool
  keys_weak o t =
      if any_weak t && is_place finalizer o then true else weak_key (mode_of t.metatable)

  abbrev pub vals_weak : ℕ → Tab → Bool
  vals_weak o t =
      if any_weak t && is_place finalizer o then false else weak_val (mode_of t.metatable)

  -- The state, and whether the table stays gray.
  unfoldable pub gc_traverse_tab : ℕ → Tab → State → State × Bool
  unfolding gc_markobj mark_values mark_nodes
  gc_traverse_tab o t s =
      let s1 = mark_some body fr2 finalizer t.metatable s in
      let key = keys_weak o t in
      let val = vals_weak o t in
      let is_weak = any_weak t && not (is_place finalizer o) in
      let s2 =
        if is_weak then recolor (weak_bits key val) o (record s1 { weak = o ∷ s1.weak }) else s1 in
      let s3 = if val then s2 else mark_values body fr2 finalizer t.array s2 in
      let s4 = mark_nodes body fr2 finalizer key val t.node s3 in
      (if key && val then s2 else s4, is_weak)

  unfoldable pub gc_marktrace : ℕ → State → State
  gc_marktrace r s =
      let s1 = recolor white2gray r s in
      if iswhite (s.marked r) then record s1 { gray = r ∷ s1.gray } else s

  unfoldable pub mark_traces : List ℕ → State → State
  unfolding gc_marktrace
  mark_traces [] s = s
  mark_traces (r ∷ rs) s = mark_traces rs (gc_marktrace r s)

  unfoldable pub gc_traverse_trace : ℕ → List ℕ → List ℕ → ℕ → State → State
  unfolding mark_objs mark_traces
  gc_traverse_trace traceno kgc links startpt s =
      if traceno == 0
      then s
      else gc_markobj body fr2 finalizer startpt
          (mark_traces links (mark_objs body fr2 finalizer kgc s))

  unfoldable pub gc_traverse_proto : ℕ → List ℕ → Option ℕ → State → State
  unfolding mark_objs mark_traces
  gc_traverse_proto chunkname kgc root s =
      mark_traces (links_of root)
        (mark_objs body fr2 finalizer kgc (recolor white2gray chunkname s))

  unfoldable pub gc_traverse_thread : List Value → ℕ → List ℕ → State → State
  unfolding mark_objs mark_values
  gc_traverse_thread stack env frames s =
      mark_objs body fr2 finalizer (if fr2 then [] else frames)
        (gc_markobj body fr2 finalizer env (mark_values body fr2 finalizer stack s))

  -- What `propagatemark` does with the object `o` that it has made black.
  unfoldable pub propagate_body : ℕ → Body → State → State
  unfolding gc_traverse_tab gc_traverse_trace gc_traverse_proto gc_traverse_thread mark_objs
      mark_values
  propagate_body o (tab t) s =
      let (s', again) = gc_traverse_tab o t s in if again then recolor black2gray o s' else s'
  propagate_body o (lua_func env pt uvs) s =
      mark_objs body fr2 finalizer uvs
        (gc_markobj body fr2 finalizer pt (gc_markobj body fr2 finalizer env s))
  propagate_body o (c_func env vs) s =
      mark_values body fr2 finalizer vs (gc_markobj body fr2 finalizer env s)
  propagate_body o (proto chunkname kgc first) s = gc_traverse_proto chunkname kgc first s
  propagate_body o (thread stack env frames) s =
      let s' = recolor black2gray o (record s { grayagain = o ∷ s.grayagain }) in
      gc_traverse_thread stack env frames s'
  propagate_body o (trace traceno kgc links startpt) s =
      gc_traverse_trace traceno kgc links startpt s
  propagate_body o other s = s

  -- For the first object of a gray list with the rest `gray`; the sizes that it returns are left out.
  unfoldable pub propagatemark : ℕ → List ℕ → State → State
  unfolding propagate_body
  propagatemark o gray s =
      propagate_body o (body o) (recolor gray2black o (record s { gray = gray }))

  -- With `fuel` rounds at most.
  unfoldable pub gc_propagate_gray : ℕ → State → State
  unfolding propagatemark
  gc_propagate_gray zero s = s
  gc_propagate_gray (suc fuel) s = elim s.gray [
    | [] ↦ s
    | o ∷ gray ↦ gc_propagate_gray fuel (propagatemark o gray s)
  ]

  -- The main thread, its environment, the registry, and `gcroot` without its null pointers.
  unfoldable pub gc_mark_start : ℕ → ℕ → Value → List ℕ → State → State
  unfolding mark_objs gc_marktv
  gc_mark_start mainthread env registry gcroot s =
      let s1 =
        gc_markobj body fr2 finalizer mainthread
          (record s { gray = []; grayagain = []; weak = [] }) in
      mark_objs body fr2 finalizer gcroot
        (gc_marktv body fr2 finalizer registry (gc_markobj body fr2 finalizer env s1))
