-- ===== src/Tab/Next.antt =====
-- The search of `lj_tab_next` behind the index of the last key, and `lj_tab_nkeys`. How `keyindex` finds
-- the index of a key, or that there is no such key, is not modelled.
-- Traversal indexes count the slots of the array part, then the nodes.
use omniajit.Prelude.{
  ℕ, zero, suc, ◌+◌, ◌-◌, List, [], ◌∷◌, ◌==◌, if◌then◌else◌, Option, none, some, drop,
}
use omniajit.Tab.{Tab, Node, asize}
use omniajit.Tab.Length.{is_some}

module _ {V : Type 0} where
  -- `for (; ...; i++) if (!tvisnil(...))`, over the slots from `i` on.
  unfoldable pub first_set : ℕ → List (Option V) → Option ℕ
  first_set i [] = none
  first_set i (v ∷ vs) = let rest = first_set (suc i) vs in if is_some v then some i else rest

  unfoldable pub vals : List (Node V) → List (Option V)
  vals [] = []
  vals (n ∷ ns) = n.val ∷ vals ns

  -- From `i++` on: the traversal index of the next key, or the end of the traversal.
  unfoldable pub next_index : Tab V → ℕ → Option ℕ
  unfolding first_set vals
  next_index t i = elim (first_set i (drop i t.array)) [
    | some j ↦ some j
    | none ↦
        let h = i - asize t in
        elim (first_set h (drop h (vals t.node))) [ some j ↦ some (asize t + j) | none ↦ none ]
  ]

  -- The indexes that the search finds from `i` on, if each search starts behind the index that the
  -- last one found. `fuel` bounds their number.
  unfoldable pub traversal : Tab V → ℕ → ℕ → List ℕ
  traversal t zero i = []
  traversal t (suc fuel) i = elim (next_index t i) [
    | some j ↦ j ∷ traversal t fuel (suc j)
    | none ↦ []
  ]

  -- `cnt++` for each value that is not nil.
  unfoldable pub count : List (Option V) → ℕ
  count [] = 0
  count (v ∷ vs) = if is_some v then suc (count vs) else count vs

  unfoldable pub tab_nkeys : Tab V → ℕ
  unfolding count vals
  tab_nkeys t = let cnt = count t.array in if t.hmask == 0 then cnt else cnt + count (vals t.node)
