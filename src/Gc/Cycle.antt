-- ===== src/Gc/Cycle.antt =====
-- Marking from the roots marks exactly the objects that can be reached from them.
use omniajit.Prelude.{
  ℕ, zero, suc, ◌≤◌, ◌<◌, ◌≡◌, refl, sym, arith, List, [], ◌∷◌, ◌++◌, All, Bool, true, Option, inl,
  inr, ◌↔◌,
}
use mathlib.Core.Path.{subst}
use omniajit.Gc.{Value, Body, State, gc_markobj, gc_marktv}
use omniajit.Gc.Ops.{gc_propagate_gray, gc_mark_start}
use omniajit.Gc.Reach.{In, white, Marked, objs, whites, children, Reach, root, child, FitsIn}
use omniajit.Gc.Traverse.{
  All-left, All-right, Known, MarksList, in_turn, markobj-List, mark_objs-List, gc_marktv-List,
}
use omniajit.Gc.Propagate.{All-both, IsMarking, IsMarked, gc_propagate_gray-IsMarked}

All-In : (P : ℕ → Type 0) (xs : List ℕ) → ((r : ℕ) → In r xs → P r) → All P xs
All-In P [] h = tt
All-In P (x ∷ xs) h = (h x (inl refl), All-In P xs (λ r i. h r (inr i)))

In-All : (P : ℕ → Type 0) (xs : List ℕ) (r : ℕ) → All P xs → In r xs → P r
In-All P [] r h i = absurd i
In-All P (x ∷ xs) r h (inl e) = subst P (sym e) h.0
In-All P (x ∷ xs) r h (inr i) = In-All P xs r h.1 i

whites-le : (w : ℕ → Bool) (n : ℕ) → whites w n ≤ n
whites-le w zero = omega arith
whites-le w (suc n) = ground (arith, whites-le w n)

-- The roots of `gc_mark_start`.
abbrev pub roots : ℕ → ℕ → Value → List ℕ → List ℕ
roots mainthread env registry gcroot = mainthread ∷ env ∷ objs registry ++ gcroot

module _ (body : ℕ → Body) (fr2 : Bool) (finalizer : Option ℕ) (n : ℕ)
    (bounded : (o : ℕ) → All (λ r. r < n) (children body fr2 finalizer o))
    (fits : (o : ℕ) → FitsIn body fr2 finalizer (body o)) where
  module _ (mainthread env : ℕ) (registry : Value) (gcroot : List ℕ)
      (rooted : All (λ r. r < n) (roots mainthread env registry gcroot)) where
    abbrev Reached : ℕ → Type 0
    Reached = Reach body fr2 finalizer (roots mainthread env registry gcroot)

    closed : (o : ℕ) → Reached o → All Reached (children body fr2 finalizer o)
    closed o q = All-In Reached (children body fr2 finalizer o) (λ r i. child q i)

    known :
        All
          (Known body fr2 finalizer n Reached closed bounded fits)
          (roots mainthread env registry gcroot)
    known =
        All-both (λ r. r < n) Reached (roots mainthread env registry gcroot) rooted
          (All-In Reached (roots mainthread env registry gcroot) (λ r i. root i))

    module _ (s : State) (clean : (r : ℕ) → white s r ≡ true) where
      abbrev start : State
      start = gc_mark_start body fr2 finalizer mainthread env registry gcroot s

      abbrev emptied : State
      emptied = record s { gray = []; grayagain = []; weak = [] }

      start-List :
          MarksList body fr2 finalizer n Reached closed bounded fits emptied start
            (roots mainthread env registry gcroot)
      unfolding gc_mark_start
      start-List =
          let turn = in_turn body fr2 finalizer n Reached closed bounded fits in
          let obj = markobj-List body fr2 finalizer n Reached closed bounded fits in
          let s1 = gc_markobj body fr2 finalizer mainthread emptied in
          let s2 = gc_markobj body fr2 finalizer env s1 in
          let s3 = gc_marktv body fr2 finalizer registry s2 in
          let vs = objs registry in
          let ks = known.1.1 in
          turn emptied s1 start (mainthread ∷ []) (env ∷ vs ++ gcroot)
            (obj mainthread emptied known.0)
            (turn s1 s2 start (env ∷ []) (vs ++ gcroot) (obj env s1 known.1.0) (
              turn s2 s3 start vs gcroot
                (gc_marktv-List body fr2 finalizer n Reached closed bounded fits registry s2
                  (All-left (Known body fr2 finalizer n Reached closed bounded fits) vs gcroot ks))
                (mark_objs-List body fr2 finalizer n Reached closed bounded fits gcroot s3 (
                  All-right (Known body fr2 finalizer n Reached closed bounded fits) vs gcroot
                    ks))))

      start-IsMarking : IsMarking body fr2 finalizer n Reached closed bounded fits start
      start-IsMarking = record {
        all = λ r m. elim (start-List.0.new r m) [
          | inl before ↦ absurd (ground (arith, before, clean r))
          | inr h ↦ h
        ];
        list = start-List.0.list tt;
      }

      abbrev end : State
      end = gc_propagate_gray body fr2 finalizer n start

      end-IsMarked : IsMarked body fr2 finalizer n Reached closed bounded fits start end
      end-IsMarked =
          gc_propagate_gray-IsMarked body fr2 finalizer n Reached closed bounded fits n start
            (omega (arith, start-List.0.bound, whites-le (white emptied) n)) start-IsMarking

      reached_marked : {r : ℕ} → Reached r → Marked end r
      reached_marked {r} (root i) =
          end-IsMarked.2 r
            (In-All (Marked start) (roots mainthread env registry gcroot) r start-List.1 i)
      reached_marked {r} (child {o} q i) = elim (end-IsMarked.0.all o (reached_marked q)).0 [
        | inl h ↦ In-All (Marked end) (children body fr2 finalizer o) r h i
        | inr left ↦ absurd (subst (In o) end-IsMarked.1 left)
      ]

      -- In a heap of n objects, all white, that refer to places below n, the loop of
      -- gc_propagate_gray behind gc_mark_start ends after n rounds at most, with an empty gray
      -- list, and then an object is marked exactly if it can be reached from the roots by
      -- references that are not weak: the letters k and v before the first zero byte of the mode
      -- make keys and values weak, and the table of finalizers has weak keys only. Metatables and
      -- environments of userdata are neither userdata nor upvalues, nor are the traces of
      -- prototypes and traces; no upvalue is the value of another, and chunk names are strings.
      pub gc_propagate_gray-Reach : (end.gray ≡ []) × ((r : ℕ) → Marked end r ↔ Reached r)
      gc_propagate_gray-Reach =
          (end-IsMarked.1, λ r. (λ m. (end-IsMarked.0.all r m).1, λ q. reached_marked q))
