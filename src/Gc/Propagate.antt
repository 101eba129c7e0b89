-- ===== src/Gc/Propagate.antt =====
-- `propagatemark` keeps the invariant of the mark phase, and `gc_propagate_gray` ends.
use omniajit.Prelude.{
  ℕ, zero, suc, ◌+◌, ◌≤◌, ◌<◌, ◌≡◌, refl, ap, ◌∙◌, sym, arith, List, [], ◌∷◌, All, length, Bool,
  Option, inl, inr,
}
use mathlib.Core.Path.{subst}
use omniajit.Gc.{Body, State, gray2black, recolor}
use omniajit.Gc.Ops.{propagatemark, gc_propagate_gray}
use omniajit.Gc.Reach.{In, white, Marked, whites-congr, iswhite-gray2black, children, FitsIn}
use omniajit.Gc.Mark.{recolor_same, Grayed, Grayed-grow, measure, All-grow}
use omniajit.Gc.Object.{Done}
use omniajit.Gc.Traverse.{MarksList}
use omniajit.Gc.Kinds.{propagate_body-All}

pub All-both : (P R : ℕ → Type 0) (xs : List ℕ) → All P xs → All R xs → All (λ r. P r × R r) xs
All-both P R [] h k = tt
All-both P R (x ∷ xs) h k = ((h.0, k.0), All-both P R xs h.1 k.1)

module _ (body : ℕ → Body) (fr2 : Bool) (finalizer : Option ℕ) (n : ℕ) (Q : ℕ → Type 0)
    (closed : (o : ℕ) → Q o → All Q (children body fr2 finalizer o))
    (bounded : (o : ℕ) → All (λ r. r < n) (children body fr2 finalizer o))
    (fits : (o : ℕ) → FitsIn body fr2 finalizer (body o)) where
  -- Each marked object is in the gray list, or all that it refers to is marked; it has the property
  -- `Q`. The objects in the gray list are marked.
  pub record IsMarking (s : State) : Type 0 where
    pub all : (r : ℕ) → Marked s r → Done body fr2 finalizer n Q closed bounded fits s r × Q r
    pub list : All (Grayed body fr2 finalizer n Q closed bounded fits s) s.gray

  -- How many objects are white, and how many are in the gray list.
  abbrev pub work : State → ℕ
  work = measure body fr2 finalizer n Q closed bounded fits

  module _ (o : ℕ) (gray : List ℕ) (s : State) (e : s.gray ≡ o ∷ gray) (inv : IsMarking s) where
    abbrev black : State
    black = recolor gray2black o (record s { gray = gray })

    abbrev next : State
    next = propagatemark body fr2 finalizer o gray s

    same : (r : ℕ) → white black r ≡ white s r
    same = recolor_same gray2black o (record s { gray = gray }) iswhite-gray2black

    first :
        Grayed body fr2 finalizer n Q closed bounded fits s o
        × All (Grayed body fr2 finalizer n Q closed bounded fits s) gray
    first = subst (All (Grayed body fr2 finalizer n Q closed bounded fits s)) e inv.list

    marks :
        MarksList body fr2 finalizer n Q closed bounded fits black next
          (children body fr2 finalizer o)
    unfolding propagatemark
    marks =
        propagate_body-All body fr2 finalizer n Q closed bounded fits o (body o) black
          (All-both (λ r. r < n) Q (children body fr2 finalizer o) (bounded o)
            (closed o (inv.all o first.0.0).1))
          (fits o) first.0.1

    old : (r : ℕ) → Marked s r → Marked next r
    old r h = marks.0.grow r (same r ∙ h)

    handled :
        (r : ℕ)
        → Done body fr2 finalizer n Q closed bounded fits s r
        → Done body fr2 finalizer n Q closed bounded fits next r
    handled r (inl h) = inl (
        All-grow body fr2 finalizer n Q closed bounded fits s next (children body fr2 finalizer r)
          old h)
    handled r (inr i) = elim (subst (In r) e i) [
      | inl at ↦
          inl
            (subst (λ (p : ℕ). All (Marked next) (children body fr2 finalizer p)) (sym at) marks.1)
      | inr later ↦ inr (marks.0.gray r later)
    ]

    -- A round of the mark phase, `propagatemark` of the first object in the gray list, keeps this
    -- invariant: each marked object is in the gray list or all that it keeps alive is marked, and
    -- the objects in the gray list are marked. The white objects and the gray list are fewer by one
    -- at least. Objects refer to places below n; metatables and environments of userdata are neither
    -- userdata nor upvalues, nor are the traces of prototypes and traces; no upvalue is the value of
    -- another, and chunk names are strings. Marked objects have a property Q that objects pass on to
    -- all that they keep alive.
    pub propagatemark-IsMarking : IsMarking next × (work next + 1 ≤ work s)
    propagatemark-IsMarking = (
      record {
        all = λ r m. elim (marks.0.new r m) [
          | inl before ↦ let h = inv.all r (sym (same r) ∙ before) in (handled r h.0, h.1)
          | inr h ↦ h
        ];
        list = marks.0.list (
            Grayed-grow body fr2 finalizer n Q closed bounded fits s black gray (λ r m. same r ∙ m)
              first.1);
      },
      omega (arith, marks.0.bound, whites-congr (white black) (white s) n same, ap length e),
    )

  -- The end of the marking that begins with `s`: no marked object has become white.
  abbrev pub IsMarked : State → State → Type 0
  IsMarked s s' = IsMarking s' × (s'.gray ≡ []) × ((r : ℕ) → Marked s r → Marked s' r)

  -- The loop ends with an empty gray list, after no more rounds than there is work.
  pub gc_propagate_gray-IsMarked :
      (fuel : ℕ) (s : State)
      → work s ≤ fuel
      → IsMarking s
      → IsMarked s (gc_propagate_gray body fr2 finalizer fuel s)
  unfolding gc_propagate_gray
  gc_propagate_gray-IsMarked zero s le inv = (inv, empty s.gray refl, λ r m. m)
    where
      empty : (g : List ℕ) → s.gray ≡ g → s.gray ≡ []
      empty [] e = e
      empty (o ∷ g) e = absurd (omega (arith, le, ap length e))
  gc_propagate_gray-IsMarked (suc fuel) s le inv = on s.gray refl (λ o g e.
      let r = propagatemark-IsMarking o g s e inv in
      let (end, none, later) =
        gc_propagate_gray-IsMarked fuel (propagatemark body fr2 finalizer o g s)
          (omega (arith, r.1, le)) r.0 in
      (end, none, λ p m. later p (old o g s e inv p m)))
    where
      next : ℕ → List ℕ → State
      next o g = gc_propagate_gray body fr2 finalizer fuel (propagatemark body fr2 finalizer o g s)

      on :
          (g : List ℕ)
          → s.gray ≡ g
          → ((o : ℕ) (rest : List ℕ) → s.gray ≡ o ∷ rest → IsMarked s (next o rest))
          → IsMarked s (elim g [ [] ↦ s | o ∷ rest ↦ next o rest ])
      on [] e step = (inv, e, λ r m. m)
      on (o ∷ rest) e step = step o rest e
