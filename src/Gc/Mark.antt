-- ===== src/Gc/Mark.antt =====
-- What marking an object does to the colours of all.
use omniajit.Prelude.{
  ℕ, ◌+◌, ◌≤◌, ◌<◌, ◌≡◌, ◌≢◌, refl, ap, ◌∙◌, sym, arith, List, [], ◌∷◌, ◌==◌, All, length,
  if◌then◌else◌, Bool, true, false, Bool-cases, Option, ◌⊎◌, inl, inr,
}
use mathlib.Core.Path.{subst}
use omniajit.Gc.{Body, State, iswhite, white2gray, recolor}
use omniajit.Gc.Reach.{
  In, white, Marked, whites, whites-congr, whites_less, iswhite-white2gray, children, IsListed,
  FitsIn,
}

pub recolor_other :
    (f : ℕ → ℕ) (o : ℕ) (s : State) (r : ℕ) → r ≢ o → white (recolor f o s) r ≡ white s r
recolor_other f o s r ne =
    let e : (r == o) ≡ false = ground (arith, ne) in rw (e, if◌then◌else◌) refl

pub recolor_self :
    (f : ℕ → ℕ) (o : ℕ) (s : State) → white (recolor f o s) o ≡ iswhite (f (s.marked o))
recolor_self f o s = let e : (o == o) ≡ true = ground arith in rw (e, if◌then◌else◌) refl

-- A change that keeps white objects white and the others not white.
pub recolor_same :
    (f : ℕ → ℕ) (o : ℕ) (s : State)
    → ((m : ℕ) → iswhite (f m) ≡ iswhite m)
    → (r : ℕ) → white (recolor f o s) r ≡ white s r
recolor_same f o s h r = elim (Bool-cases (r == o)) [
  | inl e ↦
      let same : r ≡ o = ground (arith, e) in
      ap (white (recolor f o s)) same
      ∙ recolor_self f o s
      ∙ h (s.marked o)
      ∙ sym (ap (white s) same)
  | inr e ↦ recolor_other f o s r (ground (arith, e))
]

module _ (body : ℕ → Body) (fr2 : Bool) (finalizer : Option ℕ) (n : ℕ) (Q : ℕ → Type 0)
    (closed : (o : ℕ) → Q o → All Q (children body fr2 finalizer o))
    (bounded : (o : ℕ) → All (λ r. r < n) (children body fr2 finalizer o))
    (fits : (o : ℕ) → FitsIn body fr2 finalizer (body o)) where
  -- All that the object refers to is marked, or the object is in the gray list.
  abbrev pub Handled : State → ℕ → Type 0
  Handled s r = All (Marked s) (children body fr2 finalizer r) ⊎ In r s.gray

  abbrev pub measure : State → ℕ
  measure s = whites (white s) n + length s.gray

  -- What an object of the gray list is.
  abbrev pub Grayed : State → ℕ → Type 0
  Grayed s r = Marked s r × IsListed body fr2 finalizer (body r)

  -- A state behind some marking: more objects are marked, and the new ones are handled and have the
  -- property `Q`. The number of white objects and of gray ones in the list grows by `k` at most.
  pub record Ext (k : ℕ) (s s' : State) : Type 0 where
    pub grow : (r : ℕ) → Marked s r → Marked s' r
    pub gray : (r : ℕ) → In r s.gray → In r s'.gray
    pub new : (r : ℕ) → Marked s' r → Marked s r ⊎ (Handled s' r × Q r)
    pub list : All (Grayed s) s.gray → All (Grayed s') s'.gray
    pub bound : measure s' ≤ measure s + k

  pub All-grow :
      (s s' : State) (rs : List ℕ)
      → ((r : ℕ) → Marked s r → Marked s' r)
      → All (Marked s) rs
      → All (Marked s') rs
  All-grow s s' [] g h = tt
  All-grow s s' (r ∷ rs) g h = (g r h.0, All-grow s s' rs g h.1)

  pub Grayed-grow :
      (s s' : State) (rs : List ℕ)
      → ((r : ℕ) → Marked s r → Marked s' r)
      → All (Grayed s) rs
      → All (Grayed s') rs
  Grayed-grow s s' [] g h = tt
  Grayed-grow s s' (r ∷ rs) g h = ((g r h.0.0, h.0.1), Grayed-grow s s' rs g h.1)

  pub Handled-Ext : (k : ℕ) (s s' : State) (r : ℕ) → Ext k s s' → Handled s r → Handled s' r
  Handled-Ext k s s' r e (inl h) = inl (All-grow s s' (children body fr2 finalizer r) e.grow h)
  Handled-Ext k s s' r e (inr h) = inr (e.gray r h)

  pub Ext-refl : (s : State) → Ext 0 s s
  Ext-refl s = record {
    grow = λ r h. h;
    gray = λ r h. h;
    new = λ r h. inl h;
    list = λ h. h;
    bound = omega arith;
  }

  pub Ext-trans : (k j : ℕ) (s t u : State) → Ext k s t → Ext j t u → Ext (k + j) s u
  Ext-trans k j s t u a b = record {
    grow = λ r h. b.grow r (a.grow r h);
    gray = λ r h. b.gray r (a.gray r h);
    new = λ r h. elim (b.new r h) [
      | inr q ↦ inr q
      | inl m ↦ elim (a.new r m) [
        | inl old ↦ inl old
        | inr q ↦ inr (Handled-Ext j t u r b q.0, q.1)
      ]
    ];
    list = λ h. b.list (a.list h);
    bound = omega (arith, a.bound, b.bound);
  }

  -- The colours stay.
  pub same-Ext : (s s' : State) → ((r : ℕ) → white s' r ≡ white s r) → s'.gray ≡ s.gray → Ext 0 s s'
  same-Ext s s' h e = record {
    grow = λ r m. h r ∙ m;
    gray = λ r i. subst (In r) (sym e) i;
    new = λ r m. inl (sym (h r) ∙ m);
    list = λ a. subst (All (Grayed s')) (sym e) (Grayed-grow s s' s.gray (λ r m. h r ∙ m) a);
    bound = omega (arith, whites-congr (white s') (white s) n h, ap length e);
  }

  -- The state behind `s` where the object `o` is gray.
  abbrev pub painted : ℕ → State → State
  painted o s = recolor white2gray o s

  pub painted-Marked : (o : ℕ) (s : State) → Marked (painted o s) o
  painted-Marked o s = recolor_self white2gray o s ∙ iswhite-white2gray (s.marked o)

  -- An object that was white and is handled in the end.
  pub finish :
      (o : ℕ) (s s' : State)
      → o < n
      → Q o
      → white s o ≡ true
      → Ext 1 (painted o s) s'
      → Handled s' o
      → Ext 0 s s' × Marked s' o
  finish o s s' lt q w e done = (
    record {
      grow = λ r h. e.grow r (before r h);
      gray = e.gray;
      new = λ r h. elim (e.new r h) [
        | inr k ↦ inr k
        | inl m ↦ elim (Bool-cases (r == o)) [
          | inl same ↦
              let at : o ≡ r = ground (arith, same) in
              inr (subst (λ (p : ℕ). Handled s' p × Q p) at (done, q))
          | inr other ↦ inl (sym (recolor_other white2gray o s r (ground (arith, other))) ∙ m)
        ]
      ];
      list = λ a. e.list (Grayed-grow s (painted o s) s.gray before a);
      bound = omega (
        arith,
        e.bound,
        whites_less (white s) (white (painted o s)) o n lt w itself (recolor_other white2gray o s),
      );
    },
    e.grow o itself,
  )
    where
      itself : Marked (painted o s) o
      itself = painted-Marked o s

      before : (r : ℕ) → Marked s r → Marked (painted o s) r
      before r h = elim (Bool-cases (r == o)) [
        | inl same ↦ let at : o ≡ r = ground (arith, same) in subst (Marked (painted o s)) at itself
        | inr other ↦ recolor_other white2gray o s r (ground (arith, other)) ∙ h
      ]
