-- ===== src/Tab/Traversal.antt =====
-- The searches of a traversal find each value once.
use omniajit.Prelude.{
  ℕ, zero, suc, ◌+◌, ◌-◌, ◌≤◌, ◌≡◌, inl, inr, refl, sym, ap, ◌∙◌, arith, List, [], ◌∷◌, ◌++◌,
  length, ◌==◌, if◌then◌else◌, Option, none, some, drop, Bool-cases, Option-cases,
}
use omniajit.Tab.{Tab, Node, asize}
use omniajit.Tab.Length.{is_some}
use omniajit.Tab.Border.{WellFormed}
use omniajit.Tab.Next.{first_set, vals, next_index, traversal, count, tab_nkeys}

module _ {V : Type 0} where
  -- The indexes from `i` on of the values in a list.
  unfoldable pub indexes : ℕ → List (Option V) → List ℕ
  indexes i [] = []
  indexes i (v ∷ vs) = if is_some v then i ∷ indexes (suc i) vs else indexes (suc i) vs

  first_set-none : (i : ℕ) (vs : List (Option V)) → first_set i vs ≡ none → indexes i vs ≡ []
  unfolding first_set indexes
  first_set-none i [] e = refl
  first_set-none i (some a ∷ vs) e = absurd (cc e)
  first_set-none i (none ∷ vs) e = first_set-none (suc i) vs e

  first_set-some :
      (i j : ℕ) (vs : List (Option V))
      → first_set i vs ≡ some j
      → (i ≤ j) × (indexes i vs ≡ j ∷ indexes (suc j) (drop (suc j - i) vs))
  unfolding first_set indexes
  first_set-some i j [] e = absurd (cc e)
  first_set-some i j (some a ∷ vs) e =
      let same : i ≡ j = cc e in
      let one : suc j - i ≡ 1 = omega arith in (omega arith, rw (one, same) refl)
  first_set-some i j (none ∷ vs) e =
      let (le, rest) = first_set-some (suc i) j vs e in
      let more : suc j - i ≡ suc (suc j - suc i) = omega (arith, le) in
      (omega (arith, le), rw more rest)

  first_set-append :
      (i : ℕ) (vs ws : List (Option V))
      → first_set i (vs ++ ws)
        ≡ elim (first_set i vs) [ some j ↦ some j | none ↦ first_set (i + length vs) ws ]
  unfolding first_set
  first_set-append i [] ws = ap (λ (k : ℕ). first_set k ws) (omega arith)
  first_set-append i (some a ∷ vs) ws = refl
  first_set-append i (none ∷ vs) ws =
      first_set-append (suc i) vs ws
      ∙ (let e : suc i + length vs ≡ i + suc (length vs) = omega arith in
          ap (λ (k : ℕ). elim (first_set (suc i) vs) [ some j ↦ some j | none ↦ first_set k ws ]) e)

  first_set-shift :
      (a i : ℕ) (vs : List (Option V))
      → first_set (a + i) vs ≡ elim (first_set i vs) [ some j ↦ some (a + j) | none ↦ none ]
  unfolding first_set
  first_set-shift a i [] = refl
  first_set-shift a i (some x ∷ vs) = refl
  first_set-shift a i (none ∷ vs) =
      ap (λ (k : ℕ). first_set k vs) (omega arith) ∙ first_set-shift a (suc i) vs

  drop-append :
      (i : ℕ) (vs ws : List (Option V)) → drop i (vs ++ ws) ≡ drop i vs ++ drop (i - length vs) ws
  drop-append zero vs ws = let z : 0 - length vs ≡ 0 = omega arith in rw z refl
  drop-append (suc i) [] ws = let z : suc i - 0 ≡ suc i = omega arith in rw z refl
  drop-append (suc i) (v ∷ vs) ws =
      let e : suc i - suc (length vs) ≡ i - length vs = omega arith in rw e (drop-append i vs ws)

  drop-nil : (i : ℕ) → drop {A = Option V} i [] ≡ []
  drop-nil zero = refl
  drop-nil (suc i) = refl

  drop-drop : (i k : ℕ) (vs : List (Option V)) → drop k (drop i vs) ≡ drop (i + k) vs
  drop-drop zero k vs = ap (λ (n : ℕ). drop n vs) (omega arith)
  drop-drop (suc i) k [] = drop-nil k ∙ sym (drop-nil (suc i + k))
  drop-drop (suc i) k (v ∷ vs) =
      drop-drop i k vs
      ∙ sym (ap (λ (n : ℕ). drop n (v ∷ vs)) (let e : suc i + k ≡ suc (i + k) = omega arith in e))

  length-drop : (i : ℕ) (vs : List (Option V)) → length (drop i vs) ≡ length vs - i
  length-drop zero vs = omega arith
  length-drop (suc i) [] = omega arith
  length-drop (suc i) (v ∷ vs) = omega (arith, length-drop i vs)

  abbrev pub slots : Tab V → List (Option V)
  slots t = t.array ++ vals t.node

  -- The two loops are one search through all slots.
  next_index-slots : (t : Tab V) (i : ℕ) → next_index t i ≡ first_set i (drop i (slots t))
  unfolding next_index
  next_index-slots t i =
      let h = i - asize t in
      let ws = drop h (vals t.node) in
      let found = first_set i (drop i t.array) in
      let e : i + length (drop i t.array) ≡ asize t + h = omega (arith, length-drop i t.array) in
      sym (
        ap (first_set i) (drop-append i t.array (vals t.node))
        ∙ first_set-append i (drop i t.array) ws
        ∙ ap (λ (k : ℕ). elim found [ some j ↦ some j | none ↦ first_set k ws ]) e
        ∙ ap (λ (r : Option ℕ). elim found [ some j ↦ some j | none ↦ r ])
            (first_set-shift (asize t) h ws))

  drop-all : (i : ℕ) (vs : List (Option V)) → length vs ≤ i → drop i vs ≡ []
  drop-all zero [] h = refl
  drop-all zero (v ∷ vs) h = absurd (omega arith)
  drop-all (suc i) [] h = refl
  drop-all (suc i) (v ∷ vs) h = drop-all i vs (omega arith)

  traversal-indexes :
      (t : Tab V) (fuel i : ℕ)
      → length (slots t) ≤ fuel + i
      → traversal t fuel i ≡ indexes i (drop i (slots t))
  unfolding traversal indexes
  traversal-indexes t zero i enough = rw (drop-all i (slots t) (omega (arith, enough))) refl
  traversal-indexes t (suc fuel) i enough = elim (Option-cases (first_set i (drop i (slots t)))) [
    | inl e ↦ rw (traversal, next_index-slots t i, e) (sym (first_set-none i _ e))
    | inr (j, e) ↦
        let (le, found) = first_set-some i j (drop i (slots t)) e in
        let here : i + (suc j - i) ≡ suc j = omega (arith, le) in
        let later : drop (suc j - i) (drop i (slots t)) ≡ drop (suc j) (slots t) =
          drop-drop i (suc j - i) (slots t) ∙ ap (λ (n : ℕ). drop n (slots t)) here in
        rw (traversal, next_index-slots t i, e, found, later)
          (ap (λ (js : List ℕ). j ∷ js) (traversal-indexes t fuel (suc j) (omega (arith, le))))
  ]

  length-indexes : (i : ℕ) (vs : List (Option V)) → length (indexes i vs) ≡ count vs
  unfolding indexes count
  length-indexes i [] = refl
  length-indexes i (some a ∷ vs) = ap suc (length-indexes (suc i) vs)
  length-indexes i (none ∷ vs) = length-indexes (suc i) vs

  count-append : (vs ws : List (Option V)) → count (vs ++ ws) ≡ count vs + count ws
  unfolding count
  count-append [] ws = omega arith
  count-append (some a ∷ vs) ws = omega (arith, count-append vs ws)
  count-append (none ∷ vs) ws = count-append vs ws

  -- If each search of `lj_tab_next` starts behind the index that the last one found, the searches find
  -- the indexes of all values of the table, each once and in order, and `lj_tab_nkeys` is their
  -- number. There are at least as many searches as slots. `keyindex` is left out.
  pub traversal-nkeys :
      (t : Tab V) (fuel : ℕ)
      → WellFormed t
      → length (slots t) ≤ fuel
      → (traversal t fuel 0 ≡ indexes 0 (slots t)) × (length (traversal t fuel 0) ≡ tab_nkeys t)
  unfolding tab_nkeys count vals
  traversal-nkeys t fuel wf enough =
      let all = traversal-indexes t fuel 0 (omega (arith, enough)) in
      let sum : count (slots t) ≡ count t.array + count (vals t.node) =
        count-append t.array (vals t.node) in
      let number = length-indexes 0 (slots t) ∙ sum in
      elim (Bool-cases (t.hmask == 0)) [
        | inl flat ↦
            let only : count (vals t.node) ≡ 0 =
              ap (λ (ns : List (Node V)). count (vals ns)) (wf.0 (ground (arith, flat))) in
            (all, rw (all, flat) (number ∙ omega (arith, only)))
        | inr full ↦ (all, rw (all, full) number)
      ]
