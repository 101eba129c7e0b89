-- ===== src/Str/Find/First.antt =====
-- `lj_str_find` finds the first occurrence.
use omniajit.Prelude.{
  ℕ, zero, suc, ◌+◌, ◌-◌, ◌≤◌, ◌<◌, ◌≡◌, refl, ap, ◌∙◌, sym, arith, List, [], ◌∷◌, length, take,
  drop, leb, ◌==◌, if◌then◌else◌, Bool, true, false, Bool-cases, inl, inr, ◌&&◌, Option, none, some,
}
use mathlib.Core.Path.{subst}
use omniajit.Str.{same_bytes}
use omniajit.Str.Count.{same_bytes_eq}
use omniajit.Str.Find.{memchr, matches, find_loop, lj_str_find}

-- Does `p` stand in `s` at `k`?
abbrev pub occurs : List ℕ → List ℕ → ℕ → Bool
occurs s p k = matches (drop k s) p

-- Where it stands first, if it does.
abbrev pub IsFirst : List ℕ → List ℕ → Option ℕ → Type 0
IsFirst s p none = (k : ℕ) → occurs s p k ≡ false
IsFirst s p (some k) = (occurs s p k ≡ true) × ((j : ℕ) → j < k → occurs s p j ≡ false)

-- The same search, one character after the other.
scan : ℕ → List ℕ → List ℕ → ℕ → ℕ → Option ℕ
scan c p [] n i = none
scan c p (x ∷ s) zero i = none
scan c p (x ∷ s) (suc n) i =
    let rest = scan c p s n (suc i) in if x == c && matches s p then some i else rest

module _ (c : ℕ) (p : List ℕ) where
  -- `memchr` skips what `scan` skips.
  Skips : List ℕ → ℕ → ℕ → Option ℕ → Type 0
  Skips s n i none = scan c p s n i ≡ none
  Skips s n i (some q) =
      (q < n)
      × (scan c p s n i ≡ (
          if matches (drop (suc q) s) p
          then some (i + q)
          else scan c p (drop (suc q) s) (n - suc q) (i + suc q)))

  skip_one :
      (x : ℕ) (s : List ℕ) (n i : ℕ) (o : Option ℕ)
      → (x == c) ≡ false
      → Skips s n (suc i) o
      → Skips (x ∷ s) (suc n) i (elim o [ none ↦ none | some k ↦ some (suc k) ])
  unfolding Skips scan
  skip_one x s n i none e h = rw e h
  skip_one x s n i (some q) e h =
      let e1 : suc i + q ≡ i + suc q = omega arith in
      let e2 : n - suc q ≡ suc n - suc (suc q) = omega arith in
      let e3 : suc i + suc q ≡ i + suc (suc q) = omega arith in
      (
        omega (arith, h.0),
        rw e (
            h.1 ∙ (λ j.
              if matches (drop (suc q) s) p
              then some (e1 j)
              else scan c p (drop (suc q) s) (e2 j) (e3 j))),
      )

  memchr-Skips : (s : List ℕ) (n i : ℕ) → Skips s n i (memchr s c n)
  unfolding Skips memchr scan
  memchr-Skips [] zero i = refl
  memchr-Skips [] (suc n) i = refl
  memchr-Skips (x ∷ s) zero i = refl
  memchr-Skips (x ∷ s) (suc n) i = elim (Bool-cases (x == c)) [
    | inl e ↦
        let e1 : i ≡ i + 0 = omega arith in
        let e2 : n ≡ suc n - 1 = omega arith in
        let e3 : suc i ≡ i + 1 = omega arith in
        rw (e, if◌then◌else◌)
          (omega arith, rw e (λ j. if matches s p then some (e1 j) else scan c p s (e2 j) (e3 j)))
    | inr e ↦ rw (e, if◌then◌else◌) (skip_one x s n i (memchr s c n) e (memchr-Skips s n (suc i)))
  ]

  scan-zero : (s : List ℕ) (i : ℕ) → scan c p s 0 i ≡ none
  unfolding scan
  scan-zero [] i = refl
  scan-zero (x ∷ s) i = refl

  find_loop-scan :
      (fuel : ℕ) (s : List ℕ) (n i : ℕ) → n ≤ fuel → find_loop fuel c p s n i ≡ scan c p s n i
  unfolding find_loop Skips
  find_loop-scan zero s n i h =
      let e : n ≡ 0 = omega (arith, h) in sym (ap (λ (m : ℕ). scan c p s m i) e ∙ scan-zero s i)
  find_loop-scan (suc fuel) s n i h =
      on (memchr s c n) (memchr-Skips s n i) (λ q lt.
        find_loop-scan fuel (drop (suc q) s) (n - suc q) (i + suc q) (omega (arith, h, lt)))
    where
      next : ℕ → Option ℕ
      next q = find_loop fuel c p (drop (suc q) s) (n - suc q) (i + suc q)

      on :
          (o : Option ℕ)
          → Skips s n i o
          → ((q : ℕ) → q < n → next q ≡ scan c p (drop (suc q) s) (n - suc q) (i + suc q))
          → elim o [
            | none ↦ none
            | some q ↦ if matches (drop (suc q) s) p then some (i + q) else next q
          ]
            ≡ scan c p s n i
      on none k same = sym k
      on (some q) k same =
          ap (λ (o : Option ℕ). if matches (drop (suc q) s) p then some (i + q) else o) (same q k.0)
          ∙ sym k.1

length-take-le : (n : ℕ) (s : List ℕ) → length (take n s) ≤ length s
length-take-le zero s = omega arith
length-take-le (suc n) [] = omega arith
length-take-le (suc n) (x ∷ s) = omega (arith, length-take-le n s)

length-drop-le : (n : ℕ) (s : List ℕ) → length (drop n s) ≤ length s
length-drop-le zero s = omega arith
length-drop-le (suc n) [] = omega arith
length-drop-le (suc n) (x ∷ s) = omega (arith, length-drop-le n s)

too_short : (s p : List ℕ) (k : ℕ) → length s < length p → occurs s p k ≡ false
too_short s p k h = elim (Bool-cases (occurs s p k)) [
  | inr e ↦ e
  | inl e ↦
      let same = ap length (same_bytes_eq (take (length p) (drop k s)) p e) in
      absurd (omega (arith, h, same, length-take-le (length p) (drop k s), length-drop-le k s))
]

module _ (c : ℕ) (p : List ℕ) where
  -- The same with the place counted from `i`.
  From : List ℕ → ℕ → Option ℕ → Type 0
  From s i none = (k : ℕ) → occurs s (c ∷ p) k ≡ false
  From s i (some r) =
      (k : ℕ) × (r ≡ i + k)
      × (occurs s (c ∷ p) k ≡ true)
      × ((j : ℕ) → j < k → occurs s (c ∷ p) j ≡ false)

  one_more :
      (x : ℕ) (s : List ℕ) (i : ℕ) (o : Option ℕ)
      → occurs (x ∷ s) (c ∷ p) 0 ≡ false
      → From s (suc i) o
      → From (x ∷ s) i o
  unfolding From
  one_more x s i none e h = by_place
    where
      by_place : (k : ℕ) → occurs (x ∷ s) (c ∷ p) k ≡ false
      by_place zero = e
      by_place (suc k) = h k
  one_more x s i (some r) e (k, at, found, before) = (suc k, omega (arith, at), found, by_place)
    where
      by_place : (j : ℕ) → j < suc k → occurs (x ∷ s) (c ∷ p) j ≡ false
      by_place zero lt = e
      by_place (suc j) lt = before j (omega (arith, lt))

  scan-From : (s : List ℕ) (n i : ℕ) → n ≡ length s - length p → From s i (scan c p s n i)
  unfolding scan From same_bytes
  scan-From [] n i e = λ k. too_short [] (c ∷ p) k (omega arith)
  scan-From (x ∷ s) zero i e = λ k. too_short (x ∷ s) (c ∷ p) k (omega (arith, e))
  scan-From (x ∷ s) (suc n) i e = elim (Bool-cases (x == c && matches s p)) [
    | inl f ↦ rw (f, if◌then◌else◌) (0, omega arith, f, λ j lt. absurd (omega (arith, lt)))
    | inr f ↦
        rw (f, if◌then◌else◌)
          (one_more x s i (scan c p s n (suc i)) f (scan-From s n (suc i) (omega (arith, e))))
  ]

  From-IsFirst : (s : List ℕ) (o : Option ℕ) → From s 0 o → IsFirst s (c ∷ p) o
  unfolding From
  From-IsFirst s none h = h
  From-IsFirst s (some r) (k, at, found, before) =
      let e : k ≡ r = omega (arith, at) in
      subst (λ (n : ℕ). IsFirst s (c ∷ p) (some n)) e (found, before)

-- `lj_str_find` returns the first place where the string occurs, and none only if it does not occur.
pub lj_str_find-IsFirst : (s p : List ℕ) → IsFirst s p (lj_str_find s p)
unfolding lj_str_find same_bytes
lj_str_find-IsFirst s [] = (refl, λ j lt. absurd (omega (arith, lt)))
lj_str_find-IsFirst s (c ∷ p) = elim (Bool-cases (leb (length p + 1) (length s))) [
  | inl e ↦
      let n = length s - length p in
      rw (e, if◌then◌else◌, find_loop-scan c p n s n 0 (omega arith))
        (From-IsFirst c p s (scan c p s n 0) (scan-From c p s n 0 refl))
  | inr e ↦ rw (e, if◌then◌else◌) (λ k. too_short s (c ∷ p) k (ground (arith, e)))
]
