-- ===== src/Str/Count.antt =====
-- How many strings of a table have a property.
use omniajit.Prelude.{
  ℕ, zero, suc, ◌+◌, ◌≤◌, ◌<◌, ◌≡◌, ◌≢◌, refl, ap, ◌∙◌, arith, List, [], ◌∷◌, ◌==◌, if◌then◌else◌,
  Bool, true, Bool-cases, inl, inr, leb, false,
}
use omniajit.Str.{StrObj, set_at, push, same_bytes}

abbrev pub one : Bool → ℕ
one b = if b then 1 else 0

abbrev pub count : (StrObj → Bool) → List StrObj → ℕ
count P [] = 0
count P (x ∷ xs) = one (P x) + count P xs

-- In the first `n` chains.
abbrev pub total : (StrObj → Bool) → (ℕ → List StrObj) → ℕ → ℕ
total P tab zero = 0
total P tab (suc i) = count P (tab i) + total P tab i

pub set_at_self : {A : Type 0} (tab : ℕ → A) (i : ℕ) (c : A) → set_at tab i c i ≡ c
set_at_self tab i c = let e : (i == i) ≡ true = ground arith in rw (e, if◌then◌else◌) refl

pub set_at_ne : {A : Type 0} (tab : ℕ → A) (i j : ℕ) (c : A) → j ≢ i → set_at tab i c j ≡ tab j
set_at_ne tab i j c h = let e : (j == i) ≡ false = ground (arith, h) in rw (e, if◌then◌else◌) refl

module _ (P : StrObj → Bool) where
  total-set_out :
      (tab : ℕ → List StrObj) (i n : ℕ) (c : List StrObj)
      → n ≤ i
      → total P (set_at tab i c) n ≡ total P tab n
  total-set_out tab i zero c h = refl
  total-set_out tab i (suc n) c h =
      let ne : n ≢ i = λ e. absurd (omega (arith, e, h)) in
      rw (set_at_ne tab i n c ne, total-set_out tab i n c (omega arith)) refl

  pub total-set :
      (tab : ℕ → List StrObj) (i n : ℕ) (c : List StrObj)
      → i < n
      → total P (set_at tab i c) n + count P (tab i) ≡ total P tab n + count P c
  total-set tab i zero c h = absurd (omega arith)
  total-set tab i (suc n) c h = elim (Bool-cases (n == i)) [
    | inl e ↦
        let same : n ≡ i = ground (arith, e) in
        let here = ap (count P) (ap (set_at tab i c) same ∙ set_at_self tab i c) in
        let old = ap (λ (j : ℕ). count P (tab j)) same in
        omega (arith, here, old, total-set_out tab i n c (omega (arith, same)))
    | inr e ↦
        let ne : n ≢ i = ground (arith, e) in
        rw (set_at_ne tab i n c ne) (omega (arith, total-set tab i n c (omega (arith, ne))))
  ]

  pub total-push :
      (tab : ℕ → List StrObj) (i n : ℕ) (x : StrObj)
      → i < n
      → total P (push tab i x) n ≡ total P tab n + one (P x)
  total-push tab i n x h = omega (arith, total-set tab i n (x ∷ tab i) h)

  -- Only one chain has such strings.
  pub total-le-count :
      (tab : ℕ → List StrObj) (i n : ℕ)
      → ((j : ℕ) → j ≢ i → count P (tab j) ≡ 0)
      → total P tab n ≤ count P (tab i)
  total-le-count tab i n h = elim (Bool-cases (leb n i)) [
    | inl e ↦ omega (arith, none_below n (ground (arith, e)))
    | inr e ↦ some_below n (ground (arith, e))
  ]
    where
      none_below : (n : ℕ) → n ≤ i → total P tab n ≡ 0
      none_below zero le = refl
      none_below (suc n) le =
          omega (arith, h n (λ e. absurd (omega (arith, e, le))), none_below n (omega arith))

      some_below : (n : ℕ) → i < n → total P tab n ≤ count P (tab i)
      some_below zero lt = absurd (omega arith)
      some_below (suc n) lt = elim (Bool-cases (n == i)) [
        | inl e ↦
            let same : n ≡ i = ground (arith, e) in
            rw same (omega (arith, none_below i (omega arith)))
        | inr e ↦
            let ne : n ≢ i = ground (arith, e) in
            omega (arith, h n ne, some_below n (omega (arith, ne, lt)))
      ]

pub count-le :
    (P Q : StrObj → Bool) (xs : List StrObj)
    → ((x : StrObj) → one (P x) ≤ one (Q x))
    → count P xs ≤ count Q xs
count-le P Q [] h = omega arith
count-le P Q (x ∷ xs) h = omega (arith, h x, count-le P Q xs h)

pub total-le :
    (P Q : StrObj → Bool) (tab : ℕ → List StrObj) (n : ℕ)
    → ((x : StrObj) → one (P x) ≤ one (Q x))
    → total P tab n ≤ total Q tab n
total-le P Q tab zero h = omega arith
total-le P Q tab (suc n) h = omega (arith, count-le P Q (tab n) h, total-le P Q tab n h)

-- Two properties of which no string has both.
count-add-le :
    (P Q R : StrObj → Bool) (xs : List StrObj)
    → ((x : StrObj) → one (P x) + one (Q x) ≤ one (R x))
    → count P xs + count Q xs ≤ count R xs
count-add-le P Q R [] h = omega arith
count-add-le P Q R (x ∷ xs) h = omega (arith, h x, count-add-le P Q R xs h)

pub total-add-le :
    (P Q R : StrObj → Bool) (tab : ℕ → List StrObj) (n : ℕ)
    → ((x : StrObj) → one (P x) + one (Q x) ≤ one (R x))
    → total P tab n + total Q tab n ≤ total R tab n
total-add-le P Q R tab zero h = omega arith
total-add-le P Q R tab (suc n) h =
    omega (arith, count-add-le P Q R (tab n) h, total-add-le P Q R tab n h)

pub same_bytes_self : (xs : List ℕ) → same_bytes xs xs ≡ true
unfolding same_bytes
same_bytes_self [] = refl
same_bytes_self (x ∷ xs) = let e : (x == x) ≡ true = ground arith in rw (e, same_bytes_self xs) refl

pub same_bytes_eq : (xs ys : List ℕ) → same_bytes xs ys ≡ true → xs ≡ ys
unfolding same_bytes
same_bytes_eq [] [] h = refl
same_bytes_eq [] (y ∷ ys) h = absurd (ground (arith, h))
same_bytes_eq (x ∷ xs) [] h = absurd (ground (arith, h))
same_bytes_eq (x ∷ xs) (y ∷ ys) h = ground (arith, h, same_bytes_eq xs ys)
