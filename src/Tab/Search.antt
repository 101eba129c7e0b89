-- ===== src/Tab/Search.antt =====
-- The searches of lj_tab.c find a border: a key with a value, or 0, before a key without one.
use omniajit.Prelude.{
  ℕ, zero, suc, ◌+◌, ◌-◌, ◌*◌, ◌/◌, ◌^◌, ◌≤◌, ◌<◌, ◌≡◌, ◌⊎◌, inl, inr, refl, sym, ap, arith, Bool,
  true, false, ltb, some, Bool-cases, dec_lt,
}
use native.Mathlib.Nat.{pow-suc}
use omniajit.Tab.{Tab, Numbers}
use omniajit.Tab.Length.{is_set, binary_search, linear_search, widen}

abbrev pub Border : (ℕ → Bool) → ℕ → Type 0
Border f n = ((n ≡ 0) ⊎ (f n ≡ true)) × (f (suc n) ≡ false)

pub binary_search-Border :
    (f : ℕ → Bool) (fuel lo hi : ℕ)
    → lo < hi
    → hi ≤ fuel + lo
    → (lo ≡ 0) ⊎ (f lo ≡ true)
    → f hi ≡ false
    → Border f (binary_search f fuel lo hi)
unfolding binary_search
binary_search-Border f zero lo hi lt le l h = absurd (omega arith)
binary_search-Border f (suc fuel) lo hi lt le l h = elim (dec_lt 1 (hi - lo)) [
  | yes p ↦
      let mid = (lo + hi) / 2 in
      let upper = binary_search-Border f fuel mid hi (omega arith) (omega arith) in
      let lower = binary_search-Border f fuel lo mid (omega arith) (omega arith) l in
      elim (Bool-cases (f mid)) [
        | inl e ↦ ground (arith, e, upper (inr e) h)
        | inr e ↦ ground (arith, e, lower e)
      ]
  | no p ↦
      let stop : ltb 1 (hi - lo) ≡ false = ground arith in
      let e : hi ≡ suc lo = omega arith in rw stop (l, rw (sym e) h)
]

pub binary_search-lt : (f : ℕ → Bool) (fuel lo hi : ℕ) → lo < hi → binary_search f fuel lo hi < hi
unfolding binary_search
binary_search-lt f zero lo hi lt = lt
binary_search-lt f (suc fuel) lo hi lt = elim (dec_lt 1 (hi - lo)) [
  | yes p ↦
      let mid = (lo + hi) / 2 in
      let upper = binary_search-lt f fuel mid hi (omega arith) in
      let lower = binary_search-lt f fuel lo mid (omega arith) in
      elim (Bool-cases (f mid)) [
        | inl e ↦ ground (arith, e, upper)
        | inr e ↦ ground (arith, e, lower)
      ]
  | no p ↦ ground arith
]

module _ {V : Type 0} (numbers : Numbers) (t : Tab V) where
  pub linear_search-Border :
      (fuel lo k : ℕ)
      → (lo ≡ 0) ⊎ (is_set numbers t lo ≡ true)
      → suc lo ≤ k
      → is_set numbers t k ≡ false
      → k < fuel + suc lo
      → (n : ℕ) × (linear_search numbers t fuel (suc lo) ≡ some n) × Border (is_set numbers t) n
  unfolding linear_search
  linear_search-Border zero lo k l le e enough = absurd (omega arith)
  linear_search-Border (suc fuel) lo k l le e enough =
      elim (Bool-cases (is_set numbers t (suc lo))) [
        | inl s ↦
            let distinct : suc (suc lo) ≤ k = elim (dec_lt (suc lo) k) [
              | yes p ↦ p
              | no p ↦ (let same : k ≡ suc lo = omega arith in absurd (cc (s, e, same)))
            ] in
            rw (linear_search, s)
              (linear_search-Border fuel (suc lo) k (inr s) distinct e (omega arith))
        | inr s ↦ rw (linear_search, s) (lo, ap some (omega arith), (l, s))
      ]

  pub widen-Border :
      (k : ℕ)
      → 0 < k
      → k < 2 ^ 31
      → is_set numbers t k ≡ false
      → (fuel lo hi : ℕ) → (lo ≡ 0) ⊎ (is_set numbers t lo ≡ true)
      → lo < hi
      → hi ≤ 2 ^ 31 - 3
      → 2 ^ 31 - 3 < hi * 2 ^ fuel
      → (n : ℕ) × (widen numbers t fuel lo hi ≡ some n) × Border (is_set numbers t) n
  unfolding widen
  widen-Border k some_key bound e zero lo hi l lt le enough = absurd (omega arith)
  widen-Border k some_key bound e (suc fuel) lo hi l lt le enough =
      elim (Bool-cases (is_set numbers t hi)) [
        | inl s ↦ elim (Bool-cases (ltb (2 ^ 31 - 3) (hi + hi))) [
          | inl far ↦
              rw (widen, s, far)
                (linear_search-Border (2 ^ 31) 0 k (inl refl) some_key e (omega arith))
          | inr near ↦
              rw (widen, s, near)
                (widen-Border k some_key bound e fuel hi (hi + hi) (inr s) (omega arith)
                  (ground arith) (grind (arith, enough, ap (λ (x : ℕ). hi * x) (pow-suc 2 fuel))))
        ]
        | inr s ↦
            rw (widen, s)
              (
                binary_search (is_set numbers t) hi lo hi,
                refl,
                binary_search-Border (is_set numbers t) hi lo hi lt (omega arith) l s,
              )
      ]
