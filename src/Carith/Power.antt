-- ===== src/Carith/Power.antt =====
-- `lj_carith_powu64` computes the power modulo `2 ^ 64`.
use omniajit.Prelude.{
  ℕ, zero, suc, ◌+◌, ◌*◌, ◌/◌, ◌%◌, ◌^◌, ◌≤◌, ◌<◌, ◌≡◌, refl, ◌∙◌, ap, arith, some, Bool-cases, inl,
  inr, if◌then◌else◌, ◌==◌, ==_iff,
}
use omniajit.Prelude.Powers.{
  mul_mod_right, mul_mod_congr, pow-square_mod, square_mod-pow, pow_one, pow_odd,
}
use native.Mathlib.Nat.{pow-suc, pow-zero, mod-mod}
use omniajit.Carith.{word, square_even, multiply_bits, powu64}

half_sum : (k : ℕ) → k ≡ k / 2 + k / 2 + k % 2
half_sum k = omega arith

-- The first loop ends with an odd exponent and keeps the power.
square_even_lem :
    (fuel x k : ℕ)
    → 0 < k
    → k < 2 ^ fuel
    → x < 2 ^ 64
    → (x' : ℕ) × (k' : ℕ) × (square_even fuel x k ≡ some (x', k'))
      × (k' % 2 ≡ 1)
      × (k' ≤ k)
      × (x' < 2 ^ 64)
      × (x' ^ k' % 2 ^ 64 ≡ x ^ k % 2 ^ 64)
unfolding square_even
square_even_lem zero x k pos h fits = absurd (omega arith)
square_even_lem (suc fuel) x k pos h fits = elim (Bool-cases (k % 2 == 0)) [
  | inr odd ↦ (x, k, rw odd, ground arith, omega arith, fits, refl)
  | inl even ↦
      let e : k / 2 + k / 2 ≡ k = ground arith in
      let (x', k', run, odd, le, fits', power) =
        square_even_lem fuel (word (x * x)) (k / 2) (omega arith) (omega (arith, pow-suc 2 fuel))
          (omega arith) in
      (
        x',
        k',
        rw even run,
        odd,
        omega arith,
        fits',
        power ∙ square_mod-pow (2 ^ 64) x (k / 2) ∙ ap (λ (t : ℕ). x ^ t % 2 ^ 64) e,
      )
]

-- One round of the second loop, for an even and an odd rest of the exponent.
even_round : (x y k : ℕ) → k % 2 ≡ 0 → y * (word x * word x) ^ (k / 2) % 2 ^ 64 ≡ y * x ^ k % 2 ^ 64
even_round x y k even =
    mul_mod_congr (2 ^ 64) y _ y _ refl
      (pow-square_mod (2 ^ 64) x (k / 2) ∙ ap (λ (t : ℕ). x ^ t % 2 ^ 64) (omega arith))

odd_round :
    (x y k : ℕ)
    → k % 2 ≡ 1
    → word (y * word x) * (word x * word x) ^ (k / 2) % 2 ^ 64 ≡ y * x ^ k % 2 ^ 64
odd_round x y k odd =
    mul_mod_congr (2 ^ 64) (word (y * word x)) _ (y * x) (x ^ (k / 2 + k / 2))
      (mod-mod (y * word x) (2 ^ 64) ∙ mul_mod_right (2 ^ 64) y x)
      (pow-square_mod (2 ^ 64) x (k / 2))
    ∙ ap (λ (t : ℕ). t % 2 ^ 64) (regroup ∙ ap (λ (t : ℕ). y * x ^ t) (omega arith))
  where
    regroup : y * x * x ^ (k / 2 + k / 2) ≡ y * x ^ suc (k / 2 + k / 2)
    regroup = rw pow-suc (omega arith)

multiply_bits_lem :
    (fuel x y k : ℕ)
    → 0 < k
    → k < 2 ^ fuel
    → multiply_bits fuel x y k ≡ some (y * (x * x) ^ k % 2 ^ 64)
unfolding multiply_bits
multiply_bits_lem zero x y k pos h = absurd (omega arith)
multiply_bits_lem (suc fuel) x y k pos h = elim (Bool-cases (k == 1)) [
  | inl last ↦ rw ((==_iff k 1).0 last) (ap some (mul_mod_right (2 ^ 64) y (x * x) ∙ rw pow_one))
  | inr more ↦ elim (Bool-cases (k % 2 == 1)) [
    | inl odd ↦
        rw (more, odd)
          (multiply_bits_lem fuel (word (x * x)) (word (y * word (x * x))) (k / 2) (ground arith)
              (omega (arith, pow-suc 2 fuel))
            ∙ ap some (odd_round (x * x) y k (ground arith)))
    | inr even ↦
        rw (more, even)
          (multiply_bits_lem fuel (word (x * x)) y (k / 2) (ground arith)
              (omega (arith, pow-suc 2 fuel))
            ∙ ap some (even_round (x * x) y k (ground arith)))
  ]
]

powu64_loops :
    (x k x' k' : ℕ)
    → 0 < k
    → square_even 64 x k ≡ some (x', k')
    → powu64 x k ≡ (if k' / 2 == 0 then some x' else multiply_bits 64 x' x' (k' / 2))
unfolding powu64
powu64_loops x k x' k' pos run = ground arith

-- `lj_carith_powu64` ends for every 64 bit exponent, and returns the power modulo `2 ^ 64`.
pub powu64_lem : (x k : ℕ) → x < 2 ^ 64 → k < 2 ^ 64 → powu64 x k ≡ some (x ^ k % 2 ^ 64)
powu64_lem x zero hx hk = unfold powu64 in rw pow-zero
powu64_lem x (suc n) hx hk =
    let (x', k', run, odd, le, fits, power) = square_even_lem 64 x (suc n) (omega arith) hk hx in
    elim (Bool-cases (k' / 2 == 0)) [
      | inl last ↦
          let one : k' ≡ 1 = ground arith in
          let same : x' ≡ x' ^ k' % 2 ^ 64 = rw (one, pow_one) (omega arith) in
          rw (powu64_loops x (suc n) x' k' (omega arith) run, last) (ap some (same ∙ power))
      | inr more ↦
          rw (powu64_loops x (suc n) x' k' (omega arith) run, more)
            (multiply_bits_lem 64 x' x' (k' / 2) (ground arith) (omega arith)
              ∙ ap some (ap (λ (t : ℕ). t % 2 ^ 64) (pow_odd x' k' odd) ∙ power))
    ]
