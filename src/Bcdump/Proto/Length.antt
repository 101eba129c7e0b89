-- ===== src/Bcdump/Proto/Length.antt =====
-- The length in front of a prototype: `bcwrite_proto` takes its bytes to be `(lj_fls(n)+8)*9 >> 6`.
use omniajit.Prelude.{
  ℕ, zero, suc, ◌+◌, ◌-◌, ◌*◌, ◌/◌, ◌^◌, ◌≤◌, ◌<◌, ◌≡◌, refl, ap, ◌∙◌, arith, List, [], ◌∷◌, ◌++◌,
  length, take, drop, length-append, replicate, dec_lt,
}
use native.Mathlib.Nat.{pow-suc, one-le-pow}
use omniajit.Uleb.{wuleb128}
use omniajit.Uleb.Write.{wuleb128_last, wuleb128_more}
use omniajit.Tab.Sizes.{fls}
use omniajit.Bcdump.Proto.{overwrite, with_length}

fls_le : (bits k x : ℕ) → x < 2 ^ suc k → fls bits x ≤ k
unfolding fls
fls_le zero k x h = omega arith
fls_le (suc bits) zero x h = ground arith
fls_le (suc bits) (suc k) x h =
    let half = fls_le bits k (x / 2) (omega (arith, pow-suc 2 (suc k), h)) in ground (arith, half)

le-fls : (bits k x : ℕ) → k ≤ bits → 2 ^ k ≤ x → k ≤ fls bits x
unfolding fls
le-fls bits zero x h l = omega arith
le-fls zero (suc k) x h l = absurd (omega arith)
le-fls (suc bits) (suc k) x h l =
    let half = le-fls bits k (x / 2) (omega arith) (omega (arith, pow-suc 2 k, l)) in
    let some_bits : 0 < 2 ^ k = one-le-pow k 2 (omega arith) in ground (arith, half, pow-suc 2 k)

length-groups : (k n : ℕ) → 128 ^ k ≤ n → n < 128 ^ suc k → length (wuleb128 n) ≡ suc k
length-groups zero n h l = rw (wuleb128_last n (omega (arith, l))) refl
length-groups (suc k) n h l =
    let some_left : 0 < 128 ^ k = one-le-pow k 128 (omega arith) in
    rw (wuleb128_more n (omega (arith, pow-suc 128 k, h))) (
      ap suc (
        length-groups k (n / 2 ^ 7) (omega (arith, pow-suc 128 k, h))
          (omega (arith, pow-suc 128 (suc k), l))))

length-wuleb128 : (n : ℕ) → 0 < n → n < 2 ^ 32 → length (wuleb128 n) ≡ (fls 31 n + 8) * 9 / 2 ^ 6
length-wuleb128 n pos h = elim (dec_lt n (128 ^ 1)) [
  | yes p ↦ length-groups 0 n pos p ∙ omega (arith, fls_le 31 6 n p)
  | no p ↦ elim (dec_lt n (128 ^ 2)) [
    | yes q ↦
        length-groups 1 n (omega arith) q
        ∙ omega (arith, fls_le 31 13 n q, le-fls 31 7 n (omega arith) (omega arith))
    | no q ↦ elim (dec_lt n (128 ^ 3)) [
      | yes r ↦
          length-groups 2 n (omega arith) r
          ∙ omega (arith, fls_le 31 20 n r, le-fls 31 14 n (omega arith) (omega arith))
      | no r ↦ elim (dec_lt n (128 ^ 4)) [
        | yes s ↦
            length-groups 3 n (omega arith) s
            ∙ omega (arith, fls_le 31 27 n s, le-fls 31 21 n (omega arith) (omega arith))
        | no s ↦
            length-groups 4 n (omega arith) (omega arith)
            ∙ omega (arith, fls_le 31 31 n h, le-fls 31 28 n (omega arith) (omega arith))
      ]
    ]
  ]
]

take-length : (p : List ℕ) → take (length p) p ≡ p
take-length [] = refl
take-length (b ∷ p) = ap (λ q. b ∷ q) (take-length p)

room :
    (q p : List ℕ)
    → 0 < length q
    → length q ≤ 5
    → let at = 5 - length q in
      take (length (q ++ p)) (drop at (overwrite at q (replicate 5 0 ++ p))) ≡ q ++ p
room [] p h l = absurd (omega arith)
room (a ∷ []) p h l = ap (λ r. a ∷ r) (take-length p)
room (a ∷ b ∷ []) p h l = ap (λ r. a ∷ b ∷ r) (take-length p)
room (a ∷ b ∷ c ∷ []) p h l = ap (λ r. a ∷ b ∷ c ∷ r) (take-length p)
room (a ∷ b ∷ c ∷ d ∷ []) p h l = ap (λ r. a ∷ b ∷ c ∷ d ∷ r) (take-length p)
room (a ∷ b ∷ c ∷ d ∷ e ∷ []) p h l = ap (λ r. a ∷ b ∷ c ∷ d ∷ e ∷ r) (take-length p)
room (a ∷ b ∷ c ∷ d ∷ e ∷ f ∷ q) p h l = absurd (omega arith)

-- The bytes that bcwrite_proto computes for the length of a prototype are those that
-- lj_strfmt_wuleb128 writes, so that the length ends where the prototype begins; it is positive
-- and below 2^32.
pub with_length_lem :
    (p : List ℕ) → 0 < length p → length p < 2 ^ 32 → with_length p ≡ wuleb128 (length p) ++ p
unfolding with_length
with_length_lem p some_byte fits =
    let q = wuleb128 (length p) in
    let e = length-wuleb128 (length p) some_byte fits in
    let top = fls_le 31 31 (length p) fits in
    rw (← e, ← length-append q p) (room q p (omega (arith, e)) (omega (arith, e, top)))

pub length-wuleb128_le : (n : ℕ) → n < 2 ^ 32 → length (wuleb128 n) ≤ 5
length-wuleb128_le zero h = rw (wuleb128_last 0 (omega arith)) (omega arith)
length-wuleb128_le (suc n) h =
    omega (arith, length-wuleb128 (suc n) (omega arith) h, fls_le 31 31 (suc n) h)

pub length-wuleb128-pos : (n : ℕ) → 0 < length (wuleb128 n)
length-wuleb128-pos n = elim (dec_lt n 128) [
  | yes p ↦ rw (wuleb128_last n p) (omega arith)
  | no p ↦ rw (wuleb128_more n (omega arith)) (omega arith)
]
