-- ===== src/Tab/Optimal.antt =====
-- `bestasize` chooses the largest array part of which more than a quarter is used.
use omniajit.Prelude.{
  ℕ, zero, suc, ◌+◌, ◌*◌, ◌%◌, ◌^◌, ◌≤◌, ◌<◌, ◌≡◌, ◌⊎◌, inl, inr, refl, ap, arith, List, [], ◌∷◌,
  not, ◌&&◌, ltb, ◌==◌, if◌then◌else◌, Bool-cases, take, length,
}
use native.Mathlib.Nat.{pow-suc, pow-le-pow_right}
use omniajit.Tab.Sizes.{best, bestasize}

unfoldable pub total : List ℕ → ℕ
total [] = 0
total (n ∷ bins) = n + total bins

-- The loop of `bestasize` with numbers of any size.
unfoldable chosen : ℕ → ℕ → ℕ → ℕ → ℕ → List ℕ → ℕ × ℕ
chosen nn b sum na sz [] = (na, sz)
chosen nn b sum na sz (n ∷ bins) =
    let sum' = sum + n in
    let taken = chosen nn (suc b) sum' sum' (2 * 2 ^ b + 1) bins in
    let passed = chosen nn (suc b) sum' na sz bins in
    if ltb (2 ^ b) (2 * nn) && not (sum == nn)
    then if ltb 0 n && ltb (2 ^ b) (2 * sum') then taken else passed
    else (na, sz)

-- No word wraps around where there are fewer than `2 ^ 31` keys, and no more than 31 bins.
best-chosen :
    (nn : ℕ) (bins : List ℕ) (b sum na sz : ℕ)
    → nn < 2 ^ 31
    → sum + total bins ≡ nn
    → b + length bins ≤ 31
    → best nn b sum na sz bins ≡ chosen nn b sum na sz bins
unfolding best chosen total
best-chosen nn [] b sum na sz small all few = refl
best-chosen nn (n ∷ bins) b sum na sz small all few =
    let low : 2 ^ b ≤ 2 ^ 30 =
      pow-le-pow_right {n = 2} (omega arith) {i = b} {j = 30} (omega (arith, few)) in
    let bit : 2 ^ b % 2 ^ 32 ≡ 2 ^ b = omega (arith, low) in
    let size : (2 * 2 ^ b % 2 ^ 32 + 1) % 2 ^ 32 ≡ 2 * 2 ^ b + 1 = omega (arith, low) in
    let sum' : (sum + n) % 2 ^ 32 ≡ sum + n = omega (arith, small, all) in
    let twice : 2 * (sum + n) % 2 ^ 32 ≡ 2 * (sum + n) = omega (arith, small, all) in
    let limit : 2 * nn % 2 ^ 32 ≡ 2 * nn = omega (arith, small) in
    let next : (na' sz' : ℕ)
        → best nn (suc b) (sum + n) na' sz' bins ≡ chosen nn (suc b) (sum + n) na' sz' bins =
      λ na' sz'.
        best-chosen nn bins (suc b) (sum + n) na' sz' small (omega (arith, all))
          (omega (arith, few)) in
    rw (sum', bit, size, limit, twice, next (sum + n) (2 * 2 ^ b + 1), next na sz) refl

-- The number of keys in the first `suc k` bins.
abbrev pub keys : List ℕ → ℕ → ℕ
keys bins k = total (take (suc k) bins)

keys-le : (k : ℕ) (bins : List ℕ) → total (take k bins) ≤ total bins
unfolding total
keys-le zero bins = omega arith
keys-le (suc k) [] = omega arith
keys-le (suc k) (n ∷ bins) = omega (arith, keys-le k bins)

-- No prefix of the bins with enough keys has more of them than `na`.
abbrev pub IsMaximal : ℕ → ℕ → List ℕ → ℕ → Type 0
IsMaximal b sum bins na = (k : ℕ) → 2 ^ (b + k) < 2 * (sum + keys bins k) → sum + keys bins k ≤ na

-- `sz` is the size for a prefix of the bins with enough keys, `na` of them.
abbrev pub IsChoice : ℕ → ℕ → List ℕ → ℕ → ℕ → Type 0
IsChoice b sum bins na sz =
    (k : ℕ) × (sz ≡ 2 * 2 ^ (b + k) + 1) × (na ≡ sum + keys bins k) × (2 ^ (b + k) < 2 * na)

chosen-na_le : (nn b sum na sz : ℕ) (bins : List ℕ) → na ≤ sum → na ≤ (chosen nn b sum na sz bins).0
unfolding chosen
chosen-na_le nn b sum na sz [] h = omega arith
chosen-na_le nn b sum na sz (n ∷ bins) h = ground (
  arith,
  chosen-na_le nn (suc b) (sum + n) (sum + n) (2 * 2 ^ b + 1) bins,
  chosen-na_le nn (suc b) (sum + n) na sz bins,
)

pow_grows : (b k : ℕ) → 2 ^ b ≤ 2 ^ (b + k)
pow_grows b k = pow-le-pow_right {n = 2} (omega arith) {i = b} {j = b + k} (omega arith)

-- From the bins behind the first one to all of them.
IsMaximal-step :
    (b sum n na : ℕ) (bins : List ℕ)
    → (2 ^ b < 2 * (sum + n) → sum + n ≤ na)
    → IsMaximal (suc b) (sum + n) bins na
    → IsMaximal b sum (n ∷ bins) na
unfolding total
IsMaximal-step b sum n na bins first later zero big = omega (arith, first (ground (arith, big)))
IsMaximal-step b sum n na bins first later (suc k) big =
    let e : b + suc k ≡ suc b + k = omega arith in
    let same : 2 ^ (b + suc k) ≡ 2 ^ (suc b + k) = ap (λ (x : ℕ). 2 ^ x) e in
    omega (arith, later k (omega (arith, big, same)))

IsChoice-step :
    (b sum n na sz : ℕ) (bins : List ℕ)
    → IsChoice (suc b) (sum + n) bins na sz
    → IsChoice b sum (n ∷ bins) na sz
unfolding total
IsChoice-step b sum n na sz bins (k, size, count, enough) =
    let e : suc b + k ≡ b + suc k = omega arith in
    let same : 2 ^ (suc b + k) ≡ 2 ^ (b + suc k) = ap (λ (x : ℕ). 2 ^ x) e in
    (suc k, omega (arith, size, same), omega (arith, count), omega (arith, enough, same))

module _ (nn : ℕ) where
  chosen-IsMaximal :
      (bins : List ℕ) (b sum na sz : ℕ)
      → sum + total bins ≡ nn
      → na ≤ sum
      → (2 ^ b < 4 * sum → na ≡ sum)
      → IsMaximal b sum bins (chosen nn b sum na sz bins).0
  unfolding chosen total ◌&&◌ not
  chosen-IsMaximal [] b sum na sz all le full =
      λ k big. omega (arith, full (omega (arith, pow_grows b k, big)))
  chosen-IsMaximal (n ∷ bins) b sum na sz all le full =
      let sum' = sum + n in
      elim (Bool-cases (ltb (2 ^ b) (2 * nn) && not (sum == nn))) [
        | inl more ↦ elim (Bool-cases (ltb 0 n && ltb (2 ^ b) (2 * (sum + n)))) [
          | inl taken ↦
              let sz' = 2 * 2 ^ b + 1 in
              rw (more, if◌then◌else◌, taken)
                (IsMaximal-step b sum n _ bins
                  (λ h. chosen-na_le nn (suc b) sum' sum' sz' bins (omega arith))
                  (chosen-IsMaximal bins (suc b) sum' sum' sz' (omega arith) (omega arith)
                    (λ h. refl)))
          | inr passed ↦
              let rule : (2 ^ b < 2 * (sum + n)) → n ≡ 0 = λ h. ground (arith, passed) in
              let kept : (2 ^ b < 2 * (sum + n)) → na ≡ sum' =
                λ h. omega (arith, rule h, full (omega (arith, rule h))) in
              rw (more, if◌then◌else◌, passed)
                (IsMaximal-step b sum n _ bins
                  (λ h.
                    omega (arith, kept h, chosen-na_le nn (suc b) sum' na sz bins (omega arith)))
                  (chosen-IsMaximal bins (suc b) sum' na sz (omega arith) (omega arith)
                    (λ h. kept (omega (arith, pow-suc 2 b)))))
        ]
        | inr stop ↦
            rw (stop, if◌then◌else◌)
              (λ k big.
                let few = keys-le (suc k) (n ∷ bins) in
                ground (arith, stop, few, pow_grows b k, big, full))
      ]

  chosen-IsChoice :
      (bins : List ℕ) (b sum na sz : ℕ)
      → let r = chosen nn b sum na sz bins in
        ((r.0 ≡ na) × (r.1 ≡ sz)) ⊎ IsChoice b sum bins r.0 r.1
  unfolding chosen total ◌&&◌ not
  chosen-IsChoice [] b sum na sz = inl (refl, refl)
  chosen-IsChoice (n ∷ bins) b sum na sz =
      let sum' = sum + n in
      elim (Bool-cases (ltb (2 ^ b) (2 * nn) && not (sum == nn))) [
        | inl more ↦ elim (Bool-cases (ltb 0 n && ltb (2 ^ b) (2 * (sum + n)))) [
          | inl taken ↦
              let sz' = 2 * 2 ^ b + 1 in
              rw (more, if◌then◌else◌, taken)
                (elim (chosen-IsChoice bins (suc b) sum' sum' sz') [
                  | inl (e, f) ↦
                      inr (0, ground (arith, f), omega (arith, e), ground (arith, e, taken))
                  | inr choice ↦ inr (IsChoice-step b sum n _ _ bins choice)
                ])
          | inr passed ↦
              rw (more, if◌then◌else◌, passed)
                (elim (chosen-IsChoice bins (suc b) sum' na sz) [
                  | inl same ↦ inl same
                  | inr choice ↦ inr (IsChoice-step b sum n _ _ bins choice)
                ])
        ]
        | inr stop ↦ rw (stop, if◌then◌else◌) (inl (refl, refl))
      ]

abbrev lj_max_abits : ℕ
lj_max_abits = 28

-- `bestasize` returns the array size and the number of its keys: no array of a power of two slots
-- that is used by more than a quarter has more keys than the chosen one, which is such an array,
-- or empty. The bins have all keys, which are fewer than 2^31, and there are no more than
-- LJ_MAX_ABITS bins.
pub bestasize_lem :
    (bins : List ℕ) (narray : ℕ)
    → total bins ≡ narray
    → narray < 2 ^ 31
    → length bins ≤ lj_max_abits
    → let r = bestasize bins narray in
      IsMaximal 0 0 bins r.0 × (((r.0 ≡ 0) × (r.1 ≡ 0)) ⊎ IsChoice 0 0 bins r.0 r.1)
unfolding bestasize
bestasize_lem bins narray all small few =
    rw (best-chosen narray bins 0 0 0 0 small (omega (arith, all)) (omega (arith, few))) (
      chosen-IsMaximal narray bins 0 0 0 0 (omega (arith, all)) (omega arith) (λ h. refl),
      chosen-IsChoice narray bins 0 0 0 0,
    )
