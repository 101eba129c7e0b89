-- ===== src/Tab/Chain.antt =====
-- The walk along a chain of the hash part has enough fuel where the chains end.
use omniajit.Prelude.{ℕ, zero, suc, ◌<◌, ◌≡◌, inl, inr, arith, some, Bool-cases, Option-cases}
use omniajit.Tab.{Tab, Numbers, node_at, find_num, is_key}

-- More fuel than the links that follow a node makes no difference: `rank` falls along the links.
pub find_num-fuel :
    {V : Type 0} (numbers : Numbers) (t : Tab V) (k : ℕ × ℕ) (rank : ℕ → ℕ)
    → ((n m : ℕ) → (node_at t n).next ≡ some m → rank m < rank n)
    → (fuel more n : ℕ) → rank n < fuel
    → rank n < more
    → find_num numbers t k fuel n ≡ find_num numbers t k more n
unfolding find_num
find_num-fuel numbers t k rank falls zero more n h l = absurd (omega arith)
find_num-fuel numbers t k rank falls (suc fuel) zero n h l = absurd (omega arith)
find_num-fuel numbers t k rank falls (suc fuel) (suc more) n h l =
    elim (Bool-cases (is_key numbers k (node_at t n))) [
      | inl here ↦ ground (arith, here)
      | inr other ↦ elim (Option-cases (node_at t n).next) [
        | inl end ↦ ground (arith, other, end)
        | inr (m, e) ↦
            let shorter = falls n m e in
            ground (
              arith,
              other,
              e,
              find_num-fuel numbers t k rank falls fuel more m (omega arith) (omega arith),
            )
      ]
    ]
