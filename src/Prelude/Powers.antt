-- ===== src/Prelude/Powers.antt =====
-- Powers and remainders of products.
use Prim.Native.Nat.{ℕ, zero, suc, ◌+◌, ◌*◌, ◌%◌, ◌^◌, ◌/◌}
use mathlib.Core.Path.{◌≡◌, refl, ap, ◌∙◌, sym}
use native.Mathlib.Nat.{
  pow-suc, pow-zero, mod-add-div', mul_comm, add-mul-mod_self_right, mul-mul-mul_comm, add-suc,
}
use native.Mathlib.Omega.{arith}

pub pow-add : (x a b : ℕ) → x ^ (a + b) ≡ x ^ a * x ^ b
pow-add x a zero = ground (arith, pow-zero x)
pow-add x a (suc b) = rw (add-suc, pow-suc, pow-suc, pow-add x a b) (omega arith)

pub mul-pow : (x y k : ℕ) → (x * y) ^ k ≡ x ^ k * y ^ k
mul-pow x y zero = ground (arith, pow-zero x, pow-zero y, pow-zero (x * y))
mul-pow x y (suc k) =
    rw (pow-suc, pow-suc, pow-suc, mul-pow x y k) (mul-mul-mul_comm (x ^ k) (y ^ k) x y)

pub mul_mod_left : (m a b : ℕ) → a % m * b % m ≡ a * b % m
mul_mod_left m a b =
    sym (ap (λ (t : ℕ). t % m) (expand ∙ refl) ∙ add-mul-mod_self_right (a % m * b) (a / m * b) m)
  where
    expand : a * b ≡ a % m * b + a / m * b * m
    expand = omega (arith, ap (λ (t : ℕ). t * b) (mod-add-div' a m))

pub mul_mod_right : (m a b : ℕ) → a * (b % m) % m ≡ a * b % m
mul_mod_right m a b = rw (mul_comm a (b % m), mul_comm a b) (mul_mod_left m b a)

pub pow-mod : (m x k : ℕ) → (x % m) ^ k % m ≡ x ^ k % m
pow-mod m x zero = rw (pow-zero, pow-zero)
pow-mod m x (suc k) =
    rw (pow-suc, pow-suc)
      (mul_mod_right m ((x % m) ^ k) x
        ∙ sym (mul_mod_left m ((x % m) ^ k) x)
        ∙ ap (λ (t : ℕ). t * x % m) (pow-mod m x k)
        ∙ mul_mod_left m (x ^ k) x)

pub mul_mod_congr : (m a b c d : ℕ) → a % m ≡ c % m → b % m ≡ d % m → a * b % m ≡ c * d % m
mul_mod_congr m a b c d e f =
    sym (mul_mod_left m a b)
    ∙ rw (e, mul_mod_left m c b) (sym (mul_mod_right m c b) ∙ rw f (mul_mod_right m c d))

-- Squaring a residue.
pub pow-square_mod : (m x h : ℕ) → (x % m * (x % m)) ^ h % m ≡ x ^ (h + h) % m
pow-square_mod m x h =
    sym (pow-mod m (x % m * (x % m)) h)
    ∙ ap (λ (t : ℕ). t ^ h % m) (mul_mod_left m x (x % m) ∙ mul_mod_right m x x)
    ∙ pow-mod m (x * x) h
    ∙ ap (λ (t : ℕ). t % m) (mul-pow x x h ∙ sym (pow-add x h h))

pub square_mod-pow : (m x h : ℕ) → (x * x % m) ^ h % m ≡ x ^ (h + h) % m
square_mod-pow m x h =
    pow-mod m (x * x) h ∙ ap (λ (t : ℕ). t % m) (mul-pow x x h ∙ sym (pow-add x h h))

pub pow_one : (x : ℕ) → x ^ 1 ≡ x
pow_one x = ground (arith, pow-suc x 0, pow-zero x)

-- An odd power from a power of the square.
pub pow_odd : (x k : ℕ) → k % 2 ≡ 1 → x * (x * x) ^ (k / 2) ≡ x ^ k
pow_odd x k odd =
    rw (mul-pow, ← pow-add)
      (mul_comm x (x ^ (k / 2 + k / 2))
        ∙ sym (pow-suc x (k / 2 + k / 2))
        ∙ ap (λ (t : ℕ). x ^ t) (omega arith))
