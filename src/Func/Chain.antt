-- ===== src/Func/Chain.antt =====
-- The list of open upvalues: from the top of the stack down, one for each slot.
use omniajit.Prelude.{
  ℕ, ◌≤◌, ◌<◌, ◌≡◌, ◌≢◌, refl, ap, ◌∙◌, arith, List, [], ◌∷◌, All, ◌==◌, if◌then◌else◌, true, false,
}
use omniajit.Func.{Upval, set_uv}

module _ {V : Type 0} where
  abbrev pub IsChain : (ℕ → Upval V) → ℕ → List ℕ → Type 0
  IsChain uv fresh [] = Unit
  IsChain uv fresh (p ∷ ps) =
      (p < fresh)
      × ((uv p).closed ≡ false)
      × All (λ q. (uv q).slot < (uv p).slot) ps
      × IsChain uv fresh ps

  -- The upvalue is linked into the list as before.
  abbrev pub Same : (ℕ → Upval V) → (ℕ → Upval V) → ℕ → Type 0
  Same uv uv' q = ((uv' q).slot ≡ (uv q).slot) × ((uv' q).closed ≡ (uv q).closed)

  slots :
      (uv uv' : ℕ → Upval V) (ps : List ℕ) (n n' : ℕ)
      → n' ≡ n
      → All (λ q. Same uv uv' q) ps
      → All (λ q. (uv q).slot < n) ps
      → All (λ q. (uv' q).slot < n') ps
  slots uv uv' [] n n' e same h = tt
  slots uv uv' (q ∷ ps) n n' e same h =
      (omega (arith, e, same.0.0, h.0), slots uv uv' ps n n' e same.1 h.1)

  pub Same-IsChain :
      (uv uv' : ℕ → Upval V) (fresh fresh' : ℕ) (ps : List ℕ)
      → fresh ≤ fresh'
      → All (λ q. Same uv uv' q) ps
      → IsChain uv fresh ps
      → IsChain uv' fresh' ps
  Same-IsChain uv uv' fresh fresh' [] le same h = tt
  Same-IsChain uv uv' fresh fresh' (p ∷ ps) le same (old, is_open, below, h) = (
    omega (arith, old, le),
    same.0.1 ∙ is_open,
    slots uv uv' ps (uv p).slot (uv' p).slot same.0.0 same.1 below,
    Same-IsChain uv uv' fresh fresh' ps le same.1 h,
  )

  pub set_uv_self : (uv : ℕ → Upval V) (p : ℕ) (u : Upval V) → set_uv uv p u p ≡ u
  set_uv_self uv p u = let self : (p == p) ≡ true = ground arith in rw (self, if◌then◌else◌) refl

  pub set_uv_ne : (uv : ℕ → Upval V) (p q : ℕ) (u : Upval V) → q ≢ p → set_uv uv p u q ≡ uv q
  set_uv_ne uv p q u h =
      let other : (q == p) ≡ false = ground (arith, h) in rw (other, if◌then◌else◌) refl

  -- A store to another upvalue.
  pub set_uv-Same :
      (uv : ℕ → Upval V) (p : ℕ) (u : Upval V) (q : ℕ) → q ≢ p → Same uv (set_uv uv p u) q
  set_uv-Same uv p u q h = (
    ap (λ (u : Upval V). u.slot) (set_uv_ne uv p q u h),
    ap (λ (u : Upval V). u.closed) (set_uv_ne uv p q u h),
  )

  pub All-Same :
      (uv uv' : ℕ → Upval V) (P : ℕ → Type 0) (ps : List ℕ)
      → ((q : ℕ) → P q → Same uv uv' q)
      → All P ps
      → All (λ q. Same uv uv' q) ps
  All-Same uv uv' P [] f h = tt
  All-Same uv uv' P (q ∷ ps) f h = (f q h.0, All-Same uv uv' P ps f h.1)

  pub chain_old :
      (uv : ℕ → Upval V) (fresh : ℕ) (ps : List ℕ) → IsChain uv fresh ps → All (λ q. q < fresh) ps
  chain_old uv fresh [] h = tt
  chain_old uv fresh (p ∷ ps) (old, is_open, below, h) = (old, chain_old uv fresh ps h)

  pub below_more :
      (uv : ℕ → Upval V) (n m : ℕ) (ps : List ℕ)
      → n ≤ m
      → All (λ q. (uv q).slot < n) ps
      → All (λ q. (uv q).slot < m) ps
  below_more uv n m [] le h = tt
  below_more uv n m (q ∷ ps) le h = (omega (arith, le, h.0), below_more uv n m ps le h.1)
