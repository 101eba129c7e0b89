-- ===== src/Gc/Reach.antt =====
-- Which objects refer to which, and what marking does to the colours.
use omniajit.Prelude.{
  ℕ, zero, suc, ◌+◌, ◌≤◌, ◌<◌, ◌≡◌, ◌≢◌, refl, ap, ◌∙◌, arith, List, [], ◌∷◌, ◌++◌, ◌==◌, All,
  if◌then◌else◌, Bool, true, false, not, ◌&&◌, ◌||◌, Bool-cases, Option, ◌⊎◌, inl, inr,
}
use omniajit.Gc.{
  Value, nil, plain, ref, Body, str, cdata, udata, upval, thread, proto, lua_func, c_func, trace,
  tab, State, iswhite, white2gray, gray2black, black2gray, weak_bits, is_nil, links_of, Tab,
  is_place,
}
use omniajit.Gc.Ops.{mode_of}

abbrev pub In : ℕ → List ℕ → Type 0
In r [] = ⊥
In r (p ∷ ps) = (r ≡ p) ⊎ In r ps

abbrev pub white : State → ℕ → Bool
white s r = iswhite (s.marked r)

abbrev pub Marked : State → ℕ → Type 0
Marked s r = white s r ≡ false

-- The objects of a value.
abbrev pub objs : Value → List ℕ
objs nil = []
objs plain = []
objs (ref r) = r ∷ []

abbrev pub all_objs : List Value → List ℕ
all_objs [] = []
all_objs (v ∷ vs) = objs v ++ all_objs vs

abbrev pub node_objs : Bool → Bool → List (Value × Value) → List ℕ
node_objs weakkey weakval [] = []
node_objs weakkey weakval ((key, val) ∷ node) =
    (if is_nil val
      then []
      else (if weakkey then [] else objs key) ++ (if weakval then [] else objs val))
    ++ node_objs weakkey weakval node

-- Does the letter stand in the text, before the first zero byte?
abbrev pub has_letter : ℕ → List ℕ → Bool
has_letter letter [] = false
has_letter letter (c ∷ text) = not (c == 0) && (c == letter || has_letter letter text)

-- The objects of a table with weak keys or weak values.
abbrev pub tab_objs : Bool → Bool → Tab → List ℕ
tab_objs key val t =
    links_of t.metatable ++ ((if val then [] else all_objs t.array) ++ node_objs key val t.node)

abbrev one : Bool → ℕ
one b = if b then 1 else 0

-- How many of the first `n` objects are white.
abbrev pub whites : (ℕ → Bool) → ℕ → ℕ
whites w zero = 0
whites w (suc n) = one (w n) + whites w n

pub whites-congr : (w w' : ℕ → Bool) (n : ℕ) → ((r : ℕ) → w r ≡ w' r) → whites w n ≡ whites w' n
whites-congr w w' zero h = refl
whites-congr w w' (suc n) h = omega (arith, ap one (h n), whites-congr w w' n h)

-- One object less is white.
pub whites_less :
    (w w' : ℕ → Bool) (o n : ℕ)
    → o < n
    → w o ≡ true
    → w' o ≡ false
    → ((r : ℕ) → r ≢ o → w' r ≡ w r)
    → whites w' n + 1 ≡ whites w n
whites_less w w' o zero lt e e' h = absurd (omega (arith, lt))
whites_less w w' o (suc n) lt e e' h = elim (Bool-cases (n == o)) [
  | inl same ↦
      let at : n ≡ o = ground (arith, same) in
      let here = ap w at ∙ e in
      let here' = ap w' at ∙ e' in ground (arith, here, here', below n (omega (arith, at)))
  | inr other ↦
      let ne : n ≢ o = ground (arith, other) in
      let rest = whites_less w w' o n (omega (arith, lt, ne)) e e' h in
      omega (arith, ap one (h n ne), rest)
]
  where
    below : (k : ℕ) → k ≤ o → whites w' k ≡ whites w k
    below zero le = refl
    below (suc k) le =
        let ne : k ≢ o = λ q. absurd (omega (arith, q, le)) in
        omega (arith, ap one (h k ne), below k (omega arith))

-- What the changes of a mark do to its colour.
pub iswhite-white2gray : (m : ℕ) → iswhite (white2gray m) ≡ false
iswhite-white2gray m = ground arith

pub iswhite-gray2black : (m : ℕ) → iswhite (gray2black m) ≡ iswhite m
iswhite-gray2black m = ground arith

pub iswhite-black2gray : (m : ℕ) → iswhite (black2gray m) ≡ iswhite m
iswhite-black2gray m = ground arith

pub iswhite-weak_bits : (k v : Bool) (m : ℕ) → iswhite (weak_bits k v m) ≡ iswhite m
iswhite-weak_bits k v m = ground arith

module _ (body : ℕ → Body) (fr2 : Bool) (finalizer : Option ℕ) where
  -- The keys are weak if the mode has a `k`, the values if it has a `v`. In the table of finalizers
  -- either letter makes the keys weak, and the values never are.
  abbrev pub are_keys_weak : ℕ → Tab → Bool
  are_keys_weak o t =
      let mode = mode_of body fr2 finalizer t.metatable in
      has_letter b'k' mode || has_letter b'v' mode && is_place finalizer o

  abbrev pub are_vals_weak : ℕ → Tab → Bool
  are_vals_weak o t =
      let mode = mode_of body fr2 finalizer t.metatable in
      has_letter b'v' mode && not (is_place finalizer o)

  -- The objects that an object keeps alive: all that it refers to, but for the weak keys and values.
  abbrev pub children_of : ℕ → Body → List ℕ
  children_of o str = []
  children_of o cdata = []
  children_of o (udata mt env) = links_of mt ++ env ∷ []
  children_of o (upval closed v) = objs v
  children_of o (thread stack env frames) = all_objs stack ++ env ∷ (if fr2 then [] else frames)
  children_of o (proto chunkname kgc first) = chunkname ∷ kgc ++ links_of first
  children_of o (lua_func env pt uvs) = env ∷ pt ∷ uvs
  children_of o (c_func env vs) = env ∷ all_objs vs
  children_of o (trace traceno kgc links startpt) =
      if traceno == 0 then [] else kgc ++ (links ++ startpt ∷ [])
  children_of o (tab t) = tab_objs (are_keys_weak o t) (are_vals_weak o t) t

  abbrev pub children : ℕ → List ℕ
  children o = children_of o (body o)

  -- The objects that can be reached from the roots.
  pub data Reach (roots : List ℕ) : ℕ → Type 0 where
    root : {r : ℕ} → In r roots → Reach roots r
    child : {o r : ℕ} → Reach roots o → In r (children o) → Reach roots r

  -- How deep the calls nest that mark an object.
  abbrev pub rank : Body → ℕ
  rank (udata mt env) = 2
  rank (upval closed v) = 3
  rank other = 1

  -- May the object be in the gray list?
  abbrev pub IsListed : Body → Type 0
  IsListed (udata mt env) = ⊥
  IsListed (upval closed v) = ⊥
  IsListed other = Unit

  -- What the collector knows of the objects that others refer to.
  abbrev pub FitsIn : Body → Type 0
  FitsIn (udata mt env) = All (λ r. rank (body r) ≤ 1) (links_of mt ++ env ∷ [])
  FitsIn (upval closed v) = All (λ r. rank (body r) ≤ 2) (objs v)
  FitsIn (proto chunkname kgc first) =
      (body chunkname ≡ str) × All (λ r. IsListed (body r)) (links_of first)
  FitsIn (trace traceno kgc links startpt) = All (λ r. IsListed (body r)) links
  FitsIn other = Unit

  pub rank_bounds : (b : Body) → (1 ≤ rank b) × (rank b ≤ 3)
  rank_bounds str = omega arith
  rank_bounds cdata = omega arith
  rank_bounds (udata mt env) = omega arith
  rank_bounds (upval closed v) = omega arith
  rank_bounds (thread stack env frames) = omega arith
  rank_bounds (proto chunkname kgc first) = omega arith
  rank_bounds (lua_func env pt uvs) = omega arith
  rank_bounds (c_func env vs) = omega arith
  rank_bounds (trace traceno kgc links startpt) = omega arith
  rank_bounds (tab t) = omega arith
