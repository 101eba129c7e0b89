-- ===== src/Tab/Length.antt =====
-- The length of a table: `lj_tab_len`, `tab_len_slow` and `lj_tab_len_hint`. Only the linear search
-- and the widening search can run out of fuel, which is `none`.
use omniajit.Prelude.{
  ℕ, zero, suc, ◌+◌, ◌-◌, ◌/◌, ◌%◌, ◌^◌, Bool, true, false, not, ◌&&◌, ltb, leb, ◌==◌,
  if◌then◌else◌, Option, none, some,
}
use omniajit.Tab.{Tab, Numbers, asize, slot, getint}

abbrev pub is_some : {A : Type 0} → Option A → Bool
is_some (some a) = true
is_some none = false

-- `while (hi - lo > 1)`: the binary search for a change from a value to nil, on the array part or
-- through `lj_tab_getint`.
unfoldable pub binary_search : (ℕ → Bool) → ℕ → ℕ → ℕ → ℕ
binary_search is_set zero lo hi = lo
binary_search is_set (suc fuel) lo hi =
    let mid = (lo + hi) / 2 in
    let (lo', hi') = if is_set mid then (mid, hi) else (lo, mid) in
    let rest = binary_search is_set fuel lo' hi' in if ltb 1 (hi - lo) then rest else lo

-- `hint+1`, a `size_t`.
abbrev pub next_of : ℕ → ℕ
next_of hint = (hint + 1) % 2 ^ 64

module _ {V : Type 0} (numbers : Numbers) (t : Tab V) where
  -- `(tv = lj_tab_getint(t, key)) && !tvisnil(tv)`
  abbrev pub is_set : ℕ → Bool
  is_set key = elim (getint numbers t key) [ some tv ↦ is_some tv | none ↦ false ]

  -- `while (...) lo++;`, and the key before.
  unfoldable pub linear_search : ℕ → ℕ → Option ℕ
  linear_search zero lo = none
  linear_search (suc fuel) lo = elim (is_set lo) [
    | true ↦ linear_search fuel (suc lo)
    | false ↦ some (lo - 1)
  ]

  -- The widening search for an upper bound, and what follows it.
  unfoldable pub widen : ℕ → ℕ → ℕ → Option ℕ
  widen zero lo hi = none
  widen (suc fuel) lo hi = elim (is_set hi) [
    | true ↦ elim (ltb (2 ^ 31 - 3) (hi + hi)) [
      | true ↦ linear_search (2 ^ 31) 1
      | false ↦ widen fuel hi (hi + hi)
    ]
    | false ↦ some (binary_search is_set hi lo hi)
  ]

  -- Each round doubles `hi`, which stays below `2 ^ 31`.
  unfoldable pub tab_len_slow : ℕ → Option ℕ
  tab_len_slow hi = widen 31 hi (hi + 1)

  unfoldable pub tab_len : Option ℕ
  tab_len =
      let hi = asize t - 1 in
      if ltb 0 hi && not (is_some (slot t hi))
      then some (binary_search (λ mid. is_some (slot t mid)) hi 0 hi)
      else if t.hmask == 0
      then some hi
      else tab_len_slow hi

  -- `lj_tab_len_hint`; outside the array part `slot` is nil.
  unfoldable pub tab_len_hint : ℕ → Option ℕ
  tab_len_hint hint =
      if ltb (next_of hint) (asize t)
      then if is_some (slot t hint) && not (is_some (slot t (next_of hint)))
        then some hint
        else tab_len
      else if leb (next_of hint) (asize t) && t.hmask == 0 && is_some (slot t hint)
      then some hint
      else tab_len
