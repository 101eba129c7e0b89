-- ===== src/Gc/Weak.antt =====
-- Which parts of a table are weak: the loop over its mode finds what the mode says.
use omniajit.Prelude.{ℕ, ◌≡◌, arith, refl, ◌||◌, List, [], ◌∷◌, Bool, not, ◌&&◌, Option}
use omniajit.Gc.{Tab, Body, weak_key, weak_val}
use omniajit.Gc.Ops.{mode_of, keys_weak, vals_weak}
use omniajit.Gc.Reach.{has_letter, are_keys_weak, are_vals_weak}

-- The loop over the mode finds the letters before its first zero byte.
weak_key_lem : (mode : List ℕ) → weak_key mode ≡ has_letter b'k' mode
unfolding ◌&&◌ ◌||◌ not
weak_key_lem [] = refl
weak_key_lem (c ∷ mode) = ground (arith, weak_key_lem mode)

weak_val_lem : (mode : List ℕ) → weak_val mode ≡ has_letter b'v' mode
unfolding ◌&&◌ ◌||◌ not
weak_val_lem [] = refl
weak_val_lem (c ∷ mode) = ground (arith, weak_val_lem mode)

module _ (body : ℕ → Body) (fr2 : Bool) (finalizer : Option ℕ) where
  pub keys_weak_lem :
      (o : ℕ) (t : Tab) → keys_weak body fr2 finalizer o t ≡ are_keys_weak body fr2 finalizer o t
  unfolding ◌&&◌ ◌||◌
  keys_weak_lem o t =
      let mode = mode_of body fr2 finalizer t.metatable in
      ground (arith, weak_key_lem mode, weak_val_lem mode)

  pub vals_weak_lem :
      (o : ℕ) (t : Tab) → vals_weak body fr2 finalizer o t ≡ are_vals_weak body fr2 finalizer o t
  unfolding ◌&&◌ ◌||◌ not
  vals_weak_lem o t =
      let mode = mode_of body fr2 finalizer t.metatable in
      ground (arith, weak_key_lem mode, weak_val_lem mode)
