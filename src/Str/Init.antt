-- ===== src/Str/Init.antt =====
-- `lj_str_init` makes an empty string table.
use omniajit.Prelude.{
  ℕ, zero, suc, ◌-◌, ◌^◌, ◌≡◌, refl, ap, arith, List, [], if◌then◌else◌, Bool, false,
}
use omniajit.Str.Marks.{IsWhite}
use omniajit.Str.{StrObj, State, size, is_sweepstring}
use omniajit.Str.Ops.{reinsert, lj_str_resize, lj_str_init}
use omniajit.Str.Count.{count, total}
use omniajit.Str.Table.{of, any, has_bytes, has_ref, IsStrtab}

module _ (hash_sparse : ℕ → List ℕ → ℕ) (hash_dense : ℕ → ℕ → List ℕ → ℕ) where
  -- As `lua_newstate` leaves it.
  pub record IsUnused (s : State) : Type 0 where
    pub mask : s.mask ≡ 2 ^ 32 - 1
    pub num : s.num ≡ 0
    pub white : IsWhite s.currentwhite
    pub pause : is_sweepstring s.gcstate ≡ false

  -- A table without strings.
  empty_table :
      (s : State)
      → IsWhite s.currentwhite
      → s.num ≡ 0
      → s.mask ≡ 2 ^ 8 - 1
      → ((i : ℕ) → s.tab i ≡ [])
      → IsStrtab hash_sparse hash_dense s
  empty_table s white num mask empty = record {
    bits = 8;
    mask_bits = mask;
    small = omega (arith, mask);
    white = white;
    fit = λ i. rw (empty i) tt;
    one_bytes = λ b. omega (arith, none (of (has_bytes b)));
    one_ref = λ r. omega (arith, none (of (has_ref r)));
    old = λ r le. none (of (has_ref r));
    num = omega (arith, num, none (of any));
  }
    where
      none_below : (P : StrObj → Bool) (n : ℕ) → total P s.tab n ≡ 0
      none_below P zero = refl
      none_below P (suc n) = omega (arith, ap (count P) (empty n), none_below P n)

      none : (P : StrObj → Bool) → total P s.tab (size s.mask) ≡ 0
      none P = none_below P (size s.mask)

  -- The string table of a new state is well formed.
  pub lj_str_init-IsStrtab :
      (s : State)
      → IsUnused s
      → IsStrtab hash_sparse hash_dense (lj_str_init hash_sparse hash_dense s)
  unfolding lj_str_init lj_str_resize reinsert
  lj_str_init-IsStrtab s h =
      let empty : size s.mask ≡ 0 = ground (arith, h.mask) in
      rw (h.pause, if◌then◌else◌) (empty_table _ h.white h.num refl (λ i. rw empty refl))
