-- ===== src/Str/Table.antt =====
-- When the string table is well formed, and that `lj_str_resize` keeps it so.
use omniajit.Prelude.{
  ℕ, zero, suc, ◌+◌, ◌-◌, ◌%◌, ◌^◌, ◌≤◌, ◌<◌, ◌≡◌, refl, ap, ◌∙◌, sym, arith, List, [], ◌∷◌, All,
  bit_and, ◌==◌, if◌then◌else◌, Bool, true, Bool-cases, inl, inr, leb, ◌||◌,
}
use mathlib.Core.Path.{subst}
use native.Mathlib.Nat.{mod-lt, one-le-pow}
use omniajit.Prelude.Bits.{bit_and_mask}
use omniajit.Str.Marks.{IsWhite}
use omniajit.Str.{StrObj, State, set_at, push, size, max_strtab, same_bytes, is_sweepstring}
use omniajit.Str.Ops.{switch, reinsert_chain, reinsert, lj_str_resize}
use omniajit.Str.Count.{one, count, total, total-push}

-- A property of the place, the marks and the bytes of a string.
abbrev pub of : (List ℕ → ℕ → ℕ → Bool) → StrObj → Bool
of F x = F x.bytes x.ref x.marked

abbrev pub has_bytes : List ℕ → List ℕ → ℕ → ℕ → Bool
has_bytes b bytes ref marked = same_bytes b bytes

abbrev pub has_ref : ℕ → List ℕ → ℕ → ℕ → Bool
has_ref r bytes ref marked = ref == r

abbrev pub any : List ℕ → ℕ → ℕ → Bool
any bytes ref marked = true

-- How many strings of the table have a property.
abbrev pub strings : (List ℕ → ℕ → ℕ → Bool) → State → ℕ
strings F s = total (of F) s.tab (size s.mask)

module _ (hash_sparse : ℕ → List ℕ → ℕ) (hash_dense : ℕ → ℕ → List ℕ → ℕ) where
  abbrev pub is_secondary : ℕ → ℕ → (ℕ → Bool) → List ℕ → Bool
  is_secondary seed mask secondary b = secondary (bit_and (hash_sparse seed b) mask)

  abbrev pub hash_by : ℕ → Bool → List ℕ → ℕ
  hash_by seed hashalg b =
      let first = hash_sparse seed b in if hashalg then hash_dense seed first b else first

  abbrev pub IsHashed : ℕ → StrObj → Type 0
  IsHashed seed x = (x.hash ≡ hash_by seed x.hashalg x.bytes) × (x.marked < 256)

  -- The string belongs to the chain `i`, by the hash function that the table asks for.
  abbrev pub IsFit : ℕ → ℕ → (ℕ → Bool) → ℕ → StrObj → Type 0
  IsFit seed mask secondary i x =
      IsHashed seed x
      × (x.hashalg ≡ is_secondary seed mask secondary x.bytes)
      × (i ≡ bit_and x.hash mask)

  -- Every string is in its chain, none is there twice, no two have one place, and their number is
  -- `num`.
  pub record IsStrtab (s : State) : Type 0 where
    pub bits : ℕ
    pub mask_bits : s.mask ≡ 2 ^ bits - 1
    pub small : s.mask < max_strtab
    pub white : IsWhite s.currentwhite
    pub fit : (i : ℕ) → All (IsFit s.seed s.mask s.secondary i) (s.tab i)
    pub one_bytes : (b : List ℕ) → strings (has_bytes b) s ≤ 1
    pub one_ref : (r : ℕ) → strings (has_ref r) s ≤ 1
    pub old : (r : ℕ) → s.fresh ≤ r → strings (has_ref r) s ≡ 0
    pub num : s.num ≡ strings any s % 2 ^ 32

  pub slot-lt :
      (bits mask h : ℕ) → mask ≡ 2 ^ bits - 1 → mask < max_strtab → bit_and h mask < size mask
  slot-lt bits mask h e small =
      let low : bit_and h mask ≡ h % 2 ^ bits = ap (bit_and h) e ∙ bit_and_mask bits h in
      let one = one-le-pow bits 2 (omega arith) in omega (arith, low, e, small, one, mod-lt h one)

  pub set-fit :
      (P : ℕ → StrObj → Type 0) (tab : ℕ → List StrObj) (i : ℕ) (c : List StrObj)
      → ((j : ℕ) → All (P j) (tab j))
      → All (P i) c
      → (j : ℕ) → All (P j) (set_at tab i c j)
  set-fit P tab i c h k j = elim (Bool-cases (j == i)) [
    | inl e ↦
        let same : i ≡ j = ground (arith, e) in
        rw (e, if◌then◌else◌) (subst (λ (n : ℕ). All (P n) c) same k)
    | inr e ↦ rw (e, if◌then◌else◌) (h j)
  ]

  pub push-fit :
      (P : ℕ → StrObj → Type 0) (tab : ℕ → List StrObj) (i : ℕ) (x : StrObj)
      → ((j : ℕ) → All (P j) (tab j))
      → P i x
      → (j : ℕ) → All (P j) (push tab i x j)
  push-fit P tab i x h k = set-fit P tab i (x ∷ tab i) h (k, h i)

  module _ (seed newmask : ℕ) (secondary : ℕ → Bool) where
    switch-IsFit :
        (x : StrObj)
        → IsHashed seed x
        → let x' = switch hash_sparse hash_dense seed newmask secondary x in
          IsFit seed newmask secondary (bit_and x'.hash newmask) x'
    unfolding switch
    switch-IsFit x h = ground (arith, h)

    switch_same :
        (F : List ℕ → ℕ → ℕ → Bool) (x : StrObj)
        → of F (switch hash_sparse hash_dense seed newmask secondary x) ≡ of F x
    unfolding switch
    switch_same F x = ground arith

    abbrev Fits : (ℕ → List StrObj) → Type 0
    Fits tab = (i : ℕ) → All (IsFit seed newmask secondary i) (tab i)

    reinsert_chain-fit :
        (xs : List StrObj) (newtab : ℕ → List StrObj)
        → All (IsHashed seed) xs
        → Fits newtab
        → Fits (reinsert_chain hash_sparse hash_dense seed newmask secondary xs newtab)
    unfolding reinsert_chain
    reinsert_chain-fit [] newtab h fits = fits
    reinsert_chain-fit (x ∷ xs) newtab h fits =
        let x' = switch hash_sparse hash_dense seed newmask secondary x in
        let i = bit_and x'.hash newmask in
        reinsert_chain-fit xs (push newtab i x') h.1
          (push-fit (IsFit seed newmask secondary) newtab i x' fits (switch-IsFit x h.0))

    reinsert-fit :
        (tab : ℕ → List StrObj) (n : ℕ) (newtab : ℕ → List StrObj)
        → ((i : ℕ) → All (IsHashed seed) (tab i))
        → Fits newtab
        → Fits (reinsert hash_sparse hash_dense seed newmask secondary tab n newtab)
    unfolding reinsert
    reinsert-fit tab zero newtab h fits = fits
    reinsert-fit tab (suc n) newtab h fits =
        reinsert-fit tab n _ h (reinsert_chain-fit (tab n) newtab (h n) fits)

    module _ (m : ℕ) (slots : (h : ℕ) → bit_and h newmask < m) (F : List ℕ → ℕ → ℕ → Bool) where
      reinsert_chain-total :
          (xs : List StrObj) (newtab : ℕ → List StrObj)
          → let tab' = reinsert_chain hash_sparse hash_dense seed newmask secondary xs newtab in
            total (of F) tab' m ≡ total (of F) newtab m + count (of F) xs
      unfolding reinsert_chain
      reinsert_chain-total [] newtab = omega arith
      reinsert_chain-total (x ∷ xs) newtab =
          let x' = switch hash_sparse hash_dense seed newmask secondary x in
          let i = bit_and x'.hash newmask in
          omega (
            arith,
            reinsert_chain-total xs (push newtab i x'),
            total-push (of F) newtab i m x' (slots x'.hash),
            ap one (switch_same F x),
          )

      reinsert-total :
          (tab : ℕ → List StrObj) (n : ℕ) (newtab : ℕ → List StrObj)
          → let tab' = reinsert hash_sparse hash_dense seed newmask secondary tab n newtab in
            total (of F) tab' m ≡ total (of F) newtab m + total (of F) tab n
      unfolding reinsert
      reinsert-total tab zero newtab = omega arith
      reinsert-total tab (suc n) newtab = omega (
        arith,
        reinsert-total tab n
            (reinsert_chain hash_sparse hash_dense seed newmask secondary (tab n) newtab),
        reinsert_chain-total (tab n) newtab,
      )

  pub total-empty : (P : StrObj → Bool) (n : ℕ) → total P (λ i. []) n ≡ 0
  total-empty P zero = refl
  total-empty P (suc n) = omega (arith, total-empty P n)

  fit-IsHashed :
      (seed mask : ℕ) (secondary : ℕ → Bool) (i : ℕ) (xs : List StrObj)
      → All (IsFit seed mask secondary i) xs
      → All (IsHashed seed) xs
  fit-IsHashed seed mask secondary i [] h = tt
  fit-IsHashed seed mask secondary i (x ∷ xs) h = (h.0.0, fit-IsHashed seed mask secondary i xs h.1)

  -- The table is well formed and has the same strings.
  pub record Keeps (s : State) (s' : State) : Type 0 where
    pub table : IsStrtab s'
    pub same : (F : List ℕ → ℕ → ℕ → Bool) → strings F s' ≡ strings F s
    pub fresh : s'.fresh ≡ s.fresh
    pub white : s'.currentwhite ≡ s.currentwhite

  resized-Keeps :
      (bits newmask : ℕ) (secondary : ℕ → Bool) (second : Bool) (s : State)
      → newmask ≡ 2 ^ bits - 1
      → newmask < max_strtab
      → IsStrtab s
      → let tab =
          reinsert hash_sparse hash_dense s.seed newmask secondary s.tab (size s.mask) (λ i. []) in
        Keeps s (record s { tab = tab; secondary = secondary; mask = newmask; second = second })
  resized-Keeps bits newmask secondary second s e small t =
      let table : IsStrtab s' = record {
        bits = bits;
        mask_bits = e;
        small = small;
        white = t.white;
        fit =
            reinsert-fit s.seed newmask secondary s.tab (size s.mask) (λ i. [])
              (λ i. fit-IsHashed s.seed s.mask s.secondary i (s.tab i) (t.fit i)) (λ i. tt);
        one_bytes = λ b. omega (arith, all_same (has_bytes b), t.one_bytes b);
        one_ref = λ r. omega (arith, all_same (has_ref r), t.one_ref r);
        old = λ r le. all_same (has_ref r) ∙ t.old r le;
        num = t.num ∙ ap (λ (n : ℕ). n % 2 ^ 32) (sym (all_same any));
      } in
      record { table = table; same = all_same; fresh = refl; white = refl }
    where
      newtab : ℕ → List StrObj
      newtab =
          reinsert hash_sparse hash_dense s.seed newmask secondary s.tab (size s.mask) (λ i. [])

      s' : State
      s' = record s { tab = newtab; secondary = secondary; mask = newmask; second = second }

      all_same : (F : List ℕ → ℕ → ℕ → Bool) → strings F s' ≡ strings F s
      all_same F = omega (
        arith,
        reinsert-total s.seed newmask secondary (size newmask) (λ h. slot-lt bits newmask h e small)
            F s.tab (size s.mask) (λ i. []),
        total-empty (of F) (size newmask),
      )

  pub lj_str_resize-Keeps :
      (bits newmask : ℕ) (s : State)
      → newmask ≡ 2 ^ bits - 1
      → IsStrtab s
      → Keeps s (lj_str_resize hash_sparse hash_dense newmask s)
  unfolding lj_str_resize
  lj_str_resize-Keeps bits newmask s e t =
      elim (Bool-cases (is_sweepstring s.gcstate || leb (max_strtab - 1) newmask)) [
        | inl refused ↦
            rw (refused, if◌then◌else◌)
              (record { table = t; same = λ F. refl; fresh = refl; white = refl })
        | inr allowed ↦
            rw (allowed, if◌then◌else◌)
              (resized-Keeps bits newmask _ _ s e (ground (arith, allowed)) t)
      ]
