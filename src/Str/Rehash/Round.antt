-- ===== src/Str/Rehash/Round.antt =====
-- The rounds of `lj_str_rehash_chain`: each frees a string or chains it again.
use omniajit.Prelude.{
  ℕ, suc, ◌+◌, ◌%◌, ◌^◌, ◌≤◌, ◌<◌, ◌≡◌, ◌≢◌, refl, ap, arith, List, [], ◌∷◌, All, bit_and, ◌==◌,
  if◌then◌else◌, Bool, true, false, Bool-cases, inl, inr, ◌⊎◌,
}
use omniajit.Func.{makewhite}
use omniajit.Str.{StrObj, State, set_at, push, is_sweepstring, survives, lj_str_free}
use omniajit.Str.Ops.{rechain, rehash_chain}
use omniajit.Str.Count.{one, count, total, total-push}
use omniajit.Str.Marks.{IsWhite, makewhite-lt}
use omniajit.Str.Table.{of, any, is_secondary, IsHashed, IsFit, push-fit}
use omniajit.Str.Live.{IsStable, IsUnmarked}

module _ (hash_sparse : ℕ → List ℕ → ℕ) (hash_dense : ℕ → ℕ → List ℕ → ℕ) where
  module _ (s : State) (i : ℕ) (n : ℕ) (slots : (h : ℕ) → bit_and h s.mask < n)
      (white : IsWhite s.currentwhite) where
    unfoldable pub flags : ℕ → Bool
    flags = set_at s.secondary i true

    -- A string of the chain that is rehashed.
    abbrev pub IsReady : StrObj → Type 0
    IsReady x =
        IsHashed hash_sparse hash_dense s.seed x
        × (is_secondary hash_sparse hash_dense s.seed s.mask flags x.bytes ≡ true)

    abbrev pub Fits : (ℕ → List StrObj) → Type 0
    Fits tab = (j : ℕ) → All (IsFit hash_sparse hash_dense s.seed s.mask flags j) (tab j)

    -- The string as it is chained.
    abbrev chained : StrObj → StrObj
    chained x =
        let white = makewhite s.currentwhite x.marked in
        record x {
          marked = (if is_sweepstring s.gcstate then white else x.marked);
          hash = (if x.hashalg then x.hash else hash_dense s.seed x.hash x.bytes);
          hashalg = true;
        }

    chained-IsFit :
        (x : StrObj)
        → IsReady x
        → IsFit hash_sparse hash_dense s.seed s.mask flags
            (bit_and (chained x).hash s.mask)
            (chained x)
    chained-IsFit x h =
        let lt = makewhite-lt s.currentwhite x.marked white h.0.1 in ground (arith, h, lt)

    unfoldable pub after : StrObj → (ℕ → List StrObj) → ℕ → (ℕ → List StrObj) × ℕ
    after = rechain hash_sparse hash_dense s

    -- A string is freed, if it is dead and strings are swept, or chained.
    rechain-cases :
        (x : StrObj) (tab : ℕ → List StrObj) (num : ℕ)
        → x.marked < 256
        → ((is_sweepstring s.gcstate ≡ true)
            × (survives s.currentwhite x.marked ≡ false)
            × (after x tab num ≡ (tab, lj_str_free num)))
          ⊎ (((is_sweepstring s.gcstate ≡ false) ⊎ (survives s.currentwhite x.marked ≡ true))
              × (after x tab num ≡ (push tab (bit_and (chained x).hash s.mask) (chained x), num)))
    unfolding after rechain
    rechain-cases x tab num lt = elim (Bool-cases (is_sweepstring s.gcstate)) [
      | inr e ↦ rw (e, if◌then◌else◌) (inr (inl refl, refl))
      | inl e ↦ elim (Bool-cases (survives s.currentwhite x.marked)) [
        | inr d ↦ rw (e, d, if◌then◌else◌) (inl (refl, refl, refl))
        | inl d ↦ rw (e, d, if◌then◌else◌) (inr (inr refl, refl))
      ]
    ]

    -- What a round does to the table and to the number of strings.
    record IsRechained (x : StrObj) (tab tab' : ℕ → List StrObj) (num num' : ℕ) : Type 0 where
      fits : Fits tab → Fits tab'
      exact :
          (F : List ℕ → ℕ → ℕ → Bool)
          → IsStable s.currentwhite (is_sweepstring s.gcstate) F
          → total (of F) tab' n ≡ total (of F) tab n + one (of F x)
      least :
          (F : List ℕ → ℕ → ℕ → Bool)
          → IsUnmarked F
          → total (of F) tab' n ≤ total (of F) tab n + one (of F x)
      number :
          (rest : ℕ)
          → num ≡ (total (of any) tab n + suc rest) % 2 ^ 32
          → num' ≡ (total (of any) tab' n + rest) % 2 ^ 32

    freed-IsRechained :
        (x : StrObj) (tab : ℕ → List StrObj) (num : ℕ)
        → x.marked < 256
        → is_sweepstring s.gcstate ≡ true
        → survives s.currentwhite x.marked ≡ false
        → IsRechained x tab tab num (lj_str_free num)
    unfolding lj_str_free
    freed-IsRechained x tab num lt e d = record {
      fits = λ h. h;
      exact = λ F stable. ground (arith, stable x.bytes x.ref x.marked lt e, d);
      least = λ F h. omega arith;
      number = λ rest h. omega (arith, h);
    }

    chained-IsRechained :
        (x : StrObj) (tab : ℕ → List StrObj) (num : ℕ)
        → IsReady x
        → (is_sweepstring s.gcstate ≡ false) ⊎ (survives s.currentwhite x.marked ≡ true)
        → IsRechained x tab (push tab (bit_and (chained x).hash s.mask) (chained x)) num num
    chained-IsRechained x tab num h kept = record {
      fits = λ fits.
          push-fit hash_sparse hash_dense (IsFit hash_sparse hash_dense s.seed s.mask flags) tab _
            (chained x) fits (chained-IsFit x h);
      exact = λ F stable.
          let stays = stable x.bytes x.ref x.marked h.0.1 in
          let same : of F (chained x) ≡ of F x = ground (arith, stays, kept) in
          omega (arith, pushed F, ap one same);
      least = λ F unmarked.
          let same : of F (chained x) ≡ of F x = unmarked x.bytes x.ref _ _ in
          omega (arith, pushed F, ap one same);
      number = λ rest e. omega (arith, pushed any, e);
    }
      where
        pushed :
            (F : List ℕ → ℕ → ℕ → Bool)
            → total (of F) (push tab (bit_and (chained x).hash s.mask) (chained x)) n
              ≡ total (of F) tab n + one (of F (chained x))
        pushed F =
            total-push (of F) tab (bit_and (chained x).hash s.mask) n (chained x)
              (slots (chained x).hash)

    rechain-IsRechained :
        (x : StrObj) (tab : ℕ → List StrObj) (num : ℕ)
        → IsReady x
        → let r = after x tab num in IsRechained x tab r.0 num r.1
    rechain-IsRechained x tab num h = elim (rechain-cases x tab num h.0.1) [
      | inl (e, d, r) ↦ rw r (freed-IsRechained x tab num h.0.1 e d)
      | inr (kept, r) ↦ rw r (chained-IsRechained x tab num h kept)
    ]

    abbrev pub AllReady : List StrObj → Type 0
    AllReady xs = All IsReady xs

    unfoldable pub loop : List StrObj → (ℕ → List StrObj) → ℕ → (ℕ → List StrObj) × ℕ
    loop = rehash_chain hash_sparse hash_dense s

    pub loop-Fits :
        (xs : List StrObj) (tab : ℕ → List StrObj) (num : ℕ)
        → AllReady xs
        → Fits tab
        → Fits (loop xs tab num).0
    unfolding loop rehash_chain after
    loop-Fits [] tab num h fits = fits
    loop-Fits (x ∷ xs) tab num h fits =
        let r = after x tab num in
        loop-Fits xs r.0 r.1 h.1 ((rechain-IsRechained x tab num h.0).fits fits)

    pub loop-exact :
        (F : List ℕ → ℕ → ℕ → Bool) (xs : List StrObj) (tab : ℕ → List StrObj) (num : ℕ)
        → IsStable s.currentwhite (is_sweepstring s.gcstate) F
        → AllReady xs
        → total (of F) (loop xs tab num).0 n ≡ total (of F) tab n + count (of F) xs
    unfolding loop rehash_chain after
    loop-exact F [] tab num stable h = omega arith
    loop-exact F (x ∷ xs) tab num stable h =
        let r = after x tab num in
        omega (
          arith,
          loop-exact F xs r.0 r.1 stable h.1,
          (rechain-IsRechained x tab num h.0).exact F stable,
        )

    pub loop-least :
        (F : List ℕ → ℕ → ℕ → Bool) (xs : List StrObj) (tab : ℕ → List StrObj) (num : ℕ)
        → IsUnmarked F
        → AllReady xs
        → total (of F) (loop xs tab num).0 n ≤ total (of F) tab n + count (of F) xs
    unfolding loop rehash_chain after
    loop-least F [] tab num unmarked h = omega arith
    loop-least F (x ∷ xs) tab num unmarked h =
        let r = after x tab num in
        omega (
          arith,
          loop-least F xs r.0 r.1 unmarked h.1,
          (rechain-IsRechained x tab num h.0).least F unmarked,
        )

    pub loop-number :
        (xs : List StrObj) (tab : ℕ → List StrObj) (num : ℕ)
        → AllReady xs
        → num ≡ (total (of any) tab n + count (of any) xs) % 2 ^ 32
        → let r = loop xs tab num in r.1 ≡ total (of any) r.0 n % 2 ^ 32
    unfolding loop rehash_chain after
    loop-number [] tab num h e = omega (arith, e)
    loop-number (x ∷ xs) tab num h e =
        let r = after x tab num in
        loop-number xs r.0 r.1 h.1
          ((rechain-IsRechained x tab num h.0).number (count (of any) xs) (omega (arith, e)))

    -- The chain that is rehashed, and the others.
    pub chain-IsReady :
        (xs : List StrObj)
        → s.secondary i ≡ false
        → All (IsFit hash_sparse hash_dense s.seed s.mask s.secondary i) xs
        → AllReady xs
    unfolding flags
    chain-IsReady [] e h = tt
    chain-IsReady (x ∷ xs) e h = (ground (arith, h.0), chain-IsReady xs e h.1)

    other-IsFit :
        (j : ℕ) (xs : List StrObj)
        → j ≢ i
        → s.secondary i ≡ false
        → All (IsFit hash_sparse hash_dense s.seed s.mask s.secondary j) xs
        → All (IsFit hash_sparse hash_dense s.seed s.mask flags j) xs
    unfolding flags
    other-IsFit j [] ne e h = tt
    other-IsFit j (x ∷ xs) ne e h = (ground (arith, h.0, ne, e), other-IsFit j xs ne e h.1)

    pub emptied-fit :
        s.secondary i ≡ false
        → ((j : ℕ) → All (IsFit hash_sparse hash_dense s.seed s.mask s.secondary j) (s.tab j))
        → Fits (set_at s.tab i [])
    emptied-fit e fit j = elim (Bool-cases (j == i)) [
      | inl same ↦ rw (same, if◌then◌else◌) tt
      | inr other ↦
          let ne : j ≢ i = ground (arith, other) in
          rw (other, if◌then◌else◌) (other-IsFit j (s.tab j) ne e (fit j))
    ]
