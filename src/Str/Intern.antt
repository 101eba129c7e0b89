-- ===== src/Str/Intern.antt =====
-- `lj_str_new` ends, and interns its string.
use omniajit.Prelude.{
  ℕ, suc, ◌≤◌, ◌<◌, ◌≡◌, refl, ap, ◌∙◌, sym, arith, List, length, bit_and, ◌==◌, ltb, if◌then◌else◌,
  Bool, true, false, Bool-cases, inl, inr, not, ◌&&◌, Option, none, some,
}
use omniajit.Str.{
  State, set_at, size, max_coll, max_str, is_sweepstring, Probe, hit, miss, search, NewStr,
  interned, empty, strov,
}
use omniajit.Str.Ops.{lj_str_rehash_chain, lj_str_alloc, intern, lj_str_new}
use omniajit.Str.Count.{total-le-count, total-le}
use omniajit.Str.Table.{of, has_bytes, strings, is_secondary, hash_by, IsStrtab}
use omniajit.Str.Live.{live, live-IsStable}
use omniajit.Str.Rehash.{IsRehashed, lj_str_rehash_chain-IsRehashed}
use omniajit.Str.Search.{IsFound, search-IsFound, count-other}
use omniajit.Str.New.{held, IsInterned, hash, i, in_table, old-IsInterned}
use omniajit.Str.Alloc.{alloc-IsInterned}

module _ (hash_sparse : ℕ → List ℕ → ℕ) (hash_dense : ℕ → ℕ → List ℕ → ℕ) where
  abbrev Interned : List ℕ → State → Option (State × ℕ) → Type 0
  Interned str s none = ⊥
  Interned str s (some (s', r)) = IsInterned hash_sparse hash_dense str s s' r

  module _ (str : List ℕ) (s : State) (t : IsStrtab hash_sparse hash_dense s) where
    abbrev slot : ℕ
    slot = i hash_sparse hash_dense str s t

    abbrev hashalg : Bool
    hashalg = is_secondary hash_sparse hash_dense s.seed s.mask s.secondary str

    abbrev rehashed : State
    rehashed = lj_str_rehash_chain hash_sparse hash_dense slot s

    missed :
        (coll : ℕ)
        → IsFound hash_sparse hash_dense s.seed s.mask s.secondary s.currentwhite t.white str slot
            (s.tab slot)
            (miss coll)
        → strings (has_bytes str) s ≡ 0
    missed coll h = omega (
      arith,
      h,
      total-le-count (of (has_bytes str)) s.tab slot (size s.mask) (λ j ne.
          count-other hash_sparse hash_dense s.seed s.mask s.secondary s.currentwhite t.white str j
            (s.tab j) ne (t.fit j)),
    )

    -- Interning in the table with the chain rehashed.
    after_rehash :
        strings (has_bytes str) s ≡ 0
        → IsRehashed hash_sparse hash_dense slot s rehashed
        → (o : Option (State × ℕ)) → Interned str rehashed o
        → Interned str s o
    unfolding lj_str_rehash_chain
    after_rehash absent k none h = h
    after_rehash absent k (some (s', r)) h = record {
      table = h.table;
      white = h.white;
      here = h.here;
      same = λ q e. absurd (missing q e);
      others = λ b q ne.
          h.others b q ne
          ∙ k.stable (live s.currentwhite (held b q)) (
              live-IsStable s.currentwhite (is_sweepstring s.gcstate) (held b q) t.white
                (λ b r m m'. refl));
    }
      where
        missing : (q : ℕ) → strings (held str q) s ≡ 1 → ⊥
        missing q e =
            let more =
              total-le (of (held str q)) (of (has_bytes str)) s.tab (size s.mask)
                (λ x. ground arith) in
            omega (arith, more, absent, e)

    abbrev Found : Probe → Type 0
    Found p =
        IsFound hash_sparse hash_dense s.seed s.mask s.secondary s.currentwhite t.white str slot
          (s.tab slot) p

    slot_primary : hashalg ≡ false → s.secondary slot ≡ false
    slot_primary e =
        ap
          (λ (a : Bool). s.secondary (bit_and (hash_by hash_sparse hash_dense s.seed a str) s.mask))
          e
        ∙ e

    rehashed-IsRehashed : hashalg ≡ false → IsRehashed hash_sparse hash_dense slot s rehashed
    rehashed-IsRehashed e =
        lj_str_rehash_chain-IsRehashed hash_sparse hash_dense slot s t
          (in_table hash_sparse hash_dense str s t) (slot_primary e)

    rehashed_secondary :
        hashalg ≡ false
        → is_secondary hash_sparse hash_dense rehashed.seed rehashed.mask rehashed.secondary str
          ≡ true
    unfolding lj_str_rehash_chain
    rehashed_secondary e =
        ap
          (λ (a : Bool).
            rehashed.secondary (bit_and (hash_by hash_sparse hash_dense s.seed a str) s.mask))
          (sym e)
        ∙ (rehashed-IsRehashed e).secondary

    step_on :
        (fuel : ℕ) (p : Probe)
        → (hashalg ≡ false
            → Interned str rehashed (intern hash_sparse hash_dense fuel str rehashed))
        → Found p
        → Interned str s (elim p [
          | hit r chain ↦ some (record s { tab = set_at s.tab slot chain }, r)
          | miss coll ↦
              if ltb max_coll coll && not hashalg
              then intern hash_sparse hash_dense fuel str rehashed
              else some (
                  lj_str_alloc hash_sparse hash_dense str
                    (hash hash_sparse hash_dense str s t)
                    hashalg
                    s)
        ])
    step_on fuel (hit r chain) again h = old-IsInterned hash_sparse hash_dense str s t r chain h
    step_on fuel (miss coll) again h = elim (Bool-cases (ltb max_coll coll && not hashalg)) [
      | inl e ↦
          let primary : hashalg ≡ false = ground (arith, e) in
          rw (e, if◌then◌else◌)
            (after_rehash (missed coll h) (rehashed-IsRehashed primary)
              (intern hash_sparse hash_dense fuel str rehashed) (again primary))
      | inr e ↦
          rw (e, if◌then◌else◌) (alloc-IsInterned hash_sparse hash_dense str s t (missed coll h))
    ]

    step :
        (fuel : ℕ)
        → (hashalg ≡ false
            → Interned str rehashed (intern hash_sparse hash_dense fuel str rehashed))
        → Interned str s (intern hash_sparse hash_dense (suc fuel) str s)
    unfolding intern
    step fuel again =
        step_on fuel
          (search s.currentwhite (hash hash_sparse hash_dense str s t) str 0 (s.tab slot)) again
          (search-IsFound hash_sparse hash_dense s.seed s.mask s.secondary s.currentwhite t.white
            str slot 0 (s.tab slot) (t.fit slot))

  -- Two calls are enough: the second one finds the chain with secondary hashes.
  intern-Interned :
      (fuel : ℕ) (str : List ℕ) (s : State)
      → IsStrtab hash_sparse hash_dense s
      → Interned str s (intern hash_sparse hash_dense (suc (suc fuel)) str s)
  intern-Interned fuel str s t = step str s t (suc fuel) (λ primary.
      let k = rehashed-IsRehashed str s t primary in
      step str (rehashed str s t) k.table fuel
        (λ e. absurd (ground (arith, rehashed_secondary str s t primary, e))))

  -- What `lj_str_new` does, for a string of any length.
  abbrev pub IsNew : List ℕ → State → Option (State × NewStr) → Type 0
  IsNew str s none = ⊥
  IsNew str s (some (s', empty)) = (length str ≡ 0) × (s' ≡ s)
  IsNew str s (some (s', strov)) = (max_str ≤ length str) × (s' ≡ s)
  IsNew str s (some (s', interned r)) =
      (0 < length str) × (length str < max_str) × IsInterned hash_sparse hash_dense str s s' r

  -- With a well-formed string table `lj_str_new` ends, whether it rehashes a chain or not. The
  -- empty string and one that is too long change nothing. Any other string is then in the table, at
  -- the place that is returned, and survives a sweep; if the table had it before, even dead, that is
  -- where it was. The strings with other bytes that would survive a sweep are the same, and the
  -- table stays well formed.
  pub lj_str_new-IsNew :
      (str : List ℕ) (s : State)
      → IsStrtab hash_sparse hash_dense s
      → IsNew str s (lj_str_new hash_sparse hash_dense str s)
  unfolding lj_str_new
  lj_str_new-IsNew str s t = elim (Bool-cases (ltb 0 (length str) && ltb (length str) max_str)) [
    | inl e ↦
        rw (e, if◌then◌else◌)
          (in_range str s (intern hash_sparse hash_dense 2 str s) (ground (arith, e))
            (ground (arith, e)) (intern-Interned 0 str s t))
    | inr e ↦ rw (e, if◌then◌else◌) (out_of_range str s e)
  ]
    where
      in_range :
          (str : List ℕ) (s : State) (o : Option (State × ℕ))
          → 0 < length str
          → length str < max_str
          → Interned str s o
          → IsNew str s (elim o [ none ↦ none | some (s', r) ↦ some (s', interned r) ])
      in_range str s none h k i = i
      in_range str s (some (s', r)) h k i = (h, k, i)

      out_of_range :
          (str : List ℕ) (s : State)
          → (ltb 0 (length str) && ltb (length str) max_str) ≡ false
          → IsNew str s (some (s, (if length str == 0 then empty else strov)))
      out_of_range str s e = elim (Bool-cases (length str == 0)) [
        | inl z ↦ rw (z, if◌then◌else◌) (ground (arith, z), refl)
        | inr z ↦ rw (z, if◌then◌else◌) (ground (arith, z, e), refl)
      ]
