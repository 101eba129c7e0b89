-- ===== src/Str/Sweep.antt =====
-- `gc_sweepstr` frees the dead strings of a chain only.
use omniajit.Prelude.{
  ℕ, ◌+◌, ◌%◌, ◌^◌, ◌≤◌, ◌<◌, ◌≡◌, refl, ap, arith, List, [], ◌∷◌, All, if◌then◌else◌, Bool, true,
  false, Bool-cases, inl, inr,
}
use omniajit.Func.{makewhite}
use omniajit.Str.{StrObj, State, set_at, size, survives, lj_str_free, sweep_chain, gc_sweepstr}
use omniajit.Str.Count.{one, count, total, total-set}
use omniajit.Str.Marks.{IsWhite, makewhite-lt}
use omniajit.Str.Table.{of, any, has_bytes, has_ref, strings, IsFit, IsStrtab, set-fit}
use omniajit.Str.Live.{IsStable, IsUnmarked}

module _ (hash_sparse : ℕ → List ℕ → ℕ) (hash_dense : ℕ → ℕ → List ℕ → ℕ) where
  module _ (seed mask : ℕ) (secondary : ℕ → Bool) (i cw : ℕ) (white : IsWhite cw) where
    abbrev Fits : List StrObj → Type 0
    Fits = All (IsFit hash_sparse hash_dense seed mask secondary i)

    -- What the sweep of a chain does.
    record IsSwept (xs ys : List StrObj) (num num' : ℕ) : Type 0 where
      fit : Fits ys
      exact : (F : List ℕ → ℕ → ℕ → Bool) → IsStable cw true F → count (of F) ys ≡ count (of F) xs
      least : (F : List ℕ → ℕ → ℕ → Bool) → IsUnmarked F → count (of F) ys ≤ count (of F) xs
      number :
          (rest : ℕ)
          → num ≡ (rest + count (of any) xs) % 2 ^ 32
          → num' ≡ (rest + count (of any) ys) % 2 ^ 32

    swept : StrObj → StrObj
    swept x = record x { marked = makewhite cw x.marked }

    kept-IsSwept :
        (x : StrObj) (xs ys : List StrObj) (num num' : ℕ)
        → Fits (x ∷ xs)
        → survives cw x.marked ≡ true
        → IsSwept xs ys num num'
        → IsSwept (x ∷ xs) (swept x ∷ ys) num num'
    unfolding swept
    kept-IsSwept x xs ys num num' h alive r = record {
      fit = (((h.0.0.0, makewhite-lt cw x.marked white h.0.0.1), h.0.1, h.0.2), r.fit);
      exact = λ F stable.
          ground (arith, stable x.bytes x.ref x.marked h.0.0.1 refl, alive, r.exact F stable);
      least = λ F unmarked.
          let same : of F (swept x) ≡ of F x = unmarked x.bytes x.ref _ _ in
          omega (arith, ap one same, r.least F unmarked);
      number = λ rest e. omega (arith, r.number (rest + 1) (omega (arith, e)));
    }

    freed-IsSwept :
        (x : StrObj) (xs ys : List StrObj) (num num' : ℕ)
        → Fits (x ∷ xs)
        → survives cw x.marked ≡ false
        → IsSwept xs ys (lj_str_free num) num'
        → IsSwept (x ∷ xs) ys num num'
    unfolding lj_str_free
    freed-IsSwept x xs ys num num' h dead r = record {
      fit = r.fit;
      exact = λ F stable.
          ground (arith, stable x.bytes x.ref x.marked h.0.0.1 refl, dead, r.exact F stable);
      least = λ F unmarked. omega (arith, r.least F unmarked);
      number = λ rest e. r.number rest (omega (arith, e));
    }

    sweep_chain-IsSwept :
        (xs : List StrObj) (num : ℕ)
        → Fits xs
        → let r = sweep_chain cw xs num in IsSwept xs r.0 num r.1
    unfolding sweep_chain swept
    sweep_chain-IsSwept [] num h = record {
      fit = tt;
      exact = λ F stable. refl;
      least = λ F unmarked. omega arith;
      number = λ rest e. e;
    }
    sweep_chain-IsSwept (x ∷ xs) num h = elim (Bool-cases (survives cw x.marked)) [
      | inr e ↦
          rw (e, if◌then◌else◌)
            (freed-IsSwept x xs _ num _ h e (sweep_chain-IsSwept xs (lj_str_free num) h.1))
      | inl e ↦
          rw (e, if◌then◌else◌) (kept-IsSwept x xs _ num _ h e (sweep_chain-IsSwept xs num h.1))
    ]

  -- The table is well formed and has the same live strings.
  pub record SameLive (s : State) (s' : State) : Type 0 where
    pub table : IsStrtab hash_sparse hash_dense s'
    pub white : s'.currentwhite ≡ s.currentwhite
    pub exact :
        (F : List ℕ → ℕ → ℕ → Bool) → IsStable s.currentwhite true F → strings F s' ≡ strings F s

  pub gc_sweepstr-SameLive :
      (i : ℕ) (s : State)
      → IsStrtab hash_sparse hash_dense s
      → i < size s.mask
      → SameLive s (gc_sweepstr i s)
  unfolding gc_sweepstr
  gc_sweepstr-SameLive i s t lt =
      let table : IsStrtab hash_sparse hash_dense s' = record {
        bits = t.bits;
        mask_bits = t.mask_bits;
        small = t.small;
        white = t.white;
        fit =
            set-fit hash_sparse hash_dense (IsFit hash_sparse hash_dense s.seed s.mask s.secondary)
              s.tab i r.0 t.fit h.fit;
        one_bytes = λ b. omega (arith, least (has_bytes b) (λ b r m m'. refl), t.one_bytes b);
        one_ref = λ q. omega (arith, least (has_ref q) (λ b r m m'. refl), t.one_ref q);
        old = λ q le. omega (arith, least (has_ref q) (λ b r m m'. refl), t.old q le);
        num = omega (
          arith,
          h.number (total (of any) (set_at s.tab i []) (size s.mask))
              (omega (arith, t.num, changed any [])),
          changed any [],
          changed any r.0,
        );
      } in
      record {
        table = table;
        white = refl;
        exact = λ F stable. omega (arith, h.exact F stable, changed F r.0);
      }
    where
      r : List StrObj × ℕ
      r = sweep_chain s.currentwhite (s.tab i) s.num

      s' : State
      s' = gc_sweepstr i s

      h : IsSwept s.seed s.mask s.secondary i s.currentwhite t.white (s.tab i) r.0 s.num r.1
      h =
          sweep_chain-IsSwept s.seed s.mask s.secondary i s.currentwhite t.white (s.tab i) s.num
            (t.fit i)

      changed :
          (F : List ℕ → ℕ → ℕ → Bool) (c : List StrObj)
          → total (of F) (set_at s.tab i c) (size s.mask) + count (of F) (s.tab i)
            ≡ strings F s + count (of F) c
      changed F c = total-set (of F) s.tab i (size s.mask) c lt

      least : (F : List ℕ → ℕ → ℕ → Bool) → IsUnmarked F → strings F s' ≤ strings F s
      least F u = omega (arith, h.least F u, changed F r.0)
