-- ===== src/Str/Rehash.antt =====
-- `lj_str_rehash_chain` keeps the string table well formed.
mod Round
use omniajit.Prelude.{
  ℕ, zero, suc, ◌+◌, ◌-◌, ◌%◌, ◌^◌, ◌≤◌, ◌<◌, ◌≡◌, ◌≢◌, refl, ap, ◌∙◌, sym, arith, List, [], ◌∷◌,
  All, length, bit_and, ◌==◌, if◌then◌else◌, Bool, true, false, Bool-cases, inl, inr, not, ◌&&◌,
  ◌⊎◌,
}
use omniajit.Func.{isdead, makewhite}
use omniajit.Str.{StrObj, State, set_at, push, size, is_sweepstring, survives, lj_str_free}
use omniajit.Str.Ops.{rechain, rehash_chain, lj_str_rehash_chain}
use omniajit.Str.Count.{one, count, total, total-push, total-set, set_at_self}
use omniajit.Str.Marks.{makewhite-lt, survives-makewhite}
use omniajit.Str.Table.{
  of, any, has_bytes, has_ref, strings, is_secondary, hash_by, IsHashed, IsFit, IsStrtab, slot-lt,
  set-fit, push-fit,
}
use omniajit.Str.Live.{IsStable, live, IsUnmarked, live-IsStable}
use omniajit.Str.Rehash.Round.{
  AllReady, flags, loop, loop-Fits, loop-exact, loop-least, loop-number, chain-IsReady, emptied-fit,
}

module _ (hash_sparse : ℕ → List ℕ → ℕ) (hash_dense : ℕ → ℕ → List ℕ → ℕ) where
  -- The table is well formed, and its chain `i` has secondary hashes. It has the same live strings,
  -- and no others.
  pub record IsRehashed (i : ℕ) (s : State) (s' : State) : Type 0 where
    pub table : IsStrtab hash_sparse hash_dense s'
    pub stable :
        (F : List ℕ → ℕ → ℕ → Bool)
        → IsStable s.currentwhite (is_sweepstring s.gcstate) F
        → strings F s' ≡ strings F s
    pub least : (F : List ℕ → ℕ → ℕ → Bool) → IsUnmarked F → strings F s' ≤ strings F s
    pub secondary : s'.secondary i ≡ true

  pub lj_str_rehash_chain-IsRehashed :
      (i : ℕ) (s : State)
      → IsStrtab hash_sparse hash_dense s
      → i < size s.mask
      → s.secondary i ≡ false
      → IsRehashed i s (lj_str_rehash_chain hash_sparse hash_dense i s)
  unfolding lj_str_rehash_chain loop flags
  lj_str_rehash_chain-IsRehashed i s t lt e =
      let table : IsStrtab hash_sparse hash_dense s' = record {
        bits = t.bits;
        mask_bits = t.mask_bits;
        small = t.small;
        white = t.white;
        fit =
            loop-Fits hash_sparse hash_dense s i n slots t.white (s.tab i) emptied s.num ready
              (emptied-fit hash_sparse hash_dense s i n slots t.white e t.fit);
        one_bytes = λ b. omega (arith, least (has_bytes b) (λ b r m m'. refl), t.one_bytes b);
        one_ref = λ r. omega (arith, least (has_ref r) (λ b r m m'. refl), t.one_ref r);
        old = λ r le. omega (arith, least (has_ref r) (λ b r m m'. refl), t.old r le);
        num =
            loop-number hash_sparse hash_dense s i n slots t.white (s.tab i) emptied s.num ready
              (omega (arith, t.num, total-set (of any) s.tab i n [] lt));
      } in
      record {
        table = table;
        stable = λ F stable. omega (
          arith,
          loop-exact hash_sparse hash_dense s i n slots t.white F (s.tab i) emptied s.num stable
              ready,
          total-set (of F) s.tab i n [] lt,
        );
        least = least;
        secondary = set_at_self s.secondary i true;
      }
    where
      n : ℕ
      n = size s.mask

      s' : State
      s' = lj_str_rehash_chain hash_sparse hash_dense i s

      emptied : ℕ → List StrObj
      emptied = set_at s.tab i []

      slots : (h : ℕ) → bit_and h s.mask < n
      slots h = slot-lt hash_sparse hash_dense t.bits s.mask h t.mask_bits t.small

      ready : AllReady hash_sparse hash_dense s i n slots t.white (s.tab i)
      ready = chain-IsReady hash_sparse hash_dense s i n slots t.white (s.tab i) e (t.fit i)

      least : (F : List ℕ → ℕ → ℕ → Bool) → IsUnmarked F → strings F s' ≤ strings F s
      least F h = omega (
        arith,
        loop-least hash_sparse hash_dense s i n slots t.white F (s.tab i) emptied s.num h ready,
        total-set (of F) s.tab i n [] lt,
      )
