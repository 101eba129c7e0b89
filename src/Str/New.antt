-- ===== src/Str/New.antt =====
-- `lj_str_new` returns the one string object with its bytes.
use omniajit.Prelude.{
  ℕ, ◌+◌, ◌%◌, ◌^◌, ◌≤◌, ◌<◌, ◌≡◌, ◌≢◌, refl, ap, ◌∙◌, arith, List, [], bit_and, ◌==◌, Bool, true,
  false, Bool-cases, inl, inr, ◌&&◌,
}
use omniajit.Str.{StrObj, State, set_at, size, same_bytes, resurrect}
use omniajit.Str.Count.{one, total-set, total-le, total-add-le, same_bytes_self, same_bytes_eq}
use omniajit.Str.Marks.{survives-resurrect}
use omniajit.Str.Table.{of, any, has_bytes, has_ref, strings, IsFit, IsStrtab, slot-lt, set-fit}
use omniajit.Str.Live.{live}
use omniajit.Str.Search.{wanted, IsHit}

-- The string has these bytes and is at this place.
abbrev pub held : List ℕ → ℕ → List ℕ → ℕ → ℕ → Bool
held b r bytes ref marked = same_bytes b bytes && ref == r

-- Strings with the same bytes have one place.
pub one_place :
    (b : List ℕ) (r q : ℕ) (s : State)
    → strings (has_bytes b) s ≤ 1
    → 1 ≤ strings (held b r) s
    → 1 ≤ strings (held b q) s
    → r ≡ q
one_place b r q s le hr hq = elim (Bool-cases (r == q)) [
  | inl e ↦ ground (arith, e)
  | inr e ↦
      let apart : r ≢ q = ground (arith, e) in
      let sum =
        total-add-le (of (held b r)) (of (held b q)) (of (has_bytes b)) s.tab (size s.mask)
          (λ x. ground (arith, apart)) in
      absurd (omega (arith, sum, le, hr, hq))
]

-- A live string that is held is the only one with its bytes.
pub live_one :
    (b : List ℕ) (r cw : ℕ) (s : State)
    → strings (has_bytes b) s ≤ 1
    → 1 ≤ strings (live cw (held b r)) s
    → strings (live cw (held b r)) s ≡ 1
live_one b r cw s le h =
    let more =
      total-le (of (live cw (held b r))) (of (has_bytes b)) s.tab (size s.mask)
        (λ x. ground arith) in
    omega (arith, more, le, h)

module _ (hash_sparse : ℕ → List ℕ → ℕ) (hash_dense : ℕ → ℕ → List ℕ → ℕ) where
  -- The table is well formed and has a live string with the bytes `str`, at `r`; if it had one with
  -- these bytes before, live or not, that was at `r`. Live strings are those that survive a sweep, and
  -- those with other bytes are the same.
  pub record IsInterned (str : List ℕ) (s : State) (s' : State) (r : ℕ) : Type 0 where
    pub table : IsStrtab hash_sparse hash_dense s'
    pub white : s'.currentwhite ≡ s.currentwhite
    pub here : strings (live s.currentwhite (held str r)) s' ≡ 1
    pub same : (q : ℕ) → strings (held str q) s ≡ 1 → r ≡ q
    pub others :
        (b : List ℕ) (q : ℕ)
        → b ≢ str
        → strings (live s.currentwhite (held b q)) s' ≡ strings (live s.currentwhite (held b q)) s

  module _ (str : List ℕ) (s : State) (t : IsStrtab hash_sparse hash_dense s) where
    abbrev pub hash : ℕ
    hash = wanted hash_sparse hash_dense s.seed s.mask s.secondary s.currentwhite t.white str

    abbrev pub i : ℕ
    i = bit_and hash s.mask

    pub in_table : i < size s.mask
    in_table = slot-lt hash_sparse hash_dense t.bits s.mask hash t.mask_bits t.small

    pub differ : (b : List ℕ) → b ≢ str → same_bytes b str ≡ false
    differ b ne = elim (Bool-cases (same_bytes b str)) [
      | inl e ↦ absurd (ne (same_bytes_eq b str e))
      | inr e ↦ e
    ]

    abbrev pub Hit : ℕ → List StrObj → Type 0
    Hit r ys =
        IsHit hash_sparse hash_dense s.seed s.mask s.secondary s.currentwhite t.white str i r
          (s.tab i) ys

    pub old-IsInterned :
        (r : ℕ) (ys : List StrObj)
        → Hit r ys
        → IsInterned str s (record s { tab = set_at s.tab i ys }) r
    old-IsInterned r ys h =
        let table : IsStrtab hash_sparse hash_dense s' = record {
          bits = t.bits;
          mask_bits = t.mask_bits;
          small = t.small;
          white = t.white;
          fit =
              set-fit hash_sparse hash_dense
                (IsFit hash_sparse hash_dense s.seed s.mask s.secondary) s.tab i ys t.fit h.fit;
          one_bytes = λ b. omega (arith, counts (has_bytes b), t.one_bytes b);
          one_ref = λ q. omega (arith, counts (has_ref q), t.one_ref q);
          old = λ q le. omega (arith, counts (has_ref q), t.old q le);
          num = t.num ∙ ap (λ (n : ℕ). n % 2 ^ 32) (omega (arith, counts any));
        } in
        record {
          table = table;
          white = refl;
          here =
              live_one str r s.currentwhite s' (table.one_bytes str)
                (omega (arith, inside (live s.currentwhite (held str r)), alive));
          same = λ q e.
              one_place str r q s' (table.one_bytes str)
                (omega (arith, inside (held str r), placed))
                (omega (arith, counts (held str q), e));
          others = λ b q ne.
              let off = differ b ne in
              let no_object : same_bytes b h.object.bytes ≡ false =
                ap (same_bytes b) h.bytes ∙ off in
              ground (arith, counts (live s.currentwhite (held b q)), no_object);
        }
      where
        s' : State
        s' = record s { tab = set_at s.tab i ys }

        counts :
            (F : List ℕ → ℕ → ℕ → Bool)
            → strings F s' + one (of F h.object)
              ≡ strings F s + one (of F (resurrect s.currentwhite h.object))
        counts F = omega (arith, h.counts F, total-set (of F) s.tab i (size s.mask) ys in_table)

        inside :
            (F : List ℕ → ℕ → ℕ → Bool)
            → one (of F (resurrect s.currentwhite h.object)) ≤ strings F s'
        inside F = omega (
          arith,
          h.inside F,
          total-set (of F) s.tab i (size s.mask) ys in_table,
          total-set (of F) s.tab i (size s.mask) [] in_table,
        )

        found : held str r h.object.bytes h.object.ref 0 ≡ true
        found = let e = same_bytes_self str in rw (h.bytes, h.ref, e) (ground arith)

        placed : one (of (held str r) (resurrect s.currentwhite h.object)) ≡ 1
        placed = ap one found

        alive : one (of (live s.currentwhite (held str r)) (resurrect s.currentwhite h.object)) ≡ 1
        alive =
            let awake = survives-resurrect s.currentwhite h.object.marked t.white h.byte in
            ap one (λ i. found i && awake i)
