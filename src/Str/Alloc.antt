-- ===== src/Str/Alloc.antt =====
-- `lj_str_alloc` adds a string to the table.
use omniajit.Prelude.{
  ℕ, suc, ◌+◌, ◌-◌, ◌*◌, ◌%◌, ◌^◌, ◌≤◌, ◌≡◌, refl, arith, List, ltb, if◌then◌else◌, Bool,
  Bool-cases, inl, inr,
}
use native.Mathlib.Nat.{pow-suc, one-le-pow}
use omniajit.Func.{curwhite}
use omniajit.Str.{StrObj, State, push, size, same_bytes, next_id}
use omniajit.Str.Ops.{lj_str_alloc}
use omniajit.Str.Count.{one, total-push, total-le, same_bytes_self, same_bytes_eq}
use omniajit.Str.Marks.{survives-curwhite, curwhite-lt}
use omniajit.Str.Table.{
  of, any, has_bytes, has_ref, strings, is_secondary, IsFit, IsStrtab, push-fit, Keeps,
  lj_str_resize-Keeps,
}
use omniajit.Str.Live.{live}
use omniajit.Str.New.{held, live_one, IsInterned, hash, i, in_table, differ}

module _ (hash_sparse : ℕ → List ℕ → ℕ) (hash_dense : ℕ → ℕ → List ℕ → ℕ) where
  module _ (str : List ℕ) (s : State) (t : IsStrtab hash_sparse hash_dense s)
      (absent : strings (has_bytes str) s ≡ 0) where
    abbrev slot : ℕ
    slot = i hash_sparse hash_dense str s t

    -- The new object, and the state before the table grows.
    abbrev object : StrObj
    object = record {
      ref = s.fresh;
      marked = curwhite s.currentwhite;
      reserved = 0;
      hashalg = is_secondary hash_sparse hash_dense s.seed s.mask s.secondary str;
      sid = (next_id s.ids).1;
      hash = hash hash_sparse hash_dense str s t;
      bytes = str;
    }

    abbrev added : State
    added = record s {
      tab = push s.tab slot object;
      num = (s.num + 1) % 2 ^ 32;
      ids = (next_id s.ids).0;
      fresh = s.fresh + 1;
    }

    pushed : (F : List ℕ → ℕ → ℕ → Bool) → strings F added ≡ strings F s + one (of F object)
    pushed F =
        total-push (of F) s.tab slot (size s.mask) object (in_table hash_sparse hash_dense str s t)

    added_bytes : (b : List ℕ) → strings (has_bytes b) added ≤ 1
    added_bytes b = elim (Bool-cases (same_bytes b str)) [
      | inl e ↦
          let same : b ≡ str = same_bytes_eq b str e in
          let gone : strings (has_bytes b) s ≡ 0 = rw same absent in
          ground (arith, pushed (has_bytes b), gone)
      | inr e ↦ ground (arith, pushed (has_bytes b), e, t.one_bytes b)
    ]

    added_ref : (r : ℕ) → strings (has_ref r) added ≤ 1
    added_ref r = ground (arith, pushed (has_ref r), t.one_ref r, t.old r)

    added-IsStrtab : IsStrtab hash_sparse hash_dense added
    added-IsStrtab = record {
      bits = t.bits;
      mask_bits = t.mask_bits;
      small = t.small;
      white = t.white;
      fit =
          push-fit hash_sparse hash_dense (IsFit hash_sparse hash_dense s.seed s.mask s.secondary)
            s.tab slot object t.fit ((refl, curwhite-lt s.currentwhite t.white), refl, refl);
      one_bytes = added_bytes;
      one_ref = added_ref;
      old = λ r le. ground (arith, pushed (has_ref r), t.old r);
      num = omega (arith, pushed any, t.num);
    }

    added-Keeps : Keeps hash_sparse hash_dense added added
    added-Keeps = record { table = added-IsStrtab; same = λ F. refl; fresh = refl; white = refl }

    grown_mask : (s.mask * 2 + 1) % 2 ^ 32 ≡ 2 ^ suc t.bits - 1
    grown_mask =
        omega (arith, t.mask_bits, t.small, pow-suc 2 t.bits, one-le-pow t.bits 2 (omega arith))

    abbrev pub alloc : State × ℕ
    alloc =
        lj_str_alloc hash_sparse hash_dense str (hash hash_sparse hash_dense str s t)
          (is_secondary hash_sparse hash_dense s.seed s.mask s.secondary str) s

    alloc-Keeps : Keeps hash_sparse hash_dense added alloc.0
    unfolding lj_str_alloc
    alloc-Keeps = elim (Bool-cases (ltb s.mask s.num)) [
      | inl e ↦
          rw (e, if◌then◌else◌)
            (lj_str_resize-Keeps hash_sparse hash_dense (suc t.bits) _ added grown_mask
              added-IsStrtab)
      | inr e ↦ rw (e, if◌then◌else◌) added-Keeps
    ]

    -- Where the table has no string with these bytes.
    pub alloc-IsInterned : IsInterned hash_sparse hash_dense str s alloc.0 alloc.1
    unfolding lj_str_alloc
    alloc-IsInterned =
        let k = alloc-Keeps in
        let self = same_bytes_self str in
        let cw = s.currentwhite in
        let alive = survives-curwhite cw t.white in
        record {
          table = k.table;
          white = k.white;
          here = live_one str s.fresh cw alloc.0 (k.table.one_bytes str) (
              ground (
                arith,
                k.same (live cw (held str s.fresh)),
                pushed (live cw (held str s.fresh)),
                self,
                alive,
              ));
          same = λ q e.
              let more =
                total-le (of (held str q)) (of (has_bytes str)) s.tab (size s.mask)
                  (λ x. ground arith) in
              absurd (omega (arith, more, absent, e));
          others = λ b q ne.
              let off = differ hash_sparse hash_dense str s t b ne in
              let F = live cw (held b q) in ground (arith, k.same F, pushed F, off);
        }
