-- ===== src/Str/Search.antt =====
-- What the loop of `lj_str_new` over a chain finds.
use omniajit.Prelude.{
  ℕ, ◌+◌, ◌≡◌, ◌≢◌, refl, ap, ◌∙◌, sym, arith, List, [], ◌∷◌, All, length, bit_and, ◌==◌,
  if◌then◌else◌, Bool, true, false, Bool-cases, inl, inr, ◌&&◌, ◌<◌, ◌≤◌,
}
use omniajit.Str.{StrObj, same_bytes, Probe, hit, miss, behind, resurrect, search}
use omniajit.Str.Count.{one, count, same_bytes_eq}
use omniajit.Str.Marks.{IsWhite, flipwhite-lt}
use omniajit.Str.Table.{of, has_bytes, hash_by, is_secondary, IsFit}

module _ (hash_sparse : ℕ → List ℕ → ℕ) (hash_dense : ℕ → ℕ → List ℕ → ℕ) where
  module _ (seed mask : ℕ) (secondary : ℕ → Bool) (cw : ℕ) (white : IsWhite cw) (str : List ℕ) where
    -- The hash that the table asks for.
    abbrev pub wanted : ℕ
    wanted =
        hash_by hash_sparse hash_dense seed
          (is_secondary hash_sparse hash_dense seed mask secondary str) str

    abbrev Fit : ℕ → StrObj → Type 0
    Fit = IsFit hash_sparse hash_dense seed mask secondary

    -- The string that was found, and the chain with it resurrected.
    pub record IsHit (i r : ℕ) (xs ys : List StrObj) : Type 0 where
      pub object : StrObj
      pub ref : object.ref ≡ r
      pub bytes : object.bytes ≡ str
      pub byte : object.marked < 256
      pub counts :
          (F : List ℕ → ℕ → ℕ → Bool)
          → count (of F) ys + one (of F object) ≡ count (of F) xs + one (of F (resurrect cw object))
      pub inside : (F : List ℕ → ℕ → ℕ → Bool) → one (of F (resurrect cw object)) ≤ count (of F) ys
      pub fit : All (Fit i) ys

    abbrev pub IsFound : ℕ → List StrObj → Probe → Type 0
    IsFound i xs (hit r ys) = IsHit i r xs ys
    IsFound i xs (miss coll) = count (of (has_bytes str)) xs ≡ 0

    resurrect-Fit : (i : ℕ) (x : StrObj) → Fit i x → Fit i (resurrect cw x)
    resurrect-Fit i x h =
        let lt = flipwhite-lt cw x.marked white h.0.1 in
        let byte : (resurrect cw x).marked < 256 = ground (arith, lt, h) in
        ((h.0.0, byte), h.1, h.2)

    -- A string with these bytes has the wanted hash.
    Fit-wanted :
        (i : ℕ) (x : StrObj)
        → Fit i x
        → same_bytes str x.bytes ≡ true
        → ((x.hash == wanted && length x.bytes == length str) ≡ true) × (i ≡ bit_and wanted mask)
    Fit-wanted i x h e =
        let same : x.bytes ≡ str = sym (same_bytes_eq str x.bytes e) in
        let alg : x.hashalg ≡ is_secondary hash_sparse hash_dense seed mask secondary str =
          h.1 ∙ ap (is_secondary hash_sparse hash_dense seed mask secondary) same in
        let hash : x.hash ≡ wanted =
          h.0.0 ∙ (λ k. hash_by hash_sparse hash_dense seed (alg k) (same k)) in
        let len = ap length same in
        (ground (arith, hash, len), h.2 ∙ ap (λ (n : ℕ). bit_and n mask) hash)

    behind-IsFound :
        (i : ℕ) (x : StrObj) (xs : List StrObj) (p : Probe)
        → Fit i x
        → same_bytes str x.bytes ≡ false
        → IsFound i xs p
        → IsFound i (x ∷ xs) (behind x p)
    behind-IsFound i x xs (miss coll) fit e h = rw e (omega (arith, h))
    behind-IsFound i x xs (hit r ys) fit e h = record {
      object = h.object;
      ref = h.ref;
      bytes = h.bytes;
      byte = h.byte;
      counts = λ F. omega (arith, h.counts F);
      inside = λ F. omega (arith, h.inside F);
      fit = (fit, h.fit);
    }

    pub search-IsFound :
        (i : ℕ) (coll : ℕ) (xs : List StrObj)
        → All (Fit i) xs
        → IsFound i xs (search cw wanted str coll xs)
    unfolding search
    search-IsFound i coll [] h = refl
    search-IsFound i coll (x ∷ xs) h = elim (Bool-cases (same_bytes str x.bytes)) [
      | inl e ↦
          rw ((Fit-wanted i x h.0 e).0, e)
            (record {
              object = x;
              ref = refl;
              bytes = sym (same_bytes_eq str x.bytes e);
              byte = h.0.0.1;
              counts = λ F. omega arith;
              inside = λ F. omega arith;
              fit = (resurrect-Fit i x h.0, h.1);
            })
      | inr e ↦
          let alike = x.hash == wanted && length x.bytes == length str in
          let differs : (alike && same_bytes str x.bytes) ≡ false = ground (arith, e) in
          rw (differs, if◌then◌else◌)
            (behind-IsFound i x xs _ h.0 e
              (search-IsFound i (if alike then coll + 2 else coll + 1) xs h.1))
    ]

    -- The other chains do not have the string.
    pub count-other :
        (i : ℕ) (xs : List StrObj)
        → i ≢ bit_and wanted mask
        → All (Fit i) xs
        → count (of (has_bytes str)) xs ≡ 0
    count-other i [] ne h = refl
    count-other i (x ∷ xs) ne h = elim (Bool-cases (same_bytes str x.bytes)) [
      | inl e ↦ absurd (ne (Fit-wanted i x h.0 e).1)
      | inr e ↦ rw e (omega (arith, count-other i xs ne h.1))
    ]
