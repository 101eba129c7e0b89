-- ===== src/Bcdump/Load/Round.antt =====
-- One round of the loop of `lj_bcread` over a dump.
use omniajit.Prelude.{
  ℕ, ◌+◌, ◌%◌, ◌/◌, ◌^◌, ◌≤◌, ◌<◌, ◌≡◌, inl, inr, refl, ap, ◌∙◌, sym, arith, List, [], ◌∷◌, ◌++◌,
  length, length-append, ◌==◌, if◌then◌else◌, Bool, true, false, Bool-cases, Option-cases, Option,
  none, some, dec_lt,
}
use mathlib.Core.List.{append_assoc}
use omniajit.Uleb.{wuleb128, ruleb128}
use omniajit.Uleb.Write.{wuleb128_last, wuleb128_more}
use omniajit.Bcdump.Result.{ok, Returns, Returns-bind}
use omniajit.Bcdump.Input.{Input, concat, max_buf, bcread_need, bcread_want}
use omniajit.Bcdump.Input.Refill.{
  IsInput, Available, not_at_end, bcread_need-Available, bcread_want-Available,
}
use omniajit.Bcdump.Proto.{Build, Info, Proto, proto, Kgcs, sizekgc, pdata, with_length}
use omniajit.Bcdump.Proto.Read.{uleb128, bcread_proto}
use omniajit.Bcdump.Proto.Constants.{uleb128-wuleb128, normal, children, with_be, IsWord}
use omniajit.Bcdump.Proto.Length.{length-wuleb128_le, length-wuleb128-pos, with_length_lem}
use omniajit.Bcdump.Proto.RoundTrip.{IsInfo, bcread_proto-pdata}
use omniajit.Bcdump.Load.{at, shortcut, sized_proto, next}
use omniajit.Bcdump.Load.Flags.{HasFlags}
use omniajit.Bcdump.Load.Header.{front}

-- The first byte of a number that is not 0.
first_byte : (n : ℕ) → 0 < n → (b : ℕ) × (t : List ℕ) × (0 < b) × (wuleb128 n ≡ b ∷ t)
first_byte n h = elim (dec_lt n 128) [
  | yes p ↦ (n, [], h, wuleb128_last n p)
  | no p ↦ (n % 128 + 128, wuleb128 (n / 2 ^ 7), omega arith, wuleb128_more n (omega arith))
]

shortcut_number :
    (n : ℕ) (p c rest : List ℕ) → 0 < n → p ++ c ≡ wuleb128 n ++ rest → shortcut p ≡ none
shortcut_number n [] c rest h e = refl
shortcut_number n (b ∷ p) c rest h e =
    let (d, t, some_bits, f) = first_byte n h in
    let g : b ∷ (p ++ c) ≡ d ∷ (t ++ rest) = e ∙ ap (λ w. w ++ rest) f in
    let same : b ≡ d = cc in ground (arith, same, some_bits)

-- The stack and the bytes behind a round, `none` at the end.
abbrev pub Found : Option (List Proto) → List ℕ → Option (List Proto) × Input → Type 0
Found stack rest (found, i) = (found ≡ stack) × IsInput rest i

abbrev Parsed : List Proto → List ℕ → List Proto × Input → Type 0
Parsed stack rest (found, i) = (found ≡ stack) × IsInput rest i

module _ (build : Build) (be : Bool) (strip : Bool) (flags : ℕ) (no_ffi : Bool)
    (has : HasFlags strip build.be no_ffi build.fr2 flags) where
  abbrev reader : Build
  reader = with_be build be

  sized_proto-pdata :
      (i : Info) (ks : Kgcs) (below : List Proto) (rest : List ℕ) (j : Input)
      → let p = pdata build strip i ks in
        IsInfo build i ks
        → IsInput (p ++ rest) j
        → length (p ++ rest) < max_buf
        → Returns
            (sized_proto reader flags (length p) (children build strip ks ++ below) j)
            (Parsed (normal build strip (proto i ks) ∷ below) rest)
  unfolding sized_proto
  sized_proto-pdata i ks below rest j info is small =
      let p = pdata build strip i ks in
      Returns-bind (bcread_need (length p) j) _ (Available (length p) (p ++ rest))
        (Parsed (normal build strip (proto i ks) ∷ below) rest)
        (bcread_need-Available (length p) (p ++ rest) j is small
          (omega (arith, length-append p rest)))
        (λ k enough.
          let (r, e, is_rest) = front p rest (length p) k enough (omega arith) in
          let read : bcread_proto reader flags (children build strip ks ++ below) k.p
              ≡ ok (normal build strip (proto i ks), below, r) =
            ap (bcread_proto reader flags (children build strip ks ++ below)) e
            ∙ bcread_proto-pdata build be flags has.order strip i ks below r has.stripped info in
          let all : (length r + length p == length k.p) ≡ true =
            ground (arith, ap (λ (p : List ℕ). length p) e, length-append p r) in
          rw (read, all, if◌then◌else◌) (refl, is_rest.0))

  pub pdata_bytes : (i : Info) (ks : Kgcs) → 5 ≤ length (pdata build strip i ks)
  unfolding pdata
  pdata_bytes i ks =
      omega (arith, length-append (wuleb128 (sizekgc ks)), length-wuleb128-pos (sizekgc ks))

  pub next-pdata :
      (i : Info) (ks : Kgcs) (below : List Proto) (rest : List ℕ) (j : Input)
      → let s = with_length (pdata build strip i ks) ++ rest in
        IsInfo build i ks
        → IsWord (length (pdata build strip i ks))
        → IsInput s j
        → length s < max_buf
        → Returns
            (next reader flags (children build strip ks ++ below) j)
            (Found (some (normal build strip (proto i ks) ∷ below)) rest)
  unfolding next
  next-pdata i ks below rest j info fits is small =
      let p = pdata build strip i ks in
      let stack = children build strip ks ++ below in
      let some_byte : 5 ≤ length p = pdata_bytes i ks in
      let n = length p in
      let prefix : with_length p ++ rest ≡ wuleb128 n ++ (p ++ rest) =
        ap (λ w. w ++ rest) (with_length_lem p (omega (arith, some_byte)) fits)
        ∙ append_assoc (wuleb128 n) p rest in
      let more : shortcut j.p ≡ none =
        shortcut_number n j.p (concat j.pieces) (p ++ rest) (omega (arith, some_byte))
          (is.whole ∙ prefix) in
      let whole : IsInput (wuleb128 n ++ (p ++ rest)) j = rw prefix at is in
      let size = length-append (wuleb128 n) (p ++ rest) in
      let all_small : length (wuleb128 n ++ (p ++ rest)) < max_buf = rw prefix at small in
      rw (next, more)
        (Returns-bind (bcread_want 5 j) _ (Available 5 (wuleb128 n ++ (p ++ rest)))
          (Found (some (normal build strip (proto i ks) ∷ below)) rest)
          (bcread_want-Available 5 (wuleb128 n ++ (p ++ rest)) j whole all_small (omega arith)
            (inr (omega (arith, size, length-append p rest, some_byte))))
          (λ k enough.
            let (q, e, is_q) =
              front (wuleb128 n) (p ++ rest) 5 k enough (length-wuleb128_le n fits) in
            let code : uleb128 k.p ≡ ok (n, q) = ap uleb128 e ∙ uleb128-wuleb128 n q fits in
            let not_end : (n == 0) ≡ false = ground (arith, some_byte) in
            rw (code, not_end, if◌then◌else◌)
              (Returns-bind (sized_proto reader flags n stack (at k q)) _
                (Parsed (normal build strip (proto i ks) ∷ below) rest)
                (Found (some (normal build strip (proto i ks) ∷ below)) rest)
                (sized_proto-pdata i ks below rest (at k q) info is_q.0
                  (omega (arith, size, all_small)))
                (λ r (same, is_rest). (ap some same, is_rest)))))

shortcut-some : (p q : List ℕ) → shortcut p ≡ some q → p ≡ 0 ∷ q
shortcut-some [] q e = absurd (ground (arith, e))
shortcut-some (b ∷ p) q e = elim (Bool-cases (b == 0)) [
  | inl f ↦
      let zero_byte : b ≡ 0 = ground (arith, f) in
      let same : some p ≡ some q = rw (f, if◌then◌else◌) at e in cc
  | inr f ↦ absurd (ground (arith, e, f))
]

shortcut-none : (p c : List ℕ) → p ++ c ≡ 0 ∷ [] → shortcut p ≡ none → length p ≡ 0
shortcut-none [] c e f = refl
shortcut-none (b ∷ p) c e f = let same : b ≡ 0 = cc in absurd (ground (arith, same, f))

-- The zero byte behind the prototypes ends the loop.
pub next_end :
    (build : Build) (flags : ℕ) (stack : List Proto) (i : Input)
    → IsInput (0 ∷ []) i
    → Returns (next build flags stack i) (Found none [])
unfolding next
next_end build flags stack i is = elim (Option-cases (shortcut i.p)) [
  | inr (p, e) ↦
      let split : 0 ∷ (p ++ concat i.pieces) ≡ 0 ∷ [] =
        ap (λ w. w ++ concat i.pieces) (sym (shortcut-some i.p p e)) ∙ is.whole in
      rw (next, e) (refl, record { whole = cc; pieces = is.pieces; more = is.more })
  | inl e ↦
      let few : length i.p ≡ 0 = shortcut-none i.p (concat i.pieces) is.whole e in
      rw (next, e)
        (Returns-bind (bcread_want 5 i) _ (Available 5 (0 ∷ [])) (Found none [])
          (bcread_want-Available 5 (0 ∷ []) i is (omega arith) (omega arith)
            (inl (not_at_end (0 ∷ []) i is (omega (arith, few)))))
          (λ k enough.
            let (q, f, is_q) = front (0 ∷ []) [] 5 k enough (omega arith) in
            let code : uleb128 k.p ≡ ok (0, q) = ap uleb128 f ∙ (unfold ruleb128 in refl) in
            rw code (refl, is_q.0)))
]
