-- ===== src/Bcdump/Load/Children.antt =====
-- The loop of `lj_bcread` over the prototypes that `bcwrite_proto` has written.
use omniajit.Prelude.{
  ℕ, zero, suc, ◌<◌, ◌≡◌, ◌⊎◌, inl, inr, refl, ap, ◌∙◌, sym, arith, bit_and, List, [], ◌∷◌, ◌++◌,
  length, length-append, ◌==◌, if◌then◌else◌, Bool, true, false, Bool-cases, Option, none, some,
}
use mathlib.Core.List.{append_assoc, append-nil}
use omniajit.Uleb.{wuleb128}
use omniajit.Bcdump.Result.{ok, ok-Returns}
use omniajit.Bcdump.Input.{Input, concat, max_buf}
use omniajit.Bcdump.Input.Refill.{IsInput}
use omniajit.Bcdump.Proto.{
  Build, Info, Proto, proto, Kgcs, no_kgc, child, const, pdata, with_length,
}
use omniajit.Bcdump.Proto.Constants.{normal, children, with_be, IsWord}
use omniajit.Bcdump.Proto.RoundTrip.{IsInfo}
use omniajit.Bcdump.Proto.Writer.{pieces_of, pieces}
use omniajit.Bcdump.Proto.Length.{with_length_lem}
use omniajit.Bcdump.Load.{next, loop}
use omniajit.Bcdump.Load.Flags.{HasFlags}
use omniajit.Bcdump.Load.Round.{Found, pdata_bytes, next-pdata, next_end}

abbrev pub has_child : Kgcs → Bool
has_child no_kgc = false
has_child (child pt ks) = true
has_child (const k ks) = has_child ks

-- A prototype that fits in a dump. `PROTO_CHILD` is set if it has children.
abbrev pub IsProto : Build → Bool → Info → Kgcs → Type 0
IsProto build strip i ks =
    IsInfo build i ks
    × IsWord (length (pdata build strip i ks))
    × (((bit_and i.flags 0x01 == 0) ≡ false) ⊎ (has_child ks ≡ false))

-- The children fit in a dump, and theirs.
unfoldable pub AreProto : Build → Bool → Kgcs → Type 0
AreProto build strip no_kgc = Unit
AreProto build strip (const k ks) = AreProto build strip ks
AreProto build strip (child (proto i below) ks) =
    IsProto build strip i below × AreProto build strip below × AreProto build strip ks

no_pieces :
    (build : Build) (strip : Bool) (ks : Kgcs)
    → has_child ks ≡ false
    → pieces_of build strip ks ≡ []
unfolding pieces_of
no_pieces build strip no_kgc e = refl
no_pieces build strip (child pt ks) e = absurd (ground (arith, e))
no_pieces build strip (const k ks) e = no_pieces build strip ks e

pub concat-append : (ps qs : List (List ℕ)) → concat (ps ++ qs) ≡ concat ps ++ concat qs
concat-append [] qs = refl
concat-append (p ∷ ps) qs =
    ap (λ w. p ++ w) (concat-append ps qs) ∙ sym (append_assoc p (concat ps) (concat qs))

-- The bytes of a prototype behind its children, in front of others.
pub concat-pieces :
    (build : Build) (strip : Bool) (i : Info) (ks : Kgcs) (rest : List ℕ)
    → IsProto build strip i ks
    → concat (pieces build strip i ks) ++ rest
      ≡ concat (pieces_of build strip ks) ++ (with_length (pdata build strip i ks) ++ rest)
concat-pieces build strip i ks rest (info, fits, parent) =
    let p = with_length (pdata build strip i ks) in
    let below = pieces_of build strip ks in
    let all : (if bit_and i.flags 0x01 == 0 then [] else below) ≡ below = elim parent [
      | inl e ↦ rw (e, if◌then◌else◌) refl
      | inr e ↦ elim (Bool-cases (bit_and i.flags 0x01 == 0)) [
        | inl f ↦ rw (f, if◌then◌else◌) (sym (no_pieces build strip ks e))
        | inr f ↦ rw (f, if◌then◌else◌) refl
      ]
    ] in
    rw (all, concat-append below (p ∷ []), append-nil p, append_assoc (concat below) p rest) refl

module _ (build : Build) (flags : ℕ) where
  loop_step :
      (fuel : ℕ) (stack stack' : List Proto) (i j : Input)
      → next build flags stack i ≡ ok (some stack', j)
      → loop build (suc fuel) flags stack i ≡ loop build fuel flags stack' j
  unfolding loop
  loop_step fuel stack stack' i j e = rw e refl

  loop_end :
      (fuel : ℕ) (stack : List Proto) (i : Input)
      → 0 < fuel
      → IsInput (0 ∷ []) i
      → (j : Input) × (loop build fuel flags stack i ≡ some (ok (stack, j))) × IsInput [] j
  unfolding loop
  loop_end zero stack i h is = absurd (omega arith)
  loop_end (suc fuel) stack i h is =
      let ((found, j), e, (same, is_end)) =
        ok-Returns (next build flags stack i) (Found none []) (next_end build flags stack i is) in
      let at_end : next build flags stack i ≡ ok (none, j) =
        e ∙ ap (λ (o : Option (List Proto)). ok (o, j)) same in
      (j, rw at_end refl, is_end)

module _ (build : Build) (be : Bool) (strip : Bool) (flags : ℕ) (no_ffi : Bool)
    (has : HasFlags strip build.be no_ffi build.fr2 flags) where
  abbrev reader : Build
  reader = with_be build be

  -- The loop gets to this stack, with these bytes to come and enough fuel for them.
  abbrev Reaches : ℕ → List Proto → Input → List Proto → List ℕ → Type 0
  Reaches fuel stack i stack' rest =
      (fuel' : ℕ) × (j : Input) × (loop reader fuel flags stack i
        ≡ loop reader fuel' flags stack' j)
      × IsInput rest j
      × (length rest < fuel')

  loop-proto :
      (fuel : ℕ) (i : Info) (ks : Kgcs) (below : List Proto) (rest : List ℕ) (j : Input)
      → let s = with_length (pdata build strip i ks) ++ rest in
        IsProto build strip i ks
        → IsInput s j
        → length s < max_buf
        → length s < fuel
        → Reaches fuel
            (children build strip ks ++ below)
            j
            (normal build strip (proto i ks) ∷ below)
            rest
  loop-proto zero i ks below rest j info is small enough = absurd (omega (arith, enough))
  loop-proto (suc fuel) i ks below rest j (info, fits, parent) is small enough =
      let p = pdata build strip i ks in
      let stack = normal build strip (proto i ks) ∷ below in
      let ((found, k), e, (same, is_rest)) =
        ok-Returns (next reader flags (children build strip ks ++ below) j)
          (Found (some stack) rest)
          (next-pdata build be strip flags no_ffi has i ks below rest j info fits is small) in
      let some_bytes = pdata_bytes build be strip flags no_ffi has i ks in
      let shorter : length rest < fuel = omega (
        arith,
        enough,
        some_bytes,
        length-append (with_length p) rest,
        ap (λ (p : List ℕ). length p) (with_length_lem p (omega (arith, some_bytes)) fits),
        length-append (wuleb128 (length p)) p,
      ) in
      let found_next : next reader flags (children build strip ks ++ below) j ≡ ok (some stack, k) =
        e ∙ ap (λ (o : Option (List Proto)). ok (o, k)) same in
      (
        fuel,
        k,
        loop_step reader flags fuel (children build strip ks ++ below) stack j k found_next,
        is_rest,
        shorter,
      )

  loop-children :
      (ks : Kgcs) (fuel : ℕ) (below : List Proto) (rest : List ℕ) (j : Input)
      → let s = concat (pieces_of build strip ks) ++ rest in
        AreProto build strip ks
        → IsInput s j
        → length s < max_buf
        → length s < fuel
        → Reaches fuel below j (children build strip ks ++ below) rest
  unfolding pieces_of AreProto children
  loop-children no_kgc fuel below rest j h is small enough = (fuel, j, refl, is, enough)
  loop-children (const k ks) fuel below rest j h is small enough =
      loop-children ks fuel below rest j h is small enough
  loop-children (child (proto i b) ks) fuel below rest j (info, bs, h) is small enough =
      let first = concat (pieces_of build strip ks) in
      let second = concat (pieces_of build strip b) in
      let last = with_length (pdata build strip i b) in
      let order : concat (pieces_of build strip (child (proto i b) ks)) ++ rest
          ≡ first ++ (second ++ (last ++ rest)) =
        rw
          (
            concat-append (pieces_of build strip ks) (pieces build strip i b),
            append_assoc first (concat (pieces build strip i b)) rest,
            concat-pieces build strip i b rest info,
          )
          refl in
      let after = children build strip ks ++ below in
      let all_small : length (first ++ (second ++ (last ++ rest))) < max_buf = rw order at small in
      let size_first = length-append first (second ++ (last ++ rest)) in
      let size_second = length-append second (last ++ rest) in
      let (f1, j1, e1, is1, l1) =
        loop-children ks fuel below (second ++ (last ++ rest)) j h (rw order at is) all_small
          (rw order at enough) in
      let (f2, j2, e2, is2, l2) =
        loop-children b f1 after (last ++ rest) j1 bs is1 (omega (arith, size_first, all_small))
          l1 in
      let (f3, j3, e3, is3, l3) =
        loop-proto f2 i b after rest j2 info is2 (omega (arith, size_first, size_second, all_small))
          l2 in
      (f3, j3, e1 ∙ (e2 ∙ e3), is3, l3)

  -- The loop leaves the root prototype on the stack.
  pub loop-dump :
      (fuel : ℕ) (i : Info) (ks : Kgcs) (j : Input)
      → let s =
          concat (pieces_of build strip ks) ++ (with_length (pdata build strip i ks) ++ (0 ∷ [])) in
        IsProto build strip i ks
        → AreProto build strip ks
        → IsInput s j
        → length s < max_buf
        → length s < fuel
        → (k : Input) × (loop reader fuel flags [] j
            ≡ some (ok (normal build strip (proto i ks) ∷ [], k)))
          × IsInput [] k
  loop-dump fuel i ks j h below is small enough =
      let last = with_length (pdata build strip i ks) ++ (0 ∷ []) in
      let size = length-append (concat (pieces_of build strip ks)) last in
      let (f1, j1, e1, is1, l1) = loop-children ks fuel [] last j below is small enough in
      let (f2, j2, e2, is2, l2) =
        loop-proto f1 i ks [] (0 ∷ []) j1 h is1 (omega (arith, size, small)) l1 in
      let (k, e3, is3) =
        loop_end reader flags f2 (normal build strip (proto i ks) ∷ []) j2 (omega (arith, l2))
          is2 in
      (k, e1 ∙ (e2 ∙ e3), is3)
