-- ===== src/Bcdump/Load/Header.antt =====
-- The header of a dump is read back.
use omniajit.Prelude.{
  ℕ, ◌-◌, ◌^◌, ◌≤◌, ◌<◌, ◌≡◌, ◌⊎◌, inl, inr, refl, ap, ◌∙◌, sym, arith, List, [], ◌∷◌, ◌++◌, length,
  length-append, drop, if◌then◌else◌, Bool, true, false, not, ◌&&◌, ◌||◌, Bool-cases, Option, none,
  some,
}
use mathlib.Core.List.{append_assoc}
use omniajit.Uleb.{wuleb128, ruleb128}
use omniajit.Bcdump.Result.{ok, defined, mem, ◌>>=◌, Returns, Returns-bind}
use omniajit.Bcdump.Input.{Input, concat, max_buf, bcread_need, bcread_want}
use omniajit.Bcdump.Input.Refill.{IsInput, Available, bcread_need-Available, bcread_want-Available}
use omniajit.Bcdump.Template.Values.{mem-append, drop-append_self}
use omniajit.Bcdump.Proto.{Build}
use omniajit.Bcdump.Proto.Read.{uleb128}
use omniajit.Bcdump.Proto.Constants.{uleb128-wuleb128}
use omniajit.Bcdump.Proto.Length.{length-wuleb128_le}
use omniajit.Bcdump.Load.{Dump, expect, at, is_incompatible, read_chunkname, bcread_header}
use omniajit.Bcdump.Load.Flags.{HasFlags}

append_split :
    (a b p c : List ℕ)
    → p ++ c ≡ a ++ b
    → length a ≤ length p
    → (q : List ℕ) × (p ≡ a ++ q) × (q ++ c ≡ b)
append_split [] b p c e h = (p, refl, e)
append_split (x ∷ a) b [] c e h = absurd (omega arith)
append_split (x ∷ a) b (y ∷ p) c e h =
    let tail : p ++ c ≡ a ++ b = cc in
    let (q, f, g) = append_split a b p c tail (omega (arith, h)) in (q, cc, g)

-- The bytes in front are available.
pub front :
    (a rest : List ℕ) (len : ℕ) (i : Input)
    → Available len (a ++ rest) i
    → length a ≤ len
    → (q : List ℕ) × (i.p ≡ a ++ q) × Available (len - length a) rest (at i q)
front a rest len i (is, enough) h =
    let enough_in_front : length a ≤ length i.p = elim enough [
      | inl l ↦ omega (arith, l, h)
      | inr all ↦ omega (arith, ap (λ (p : List ℕ). length p) all, length-append a rest)
    ] in
    let (q, f, g) = append_split a rest i.p (concat i.pieces) is.whole enough_in_front in
    let still : (len - length a ≤ length q) ⊎ (q ≡ rest) = elim enough [
      | inl l ↦ inl (omega (arith, l, h, ap (λ (p : List ℕ). length p) f, length-append a q))
      | inr all ↦ inr (
          sym (drop-append_self a q)
          ∙ (ap (drop (length a)) (sym f ∙ all) ∙ drop-append_self a rest))
    ] in
    (q, f, (record { whole = g; pieces = is.pieces; more = is.more }, still))

-- What `bcread_header` finds.
abbrev pub IsDump : ℕ → List ℕ → List ℕ → Option Dump → Type 0
IsDump flags name rest none = ⊥
IsDump flags name rest (some d) = (d.flags ≡ flags) × (d.chunkname ≡ name) × IsInput rest d.input

-- The bytes of the chunk name.
abbrev pub named : Bool → List ℕ → List ℕ
named strip chunkname = if strip then [] else wuleb128 (length chunkname) ++ chunkname

abbrev IsName : List ℕ → List ℕ → List ℕ × Input → Type 0
IsName name rest (found, i) = (found ≡ name) × IsInput rest i

pub one_byte : (flags : ℕ) (q : List ℕ) → flags < 128 → uleb128 (flags ∷ q) ≡ ok (flags, q)
one_byte flags q h = unfold ruleb128 in ground arith

-- A chunk name behind its length.
read_chunkname-IsName :
    (name rest : List ℕ) (i : Input)
    → Available 9 ((wuleb128 (length name) ++ name) ++ rest) i
    → length ((wuleb128 (length name) ++ name) ++ rest) < max_buf
    → Returns
        (uleb128 i.p >>= λ (len, p). bcread_need len (at i p) >>= λ j.
          defined (mem len j.p) >>= λ (name, q). ok (name, at j q))
        (IsName name rest)
read_chunkname-IsName name rest i is small =
    let n = length name in
    let code = wuleb128 n in
    let size = length-append (code ++ name) rest in
    let size_code = length-append code name in
    let size_name = length-append name rest in
    let fits : n < 2 ^ 32 = omega (arith, size, size_code, size_name, small) in
    let (q, e, is_name) =
      front code (name ++ rest) 9 i (rw (append_assoc code name rest) at is)
        (omega (arith, length-wuleb128_le n fits)) in
    let found : uleb128 i.p ≡ ok (n, q) = ap uleb128 e ∙ uleb128-wuleb128 n q fits in
    rw found (
      Returns-bind (bcread_need n (at i q)) _ (Available n (name ++ rest)) (IsName name rest)
        (bcread_need-Available n (name ++ rest) (at i q) is_name.0
          (omega (arith, size, size_code, size_name, small)) (omega (arith, size_name)))
        (λ j more.
          let (r, f, is_rest) = front name rest n j more (omega arith) in
          let block : mem n j.p ≡ some (name, r) = ap (mem n) f ∙ mem-append name r in
          rw block (refl, is_rest.0)))

module _ (build : Build) (strip : Bool) (be : Bool) (no_ffi : Bool) (flags : ℕ)
    (has : HasFlags strip be no_ffi build.fr2 flags) where
  compatible : (no_ffi ≡ true) ⊎ (build.hasffi ≡ true) → is_incompatible build flags ≡ false
  unfolding is_incompatible not ◌||◌ ◌&&◌
  compatible (inl e) = rw (has.known, has.frames, has.ffi, e) refl
  compatible (inr e) = rw (has.known, has.frames, has.ffi, e) (ground arith)

  read_chunkname-named :
      (chunkarg chunkname rest : List ℕ) (i : Input)
      → Available 9 (named strip chunkname ++ rest) i
      → length (named strip chunkname ++ rest) < max_buf
      → Returns
          (read_chunkname build chunkarg flags i)
          (IsName (if strip then chunkarg else chunkname) rest)
  unfolding read_chunkname
  read_chunkname-named chunkarg chunkname rest i is small = elim (Bool-cases strip) [
    | inl e ↦ rw (has.stripped, e, if◌then◌else◌) (refl, (rw e at is).0)
    | inr e ↦
        rw (has.stripped, e, if◌then◌else◌)
          (read_chunkname-IsName chunkname rest i (rw e at is) (rw e at small))
  ]

  pub bcread_header-header :
      (chunkarg chunkname rest : List ℕ) (i : Input)
      → let s = 0x4c ∷ 0x4a ∷ 2 ∷ flags ∷ (named strip chunkname ++ rest) in
        IsInput s i
        → i.eof ≡ false
        → length s < max_buf
        → (no_ffi ≡ true) ⊎ (build.hasffi ≡ true)
        → Returns
            (bcread_header build chunkarg i)
            (IsDump flags (if strip then chunkarg else chunkname) rest)
  unfolding bcread_header expect
  bcread_header-header chunkarg chunkname rest i is open_input small ffi =
      let after = named strip chunkname ++ rest in
      let magic = 0x4c ∷ 0x4a ∷ 2 ∷ flags ∷ [] in
      Returns-bind (bcread_want 13 i) _ (Available 13 (magic ++ after))
        (IsDump flags (if strip then chunkarg else chunkname) rest)
        (bcread_want-Available 13 (magic ++ after) i is small (omega arith) (inl open_input))
        (λ j (is_j, enough).
          let (q, e, is_q) = front magic after 13 j (is_j, enough) (omega arith) in
          let known : expect (0x4c ∷ 0x4a ∷ 2 ∷ []) j.p ≡ ok (some (flags ∷ q)) =
            ap (expect (0x4c ∷ 0x4a ∷ 2 ∷ [])) e in
          let code : uleb128 (flags ∷ q) ≡ ok (flags, q) = one_byte flags q has.one_byte in
          rw (known, code, compatible ffi, if◌then◌else◌)
            (Returns-bind (read_chunkname build chunkarg flags (at j q)) _
              (IsName (if strip then chunkarg else chunkname) rest)
              (IsDump flags (if strip then chunkarg else chunkname) rest)
              (read_chunkname-named chunkarg chunkname rest (at j q) is_q (omega (arith, small)))
              (λ r (same, is_rest). (refl, same, is_rest))))
