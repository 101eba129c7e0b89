-- ===== src/Bcdump/Proto/Constants.antt =====
-- Round trip of the collectable constants of a prototype.
use omniajit.Prelude.{
  ℕ, suc, ◌+◌, ◌-◌, ◌^◌, ◌<◌, ◌≡◌, refl, ap, ◌∙◌, arith, bit_and, List, [], ◌∷◌, ◌++◌, length,
  if◌then◌else◌, Bool, true, false, not, ◌&&◌, ◌||◌,
}
use mathlib.Core.List.{append_assoc}
use omniajit.Uleb.{wuleb128}
use omniajit.Uleb.Read.{ruleb128-wuleb128}
use omniajit.Bcdump.Result.{ok, defined, ◌>>=◌}
use omniajit.Bcdump.Template.{bcwrite_ktab}
use omniajit.Bcdump.Template.Values.{mem-append}
use omniajit.Bcdump.Template.RoundTrip.{IsKtab, dumped, bcread_ktab-bcwrite_ktab}
use omniajit.Bcdump.Proto.{
  Build, Kgc, str, tab, i64, u64, complex, Info, Proto, proto, Kgcs, no_kgc, child, const, kgc_str,
  kept, unpatched, sizekgc, write_kgc, bcwrite_kgc,
}
use omniajit.Bcdump.Proto.Read.{uleb128, func_header, kgc_data, is_const, bcread_kgc}

pub uleb128-wuleb128 : (n : ℕ) (p : List ℕ) → n < 2 ^ 32 → uleb128 (wuleb128 n ++ p) ≡ ok (n, p)
uleb128-wuleb128 n p h = ap defined (ruleb128-wuleb128 n p h)

-- A word in front of `x`.
pub code_then :
    (tp : ℕ) (x p : List ℕ) → tp < 2 ^ 32 → uleb128 ((wuleb128 tp ++ x) ++ p) ≡ ok (tp, x ++ p)
code_then tp x p h = rw (append_assoc (wuleb128 tp) x p) (uleb128-wuleb128 tp (x ++ p) h)

-- What a dump keeps of a prototype: three flags, the instructions before they were patched, and
-- the debug info unless that is stripped.
abbrev pub normal_info : Build → Bool → Info → Info
normal_info build strip i = record {
  flags = bit_and i.flags 7;
  numparams = i.numparams;
  framesize = i.framesize;
  trace = 0;
  func = func_header (bit_and i.flags 7) i.framesize;
  bc = unpatched build i;
  uv = i.uv;
  kn = i.kn;
  dbg = kept build strip i;
}

abbrev pub normal_kgc : Kgc → Kgc
normal_kgc (tab t) = tab (dumped t)
normal_kgc k = k

unfoldable mutual
  pub normal : Build → Bool → Proto → Proto
  normal build strip (proto i ks) = proto (normal_info build strip i) (normal_kgcs build strip ks)

  pub normal_kgcs : Build → Bool → Kgcs → Kgcs
  normal_kgcs build strip no_kgc = no_kgc
  normal_kgcs build strip (child pt ks) = child (normal build strip pt) (normal_kgcs build strip ks)
  normal_kgcs build strip (const k ks) = const (normal_kgc k) (normal_kgcs build strip ks)

-- The children as they must stand on the stack, the top first.
unfoldable pub children : Build → Bool → Kgcs → List Proto
children build strip no_kgc = []
children build strip (child pt ks) = normal build strip pt ∷ children build strip ks
children build strip (const k ks) = children build strip ks

abbrev pub IsWord : ℕ → Type 0
IsWord n = n < 2 ^ 32

-- A constant that the build can dump.
abbrev pub IsKgc : Build → Kgc → Type 0
IsKgc build (str s) = kgc_str + length s < 2 ^ 32
IsKgc build (tab t) = IsKtab build.dualnum build.floats t
IsKgc build (i64 lo hi) = IsWord lo × IsWord hi × (build.hasffi ≡ true)
IsKgc build (u64 lo hi) = IsWord lo × IsWord hi × (build.hasffi ≡ true)
IsKgc build (complex rlo rhi ilo ihi) =
    IsWord rlo × IsWord rhi × IsWord ilo × IsWord ihi × (build.hasffi ≡ true)

abbrev pub AllKgc : Build → Kgcs → Type 0
AllKgc build no_kgc = Unit
AllKgc build (child pt ks) = AllKgc build ks
AllKgc build (const k ks) = IsKgc build k × AllKgc build ks

-- A build that differs in its byte order at most.
abbrev pub with_be : Build → Bool → Build
with_be build be = record build { be = be }

module _ (build : Build) (be : Bool) (flags : ℕ) where
  abbrev reader : Build
  reader = with_be build be

  bcread_kgc_step :
      (tp n : ℕ) (k : Kgc) (stack : List Proto) (p q r : List ℕ)
      → uleb128 p ≡ ok (tp, q)
      → is_const reader flags tp ≡ true
      → kgc_data reader flags tp q ≡ ok (k, r)
      → bcread_kgc reader flags (suc n) stack p
        ≡ (bcread_kgc reader flags n stack r >>= λ (ks, below, s). ok (const k ks, below, s))
  unfolding bcread_kgc ◌||◌ ◌&&◌ not
  bcread_kgc_step tp n k stack p q r code no_child found =
      rw (code, no_child, if◌then◌else◌, found) refl

  bcread_kgc_pop :
      (n : ℕ) (pt : Proto) (stack : List Proto) (p q : List ℕ)
      → uleb128 p ≡ ok (0, q)
      → bcread_kgc reader flags (suc n) (pt ∷ stack) p
        ≡ (bcread_kgc reader flags n stack q >>= λ (ks, below, s). ok (child pt ks, below, s))
  unfolding bcread_kgc ◌||◌ ◌&&◌ not
  bcread_kgc_pop n pt stack p q code =
      let a_child : is_const reader flags 0 ≡ false = ground arith in
      rw (code, a_child, if◌then◌else◌) refl

  -- The type code is one of a constant, and its data are read back.
  bcread_kgc-const :
      (k : Kgc) (n : ℕ) (stack : List Proto) (p : List ℕ)
      → IsKgc build k
      → bcread_kgc reader flags (suc n) stack (write_kgc build k ++ p) ≡ (
          bcread_kgc reader flags n stack p >>= λ (ks, below, s).
          ok (const (normal_kgc k) ks, below, s))
  unfolding write_kgc kgc_data ◌||◌ ◌&&◌ not
  bcread_kgc-const (str s) n stack p h =
      bcread_kgc_step (kgc_str + length s) n (str s) stack
        ((wuleb128 (kgc_str + length s) ++ s) ++ p) (s ++ p) p
        (code_then (kgc_str + length s) s p h) (ground arith)
        (let e : kgc_str + length s - kgc_str ≡ length s = omega arith in
          ground (arith, e, mem-append s p))
  bcread_kgc-const (tab t) n stack p h =
      let table = bcwrite_ktab build.dualnum build.floats t in
      bcread_kgc_step 1 n (tab (dumped t)) stack ((wuleb128 1 ++ table) ++ p) (table ++ p) p
        (code_then 1 table p (omega arith)) refl
        (ground (arith, bcread_ktab-bcwrite_ktab build.dualnum build.floats t p, h))
  bcread_kgc-const (i64 lo hi) n stack p (small_lo, small_hi, ffi) =
      let x = wuleb128 lo ++ wuleb128 hi in
      bcread_kgc_step 2 n (i64 lo hi) stack ((wuleb128 2 ++ x) ++ p) (x ++ p) p
        (code_then 2 x p (omega arith)) (ground (arith, ffi))
        (ground (arith, code_then lo (wuleb128 hi) p small_lo, uleb128-wuleb128 hi p small_hi))
  bcread_kgc-const (u64 lo hi) n stack p (small_lo, small_hi, ffi) =
      let x = wuleb128 lo ++ wuleb128 hi in
      bcread_kgc_step 3 n (u64 lo hi) stack ((wuleb128 3 ++ x) ++ p) (x ++ p) p
        (code_then 3 x p (omega arith)) (ground (arith, ffi))
        (ground (arith, code_then lo (wuleb128 hi) p small_lo, uleb128-wuleb128 hi p small_hi))
  bcread_kgc-const (complex rlo rhi ilo ihi) n stack p (h1, h2, h3, h4, ffi) =
      let z = wuleb128 ilo ++ wuleb128 ihi in
      let y = wuleb128 rhi ++ z in
      let x = wuleb128 rlo ++ y in
      bcread_kgc_step 4 n (complex rlo rhi ilo ihi) stack ((wuleb128 4 ++ x) ++ p) (x ++ p) p
        (code_then 4 x p (omega arith)) (ground (arith, ffi))
        (ground (
          arith,
          code_then rlo y p h1,
          code_then rhi z p h2,
          code_then ilo (wuleb128 ihi) p h3,
          uleb128-wuleb128 ihi p h4,
        ))

  -- The constants and the children are read back, and what stands below on the stack is left.
  pub bcread_kgc-bcwrite_kgc :
      (strip : Bool) (ks : Kgcs) (below : List Proto) (p : List ℕ)
      → AllKgc build ks
      → bcread_kgc reader flags
          (sizekgc ks)
          (children build strip ks ++ below)
          (bcwrite_kgc build ks ++ p)
        ≡ ok (normal_kgcs build strip ks, below, p)
  unfolding bcwrite_kgc children normal normal_kgcs
  bcread_kgc-bcwrite_kgc strip no_kgc below p h = unfold bcread_kgc in refl
  bcread_kgc-bcwrite_kgc strip (const k ks) below p h =
      let after = bcwrite_kgc build ks ++ p in
      rw
        (
          append_assoc (write_kgc build k) (bcwrite_kgc build ks) p,
          bcread_kgc-const k (sizekgc ks) (children build strip ks ++ below) after h.0,
          bcread_kgc-bcwrite_kgc strip ks below p h.1,
        )
        refl
  bcread_kgc-bcwrite_kgc strip (child pt ks) below p h =
      bcread_kgc_pop (sizekgc ks) (normal build strip pt) (children build strip ks ++ below)
        ((wuleb128 0 ++ bcwrite_kgc build ks) ++ p) (bcwrite_kgc build ks ++ p)
        (code_then 0 (bcwrite_kgc build ks) p (omega arith))
      ∙ rw (bcread_kgc-bcwrite_kgc strip ks below p h) refl
