-- ===== src/Bcdump/Proto/Read.antt =====
-- The reader of a prototype: `bcread_kgc`, `bcread_bytecode`, `bcread_uv`, `bcread_dbg`,
-- `bcread_varinfo` and `lj_bcread_proto` (lib/luajit/src/lj_bcread.c). The prototypes that were
-- read before stand on the Lua stack above the old top, the last one first.
use omniajit.Prelude.{
  ℕ, zero, suc, ◌+◌, ◌-◌, ◌*◌, ◌^◌, ◌<◌, ◌≡◌, refl, ◌∙◌, arith, All, bit_and, List, [], ◌∷◌, ◌++◌,
  length, drop, leb, ◌==◌, if◌then◌else◌, Bool, false, Option, none, some, not, ◌&&◌, ◌||◌,
}
use mathlib.Core.List.{append_assoc}
use omniajit.Uleb.{ruleb128}
use omniajit.Bcdump.{bcread_knum}
use omniajit.Bcdump.Words.{Width, two, four, size, read_words}
use omniajit.Bcdump.Result.{Result, ok, error, undefined, bcbad, defined, mem, ◌>>=◌}
use omniajit.Bcdump.Template.Read.{bcread_ktab}
use omniajit.Bcdump.Proto.{
  Build, Kgc, str, tab, i64, u64, complex, Dbg, Info, Proto, proto, Kgcs, no_kgc, child, const,
  kgc_str, line_width,
}

abbrev pub byte : List ℕ → Result (ℕ × List ℕ)
byte [] = undefined
byte (b ∷ p) = ok (b, p)

abbrev pub uleb128 : List ℕ → Result (ℕ × List ℕ)
uleb128 p = defined (ruleb128 p)

-- The names behind `n` names that end in a NUL: `if (n) while (*p++ || --n) ;`
unfoldable pub varinfo : ℕ → List ℕ → List ℕ
varinfo zero p = p
varinfo (suc n) [] = []
varinfo (suc n) (c ∷ p) = varinfo (if c == 0 then n else suc n) p

-- Names as they are stored.
abbrev pub nul_terminated : List (List ℕ) → List ℕ
nul_terminated [] = []
nul_terminated (name ∷ names) = name ++ (0 ∷ nul_terminated names)

varinfo_name :
    (n : ℕ) (name p : List ℕ)
    → All (λ c. 0 < c) name
    → varinfo (suc n) (name ++ (0 ∷ p)) ≡ varinfo n p
unfolding varinfo
varinfo_name n [] p h = refl
varinfo_name n (c ∷ name) p h =
    let in_name : (c == 0) ≡ false = ground (arith, h.0) in
    rw (varinfo, in_name, if◌then◌else◌) (varinfo_name n name p h.1)

-- bcread_varinfo skips as many names as there are upvalues, where no name has a zero byte.
pub varinfo-nul_terminated :
    (names : List (List ℕ)) (p : List ℕ)
    → All (λ (name : List ℕ). All (λ c. 0 < c) name) names
    → varinfo (length names) (nul_terminated names ++ p) ≡ p
varinfo-nul_terminated [] p h = unfold varinfo in refl
varinfo-nul_terminated (name ∷ names) p h = rw (append_assoc name (0 ∷ nul_terminated names) p) (
    varinfo_name (length names) name (nul_terminated names ++ p) h.0
    ∙ varinfo-nul_terminated names p h.1)

-- `BCINS_AD` of `BC_FUNCV` or `BC_FUNCF`, with the frame size.
abbrev pub func_header : ℕ → ℕ → ℕ
func_header flags framesize = (if bit_and flags 0x02 == 0 then 0x59 else 0x5c) + framesize * 2 ^ 8

-- The first parts of a prototype: its head, and the sizes of what follows.
pub record Head : Type 0 where
  pub flags : ℕ
  pub numparams : ℕ
  pub framesize : ℕ
  pub sizeuv : ℕ
  pub sizekgc : ℕ
  pub sizekn : ℕ
  pub sizebc : ℕ
  pub sizedbg : ℕ
  pub firstline : ℕ
  pub numline : ℕ

-- `flags` are those of the dump.
unfoldable pub read_sizedbg : ℕ → List ℕ → Result (ℕ × ℕ × ℕ × List ℕ)
read_sizedbg flags p =
    let lines = (do
      (sizedbg, q) ← uleb128 p
      let more = (do
        (firstline, r) ← uleb128 q
        (numline, s) ← uleb128 r
        ok (sizedbg, firstline, numline, s))
      if sizedbg == 0 then ok (0, 0, 0, q) else more) in
    if bit_and flags 0x02 == 0 then lines else ok (0, 0, 0, p)

unfoldable pub read_head : ℕ → List ℕ → Result (Head × List ℕ)
unfolding read_sizedbg
read_head dump_flags p0 = do
  (flags, p1) ← byte p0
  (numparams, p2) ← byte p1
  (framesize, p3) ← byte p2
  (sizeuv, p4) ← byte p3
  (sizekgc, p5) ← uleb128 p4
  (sizekn, p6) ← uleb128 p5
  (nbc, p7) ← uleb128 p6
  (sizedbg, firstline, numline, p8) ← read_sizedbg dump_flags p7
  ok (
    record {
      flags = flags;
      numparams = numparams;
      framesize = framesize;
      sizeuv = sizeuv;
      sizekgc = sizekgc;
      sizekn = sizekn;
      sizebc = nbc + 1;
      sizedbg = sizedbg;
      firstline = firstline;
      numline = numline;
    },
    p8,
  )

module _ (build : Build) (dump_flags : ℕ) where
  open build use {be, hasffi, dualnum, floats}

  -- `bcread_flags(ls) & BCDUMP_F_BE`
  abbrev pub dump_be : Bool
  dump_be = not (bit_and dump_flags 0x01 == 0)

  unfoldable pub read_block : Width → ℕ → List ℕ → Result (List ℕ × List ℕ)
  unfolding mem
  read_block width n p = do
    (b, q) ← defined (mem (n * size width) p)
    ok (read_words dump_be be width n b, q)

  -- A constant with the type code `tp`, which is no child.
  unfoldable pub kgc_data : ℕ → List ℕ → Result (Kgc × List ℕ)
  unfolding mem
  kgc_data tp p =
      let string = (do (s, q) ← defined (mem (tp - kgc_str) p); ok (str s, q)) in
      let table = (do (t, q) ← bcread_ktab dualnum floats p; ok (tab t, q)) in
      let cdata = (do
        (lo, q) ← uleb128 p
        (hi, r) ← uleb128 q
        let complex_data = (do
          (ilo, s) ← uleb128 r
          (ihi, t) ← uleb128 s
          ok (complex lo hi ilo ihi, t))
        if tp == 4 then complex_data else ok ((if tp == 2 then i64 lo hi else u64 lo hi), r)) in
      if leb kgc_str tp then string else if tp == 1 then table else cdata

  -- Is this the type code of a constant that is no child?
  abbrev pub is_const : ℕ → Bool
  is_const tp = leb kgc_str tp || tp == 1 || hasffi && not (tp == 0)

  -- `protoV(--L->top)`, for the next `n` constants; the first one is the first in memory.
  unfoldable pub bcread_kgc : ℕ → List Proto → List ℕ → Result (Kgcs × List Proto × List ℕ)
  bcread_kgc zero stack p = ok (no_kgc, stack, p)
  bcread_kgc (suc n) stack p = do
    (tp, q) ← uleb128 p
    let constant = (do
      (k, r) ← kgc_data tp q
      (ks, stack', s) ← bcread_kgc n stack r
      ok (const k ks, stack', s))
    let pop : Result (Kgcs × List Proto × List ℕ) = elim stack [
      | [] ↦ error bcbad
      | pt ∷ below ↦ do (ks, stack', s) ← bcread_kgc n below q; ok (child pt ks, stack', s)
    ]
    if is_const tp then constant else pop

  -- For `nbc` instructions; there is none if `sizedbg` is 0.
  unfoldable pub bcread_dbg : ℕ → ℕ → ℕ → ℕ → List ℕ → Result (Option Dbg × List ℕ)
  unfolding mem
  bcread_dbg nbc sizedbg firstline numline p =
      let width = line_width numline in
      let info = (do
        (b, q) ← defined (mem sizedbg p)
        ok (
          some (record {
            firstline = firstline;
            numline = numline;
            lineinfo = read_words dump_be be width nbc b;
            names = drop (nbc * size width) b;
          }),
          q,
        )) in
      if sizedbg == 0 then ok (none, p) else info

  unfoldable pub bcread_proto : List Proto → List ℕ → Result (Proto × List Proto × List ℕ)
  bcread_proto stack p0 = do
    (h, p1) ← read_head dump_flags p0
    (bc, p2) ← read_block four (h.sizebc - 1) p1
    (uv, p3) ← read_block two h.sizeuv p2
    (ks, stack', p4) ← bcread_kgc h.sizekgc stack p3
    (kn, p5) ← defined (bcread_knum dualnum floats h.sizekn p4)
    (dbg, p6) ← bcread_dbg (h.sizebc - 1) h.sizedbg h.firstline h.numline p5
    let info : Info = record {
      flags = h.flags;
      numparams = h.numparams;
      framesize = h.framesize;
      trace = 0;
      func = func_header h.flags h.framesize;
      bc = bc;
      uv = uv;
      kn = kn;
      dbg = dbg;
    }
    ok (proto info ks, stack', p6)
