-- ===== src/Bcdump/Proto.antt =====
-- Prototypes and their dump: `bcwrite_kgc`, `bcwrite_bytecode`, `bcwrite_proto`, `bcwrite_header`,
-- `bcwrite_footer` and `lj_bcwrite` (lib/luajit/src/lj_bcwrite.c).
pub mod Read
pub mod Constants
pub mod Debug
pub mod RoundTrip
pub mod Length
pub mod Writer
use omniajit.Prelude.{
  ℕ, zero, suc, ◌+◌, ◌-◌, ◌*◌, ◌/◌, ◌%◌, ◌^◌, bit_and, List, [], ◌∷◌, ◌++◌, length, take, drop,
  replicate, ltb, leb, ◌==◌, if◌then◌else◌, Bool, true, false, Option, none, some, not, ◌&&◌, ◌||◌,
}
use omniajit.Uleb.{wuleb128}
use omniajit.Bcdump.{Number, Floats, bcwrite_knum}
use omniajit.Bcdump.Words.{Width, one, two, four, block}
use omniajit.Bcdump.Template.{Ktab, bcwrite_ktab}
use omniajit.Tab.Sizes.{fls}

-- What the build and the running VM fix: `LJ_BE`, `LJ_FR2`, `LJ_HASFFI`, `LJ_DUALNUM`, the
-- conversions of doubles, and `traceref(J, rd)->startins`.
pub record Build : Type 0 where
  pub be : Bool
  pub fr2 : Bool
  pub hasffi : Bool
  pub dualnum : Bool
  pub floats : Floats
  pub startins : ℕ → ℕ

-- A collectable constant that is no prototype: the cdata types have the words of their values.
pub data Kgc : Type 0 where
  str : List ℕ → Kgc
  tab : Ktab → Kgc
  i64 : ℕ → ℕ → Kgc
  u64 : ℕ → ℕ → Kgc
  complex : ℕ → ℕ → ℕ → ℕ → Kgc

-- The debug info: the line numbers of the instructions, and the bytes of `uvinfo` and `varinfo`.
pub record Dbg : Type 0 where
  pub firstline : ℕ
  pub numline : ℕ
  pub lineinfo : List ℕ
  pub names : List ℕ

-- `GCproto` without its collectable constants: `func` is the first instruction, and `bc` has those
-- behind it.
pub record Info : Type 0 where
  pub flags : ℕ
  pub numparams : ℕ
  pub framesize : ℕ
  pub trace : ℕ
  pub func : ℕ
  pub bc : List ℕ
  pub uv : List ℕ
  pub kn : List Number
  pub dbg : Option Dbg

mutual
  pub data Proto : Type 0 where
    proto : Info → Kgcs → Proto

  -- The collectable constants in memory order.
  pub data Kgcs : Type 0 where
    no_kgc : Kgcs
    child : Proto → Kgcs → Kgcs
    const : Kgc → Kgcs → Kgcs

abbrev pub sizekgc : Kgcs → ℕ
sizekgc no_kgc = 0
sizekgc (child pt ks) = suc (sizekgc ks)
sizekgc (const k ks) = suc (sizekgc ks)

-- `BCDUMP_KGC_STR`
abbrev pub kgc_str : ℕ
kgc_str = 5

-- The width of the line numbers.
abbrev pub line_width : ℕ → Width
line_width numline = if ltb numline 256 then one else if ltb numline 65536 then two else four

-- `lj_strfmt_wuleb128(p, n)` over the 5 bytes of room in front of the prototype.
abbrev pub overwrite : ℕ → List ℕ → List ℕ → List ℕ
overwrite at q p = take at p ++ (q ++ drop (at + length q) p)

-- The bytes that are passed to the writer function: the length is written right in front.
unfoldable pub with_length : List ℕ → List ℕ
unfolding fls
with_length p =
    let n = length p in
    let nn = (fls 31 n + 8) * 9 / 2 ^ 6 in
    take (nn + n) (drop (5 - nn) (overwrite (5 - nn) (wuleb128 n) (replicate 5 0 ++ p)))

-- The writer function is the caller's: it takes a piece, and returns a status that is 0 if all is
-- well. `if (ctx->status == 0) ctx->status = ctx->wfunc(...)`
abbrev pub pass : {W : Type 0} → (W → List ℕ → W × ℕ) → List ℕ → W × ℕ → W × ℕ
pass wfunc p (w, status) = if status == 0 then wfunc w p else (w, status)

module _ (build : Build) where
  open build use {be, fr2, dualnum, floats, startins}

  unfoldable pub write_kgc : Kgc → List ℕ
  write_kgc (str s) = wuleb128 (kgc_str + length s) ++ s
  write_kgc (tab t) = wuleb128 1 ++ bcwrite_ktab dualnum floats t
  write_kgc (i64 lo hi) = wuleb128 2 ++ (wuleb128 lo ++ wuleb128 hi)
  write_kgc (u64 lo hi) = wuleb128 3 ++ (wuleb128 lo ++ wuleb128 hi)
  write_kgc (complex rlo rhi ilo ihi) =
      wuleb128 4 ++ (wuleb128 rlo ++ (wuleb128 rhi ++ (wuleb128 ilo ++ wuleb128 ihi)))

  unfoldable pub bcwrite_kgc : Kgcs → List ℕ
  unfolding write_kgc
  bcwrite_kgc no_kgc = []
  bcwrite_kgc (child pt ks) = wuleb128 0 ++ bcwrite_kgc ks
  bcwrite_kgc (const k ks) = write_kgc k ++ bcwrite_kgc ks

  -- An instruction that the JIT compiler has patched: `BC_IFORL`, `BC_IITERL`, `BC_ILOOP` and
  -- `BC_JFORI` follow the opcode that they stand for; `BC_JFORL`, `BC_JITERL` and `BC_JLOOP` have
  -- the number of a trace as operand.
  unfoldable pub unpatch : ℕ → ℕ
  unpatch ins =
      let op = ins % 2 ^ 8 in
      if op == 0x50 || op == 0x53 || op == 0x56 || op == 0x4e
      then ins - op + (op + 0x4f - 0x50) % 2 ^ 8
      else if op == 0x51 || op == 0x54 || op == 0x57
      then startins (ins / 2 ^ 16)
      else ins

  unfoldable pub unpatch_all : List ℕ → List ℕ
  unfolding unpatch
  unpatch_all [] = []
  unpatch_all (ins ∷ bc) = unpatch ins ∷ unpatch_all bc

  -- `(pt->flags & PROTO_ILOOP) || pt->trace`
  abbrev pub unpatched : Info → List ℕ
  unpatched i =
      if not (bit_and i.flags 0x10 == 0) || not (i.trace == 0) then unpatch_all i.bc else i.bc

  unfoldable pub bcwrite_bytecode : Info → List ℕ
  unfolding unpatch_all
  bcwrite_bytecode i = block be four (unpatched i)

  unfoldable pub debug_bytes : Dbg → List ℕ
  debug_bytes d = block be (line_width d.numline) d.lineinfo ++ d.names

  -- The debug info that is written.
  abbrev pub kept : Bool → Info → Option Dbg
  kept strip i = if strip then none else i.dbg

  unfoldable pub write_lines : Option Dbg → List ℕ
  unfolding debug_bytes
  write_lines none = wuleb128 0
  write_lines (some d) =
      let sizedbg = length (debug_bytes d) in
      wuleb128 sizedbg ++ (if sizedbg == 0 then [] else wuleb128 d.firstline ++ wuleb128 d.numline)

  unfoldable pub write_sizedbg : Bool → Info → List ℕ
  unfolding write_lines
  write_sizedbg strip i = if strip then [] else write_lines i.dbg

  unfoldable pub write_dbg : Option Dbg → List ℕ
  unfolding debug_bytes
  write_dbg none = []
  write_dbg (some d) = debug_bytes d

  -- The prototype behind its length.
  unfoldable pub pdata : Bool → Info → Kgcs → List ℕ
  unfolding write_sizedbg bcwrite_bytecode bcwrite_kgc write_dbg
  pdata strip i ks =
      bit_and i.flags 7
      ∷ i.numparams
      ∷ i.framesize
      ∷ length i.uv
      ∷ (wuleb128 (sizekgc ks)
          ++ (wuleb128 (length i.kn)
              ++ (wuleb128 (length i.bc)
                  ++ (write_sizedbg strip i
                      ++ (bcwrite_bytecode i
                          ++ (block be two i.uv
                              ++ (bcwrite_kgc ks
                                  ++ (bcwrite_knum dualnum floats i.kn
                                      ++ write_dbg (kept strip i)))))))))

  -- The chunk name belongs to the root prototype.
  unfoldable pub header : Bool → Info → List ℕ → List ℕ
  header strip i chunkname =
      0x1b
      ∷ 0x4c
      ∷ 0x4a
      ∷ 2
      ∷ ((if strip then 0x02 else 0)
          + (if be then 0x01 else 0)
          + (if bit_and i.flags 0x04 == 0 then 0 else 0x04)
          + (if fr2 then 0x08 else 0))
      ∷ (if strip then [] else wuleb128 (length chunkname) ++ chunkname)

  module _ {W : Type 0} (wfunc : W → List ℕ → W × ℕ) (strip : Bool) where
    -- The children are written first, from the last one down.
    unfoldable mutual
      unfolding pdata with_length

      pub bcwrite_proto : Proto → W × ℕ → W × ℕ
      bcwrite_proto (proto i ks) ctx =
          let ctx' = write_children ks ctx in
          pass wfunc (with_length (pdata strip i ks))
            (if bit_and i.flags 0x01 == 0 then ctx else ctx')

      pub write_children : Kgcs → W × ℕ → W × ℕ
      write_children no_kgc ctx = ctx
      write_children (child pt ks) ctx = bcwrite_proto pt (write_children ks ctx)
      write_children (const k ks) ctx = write_children ks ctx

    unfoldable pub bcwrite : Proto → List ℕ → W → W × ℕ
    unfolding bcwrite_proto header
    bcwrite (proto i ks) chunkname w =
        pass wfunc (0 ∷ []) (bcwrite_proto (proto i ks) (wfunc w (header strip i chunkname)))
