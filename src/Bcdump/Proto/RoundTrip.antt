-- ===== src/Bcdump/Proto/RoundTrip.antt =====
-- Round trip of a prototype, behind its length.
use omniajit.Prelude.{
  ℕ, suc, ◌+◌, ◌-◌, ◌<◌, ◌≡◌, refl, ap, ◌∙◌, arith, bit_and, List, [], ◌∷◌, ◌++◌, length, All, ◌==◌,
  if◌then◌else◌, Bool, true, false, not, ◌||◌, Bool-cases, inl, inr,
}
use mathlib.Core.List.{append_assoc}
use omniajit.Uleb.{wuleb128}
use omniajit.Bcdump.{bcwrite_knum}
use omniajit.Bcdump.Words.{two, four, limit, block}
use omniajit.Bcdump.Knum.{IsNumber, bcread_knum-bcwrite_knum}
use omniajit.Bcdump.Result.{ok}
use omniajit.Bcdump.Proto.{
  Build, Info, Proto, proto, Kgcs, kept, unpatch_all, unpatched, sizekgc, bcwrite_kgc,
  bcwrite_bytecode, write_sizedbg, write_dbg, pdata,
}
use omniajit.Bcdump.Proto.Read.{Head, read_head, read_block, bcread_dbg, bcread_proto}
use omniajit.Bcdump.Proto.Constants.{
  code_then, normal, children, IsWord, AllKgc, with_be, bcread_kgc-bcwrite_kgc,
}
use omniajit.Bcdump.Proto.Debug.{
  IsDbg, IsOption, dbg_head, read_sizedbg-write_sizedbg, read_block-block, bcread_dbg-write_dbg,
}

-- A prototype without its children that fits in a dump. It has an instruction at least.
pub record IsInfo (build : Build) (i : Info) (ks : Kgcs) : Type 0 where
  pub some_ins : 0 < length i.bc
  pub nbc : IsWord (length i.bc)
  pub nkn : IsWord (length i.kn)
  pub nkgc : IsWord (sizekgc ks)
  pub words : All (λ w. w < limit four) (unpatched build i)
  pub uvs : All (λ w. w < limit two) i.uv
  pub numbers : All (IsNumber build.dualnum) i.kn
  pub debug : IsOption (IsDbg build (length i.bc)) i.dbg
  pub kgc : AllKgc build ks

length-unpatch_all : (build : Build) (bc : List ℕ) → length (unpatch_all build bc) ≡ length bc
unfolding unpatch_all
length-unpatch_all build [] = refl
length-unpatch_all build (ins ∷ bc) = ap suc (length-unpatch_all build bc)

length-unpatched : (build : Build) (i : Info) → length (unpatched build i) ≡ length i.bc
length-unpatched build i =
    let patched = not (bit_and i.flags 0x10 == 0) || not (i.trace == 0) in
    elim (Bool-cases patched) [
      | inl e ↦ rw (e, if◌then◌else◌) (length-unpatch_all build i.bc)
      | inr e ↦ rw (e, if◌then◌else◌) refl
    ]

module _ (build : Build) (be : Bool) (flags : ℕ)
    (of : (bit_and flags 0x01 == 0) ≡ not build.be) where
  abbrev reader : Build
  reader = with_be build be

  abbrev head : Bool → Info → Kgcs → Head
  head strip i ks =
      let h = dbg_head build (kept build strip i) in
      record {
        flags = bit_and i.flags 7;
        numparams = i.numparams;
        framesize = i.framesize;
        sizeuv = length i.uv;
        sizekgc = sizekgc ks;
        sizekn = length i.kn;
        sizebc = length i.bc + 1;
        sizedbg = h.0;
        firstline = h.1;
        numline = h.2;
      }

  abbrev body : Bool → Info → Kgcs → List ℕ
  body strip i ks =
      bcwrite_bytecode build i
      ++ (block build.be two i.uv
          ++ (bcwrite_kgc build ks
              ++ (bcwrite_knum build.dualnum build.floats i.kn
                  ++ write_dbg build (kept build strip i))))

  -- The head of a prototype and the rest of its bytes.
  read_head-pdata :
      (strip : Bool) (i : Info) (ks : Kgcs) (p : List ℕ)
      → ((bit_and flags 0x02 == 0) ≡ not strip)
      → IsInfo build i ks
      → read_head flags (pdata build strip i ks ++ p) ≡ ok (head strip i ks, body strip i ks ++ p)
  unfolding read_head pdata
  read_head-pdata strip i ks p e h =
      let x3 = body strip i ks in
      let x2 = write_sizedbg build strip i ++ x3 in
      let x1 = wuleb128 (length i.bc) ++ x2 in
      let x0 = wuleb128 (length i.kn) ++ x1 in
      rw
        (
          code_then (sizekgc ks) x0 p h.nkgc,
          code_then (length i.kn) x1 p h.nkn,
          code_then (length i.bc) x2 p h.nbc,
          append_assoc (write_sizedbg build strip i) x3 p,
          read_sizedbg-write_sizedbg build strip flags (length i.bc) i (x3 ++ p) e h.some_ins
              h.debug,
        )
        refl

  read_block-bcwrite_bytecode :
      (i : Info) (ks : Kgcs) (p : List ℕ)
      → IsInfo build i ks
      → read_block reader flags four (length i.bc + 1 - 1) (bcwrite_bytecode build i ++ p)
        ≡ ok (unpatched build i, p)
  unfolding bcwrite_bytecode
  read_block-bcwrite_bytecode i ks p h =
      let n : length i.bc + 1 - 1 ≡ length (unpatched build i) =
        ground (arith, length-unpatched build i) in
      ap (λ (n : ℕ). read_block reader flags four n (block build.be four (unpatched build i) ++ p))
        n
      ∙ read_block-block build be flags of four (unpatched build i) p h.words

  bcread_dbg-kept :
      (strip : Bool) (i : Info) (ks : Kgcs) (p : List ℕ)
      → IsInfo build i ks
      → let h = dbg_head build (kept build strip i) in
        bcread_dbg reader flags
          (length i.bc + 1 - 1)
          h.0
          h.1
          h.2
          (write_dbg build (kept build strip i) ++ p)
        ≡ ok (kept build strip i, p)
  unfolding bcread_dbg write_dbg
  bcread_dbg-kept true i ks p h = refl
  bcread_dbg-kept false i ks p h =
      let n : length i.bc + 1 - 1 ≡ length i.bc = omega arith in
      let head = dbg_head build i.dbg in
      ap (λ (n : ℕ). bcread_dbg reader flags n head.0 head.1 head.2 (write_dbg build i.dbg ++ p)) n
      ∙ bcread_dbg-write_dbg build be flags of i.dbg (length i.bc) p h.some_ins h.debug

  -- The prototype is read back, with the children that stand on the stack.
  pub bcread_proto-pdata :
      (strip : Bool) (i : Info) (ks : Kgcs) (below : List Proto) (p : List ℕ)
      → ((bit_and flags 0x02 == 0) ≡ not strip)
      → IsInfo build i ks
      → bcread_proto reader flags (children build strip ks ++ below) (pdata build strip i ks ++ p)
        ≡ ok (normal build strip (proto i ks), below, p)
  unfolding bcread_proto normal
  bcread_proto-pdata strip i ks below p e h =
      let x2 = write_dbg build (kept build strip i) in
      let x1 = bcwrite_knum build.dualnum build.floats i.kn ++ x2 in
      let x0 = block build.be two i.uv ++ (bcwrite_kgc build ks ++ x1) in
      rw
        (
          read_head-pdata strip i ks p e h,
          append_assoc (bcwrite_bytecode build i) x0 p,
          read_block-bcwrite_bytecode i ks (x0 ++ p) h,
          append_assoc (block build.be two i.uv) (bcwrite_kgc build ks ++ x1) p,
          read_block-block build be flags of two i.uv ((bcwrite_kgc build ks ++ x1) ++ p) h.uvs,
          append_assoc (bcwrite_kgc build ks) x1 p,
          bcread_kgc-bcwrite_kgc build be flags strip ks below (x1 ++ p) h.kgc,
          append_assoc (bcwrite_knum build.dualnum build.floats i.kn) x2 p,
          bcread_knum-bcwrite_knum build.dualnum build.floats i.kn (x2 ++ p) h.numbers,
          bcread_dbg-kept strip i ks p h,
        )
        refl
