-- ===== src/Bcdump/Load/Reject.antt =====
-- A dump of a build that differs too much is refused.
use omniajit.Prelude.{
  ℕ, ◌<◌, ◌≡◌, ◌⊎◌, inl, inr, refl, ap, arith, bit_and, List, [], ◌∷◌, ◌++◌, length, drop, ◌==◌,
  if◌then◌else◌, Bool, true, false, not, ◌&&◌, ◌||◌, some,
}
use omniajit.Bcdump.Result.{ok, error, bcfmt, ok-Returns}
use omniajit.Bcdump.Input.{Input, concat, max_buf, bcread_want}
use omniajit.Bcdump.Input.Refill.{IsInput, Available, bcread_want-Available}
use omniajit.Bcdump.Proto.{Build, Info, proto, Kgcs, pdata, with_length, bcwrite}
use omniajit.Bcdump.Proto.Read.{uleb128}
use omniajit.Bcdump.Proto.Writer.{pieces_of, keep}
use omniajit.Bcdump.Load.{expect, is_incompatible, bcread_header, load, lj_bcread}
use omniajit.Bcdump.Load.Flags.{dump_flags, dump_flags-HasFlags}
use omniajit.Bcdump.Load.Header.{named, front, one_byte}
use omniajit.Bcdump.Load.Children.{IsProto}
use omniajit.Bcdump.Load.RoundTrip.{bcwrite_bytes}

lj_bcread_refuses :
    (reader : Build) (endmark : Bool) (chunkarg : List ℕ) (flags : ℕ) (rest : List ℕ) (i : Input)
    → let s = 0x4c ∷ 0x4a ∷ 2 ∷ flags ∷ rest in
      IsInput s i
      → i.eof ≡ false
      → length s < max_buf
      → flags < 128
      → is_incompatible reader flags ≡ true
      → lj_bcread reader endmark chunkarg i ≡ error bcfmt
unfolding lj_bcread bcread_header load expect
lj_bcread_refuses reader endmark chunkarg flags rest i is open_input small byte refused =
    let magic = 0x4c ∷ 0x4a ∷ 2 ∷ flags ∷ [] in
    let (j, e, enough) =
      ok-Returns (bcread_want 13 i) (Available 13 (magic ++ rest))
        (bcread_want-Available 13 (magic ++ rest) i is small (omega arith) (inl open_input)) in
    let (q, f, is_q) = front magic rest 13 j enough (omega arith) in
    let known : expect (0x4c ∷ 0x4a ∷ 2 ∷ []) j.p ≡ ok (some (flags ∷ q)) =
      ap (expect (0x4c ∷ 0x4a ∷ 2 ∷ [])) f in
    let code : uleb128 (flags ∷ q) ≡ ok (flags, q) = one_byte flags q byte in
    rw (e, known, code, refused, if◌then◌else◌) refl

-- The builds have different frame layouts, or the dump needs the FFI and the reader has none.
abbrev IsForeign : Build → Build → Info → Type 0
IsForeign build reader i =
    (reader.fr2 ≡ not build.fr2) ⊎ (((bit_and i.flags 0x04 == 0) ≡ false) × (reader.hasffi ≡ false))

frames_differ :
    (strip be no_ffi fr2 : Bool)
    → (bit_and (dump_flags strip be no_ffi fr2) 0x08 == (if not fr2 then 0x08 else 0)) ≡ false
frames_differ true true true true = refl
frames_differ true true true false = refl
frames_differ true true false true = refl
frames_differ true true false false = refl
frames_differ true false true true = refl
frames_differ true false true false = refl
frames_differ true false false true = refl
frames_differ true false false false = refl
frames_differ false true true true = refl
frames_differ false true true false = refl
frames_differ false true false true = refl
frames_differ false true false false = refl
frames_differ false false true true = refl
frames_differ false false true false = refl
frames_differ false false false true = refl
frames_differ false false false false = refl

foreign :
    (build reader : Build) (strip : Bool) (i : Info)
    → IsForeign build reader i
    → is_incompatible reader (dump_flags strip build.be (bit_and i.flags 0x04 == 0) build.fr2)
      ≡ true
unfolding is_incompatible not ◌||◌ ◌&&◌
foreign build reader strip i (inl e) =
    let no_ffi = bit_and i.flags 0x04 == 0 in
    let has = dump_flags-HasFlags strip build.be no_ffi build.fr2 in
    rw (has.known, e, frames_differ strip build.be no_ffi build.fr2) refl
foreign build reader strip i (inr (e, f)) =
    let no_ffi = bit_and i.flags 0x04 == 0 in
    let has = dump_flags-HasFlags strip build.be no_ffi build.fr2 in
    rw (has.known, has.ffi, e, f) (ground arith)

-- lj_bcread throws LJ_ERR_BCFMT for a dump of lj_bcwrite if its build has another frame layout, or
-- if the dump has the FFI flag and its build has no FFI, for every split of the bytes into pieces
-- that are not empty.
pub lj_bcread-bcwrite_foreign :
    (build reader : Build) (strip endmark : Bool) (i : Info) (ks : Kgcs)
    (chunkarg chunkname : List ℕ) (input : Input)
    → let dump = (bcwrite build keep strip (proto i ks) chunkname []).0 in
      IsProto build strip i ks
      → IsForeign build reader i
      → IsInput (drop 1 dump) input
      → input.eof ≡ false
      → length dump < max_buf
      → lj_bcread reader endmark chunkarg input ≡ error bcfmt
lj_bcread-bcwrite_foreign build reader strip endmark i ks chunkarg chunkname input h differ is
      open_input small =
    let no_ffi = bit_and i.flags 0x04 == 0 in
    let flags = dump_flags strip build.be no_ffi build.fr2 in
    let has = dump_flags-HasFlags strip build.be no_ffi build.fr2 in
    let rest =
      named strip chunkname
      ++ (concat (pieces_of build strip ks)
          ++ (with_length (pdata build strip i ks) ++ (0 ∷ []))) in
    let order = bcwrite_bytes build strip i ks chunkname h in
    lj_bcread_refuses reader endmark chunkarg flags rest input (rw order at is) open_input
      (omega (arith, ap (λ (w : List ℕ). length w) order, small)) has.one_byte
      (foreign build reader strip i differ)
