-- ===== src/Bcdump/Load/Examples.antt =====
-- Runs of the dump and of its readers.
use omniajit.Prelude.{
  ℕ, ◌+◌, ◌<◌, ◌^◌, ◌==◌, if◌then◌else◌, ◌≡◌, ◌∙◌, refl, arith, List, [], ◌∷◌, ◌++◌, length, drop,
  not, ◌&&◌, ◌||◌, none, some, false, true, inl, lt_wf, dec_le,
}
use omniajit.Uleb.{wuleb128, wuleb128_loop}
use omniajit.Bcdump.{num, bcwrite_knum, write_number, save_int, save_num, patch, low_bits}
use omniajit.Bcdump.Examples.{one_float, one_narrow}
use omniajit.Bcdump.Input.{Input, bcread_need}
use omniajit.Bcdump.Proto.{
  Build, str, Dbg, Info, Proto, proto, Kgcs, no_kgc, child, const, bcwrite, header, pdata,
  with_length, bcwrite_kgc, bcwrite_bytecode, write_sizedbg, write_lines, write_dbg, write_kgc,
  debug_bytes, unpatch, unpatch_all,
}
use omniajit.Tab.Sizes.{fls}
use omniajit.Bcdump.Words.{block, bytes}
use omniajit.Bcdump.Result.{Result, ok, error, bcfmt}
use omniajit.Bcdump.Input.Refill.{IsInput}
use omniajit.Bcdump.Input.Buffer
use omniajit.Bcdump.Input.Buffer.{Lex}
use omniajit.Bcdump.Input.Refine.{view, Refines, Refilled, bcread_need-Refines}
use omniajit.Buf.{lj_buf_need}
use omniajit.Bcdump.Load.{lj_bcread}
use omniajit.Bcdump.Load.Reject.{lj_bcread-bcwrite_foreign}
use omniajit.Bcdump.Load.Children.{IsProto}
use omniajit.Bcdump.Load.RoundTrip.{bcwrite_bytes}
use omniajit.Bcdump.Proto.Writer.{
  pieces_of, dump_pieces, feed, keep, bcwrite-dump_pieces, bcwrite_failed,
}

abbrev build : Build
build = record {
  be = false;
  fr2 = true;
  hasffi = false;
  dualnum = false;
  floats = one_float;
  startins = λ _. 0;
}

abbrev child_info : Info
child_info = record {
  flags = 0x12;
  numparams = 1;
  framesize = 2;
  trace = 0;
  func = 0;
  bc = 0x5650 ∷ 0x1_024b ∷ [];
  uv = [];
  kn = [];
  dbg = none;
}

abbrev lines : Dbg
lines = record { firstline = 3; numline = 300; lineinfo = 4 ∷ 299 ∷ []; names = 0 ∷ [] }

abbrev info : Info
info = record {
  flags = 0x01;
  numparams = 0;
  framesize = 3;
  trace = 0;
  func = 0;
  bc = 0x1234_5678 ∷ 0x1_024b ∷ [];
  uv = 0x8001 ∷ [];
  kn = num 0 0x3ff0_0000 ∷ num 0x9abc_def0 0x4004_0000 ∷ [];
  dbg = some lines;
}

abbrev below : Kgcs
below = child (proto child_info no_kgc) (const (str (0x68 ∷ 0x69 ∷ [])) no_kgc)

abbrev chunkname : List ℕ
chunkname = 0x40 ∷ 0x61 ∷ []

abbrev child_bytes : List ℕ
child_bytes = 2 ∷ 1 ∷ 2 ∷ 0 ∷ 0 ∷ 0 ∷ 2 ∷ 0 ∷ 79 ∷ 86 ∷ 0 ∷ 0 ∷ 75 ∷ 2 ∷ 1 ∷ 0 ∷ []

abbrev root_bytes : List ℕ
root_bytes =
    1 ∷ 0 ∷ 3 ∷ 1 ∷ 2 ∷ 2 ∷ 2 ∷ 5 ∷ 3 ∷ 172 ∷ 2 ∷ 120 ∷ 86 ∷ 52 ∷ 18 ∷ 75 ∷ 2 ∷ 1 ∷ 0 ∷ 1 ∷ 128 ∷ 0
    ∷ 7 ∷ 104 ∷ 105 ∷ 2 ∷ 225 ∷ 251 ∷ 230 ∷ 171 ∷ 19 ∷ 128 ∷ 128 ∷ 144 ∷ 128 ∷ 4 ∷ 4 ∷ 0 ∷ 43 ∷ 1
    ∷ 0 ∷ []

-- The bytes behind the first one: the reader function gives the first six, then the others.
abbrev start : List ℕ
start = 76 ∷ 74 ∷ 2 ∷ 8 ∷ 2 ∷ 64 ∷ []

abbrev others : List ℕ
others =
    97 ∷ 16 ∷ 2 ∷ 1 ∷ 2 ∷ 0 ∷ 0 ∷ 0 ∷ 2 ∷ 0 ∷ 79 ∷ 86 ∷ 0 ∷ 0 ∷ 75 ∷ 2 ∷ 1 ∷ 0 ∷ 41 ∷ 1 ∷ 0 ∷ 3 ∷ 1
    ∷ 2 ∷ 2 ∷ 2 ∷ 5 ∷ 3 ∷ 172 ∷ 2 ∷ 120 ∷ 86 ∷ 52 ∷ 18 ∷ 75 ∷ 2 ∷ 1 ∷ 0 ∷ 1 ∷ 128 ∷ 0 ∷ 7 ∷ 104
    ∷ 105 ∷ 2 ∷ 225 ∷ 251 ∷ 230 ∷ 171 ∷ 19 ∷ 128 ∷ 128 ∷ 144 ∷ 128 ∷ 4 ∷ 4 ∷ 0 ∷ 43 ∷ 1 ∷ 0 ∷ 0 ∷ []

pdata_child : pdata build false child_info no_kgc ≡ child_bytes
unfolding pdata write_sizedbg write_lines bcwrite_bytecode unpatch_all unpatch bcwrite_kgc write_dbg
    bcwrite_knum wuleb128 wuleb128_loop lt_wf dec_le block bytes
pdata_child = refl

pdata_root : pdata build false info below ≡ root_bytes
unfolding pdata write_sizedbg write_lines bcwrite_bytecode unpatch_all unpatch bcwrite_kgc write_kgc
    write_dbg debug_bytes bcwrite_knum write_number save_int save_num patch low_bits one_narrow
    wuleb128 wuleb128_loop lt_wf dec_le block bytes not ◌&&◌ ◌||◌
pdata_root = refl

abbrev input : Input
input = record { p = []; pieces = start ∷ others ∷ []; eof = false }

debug_small : length (debug_bytes build lines) < 2 ^ 32
unfolding debug_bytes block bytes
debug_small = omega arith

info-IsProto : IsProto build false info below
info-IsProto = (
  record {
    some_ins = omega arith;
    nbc = omega arith;
    nkn = omega arith;
    nkgc = omega arith;
    words = omega arith;
    uvs = (omega arith, tt);
    numbers = ((omega arith, omega arith, refl), ((omega arith, omega arith, refl), tt));
    debug = (omega arith, omega arith, omega arith, refl, debug_small);
    kgc = (omega arith, tt);
  },
  rw pdata_root (omega arith),
  inl refl,
)

with_length_child : with_length child_bytes ≡ 16 ∷ child_bytes
unfolding with_length fls wuleb128 wuleb128_loop lt_wf dec_le
with_length_child = refl

with_length_root : with_length root_bytes ≡ 41 ∷ root_bytes
unfolding with_length fls wuleb128 wuleb128_loop lt_wf dec_le
with_length_root = refl

name_length : wuleb128 2 ≡ 2 ∷ []
unfolding wuleb128 wuleb128_loop lt_wf dec_le
name_length = refl

bcwrite_dump :
    (bcwrite build keep false (proto info below) chunkname []).0 ≡ 0x1b ∷ (start ++ others)
unfolding pieces_of
bcwrite_dump =
    bcwrite_bytes build false info below chunkname info-IsProto
    ∙ rw (pdata_child, pdata_root, with_length_child, with_length_root, name_length) refl

input-IsInput : IsInput (drop 1 (bcwrite build keep false (proto info below) chunkname []).0) input
input-IsInput = rw bcwrite_dump (record { whole = refl; pieces = omega arith; more = inl refl })

-- A reader without the second frame slot.
lj_bcread-bcwrite_foreign_example :
    lj_bcread (record build { fr2 = false }) false (0x3d ∷ 0x62 ∷ []) input ≡ error bcfmt
lj_bcread-bcwrite_foreign_example =
    lj_bcread-bcwrite_foreign build (record build { fr2 = false }) false false info below
      (0x3d ∷ 0x62 ∷ []) chunkname input info-IsProto (inl refl) input-IsInput refl
      (rw bcwrite_dump (omega arith))

-- Two bytes are unread at the end of the lexer's buffer.
abbrev lex : Lex
lex = record {
  sb = record { bytes = 9 ∷ 9 ∷ 1 ∷ 2 ∷ []; size = 32 };
  in_sb = true;
  off = 2;
  chunk = [];
  pieces = start ∷ others ∷ [];
  eof = false;
}

bcread_need-Refines_example :
    Refines (Buffer.bcread_need 7 lex) (bcread_need 7 (view lex))
    × Refilled 7 lex (Buffer.bcread_need 7 lex)
bcread_need-Refines_example = bcread_need-Refines 7 lex ((omega arith, omega arith), tt)

lex_moved :
    Buffer.bcread_need 7 lex
    ≡ ok (record lex {
      sb = record { bytes = 1 ∷ 2 ∷ start; size = 32 };
      off = 0;
      pieces = others ∷ [];
    })
unfolding Buffer.bcread_need Buffer.bcread_fill Buffer.fill Buffer.keep_rest Buffer.add_piece
    lj_buf_need
lex_moved = refl

-- A writer function that fails with status 5 at its second call.
abbrev full : ℕ → List ℕ → ℕ × ℕ
full calls p = (calls + 1, if calls == 1 then 5 else 0)

bcwrite-dump_pieces_example :
    bcwrite build full false (proto info below) chunkname 0
    ≡ feed full (dump_pieces build false info below chunkname) (0, 0)
bcwrite-dump_pieces_example = bcwrite-dump_pieces full build false info below chunkname 0

bcwrite_failed_example : bcwrite build full false (proto info below) chunkname 0 ≡ (2, 5)
unfolding feed pieces_of
bcwrite_failed_example =
    bcwrite_failed full build false info below chunkname 0
      (header build false info chunkname ∷ with_length (pdata build false child_info no_kgc) ∷ [])
      (with_length (pdata build false info below) ∷ (0 ∷ []) ∷ []) refl
      (λ h. absurd (omega (arith, h)))
