-- ===== src/Bcdump/Proto/Debug.antt =====
-- Round trip of the words and the debug info of a prototype.
use omniajit.Prelude.{
  ℕ, ◌*◌, ◌<◌, ◌≡◌, refl, ap, ◌∙◌, sym, arith, bit_and, List, [], ◌++◌, length, length-append, drop,
  All, ◌==◌, if◌then◌else◌, Bool, true, false, Option, none, some, not, Bool-cases, inl, inr,
}
use mathlib.Core.List.{append-nil}
use native.Mathlib.Nat.{mul-pos}
use omniajit.Uleb.{wuleb128}
use omniajit.Bcdump.Words.{
  Width, one, two, four, size, limit, block, length-block, read_words, read_words-block,
}
use omniajit.Bcdump.Result.{ok}
use omniajit.Bcdump.Template.Values.{mem-append, drop-append_self}
use omniajit.Bcdump.Proto.{
  Build, Dbg, Info, line_width, kept, debug_bytes, write_lines, write_sizedbg, write_dbg,
}
use omniajit.Bcdump.Proto.Read.{read_sizedbg, dump_be, read_block, bcread_dbg}
use omniajit.Bcdump.Proto.Constants.{uleb128-wuleb128, code_then, IsWord, with_be}

-- Debug info with a line for each instruction, as it fits in a dump.
abbrev pub IsDbg : Build → ℕ → Dbg → Type 0
IsDbg build nbc d =
    IsWord d.firstline
    × IsWord d.numline
    × All (λ w. w < limit (line_width d.numline)) d.lineinfo
    × (length d.lineinfo ≡ nbc)
    × IsWord (length (debug_bytes build d))

abbrev pub IsOption : {A : Type 0} → (A → Type 0) → Option A → Type 0
IsOption P none = Unit
IsOption P (some a) = P a

size-pos : (width : Width) → 0 < size width
size-pos one = omega arith
size-pos two = omega arith
size-pos four = omega arith

-- The numbers in the head that belong to the debug info.
abbrev pub dbg_head : Build → Option Dbg → ℕ × ℕ × ℕ
dbg_head build none = (0, 0, 0)
dbg_head build (some d) = (length (debug_bytes build d), d.firstline, d.numline)

debug_bytes-pos :
    (build : Build) (n : ℕ) (d : Dbg) → IsDbg build n d → 0 < n → 0 < length (debug_bytes build d)
unfolding debug_bytes
debug_bytes-pos build n d h lt =
    let lines = block build.be (line_width d.numline) d.lineinfo in
    let wide : 0 < size (line_width d.numline) = size-pos (line_width d.numline) in
    ground (
      arith,
      length-append lines d.names,
      length-block build.be (line_width d.numline) d.lineinfo,
      h,
      mul-pos lt wide,
    )

read_sizedbg-write_lines :
    (build : Build) (flags n : ℕ) (o : Option Dbg) (p : List ℕ)
    → ((bit_and flags 0x02 == 0) ≡ true)
    → 0 < n
    → IsOption (IsDbg build n) o
    → let h = dbg_head build o in
      read_sizedbg flags (write_lines build o ++ p) ≡ ok (h.0, h.1, h.2, p)
unfolding read_sizedbg write_lines
read_sizedbg-write_lines build flags n none p e lt h =
    rw (e, uleb128-wuleb128 0 p (omega arith)) refl
read_sizedbg-write_lines build flags n (some d) p e lt h =
    let full : (length (debug_bytes build d) == 0) ≡ false =
      ground (arith, debug_bytes-pos build n d h lt) in
    let lines = wuleb128 d.firstline ++ wuleb128 d.numline in
    rw
      (
        e,
        full,
        if◌then◌else◌,
        code_then (length (debug_bytes build d)) lines p (omega (arith, h)),
        full,
      )
      (ground
        (arith, code_then d.firstline (wuleb128 d.numline) p h.0, uleb128-wuleb128 d.numline p h.1))

pub read_sizedbg-write_sizedbg :
    (build : Build) (strip : Bool) (flags n : ℕ) (i : Info) (p : List ℕ)
    → ((bit_and flags 0x02 == 0) ≡ not strip)
    → 0 < n
    → IsOption (IsDbg build n) i.dbg
    → let h = dbg_head build (kept build strip i) in
      read_sizedbg flags (write_sizedbg build strip i ++ p) ≡ ok (h.0, h.1, h.2, p)
unfolding read_sizedbg write_sizedbg
read_sizedbg-write_sizedbg build true flags n i p e lt h = rw e refl
read_sizedbg-write_sizedbg build false flags n i p e lt h =
    read_sizedbg-write_lines build flags n i.dbg p e lt h

module _ (build : Build) (be : Bool) (flags : ℕ)
    (of : (bit_and flags 0x01 == 0) ≡ not build.be) where
  abbrev reader : Build
  reader = with_be build be

  pub dump_be-be : dump_be reader flags ≡ build.be
  dump_be-be = elim (Bool-cases build.be) [
    | inl e ↦ ground (arith, of, e)
    | inr e ↦ ground (arith, of, e)
  ]

  read_words-block_only :
      (width : Width) (ws : List ℕ)
      → All (λ w. w < limit width) ws
      → read_words build.be be width (length ws) (block build.be width ws) ≡ ws
  read_words-block_only width ws h =
      rw (append-nil (block build.be width ws)) at (read_words-block build.be be width ws [] h)

  debug_bytes-lines :
      (n : ℕ) (d : Dbg)
      → IsDbg build n d
      → let width = line_width d.numline in
        (read_words build.be be width n (debug_bytes build d) ≡ d.lineinfo)
        × (drop (n * size width) (debug_bytes build d) ≡ d.names)
  unfolding debug_bytes
  debug_bytes-lines n d (first, num, lines, count, fits) =
      let width = line_width d.numline in
      let lineinfo = block build.be width d.lineinfo in
      let bytes : length lineinfo ≡ n * size width =
        length-block build.be width d.lineinfo ∙ ap (λ (k : ℕ). k * size width) count in
      (
        rw (sym count) (read_words-block build.be be width d.lineinfo d.names lines),
        rw (sym bytes) (drop-append_self lineinfo d.names),
      )

  pub read_block-block :
      (width : Width) (ws p : List ℕ)
      → All (λ w. w < limit width) ws
      → read_block reader flags width (length ws) (block build.be width ws ++ p) ≡ ok (ws, p)
  unfolding read_block
  read_block-block width ws p h =
      rw
        (
          ← length-block build.be width ws,
          mem-append (block build.be width ws) p,
          dump_be-be,
          read_words-block_only width ws h,
        )
        refl

  pub bcread_dbg-write_dbg :
      (o : Option Dbg) (n : ℕ) (p : List ℕ)
      → 0 < n
      → IsOption (IsDbg build n) o
      → let h = dbg_head build o in
        bcread_dbg reader flags n h.0 h.1 h.2 (write_dbg build o ++ p) ≡ ok (o, p)
  unfolding bcread_dbg write_dbg
  bcread_dbg-write_dbg none n p lt is = refl
  bcread_dbg-write_dbg (some d) n p lt is =
      let width = line_width d.numline in
      let full : (length (debug_bytes build d) == 0) ≡ false =
        ground (arith, debug_bytes-pos build n d is lt) in
      rw
        (
          full,
          if◌then◌else◌,
          mem-append (debug_bytes build d) p,
          dump_be-be,
          (debug_bytes-lines n d is).0,
          (debug_bytes-lines n d is).1,
        )
        refl
