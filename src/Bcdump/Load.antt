-- ===== src/Bcdump/Load.antt =====
-- Loading a dump: `bcread_header` and `lj_bcread` (lib/luajit/src/lj_bcread.c).
-- The lexer has read the first byte, `BCDUMP_HEAD1`. The parent of a prototype takes its children
-- from the Lua stack; `oldtop` is where the list of the prototypes on the stack ends.
-- `bcread_header` also opens the FFI library, which is not in the model.
pub mod Flags
pub mod Header
pub mod Fuel
pub mod Round
pub mod Children
pub mod RoundTrip
pub mod Reject
mod Examples
use omniajit.Prelude.{
  ℕ, zero, suc, ◌+◌, ◌-◌, ◌^◌, bit_and, List, [], ◌∷◌, ◌++◌, length, ◌==◌, if◌then◌else◌, Bool,
  true, false, not, ◌&&◌, ◌||◌, Option, none, some,
}
use omniajit.Bcdump.Result.{Result, ok, error, undefined, bcbad, bcfmt, defined, mem, ◌>>=◌}
use omniajit.Bcdump.Input.{Input, total, bcread_need, bcread_want}
use omniajit.Bcdump.Proto.{Build, Proto}
use omniajit.Bcdump.Proto.Read.{byte, uleb128, bcread_proto}

-- The flags of a dump and its chunk name, and the input behind the header.
pub record Dump : Type 0 where
  pub flags : ℕ
  pub chunkname : List ℕ
  pub input : Input

-- Behind these bytes; `none` if others are there.
unfoldable pub expect : List ℕ → List ℕ → Result (Option (List ℕ))
expect [] p = ok (some p)
expect (m ∷ ms) p = do (b, q) ← byte p; let rest = expect ms q; if b == m then rest else ok none

-- The input goes on at `p`.
abbrev pub at : Input → List ℕ → Input
at i p = record i { p = p }

-- `ls->p < ls->pe && ls->p[0] == 0`
abbrev pub shortcut : List ℕ → Option (List ℕ)
shortcut [] = none
shortcut (b ∷ p) = if b == 0 then some p else none

-- The root prototype stands alone on the stack, at the end of the input unless that may go on.
unfoldable pub root : Bool → List Proto → Input → Result Proto
root endmark (pt ∷ []) i = if not (length i.p == 0) && not endmark then error bcbad else ok pt
root endmark stack i = error bcbad

-- The outcome of a loop that has ended.
abbrev pub ended : {A : Type 0} → Option (Result A) → Result A
ended none = undefined
ended (some r) = r

module _ (build : Build) where
  -- A flag that is unknown, another frame layout, or the FFI where there is none.
  unfoldable pub is_incompatible : ℕ → Bool
  is_incompatible flags =
      not (bit_and flags 0xffff_fff0 == 0)
      || not (bit_and flags 0x08 == (if build.fr2 then 0x08 else 0))
      || not (bit_and flags 0x04 == 0) && not build.hasffi

  unfoldable pub read_chunkname : List ℕ → ℕ → Input → Result (List ℕ × Input)
  read_chunkname chunkarg flags i =
      let named = (do
        (len, p) ← uleb128 i.p
        j ← bcread_need len (at i p)
        (name, q) ← defined (mem len j.p)
        ok (name, at j q)) in
      if bit_and flags 0x02 == 0 then named else ok (chunkarg, i)

  -- `none` is the return of 0.
  unfoldable pub bcread_header : List ℕ → Input → Result (Option Dump)
  unfolding expect is_incompatible read_chunkname
  bcread_header chunkarg i0 = do
    i ← bcread_want 13 i0
    known ← expect (0x4c ∷ 0x4a ∷ 2 ∷ []) i.p
    elim known [
      | none ↦ ok none
      | some p ↦ do
        (flags, q) ← uleb128 p
        let compatible = (do
          (chunkname, j) ← read_chunkname chunkarg flags (at i q)
          ok (some (record { flags = flags; chunkname = chunkname; input = j })))
        if is_incompatible flags then ok none else compatible
    ]

  -- A prototype of `len` bytes.
  unfoldable pub sized_proto : ℕ → ℕ → List Proto → Input → Result (List Proto × Input)
  sized_proto flags len stack i = do
    j ← bcread_need len i
    (pt, below, p) ← bcread_proto build flags stack j.p
    if length p + len == length j.p then ok (pt ∷ below, at j p) else error bcbad

  -- One round of the loop; `none` is the end of the dump.
  unfoldable pub next : ℕ → List Proto → Input → Result (Option (List Proto) × Input)
  unfolding sized_proto
  next flags stack i = elim (shortcut i.p) [
    | some p ↦ ok (none, at i p)
    | none ↦ do
      j ← bcread_want 5 i
      (len, q) ← uleb128 j.p
      let more = (do (stack', k) ← sized_proto flags len stack (at j q); ok (some stack', k))
      if len == 0 then ok (none, at j q) else more
  ]

  -- What follows a round: an error ends the loop too.
  abbrev pub go_on :
      (List Proto → Input → Option (Result (List Proto × Input)))
      → List Proto
      → Result (Option (List Proto) × Input)
      → Option (Result (List Proto × Input))
  go_on again stack (ok (none, j)) = some (ok (stack, j))
  go_on again stack (ok (some stack', j)) = again stack' j
  go_on again stack (error e) = some (error e)
  go_on again stack undefined = some undefined

  -- On fuel, which is `none` when it runs out: a round reads a byte at least.
  unfoldable pub loop : ℕ → ℕ → List Proto → Input → Option (Result (List Proto × Input))
  unfolding next
  loop zero flags stack i = none
  loop (suc fuel) flags stack i = go_on (loop fuel flags) stack (next flags stack i)

  -- The prototypes behind a header. The fuel never runs out.
  unfoldable pub load : Bool → Option Dump → Result (Proto × List ℕ × Input)
  unfolding loop root
  load endmark none = error bcfmt
  load endmark (some d) = do
    (stack, i) ← ended (loop (suc (length (total d.input))) d.flags [] d.input)
    pt ← root endmark stack i
    ok (pt, d.chunkname, i)

  unfoldable pub lj_bcread : Bool → List ℕ → Input → Result (Proto × List ℕ × Input)
  unfolding bcread_header load
  lj_bcread endmark chunkarg i = do found ← bcread_header chunkarg i; load endmark found
