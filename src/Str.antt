-- ===== src/Str.antt =====
-- String interning: the table of strings and `lj_str_new`, `lj_str_resize`, `lj_str_rehash_chain`,
-- `lj_str_alloc` (lib/luajit/src/lj_str.c) and `gc_sweepstr` (lib/luajit/src/lj_gc.c), in the
-- default build: with secondary hashes, and with string ids that are seeded anew.
-- A string object is in its chain with all its fields; `ref` is its place in memory. The bit that a
-- table entry has beside its pointer is in `secondary`.
pub mod Hash
pub mod Ops
pub mod Count
pub mod Marks
pub mod Table
pub mod Live
pub mod Rehash
pub mod Search
pub mod New
pub mod Alloc
pub mod Intern
pub mod Sweep
pub mod Reach
pub mod Init
pub mod Compare
pub mod Find
mod Examples
use omniajit.Prelude.{
  ℕ, zero, suc, ◌+◌, ◌-◌, ◌*◌, ◌/◌, ◌%◌, ◌^◌, bit_and, bit_xor, List, [], ◌∷◌, length, ltb, leb,
  ◌==◌, if◌then◌else◌, Bool, true, false, not, ◌&&◌, ◌||◌, Option, none, some,
}
use omniajit.Func.{GcState, sweepstring, curwhite, otherwhite, isdead, flipwhite, makewhite}
use omniajit.Prng.{PrngState, lj_prng_u64}

-- `GCstr`, with the data behind it.
pub record StrObj : Type 0 where
  pub ref : ℕ
  pub marked : ℕ
  pub reserved : ℕ
  pub hashalg : Bool
  pub sid : ℕ
  pub hash : ℕ
  pub bytes : List ℕ

-- The next string id, the reseed counter, which has 8 bits, and `g->prng`.
pub record StrId : Type 0 where
  pub id : ℕ
  pub idreseed : ℕ
  pub prng : PrngState

-- `StrInternState`, and what is used of the rest of the global state. No object has the place
-- `fresh` or one above it.
pub record State : Type 0 where
  pub tab : ℕ → List StrObj
  pub secondary : ℕ → Bool
  pub mask : ℕ
  pub num : ℕ
  pub ids : StrId
  pub second : Bool
  pub seed : ℕ
  pub currentwhite : ℕ
  pub gcstate : GcState
  pub fresh : ℕ

abbrev pub max_str : ℕ
max_str = 0x7fffff00

abbrev pub min_strtab : ℕ
min_strtab = 256

abbrev pub max_strtab : ℕ
max_strtab = 2 ^ 26

abbrev pub max_coll : ℕ
max_coll = 32

abbrev pub is_sweepstring : GcState → Bool
is_sweepstring sweepstring = true
is_sweepstring state = false

-- The number of chains of a table: the loops run down from `mask` and end at `~(MSize)0`.
abbrev pub size : ℕ → ℕ
size mask = (mask + 1) % 2 ^ 32

-- A store to a table.
abbrev pub set_at : {A : Type 0} → (ℕ → A) → ℕ → A → ℕ → A
set_at tab i c j = if j == i then c else tab j

-- `len == len && memcmp(...) == 0`
unfoldable pub same_bytes : List ℕ → List ℕ → Bool
same_bytes [] [] = true
same_bytes [] (y ∷ ys) = false
same_bytes (x ∷ xs) [] = false
same_bytes (x ∷ xs) (y ∷ ys) = x == y && same_bytes xs ys

-- A string goes to the front of the chain `i`.
abbrev pub push : (ℕ → List StrObj) → ℕ → StrObj → ℕ → List StrObj
push tab i x = set_at tab i (x ∷ tab i)

-- What becomes of the number of strings.
unfoldable pub lj_str_free : ℕ → ℕ
lj_str_free num = (num + 2 ^ 32 - 1) % 2 ^ 32

-- `(o->gch.marked ^ LJ_GC_WHITES) & ow`: a string that is not dead, or one that is fixed.
unfoldable pub survives : ℕ → ℕ → Bool
survives currentwhite marked = not (bit_and (bit_xor marked 3) (otherwhite currentwhite) == 0)

-- What becomes of a chain and of the number of strings.
unfoldable pub sweep_chain : ℕ → List StrObj → ℕ → List StrObj × ℕ
unfolding survives lj_str_free
sweep_chain currentwhite [] num = ([], num)
sweep_chain currentwhite (x ∷ xs) num =
    let freed = sweep_chain currentwhite xs (lj_str_free num) in
    let (ys, n) = sweep_chain currentwhite xs num in
    if survives currentwhite x.marked
    then (record x { marked = makewhite currentwhite x.marked } ∷ ys, n)
    else freed

-- `gc_sweepstr(g, &g->str.tab[i])`
unfoldable pub gc_sweepstr : ℕ → State → State
unfolding sweep_chain
gc_sweepstr i s =
    let (ys, n) = sweep_chain s.currentwhite (s.tab i) s.num in
    record s { tab = set_at s.tab i ys; num = n }

-- How the loop of `lj_str_new` over a chain ends: with the object and the chain, in which it is
-- no more dead, or with the number of collisions.
pub data Probe : Type 0 where
  hit : ℕ → List StrObj → Probe
  miss : ℕ → Probe

abbrev pub behind : StrObj → Probe → Probe
behind x (hit r ys) = hit r (x ∷ ys)
behind x (miss coll) = miss coll

abbrev pub resurrect : ℕ → StrObj → StrObj
resurrect currentwhite x = record x {
  marked = (if isdead currentwhite x.marked then flipwhite x.marked else x.marked);
}

unfoldable pub search : ℕ → ℕ → List ℕ → ℕ → List StrObj → Probe
unfolding same_bytes
search currentwhite hash str coll [] = miss coll
search currentwhite hash str coll (x ∷ xs) =
    let alike = x.hash == hash && length x.bytes == length str in
    let rest = search currentwhite hash str (if alike then coll + 2 else coll + 1) xs in
    if alike && same_bytes str x.bytes
    then hit x.ref (resurrect currentwhite x ∷ xs)
    else behind x rest

-- What `lj_str_new` returns: an object of the table, the empty string, or `LJ_ERR_STROV`.
pub data NewStr : Type 0 where
  interned : ℕ → NewStr
  empty strov : NewStr

-- The id of a new string.
unfoldable pub next_id : StrId → StrId × ℕ
unfolding lj_prng_u64
next_id s =
    let (rs, r) = lj_prng_u64 s.prng in
    let seeded : StrId = record { id = r % 2 ^ 32; idreseed = r / 2 ^ 56; prng = rs } in
    let s' = if s.idreseed == 0 then seeded else record s { idreseed = s.idreseed - 1 } in
    (record s' { id = (s'.id + 1) % 2 ^ 32 }, s'.id)
