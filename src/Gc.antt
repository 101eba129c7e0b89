-- ===== src/Gc.antt =====
-- The mark phase of the garbage collector: `gc_mark_start`, `gc_mark`, the traversals of all kinds of
-- objects, `propagatemark` and `gc_propagate_gray` (lib/luajit/src/lj_gc.c), with the colours of lj_gc.h.
-- An object is a number, its place in memory. Marking changes the marks and the lists of the
-- collector only. A list that is linked by `gclist` is a list of numbers.
pub mod Ops
pub mod Reach
pub mod Mark
pub mod Object
pub mod Traverse
pub mod Weak
pub mod Kinds
pub mod Propagate
pub mod Cycle
mod Examples
use omniajit.Prelude.{
  ℕ, zero, suc, ◌+◌, ◌-◌, ◌*◌, ◌/◌, ◌%◌, List, [], ◌∷◌, ◌++◌, ◌==◌, if◌then◌else◌, Bool, true,
  false, not, ◌&&◌, ◌||◌, Option, none, some,
}

-- A `TValue`: nil, another value that is not collected, or an object.
pub data Value : Type 0 where
  nil plain : Value
  ref : ℕ → Value

-- `GCtab`, with the string that its field `__mode` has, if it is a metatable, and with the nodes of
-- its hash part, keys first. A table without a hash part has no nodes.
pub record Tab : Type 0 where
  pub metatable : Option ℕ
  pub mode : List ℕ
  pub array : List Value
  pub node : List (Value × Value)

-- What the traversals read of an object.
pub data Body : Type 0 where
  str cdata : Body
  -- The metatable and the environment.
  udata : Option ℕ → ℕ → Body
  -- Is it closed? Its value.
  upval : Bool → Value → Body
  -- The stack below the top, the environment, and the functions of the frames.
  thread : List Value → ℕ → List ℕ → Body
  -- The chunk name, the collectable constants, and the root trace.
  proto : ℕ → List ℕ → Option ℕ → Body
  -- The environment, the prototype and the upvalues.
  lua_func : ℕ → ℕ → List ℕ → Body
  -- The environment and the upvalues.
  c_func : ℕ → List Value → Body
  -- The number, the collectable constants, the traces that it links to, and the prototype.
  trace : ℕ → List ℕ → List ℕ → ℕ → Body
  tab : Tab → Body

pub record State : Type 0 where
  pub marked : ℕ → ℕ
  pub gray : List ℕ
  pub grayagain : List ℕ
  pub weak : List ℕ

-- The masks of lj_gc.h as arithmetic: the whites are the two lowest bits, black is the third, the
-- two that tell weak tables are the fourth and the fifth.
abbrev pub iswhite : ℕ → Bool
iswhite marked = not (marked % 4 == 0)

abbrev pub white2gray : ℕ → ℕ
white2gray marked = marked / 4 * 4

abbrev pub gray2black : ℕ → ℕ
gray2black marked = marked / 8 * 8 + 4 + marked % 4

abbrev pub black2gray : ℕ → ℕ
black2gray marked = marked / 8 * 8 + marked % 4

abbrev pub weak_bits : Bool → Bool → ℕ → ℕ
weak_bits key val marked =
    marked / 32 * 32 + (if val then 16 else 0) + (if key then 8 else 0) + marked % 8

abbrev pub set_at : (ℕ → ℕ) → ℕ → ℕ → ℕ → ℕ
set_at marked o m r = if r == o then m else marked r

abbrev pub recolor : (ℕ → ℕ) → ℕ → State → State
recolor f o s = record s { marked = set_at s.marked o (f (s.marked o)) }

-- Are weak keys, and are weak values among the letters of a mode? The string ends at its first
-- zero byte.
abbrev pub weak_key : List ℕ → Bool
weak_key [] = false
weak_key (c ∷ mode) = if c == 0 then false else c == b'k' || weak_key mode

abbrev pub weak_val : List ℕ → Bool
weak_val [] = false
weak_val (c ∷ mode) = if c == 0 then false else c == b'v' || weak_val mode

abbrev pub is_place : Option ℕ → ℕ → Bool
is_place none o = false
is_place (some p) o = p == o

abbrev pub mode_in : Body → List ℕ
mode_in (tab t) = t.mode
mode_in other = []

abbrev pub is_nil : Value → Bool
is_nil nil = true
is_nil v = false

abbrev pub links_of : Option ℕ → List ℕ
links_of none = []
links_of (some r) = r ∷ []

abbrev pub mark_if : (ℕ → State → State) → ℕ → State → State
mark_if mark r s = if iswhite (s.marked r) then mark r s else s

-- What `gc_mark` does to the object `o` that it has made gray, with the calls of itself by `mark`.
unfoldable pub mark_body : (ℕ → State → State) → ℕ → Body → State → State
mark_body mark o str s = s
mark_body mark o cdata s = s
mark_body mark o (udata none env) s = mark_if mark env (recolor gray2black o s)
mark_body mark o (udata (some mt) env) s =
    mark_if mark env (mark_if mark mt (recolor gray2black o s))
mark_body mark o (upval closed (ref r)) s =
    let s' = mark_if mark r s in if closed then recolor gray2black o s' else s'
mark_body mark o (upval closed v) s = if closed then recolor gray2black o s else s
mark_body mark o other s = record s { gray = o ∷ s.gray }

-- An upvalue has a value, which can be a userdata, which has tables.
abbrev pub max_depth : ℕ
max_depth = 3

-- The objects, the build option `LJ_FR2`, and the table of finalizers of the FFI, if there is one.
module _ (body : ℕ → Body) (fr2 : Bool) (finalizer : Option ℕ) where
  -- `gc_mark` of an object that is white. The calls nest no deeper than `depth`.
  unfoldable pub gc_mark : ℕ → ℕ → State → State
  unfolding mark_body
  gc_mark zero o s = s
  gc_mark (suc depth) o s = mark_body (gc_mark depth) o (body o) (recolor white2gray o s)

  unfoldable pub gc_markobj : ℕ → State → State
  unfolding gc_mark
  gc_markobj r s = mark_if (gc_mark max_depth) r s

  unfoldable pub gc_marktv : Value → State → State
  unfolding gc_markobj
  gc_marktv nil s = s
  gc_marktv plain s = s
  gc_marktv (ref r) s = gc_markobj r s

  -- The loops over objects and over values.
  unfoldable pub mark_objs : List ℕ → State → State
  unfolding gc_markobj
  mark_objs [] s = s
  mark_objs (r ∷ rs) s = mark_objs rs (gc_markobj r s)

  unfoldable pub mark_values : List Value → State → State
  unfolding gc_marktv
  mark_values [] s = s
  mark_values (v ∷ vs) s = mark_values vs (gc_marktv v s)

  abbrev pub mark_some : Option ℕ → State → State
  mark_some none s = s
  mark_some (some r) s = gc_markobj r s

  unfoldable pub mark_nodes : Bool → Bool → List (Value × Value) → State → State
  unfolding gc_marktv
  mark_nodes weakkey weakval [] s = s
  mark_nodes weakkey weakval ((key, val) ∷ node) s =
      let s1 = if weakkey then s else gc_marktv key s in
      let s2 = if weakval then s1 else gc_marktv val s1 in
      mark_nodes weakkey weakval node (if is_nil val then s else s2)
