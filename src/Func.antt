-- ===== src/Func.antt =====
-- Upvalues: `func_finduv`, `lj_func_closeuv`, `lj_func_freeuv` (lib/luajit/src/lj_func.c),
-- `lj_gc_closeuv` (lib/luajit/src/lj_gc.c) and the colours of lj_gc.h.
-- An upvalue is a number, its place in memory; a stack slot is its distance from the bottom of the
-- stack. The lists that the upvalues are linked into are lists of their numbers.
pub mod Chain
pub mod Insert
pub mod Find
pub mod Close
pub mod Closure
mod Examples
use omniajit.Prelude.{
  ℕ, ◌+◌, bit_and, bit_or, bit_xor, List, [], ◌∷◌, leb, ◌==◌, if◌then◌else◌, Bool, true, false, not,
  ◌&&◌, Option, none, some,
}

-- `GCupval`: the slot is what `v` points to while the upvalue is open, else that is `tv`.
pub record Upval (V : Type 0) : Type 0 where
  pub marked : ℕ
  pub closed : Bool
  pub immutable : ℕ
  pub slot : ℕ
  pub tv : V
  pub dhash : ℕ

pub data GcState : Type 0 where
  pause propagate atomic sweepstring sweep finalize : GcState

-- The thread's stack and its list of open upvalues, and what is global: the list `uvhead` of the
-- open upvalues of all threads, the list of all objects, and the state of the collector. `gray` has
-- the values that were passed to `gc_mark`, `freed` the upvalues that are no more.
pub record State (V : Type 0) : Type 0 where
  pub stack : ℕ → V
  pub uv : ℕ → Upval V
  pub fresh : ℕ
  pub openupval : List ℕ
  pub uvhead : List ℕ
  pub root : List ℕ
  pub currentwhite : ℕ
  pub gcstate : GcState
  pub gray : List V
  pub freed : List ℕ

abbrev pub curwhite : ℕ → ℕ
curwhite currentwhite = bit_and currentwhite 3

abbrev pub otherwhite : ℕ → ℕ
otherwhite currentwhite = bit_xor currentwhite 3

-- Is an object with these marks dead?
abbrev pub isdead : ℕ → ℕ → Bool
isdead currentwhite marked = not (bit_and (bit_and marked (otherwhite currentwhite)) 3 == 0)

abbrev pub flipwhite : ℕ → ℕ
flipwhite marked = bit_xor marked 3

abbrev pub isgray : ℕ → Bool
isgray marked = bit_and marked 7 == 0

abbrev pub gray2black : ℕ → ℕ
gray2black marked = bit_or marked 4

abbrev pub makewhite : ℕ → ℕ → ℕ
makewhite currentwhite marked = bit_or (bit_and marked 0xf8) (curwhite currentwhite)

-- A number out of the list, where it stands first.
unfoldable pub unlink : ℕ → List ℕ → List ℕ
unlink p [] = []
unlink p (q ∷ ps) = if q == p then ps else q ∷ unlink p ps

module _ {V : Type 0} where
  -- A store to the upvalue `p`.
  abbrev pub set_uv : (ℕ → Upval V) → ℕ → Upval V → ℕ → Upval V
  set_uv uv p u q = if q == p then u else uv q

  -- The loop of `func_finduv`: the open upvalue of the slot.
  unfoldable pub search : (ℕ → Upval V) → ℕ → List ℕ → Option ℕ
  search uv slot [] = none
  search uv slot (p ∷ ps) =
      let later = search uv slot ps in
      if leb slot (uv p).slot then if (uv p).slot == slot then some p else later else none

  -- The list with `new` where the loop ends.
  unfoldable pub insert : (ℕ → Upval V) → ℕ → ℕ → List ℕ → List ℕ
  insert uv slot new [] = new ∷ []
  insert uv slot new (p ∷ ps) =
      if leb slot (uv p).slot then p ∷ insert uv slot new ps else new ∷ p ∷ ps

  -- An upvalue that was found is resurrected if it is dead.
  unfoldable pub found : ℕ → State V → State V
  found p s =
      let u = s.uv p in
      let marked = if isdead s.currentwhite u.marked then flipwhite u.marked else u.marked in
      record s { uv = set_uv s.uv p (record u { marked = marked }) }

  -- The memory of a new upvalue has any values in the other fields.
  unfoldable pub create : ℕ → State V → State V
  unfolding insert
  create slot s =
      let u = record (s.uv s.fresh) {
        marked = curwhite s.currentwhite;
        closed = false;
        slot = slot;
      } in
      record s {
        uv = set_uv s.uv s.fresh u;
        fresh = s.fresh + 1;
        openupval = insert s.uv slot s.fresh s.openupval;
        uvhead = s.fresh ∷ s.uvhead;
      }

  unfoldable pub func_finduv : ℕ → State V → State V × ℕ
  unfolding search found create
  func_finduv slot s = elim (search s.uv slot s.openupval) [
    | some p ↦ (found p s, p)
    | none ↦ (create slot s, s.fresh)
  ]

  unfoldable pub lj_func_freeuv : ℕ → State V → State V
  unfolding unlink
  lj_func_freeuv p s = record s {
    uvhead = (if (s.uv p).closed then s.uvhead else unlink p s.uvhead);
    freed = p ∷ s.freed;
  }

  -- Is a value a white object?
  module _ (tviswhite : V → Bool) where
    -- The marks of an upvalue that is closed: it is never gray.
    unfoldable pub close_marks : GcState → ℕ → ℕ → ℕ
    close_marks propagate currentwhite marked = gray2black marked
    close_marks atomic currentwhite marked = gray2black marked
    close_marks state currentwhite marked = makewhite currentwhite marked

    abbrev pub is_marking : GcState → Bool
    is_marking propagate = true
    is_marking atomic = true
    is_marking state = false

    unfoldable pub lj_gc_closeuv : ℕ → State V → State V
    unfolding close_marks
    lj_gc_closeuv p s =
        let u = s.uv p in
        let o = s.stack u.slot in
        let gray_uv = isgray u.marked in
        let marked = if gray_uv then close_marks s.gcstate s.currentwhite u.marked else u.marked in
        let barrier = gray_uv && is_marking s.gcstate && tviswhite o in
        record s {
          uv = set_uv s.uv p (record u { marked = marked; closed = true; tv = o });
          root = p ∷ s.root;
          gray = (if barrier then o ∷ s.gray else s.gray);
        }

    -- The loop of `lj_func_closeuv`, over the open upvalues.
    unfoldable pub closeuv_loop : ℕ → List ℕ → State V → State V
    unfolding lj_func_freeuv lj_gc_closeuv unlink
    closeuv_loop level [] s = s
    closeuv_loop level (p ∷ ps) s =
        let s' = record s { openupval = ps } in
        let freed_uv = lj_func_freeuv p s' in
        let closed_uv = lj_gc_closeuv p (record s' { uvhead = unlink p s.uvhead }) in
        let next = if isdead s.currentwhite (s.uv p).marked then freed_uv else closed_uv in
        let rest = closeuv_loop level ps next in if leb level (s.uv p).slot then rest else s

    unfoldable pub lj_func_closeuv : ℕ → State V → State V
    unfolding closeuv_loop
    lj_func_closeuv level s = closeuv_loop level s.openupval s
