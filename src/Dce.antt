-- ===== src/Dce.antt =====
-- Dead code elimination on the IR of a trace, lib/luajit/src/lj_opt_dce.c. The IR is a memory of
-- instructions by their references. A chain of an opcode starts at `J->chain` and goes on through
-- `prev`; `pchain` says whether its last pointer is that one or the `prev` of an instruction.
pub mod Live
pub mod Stage
pub mod Correct
mod Examples
use omniajit.Prelude.{
  ℕ, zero, suc, ◌+◌, ◌-◌, ◌%◌, ◌^◌, bit_and, List, [], ◌∷◌, length, replicate, Bool, true, false,
  leb, ◌==◌, if◌then◌else◌, Option, none, some,
}

abbrev pub ref_first : ℕ
ref_first = 0x8001

-- `mark` is the bit `IRT_MARK` of the type, and `t` has the other bits.
pub record Ins : Type 0 where
  pub o : ℕ
  pub t : ℕ
  pub mark : Bool
  pub op1 : ℕ
  pub op2 : ℕ
  pub prev : ℕ

-- The numbers of `IR_NOP` and `IRT_NIL`, and the table `lj_ir_mode`.
pub record Codes : Type 0 where
  pub ir_nop : ℕ
  pub irt_nil : ℕ
  pub mode : ℕ → ℕ

pub record State : Type 0 where
  pub ir : ℕ → Ins
  pub chain : ℕ → ℕ
  pub pchain : ℕ → Option ℕ
  pub bpropcache : List ℕ

-- A store into a memory.
abbrev pub store : {A : Type 0} → (ℕ → A) → ℕ → A → ℕ → A
store m i a j = if j == i then a else m j

-- `if (ref >= REF_FIRST) irt_setmark(IR(ref)->t);`
unfoldable pub mark : ℕ → State → State
mark ref s =
    if leb ref_first ref
    then record s { ir = store s.ir ref (record (s.ir ref) { mark = true }) }
    else s

-- The entries of all snapshots.
unfoldable pub marksnap : List ℕ → State → State
marksnap [] s = s
marksnap (sn ∷ map) s = marksnap map (mark (sn % 2 ^ 16) s)

-- The marks of both operands.
abbrev pub mark_operands : Ins → State → State
mark_operands i s = mark i.op2 (mark i.op1 s)

module _ (codes : Codes) where
  open codes use {ir_nop, irt_nil, mode}

  -- `((irt | ~IRT_GUARD) & lj_ir_mode[o]) >= IRM_S`: without the guard bit, the bit `IRM_W` of the
  -- mode is cleared.
  unfoldable pub sideeff : Ins → Bool
  sideeff i = leb 0x60 (if leb 0x80 i.t then mode i.o else bit_and (mode i.o) 0x7f)

  abbrev pub nop : Ins
  nop = record { o = ir_nop; t = irt_nil; mark = false; op1 = 0; op2 = 0; prev = 0 }

  -- `*pchain[ir->o] = ir->prev;`
  unfoldable pub reroute : Ins → State → State
  reroute i s = elim (s.pchain i.o) [
    | none ↦ record s { chain = store s.chain i.o i.prev }
    | some r ↦ record s { ir = store s.ir r (record (s.ir r) { prev = i.prev }) }
  ]

  -- The body of the loop, for the instruction `ins`.
  unfoldable pub step : ℕ → State → State
  step ins s =
      let i = s.ir ins in
      let unmarked = record s {
        ir = store s.ir ins (record i { mark = false });
        pchain = store s.pchain i.o (some ins);
      } in
      let rerouted = reroute i s in
      if i.mark
      then mark_operands i unmarked
      else if sideeff i
      then mark_operands i s
      else record rerouted { ir = store rerouted.ir ins nop }

  -- The loop over the last `n` instructions that are left, from the highest one down.
  unfoldable pub propagate : ℕ → State → State
  propagate zero s = s
  propagate (suc n) s = propagate n (step (ref_first + n) s)

  -- `nins` is the reference behind the last instruction.
  unfoldable pub opt_dce : Bool → List ℕ → ℕ → State → State
  opt_dce enabled map nins s =
      let t = propagate (nins - ref_first) (record (marksnap map s) { pchain = λ o. none }) in
      if enabled then record t { bpropcache = replicate (length t.bpropcache) 0 } else s
