-- ===== src/Dce/Examples.antt =====
-- Dead code elimination of three instructions.
use omniajit.Prelude.{
  ℕ, ◌+◌, ◌≡◌, refl, arith, [], ◌∷◌, true, false, ◌==◌, ◌&&◌, ◌||◌, if◌then◌else◌, none,
}
use omniajit.Dce.{
  Ins, Codes, State, opt_dce, nop, propagate, step, marksnap, mark, reroute, sideeff,
}
use omniajit.Dce.Stage.{Ordered, Final}
use omniajit.Dce.Correct.{opt_dce-Live}

-- The opcodes 1, 2 and 3 are a load, an addition and a store.
abbrev codes : Codes
codes = record { ir_nop = 0; irt_nil = 0; mode = λ o. if o == 3 then 0xe0 else 0x80 }

abbrev ins : ℕ → ℕ → ℕ → Ins
ins o op1 op2 = record { o = o; t = 3; mark = false; op1 = op1; op2 = op2; prev = 0 }

abbrev ir : ℕ → Ins
ir r =
    if r == 0x8001
    then ins 1 0 0
    else if r == 0x8002
    then ins 2 0x8001 0x8001
    else if r == 0x8003
    then ins 3 0x8001 5
    else ins 0 0 0

abbrev state : State
state = record { ir = ir; chain = λ o. 0x8000 + o; pchain = λ o. none; bpropcache = 7 ∷ [] }

ir-Ordered : Ordered 0x8004 ir
unfolding ◌&&◌ ◌||◌
ir-Ordered j r lo hi e = ground arith

ir-unmarked : (r : ℕ) → (ir r).mark ≡ false
ir-unmarked r = ground arith

opt_dce-Live_example :
    Final codes
      (0x1_8001 ∷ [])
      0x8004
      ir
      ((opt_dce codes true (0x1_8001 ∷ []) 0x8004 state).ir 0x8002)
      0x8002
opt_dce-Live_example =
    opt_dce-Live codes (0x1_8001 ∷ []) 0x8004 state (omega arith) ir-Ordered ir-unmarked 0x8002
      (omega arith) (omega arith)

removed : (opt_dce codes true (0x1_8001 ∷ []) 0x8004 state).ir 0x8002 ≡ nop codes
unfolding opt_dce propagate step marksnap mark reroute sideeff
removed = refl
