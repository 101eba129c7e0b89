-- ===== src/Dce/Live.antt =====
-- Dead code elimination keeps the live instructions and no others.
use omniajit.Prelude.{
  ℕ, ◌≡◌, ◌≢◌, inl, inr, ◌∙◌, arith, Bool, true, false, leb, ◌==◌, ◌&&◌, ◌||◌, some, Bool-cases,
  Option-cases,
}
use omniajit.Dce.{
  ref_first, Ins, Codes, State, store, mark, sideeff, nop, reroute, mark_operands, step,
}

-- The same instruction, but for its mark and its link.
abbrev pub Same : Ins → Ins → Type 0
Same i j = (i.o ≡ j.o) × (i.t ≡ j.t) × (i.op1 ≡ j.op1) × (i.op2 ≡ j.op2)

pub Same-trans : (i j k : Ins) → Same i j → Same j k → Same i k
Same-trans i j k (a, b, c, d) (a', b', c', d') = (a ∙ a', b ∙ b', c ∙ c', d ∙ d')

pub mark-Same : (ref : ℕ) (s : State) (r : ℕ) → Same ((mark ref s).ir r) (s.ir r)
unfolding mark
mark-Same ref s r = ground arith

pub mark-mark :
    (ref : ℕ) (s : State) (r : ℕ)
    → ((mark ref s).ir r).mark ≡ (leb ref_first ref && (r == ref) || (s.ir r).mark)
unfolding mark ◌&&◌ ◌||◌
mark-mark ref s r = ground arith

reroute-Same :
    (codes : Codes) (i : Ins) (s : State) (r : ℕ)
    → Same ((reroute codes i s).ir r) (s.ir r) × (((reroute codes i s).ir r).mark ≡ (s.ir r).mark)
unfolding reroute
reroute-Same codes i s r = elim (Option-cases (s.pchain i.o)) [
  | inl e ↦ ground (arith, e)
  | inr (k, e) ↦ ground (arith, e)
]

-- Does an operand refer to the instruction at `r`?
abbrev pub refers : Ins → ℕ → Bool
refers i r = leb ref_first i.op1 && (i.op1 == r) || leb ref_first i.op2 && (i.op2 == r)

operands-Same : (i : Ins) (s : State) (r : ℕ) → Same ((mark_operands i s).ir r) (s.ir r)
operands-Same i s r =
    Same-trans ((mark_operands i s).ir r) ((mark i.op1 s).ir r) (s.ir r)
      (mark-Same i.op2 (mark i.op1 s) r) (mark-Same i.op1 s r)

operands-mark :
    (i : Ins) (s : State) (r : ℕ) → ((mark_operands i s).ir r).mark ≡ (refers i r || (s.ir r).mark)
unfolding ◌&&◌ ◌||◌
operands-mark i s r = ground (arith, mark-mark i.op2 (mark i.op1 s) r, mark-mark i.op1 s r)

module _ (codes : Codes) (ins : ℕ) (s : State) where
  abbrev unmarked : State
  unmarked = record s {
    ir = store s.ir ins (record (s.ir ins) { mark = false });
    pchain = store s.pchain (s.ir ins).o (some ins);
  }

  abbrev pub alive : Bool
  alive = (s.ir ins).mark || sideeff codes (s.ir ins)

  pub step-Same : (r : ℕ) → r ≢ ins → Same ((step codes ins s).ir r) (s.ir r)
  unfolding step ◌||◌
  step-Same r ne = elim (Bool-cases (s.ir ins).mark) [
    | inl m ↦ ground (arith, m, operands-Same (s.ir ins) unmarked r)
    | inr m ↦ elim (Bool-cases (sideeff codes (s.ir ins))) [
      | inl e ↦ ground (arith, m, e, operands-Same (s.ir ins) s r)
      | inr e ↦ ground (arith, m, e, reroute-Same codes (s.ir ins) s r)
    ]
  ]

  pub step-mark :
      (r : ℕ)
      → r ≢ ins
      → ((step codes ins s).ir r).mark ≡ (alive && refers (s.ir ins) r || (s.ir r).mark)
  unfolding step ◌||◌ ◌&&◌
  step-mark r ne = elim (Bool-cases (s.ir ins).mark) [
    | inl m ↦ ground (arith, m, operands-mark (s.ir ins) unmarked r)
    | inr m ↦ elim (Bool-cases (sideeff codes (s.ir ins))) [
      | inl e ↦ ground (arith, m, e, operands-mark (s.ir ins) s r)
      | inr e ↦ ground (arith, m, e, reroute-Same codes (s.ir ins) s r)
    ]
  ]

  pub step-alive :
      alive ≡ true
      → refers (s.ir ins) ins ≡ false
      → Same ((step codes ins s).ir ins) (s.ir ins) × (((step codes ins s).ir ins).mark ≡ false)
  unfolding step ◌||◌
  step-alive h ssa = elim (Bool-cases (s.ir ins).mark) [
    | inl m ↦
        ground
          (arith, m, operands-mark (s.ir ins) unmarked ins, operands-Same (s.ir ins) unmarked ins)
    | inr m ↦ ground (arith, m, operands-mark (s.ir ins) s ins, operands-Same (s.ir ins) s ins)
  ]

  pub step-dead : alive ≡ false → (step codes ins s).ir ins ≡ nop codes
  unfolding step ◌||◌
  step-dead h = ground arith
