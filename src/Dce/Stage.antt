-- ===== src/Dce/Stage.antt =====
-- Dead code elimination keeps the live instructions and no others.
use omniajit.Prelude.{
  ℕ, ◌%◌, ◌^◌, ◌≤◌, ◌<◌, ◌≡◌, ◌⊎◌, refl, arith, List, [], ◌∷◌, Bool, true, false, ◌==◌, ◌&&◌, ◌||◌,
}
use omniajit.Dce.{ref_first, Ins, Codes, State, mark, marksnap, sideeff, nop}
use omniajit.Dce.Live.{Same, Same-trans, mark-Same, mark-mark, refers}

-- Does an entry of a snapshot refer to the instruction at `r`?
abbrev pub snapped : List ℕ → ℕ → Bool
snapped [] r = false
snapped (sn ∷ map) r = sn % 2 ^ 16 == r || snapped map r

-- The instructions that a trace needs: those that a snapshot refers to, those with a side effect,
-- and the operands of those.
pub data Live (codes : Codes) (map : List ℕ) (nins : ℕ) (ir : ℕ → Ins) : ℕ → Type 0 where
  restored : {r : ℕ} → snapped map r ≡ true → Live codes map nins ir r
  effect : {r : ℕ} → sideeff codes (ir r) ≡ true → Live codes map nins ir r
  operand :
      {j r : ℕ}
      → ref_first ≤ j
      → j < nins
      → Live codes map nins ir j
      → refers (ir j) r ≡ true
      → Live codes map nins ir r

-- An operand stands before the instruction that uses it.
abbrev pub Ordered : ℕ → (ℕ → Ins) → Type 0
Ordered nins ir = (j r : ℕ) → ref_first ≤ j → j < nins → refers (ir j) r ≡ true → r < j

pub sideeff-Same : (codes : Codes) (i j : Ins) → Same i j → sideeff codes i ≡ sideeff codes j
unfolding sideeff
sideeff-Same codes i j same = ground (arith, same)

pub refers-Same : (i j : Ins) (r : ℕ) → Same i j → refers i r ≡ refers j r
unfolding ◌&&◌ ◌||◌
refers-Same i j r same = ground (arith, same)

pub marksnap-Same : (map : List ℕ) (s : State) (r : ℕ) → Same ((marksnap map s).ir r) (s.ir r)
unfolding marksnap
marksnap-Same [] s r = (refl, refl, refl, refl)
marksnap-Same (sn ∷ map) s r =
    Same-trans ((marksnap map (mark (sn % 2 ^ 16) s)).ir r) ((mark (sn % 2 ^ 16) s).ir r) (s.ir r)
      (marksnap-Same map (mark (sn % 2 ^ 16) s) r) (mark-Same (sn % 2 ^ 16) s r)

pub marksnap-mark :
    (map : List ℕ) (s : State) (r : ℕ)
    → ref_first ≤ r
    → ((marksnap map s).ir r).mark ≡ (snapped map r || (s.ir r).mark)
unfolding marksnap ◌&&◌ ◌||◌
marksnap-mark [] s r h = refl
marksnap-mark (sn ∷ map) s r h =
    ground (arith, marksnap-mark map (mark (sn % 2 ^ 16) s) r h, mark-mark (sn % 2 ^ 16) s r)

module _ (codes : Codes) (map : List ℕ) (nins : ℕ) (ir : ℕ → Ins) where
  -- A live instruction is kept, without a mark; a dead one is a NOP, whatever its link is.
  abbrev pub Final : Ins → ℕ → Type 0
  Final i r =
      (Live codes map nins ir r × Same i (ir r) × (i.mark ≡ false))
      ⊎ ((¬ Live codes map nins ir r) × Same i (nop codes) × (i.mark ≡ false))

  -- Is the instruction at `r` needed by a snapshot, or by a live instruction from `from` on?
  abbrev pub Wanted : ℕ → ℕ → Type 0
  Wanted from r =
      (snapped map r ≡ true)
      ⊎ ((j : ℕ) × (from ≤ j) × (j < nins) × Live codes map nins ir j × (refers (ir j) r ≡ true))

  -- The loop has handled the instructions from `from` on.
  pub record Stage (from : ℕ) (s : State) : Type 0 where
    pub done : (r : ℕ) → from ≤ r → r < nins → Final (s.ir r) r
    pub same : (r : ℕ) → r < from → Same (s.ir r) (ir r)
    pub sound : (r : ℕ) → ref_first ≤ r → r < from → (s.ir r).mark ≡ true → Live codes map nins ir r
    pub complete : (r : ℕ) → ref_first ≤ r → r < from → Wanted from r → (s.ir r).mark ≡ true
