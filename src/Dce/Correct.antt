-- ===== src/Dce/Correct.antt =====
-- Dead code elimination keeps the live instructions and no others.
use omniajit.Prelude.{
  ℕ, zero, suc, ◌+◌, ◌-◌, ◌≤◌, ◌<◌, ◌≡◌, inl, inr, refl, sym, ap, ◌∙◌, arith, List, true, false,
  ◌&&◌, ◌||◌, none, Bool-cases, dec_lt,
}
use omniajit.Dce.{ref_first, Ins, Codes, State, marksnap, nop, step, propagate, opt_dce}
use omniajit.Dce.Live.{Same, Same-trans, refers, alive, step-Same, step-mark, step-alive, step-dead}
use omniajit.Dce.Stage.{
  Live, Ordered, sideeff-Same, refers-Same, marksnap-Same, marksnap-mark, Final, Wanted, Stage,
}

module _ (codes : Codes) (map : List ℕ) (nins : ℕ) (ir : ℕ → Ins) (ordered : Ordered nins ir) where
  module _ (ins : ℕ) (s : State) (first : ref_first ≤ ins) (last : ins < nins)
      (stage : Stage codes map nins ir (suc ins) s) where
    here : Same (s.ir ins) (ir ins)
    here = stage.same ins (omega arith)

    -- The test of the loop is right.
    alive-Live : alive codes ins s ≡ true → Live codes map nins ir ins
    unfolding ◌||◌
    alive-Live h = elim (Bool-cases (s.ir ins).mark) [
      | inl m ↦ stage.sound ins first (omega arith) m
      | inr m ↦
          Live.effect (sym (sideeff-Same codes (s.ir ins) (ir ins) here) ∙ ground (arith, h, m))
    ]

    Live-alive : Live codes map nins ir ins → alive codes ins s ≡ true
    unfolding ◌||◌
    Live-alive (Live.restored e) = ground (arith, stage.complete ins first (omega arith) (inl e))
    Live-alive (Live.effect e) = ground (arith, sideeff-Same codes (s.ir ins) (ir ins) here, e)
    Live-alive (Live.operand {j} lo hi live e) = ground (
      arith,
      stage.complete ins first (omega arith) (inr (j, ordered j ins lo hi e, hi, live, e)),
    )

    no_self : (r : ℕ) → ins ≤ r → refers (s.ir ins) r ≡ false
    no_self r le = elim (Bool-cases (refers (s.ir ins) r)) [
      | inl e ↦ absurd (
          omega
            (arith, ordered ins r first last (sym (refers-Same (s.ir ins) (ir ins) r here) ∙ e)))
      | inr e ↦ e
    ]

    step_here : Final codes map nins ir ((step codes ins s).ir ins) ins
    step_here = elim (Bool-cases (alive codes ins s)) [
      | inl h ↦
          let (same, unmarked) = step-alive codes ins s h (no_self ins (omega arith)) in
          inl (
            alive-Live h,
            Same-trans ((step codes ins s).ir ins) (s.ir ins) (ir ins) same here,
            unmarked,
          )
      | inr h ↦
          let e = step-dead codes ins s h in
          inr ((λ live. absurd (cc (Live-alive live, h))), rw e (refl, refl, refl, refl), rw e refl)
    ]

    mark-above : (r : ℕ) → ins < r → ((step codes ins s).ir r).mark ≡ (s.ir r).mark
    unfolding ◌||◌ ◌&&◌
    mark-above r lt = ground (arith, step-mark codes ins s r (omega arith), no_self r (omega arith))

    step_done : (r : ℕ) → ins ≤ r → r < nins → Final codes map nins ir ((step codes ins s).ir r) r
    step_done r le lt = elim (dec_lt ins r) [
      | yes p ↦
          let same = step-Same codes ins s r (omega arith) in
          let unmarked = mark-above r p in
          elim (stage.done r (omega arith) lt) [
            | inl (live, kept, m) ↦
                inl (
                  live,
                  Same-trans ((step codes ins s).ir r) (s.ir r) (ir r) same kept,
                  unmarked ∙ m,
                )
            | inr (dead, kept, m) ↦ inr (
              dead,
              Same-trans ((step codes ins s).ir r) (s.ir r) (nop codes) same kept,
              unmarked ∙ m,
            )
          ]
      | no p ↦ let e : r ≡ ins = omega arith in rw e step_here
    ]

    step_sound :
        (r : ℕ)
        → ref_first ≤ r
        → r < ins
        → ((step codes ins s).ir r).mark ≡ true
        → Live codes map nins ir r
    unfolding ◌||◌ ◌&&◌
    step_sound r lo hi m =
        let marks = step-mark codes ins s r (omega arith) in
        elim (Bool-cases (s.ir r).mark) [
          | inl old ↦ stage.sound r lo (omega arith) old
          | inr new ↦
              let h : alive codes ins s ≡ true = ground (arith, marks, m, new) in
              let e : refers (s.ir ins) r ≡ true = ground (arith, marks, m, new) in
              Live.operand first last (alive-Live h)
                (sym (refers-Same (s.ir ins) (ir ins) r here) ∙ e)
        ]

    step_complete :
        (r : ℕ)
        → ref_first ≤ r
        → r < ins
        → Wanted codes map nins ir ins r
        → ((step codes ins s).ir r).mark ≡ true
    unfolding ◌||◌ ◌&&◌
    step_complete r lo hi w =
        let marks = step-mark codes ins s r (omega arith) in
        let old : Wanted codes map nins ir (suc ins) r → ((step codes ins s).ir r).mark ≡ true =
          λ v. ground (arith, marks, stage.complete r lo (omega arith) v) in
        elim w [
          | inl e ↦ old (inl e)
          | inr (j, le, lt, live, e) ↦ elim (dec_lt ins j) [
            | yes p ↦ old (inr (j, p, lt, live, e))
            | no p ↦
                let same : j ≡ ins = omega arith in
                let live' : Live codes map nins ir ins = rw (sym same) live in
                let h : alive codes ins s ≡ true = Live-alive live' in
                let f : refers (ir ins) r ≡ true = ap (λ (k : ℕ). refers (ir k) r) (sym same) ∙ e in
                ground (arith, marks, h, f, refers-Same (s.ir ins) (ir ins) r here)
          ]
        ]

    step-Stage : Stage codes map nins ir ins (step codes ins s)
    step-Stage = record {
      done = step_done;
      same = λ r h.
          Same-trans ((step codes ins s).ir r) (s.ir r) (ir r)
            (step-Same codes ins s r (omega arith)) (stage.same r (omega arith));
      sound = step_sound;
      complete = step_complete;
    }

  propagate-Stage :
      (n : ℕ) (s : State)
      → ref_first + n ≤ nins
      → Stage codes map nins ir (ref_first + n) s
      → Stage codes map nins ir ref_first (propagate codes n s)
  unfolding propagate
  propagate-Stage zero s le stage = let e : ref_first ≡ ref_first + 0 = omega arith in rw e stage
  propagate-Stage (suc n) s le stage =
      propagate-Stage n (step codes (ref_first + n) s) (omega arith) (
        let e : suc (ref_first + n) ≡ ref_first + suc n = omega arith in
        step-Stage (ref_first + n) s (omega arith) (omega arith) (rw e stage))

module _ (codes : Codes) (map : List ℕ) (nins : ℕ) (s : State) where
  marksnap-Stage :
      ((r : ℕ) → (s.ir r).mark ≡ false)
      → Stage codes map nins s.ir nins (record (marksnap map s) { pchain = λ o. none })
  unfolding ◌||◌
  marksnap-Stage unmarked = record {
    done = λ r le lt. absurd (omega (arith, le, lt));
    same = λ r lt. marksnap-Same map s r;
    sound = λ r lo hi m. Live.restored (ground (arith, marksnap-mark map s r lo, unmarked r, m));
    complete = λ r lo hi w. elim w [
      | inl e ↦ ground (arith, marksnap-mark map s r lo, e)
      | inr (j, le, lt, live, e) ↦ absurd (omega (arith, le, lt))
    ];
  }

  -- `lj_opt_dce` keeps each instruction that is live, but for its link, and turns all others into
  -- NOPs: live are the instructions that a snapshot refers to, those with a side effect, and the
  -- operands of live ones. No instruction has a mark before, and operands stand before their users.
  pub opt_dce-Live :
      ref_first ≤ nins
      → Ordered nins s.ir
      → ((r : ℕ) → (s.ir r).mark ≡ false)
      → (r : ℕ) → ref_first ≤ r
      → r < nins
      → Final codes map nins s.ir ((opt_dce codes true map nins s).ir r) r
  unfolding opt_dce
  opt_dce-Live le ordered unmarked r lo hi =
      let n = nins - ref_first in
      let e : ref_first + n ≡ nins = omega arith in
      let t = record (marksnap map s) { pchain = λ o. none } in
      (propagate-Stage codes map nins s.ir ordered n t (omega arith)
          (rw e (marksnap-Stage unmarked))).done
        r lo hi
