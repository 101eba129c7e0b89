-- ===== src/Func/Closure/Share.antt =====
-- Closures of one activation share the upvalues of its locals.
use omniajit.Prelude.{
  ℕ, ◌+◌, ◌≡◌, refl, ap, ◌∙◌, sym, bit_and, List, [], ◌∷◌, ◌==◌, if◌then◌else◌, Bool-cases, inl,
  inr, get_or,
}
use omniajit.Func.{State, func_finduv}
use omniajit.Func.Insert.{IsOpen}
use omniajit.Func.Find.{func_finduv-found, func_finduv-IsHit}
use omniajit.Func.Closure.{describe, local, inherit, upvalues}
use omniajit.Func.Closure.Keeps.{Finds, Keeps, describe-Keeps, Keeps-Keeps, func_finduv-Keeps}

-- The slot of a local.
abbrev pub slot_of : ℕ → ℕ → ℕ
slot_of base v = base + bit_and v 0xff

module _ {V : Type 0} (base : ℕ) (pc : ℕ) (puv : List ℕ) where
  -- A closure with these references has these upvalues: that of a local's slot, or the parent's.
  abbrev pub Captures : State V → ℕ → ℕ → Type 0
  Captures s v p = if bit_and v 0x8000 == 0 then p ≡ get_or puv v 0 else Finds s (slot_of base v) p

  abbrev pub AllCaptured : State V → List ℕ → List ℕ → Type 0
  AllCaptured s [] [] = Unit
  AllCaptured s (v ∷ vs) (p ∷ ps) = Captures s v p × AllCaptured s vs ps
  AllCaptured s vs ps = ⊥

  local-Keeps :
      (v : ℕ) (s : State V)
      → IsOpen s
      → let r = local base pc puv v s in Keeps s r.0 × Finds r.0 (slot_of base v) r.1
  unfolding local
  local-Keeps v s h =
      let slot = slot_of base v in
      let (s1, p) = func_finduv slot s in
      let (is_open, here, not_closed, e) = func_finduv-IsHit slot s h in
      let described = describe-Keeps pc v p s1 is_open in
      (
        Keeps-Keeps s s1 (describe pc v p s1) (func_finduv-Keeps slot s h) described,
        described.finds slot p e,
      )

  inherit-Keeps :
      (v : ℕ) (s : State V)
      → IsOpen s
      → let r = inherit base pc puv v s in Keeps s r.0 × Captures r.0 v r.1
  unfolding inherit
  inherit-Keeps v s h = elim (Bool-cases (bit_and v 0x8000 == 0)) [
    | inl e ↦ rw (e, if◌then◌else◌) (record { chain = h; finds = λ t p f. f }, refl)
    | inr e ↦ rw (e, if◌then◌else◌) (local-Keeps v s h)
  ]

  Captures-Keeps : (s s' : State V) (v p : ℕ) → Keeps s s' → Captures s v p → Captures s' v p
  Captures-Keeps s s' v p k h = elim (Bool-cases (bit_and v 0x8000 == 0)) [
    | inl e ↦ rw (e, if◌then◌else◌) (rw (e, if◌then◌else◌) at h)
    | inr e ↦ rw (e, if◌then◌else◌) (k.finds (slot_of base v) p (rw (e, if◌then◌else◌) at h))
  ]

  AllCaptured-Keeps :
      (s s' : State V) (vs ps : List ℕ) → Keeps s s' → AllCaptured s vs ps → AllCaptured s' vs ps
  AllCaptured-Keeps s s' [] [] k h = tt
  AllCaptured-Keeps s s' (v ∷ vs) [] k h = h
  AllCaptured-Keeps s s' [] (p ∷ ps) k h = h
  AllCaptured-Keeps s s' (v ∷ vs) (p ∷ ps) k h =
      (Captures-Keeps s s' v p k h.0, AllCaptured-Keeps s s' vs ps k h.1)

  upvalues-Keeps :
      (vs : List ℕ) (s : State V)
      → IsOpen s
      → let r = upvalues base pc puv vs s in Keeps s r.0 × AllCaptured r.0 vs r.1
  unfolding upvalues
  upvalues-Keeps [] s h = (record { chain = h; finds = λ t p f. f }, tt)
  upvalues-Keeps (v ∷ vs) s h =
      let (s1, p) = inherit base pc puv v s in
      let (k, here) = inherit-Keeps v s h in
      let (s2, ps) = upvalues base pc puv vs s1 in
      let (k', later) = upvalues-Keeps vs s1 k.chain in
      (Keeps-Keeps s s1 s2 k k', (Captures-Keeps s1 s2 v p k' here, later))

  -- The loop of lj_func_newL_gc keeps the list of open upvalues in order, and when it ends each
  -- reference to a local has the upvalue that a search for its slot finds, each other one that of
  -- the parent.
  pub upvalues-AllCaptured :
      (vs : List ℕ) (s : State V)
      → IsOpen s
      → let r = upvalues base pc puv vs s in IsOpen r.0 × AllCaptured r.0 vs r.1
  upvalues-AllCaptured vs s h = ((upvalues-Keeps vs s h).0.chain, (upvalues-Keeps vs s h).1)

  inherit-Captures : (v p : ℕ) (s : State V) → Captures s v p → (inherit base pc puv v s).1 ≡ p
  unfolding inherit local
  inherit-Captures v p s h = elim (Bool-cases (bit_and v 0x8000 == 0)) [
    | inl e ↦ rw (e, if◌then◌else◌) (sym (rw (e, if◌then◌else◌) at h))
    | inr e ↦
        let hit = func_finduv-found (slot_of base v) s p (rw (e, if◌then◌else◌) at h) in
        rw (e, if◌then◌else◌) (ap (λ (r : State V × ℕ). r.1) hit)
  ]

  captured_again :
      (vs ps : List ℕ) (s : State V)
      → IsOpen s
      → AllCaptured s vs ps
      → (upvalues base pc puv vs s).1 ≡ ps
  unfolding upvalues
  captured_again [] [] s h k = refl
  captured_again (v ∷ vs) [] s h k = absurd k
  captured_again [] (p ∷ ps) s h k = absurd k
  captured_again (v ∷ vs) (p ∷ ps) s h (here, k) =
      let s1 = (inherit base pc puv v s).0 in
      let keeps = (inherit-Keeps v s h).0 in
      let rest = captured_again vs ps s1 keeps.chain (AllCaptured-Keeps s s1 vs ps keeps k) in
      ap (λ q. q ∷ (upvalues base pc puv vs s1).1) (inherit-Captures v p s here)
      ∙ ap (λ qs. p ∷ qs) rest

  -- If lj_func_newL_gc creates two closures in a row with the same references, base and parent,
  -- they share all upvalues; before, the list of open upvalues is in order.
  pub upvalues_again :
      (vs : List ℕ) (s : State V)
      → IsOpen s
      → let (s1, ps) = upvalues base pc puv vs s in (upvalues base pc puv vs s1).1 ≡ ps
  upvalues_again vs s h =
      let (s1, ps) = upvalues base pc puv vs s in
      let (is_open, all) = upvalues-AllCaptured vs s h in captured_again vs ps s1 is_open all
