-- ===== src/Str/Reach.antt =====
-- Interning over any sequence of steps of the string table.
use omniajit.Prelude.{
  ℕ, ◌-◌, ◌^◌, ◌<◌, ◌≡◌, ◌≢◌, refl, ap, ◌∙◌, sym, arith, List, true, Bool-cases, inl, inr, some,
  ◌↔◌,
}
use mathlib.Core.Path.{subst}
use omniajit.Str.{State, size, same_bytes, NewStr, interned, empty, strov, gc_sweepstr}
use omniajit.Str.Ops.{lj_str_new, lj_str_resize}
use omniajit.Str.Count.{total-le, total-add-le, same_bytes_self, same_bytes_eq}
use omniajit.Str.Table.{of, has_bytes, has_ref, strings, IsStrtab, lj_str_resize-Keeps}
use omniajit.Str.Live.{live, live-IsStable}
use omniajit.Str.New.{held, IsInterned}
use omniajit.Str.Intern.{IsNew, lj_str_new-IsNew}
use omniajit.Str.Sweep.{gc_sweepstr-SameLive}

module _ (hash_sparse : ℕ → List ℕ → ℕ) (hash_dense : ℕ → ℕ → List ℕ → ℕ) where
  -- What can happen to the table: a string is interned, the collector or the program resizes the
  -- table, or the collector sweeps a chain.
  pub data Step (s : State) : State → Type 0 where
    new :
        (str : List ℕ) (n : NewStr) {s' : State}
        → lj_str_new hash_sparse hash_dense str s ≡ some (s', n)
        → Step s s'
    resize : (bits : ℕ) → Step s (lj_str_resize hash_sparse hash_dense (2 ^ bits - 1) s)
    sweep : (i : ℕ) → i < size s.mask → Step s (gc_sweepstr i s)

  pub data Reach (s : State) : State → Type 0 where
    here : Reach s s
    step : {t u : State} → Reach s t → Step t u → Reach s u

  -- A well-formed table has a live string with the bytes `b`, at `p`.
  pub record Holds (b : List ℕ) (p cw : ℕ) (s : State) : Type 0 where
    pub table : IsStrtab hash_sparse hash_dense s
    pub white : s.currentwhite ≡ cw
    pub one : strings (live cw (held b p)) s ≡ 1

  -- That it is live is more than that it is there.
  held_one :
      (b : List ℕ) (p cw : ℕ) (s : State)
      → IsStrtab hash_sparse hash_dense s
      → strings (live cw (held b p)) s ≡ 1
      → strings (held b p) s ≡ 1
  held_one b p cw s t e =
      let n = size s.mask in
      let more = total-le (of (live cw (held b p))) (of (held b p)) s.tab n (λ x. ground arith) in
      let less = total-le (of (held b p)) (of (has_bytes b)) s.tab n (λ x. ground arith) in
      omega (arith, more, less, e, t.one_bytes b)

  interned-Holds :
      (b str : List ℕ) (p : ℕ) (s s' : State) (r : ℕ)
      → Holds b p s.currentwhite s
      → IsInterned hash_sparse hash_dense str s s' r
      → Holds b p s.currentwhite s'
  interned-Holds b str p s s' r h k = elim (Bool-cases (same_bytes b str)) [
    | inl e ↦
        let same : b ≡ str = same_bytes_eq b str e in
        let there : strings (held str p) s ≡ 1 =
          ap (λ (c : List ℕ). strings (held c p) s) (sym same)
          ∙ held_one b p s.currentwhite s h.table h.one in
        let place : r ≡ p = k.same p there in
        record {
          table = k.table;
          white = k.white;
          one = (λ j. strings (live s.currentwhite (held (same j) (sym place j))) s') ∙ k.here;
        }
    | inr e ↦
        let ne : b ≢ str = λ q.
          let self = same_bytes_self str in
          absurd (ground (arith, e, self, ap (λ (c : List ℕ). same_bytes c str) q)) in
        record { table = k.table; white = k.white; one = k.others b p ne ∙ h.one }
  ]

  new-Holds :
      (b str : List ℕ) (p : ℕ) (s s' : State) (n : NewStr)
      → Holds b p s.currentwhite s
      → IsNew hash_sparse hash_dense str s (some (s', n))
      → Holds b p s.currentwhite s'
  new-Holds b str p s s' empty h k = subst (Holds b p s.currentwhite) (sym k.1) h
  new-Holds b str p s s' strov h k = subst (Holds b p s.currentwhite) (sym k.1) h
  new-Holds b str p s s' (interned r) h k = interned-Holds b str p s s' r h k.2

  -- What a call of `lj_str_new` with this result is known to have done.
  result-IsNew :
      (str : List ℕ) (s s' : State) (n : NewStr)
      → IsStrtab hash_sparse hash_dense s
      → lj_str_new hash_sparse hash_dense str s ≡ some (s', n)
      → IsNew hash_sparse hash_dense str s (some (s', n))
  result-IsNew str s s' n t e =
      subst (IsNew hash_sparse hash_dense str s) e (lj_str_new-IsNew hash_sparse hash_dense str s t)

  step_here :
      (b : List ℕ) (p : ℕ) (s : State) {s' : State}
      → Holds b p s.currentwhite s
      → Step s s'
      → Holds b p s.currentwhite s'
  step_here b p s {s'} h (new str n e) =
      new-Holds b str p s s' n h (result-IsNew str s s' n h.table e)
  step_here b p s h (resize bits) =
      let k = lj_str_resize-Keeps hash_sparse hash_dense bits (2 ^ bits - 1) s refl h.table in
      record {
        table = k.table;
        white = k.white;
        one = k.same (live s.currentwhite (held b p)) ∙ h.one;
      }
  step_here b p s h (sweep i lt) =
      let k = gc_sweepstr-SameLive hash_sparse hash_dense i s h.table lt in
      let F = held b p in
      let stable = live-IsStable s.currentwhite true F h.table.white (λ b r m m'. refl) in
      record {
        table = k.table;
        white = k.white;
        one = k.exact (live s.currentwhite F) stable ∙ h.one;
      }

  Step-Holds :
      (b : List ℕ) (p cw : ℕ) (s : State) {s' : State}
      → Holds b p cw s
      → Step s s'
      → Holds b p cw s'
  Step-Holds b p cw s {s'} h st =
      let at_white : Holds b p s.currentwhite s → Holds b p s.currentwhite s' =
        λ k. step_here b p s k st in
      subst (λ (c : ℕ). Holds b p c s → Holds b p c s') h.white at_white h

  Reach-Holds :
      (b : List ℕ) (p cw : ℕ) (s : State) {t : State} → Holds b p cw s → Reach s t → Holds b p cw t
  Reach-Holds b p cw s h here = h
  Reach-Holds b p cw s h (step {t} r st) = Step-Holds b p cw t (Reach-Holds b p cw s h r) st

  -- A string that was interned is held.
  interned_held :
      (a : List ℕ) (p : ℕ) (s s' : State)
      → IsStrtab hash_sparse hash_dense s
      → lj_str_new hash_sparse hash_dense a s ≡ some (s', interned p)
      → Holds a p s.currentwhite s'
  interned_held a p s s' t e =
      let k = (result-IsNew a s s' (interned p) t e).2 in
      record { table = k.table; white = k.white; one = k.here }

  -- Two strings that are held at one place have the same bytes.
  one_held : (a b : List ℕ) (p cw : ℕ) (s : State) → Holds a p cw s → Holds b p cw s → a ≡ b
  one_held a b p cw s h k = elim (Bool-cases (same_bytes a b)) [
    | inl e ↦ same_bytes_eq a b e
    | inr e ↦
        let sum =
          total-add-le (of (live cw (held a p))) (of (live cw (held b p))) (of (has_ref p)) s.tab
            (size s.mask)
            (λ x.
              ground
                (arith, same_bytes_eq a x.bytes, same_bytes_eq b x.bytes, same_bytes_self a, e)) in
        absurd (omega (arith, sum, h.table.one_ref p, h.one, k.one))
  ]

  -- A string a was interned at p, and after any sequence of other calls of lj_str_new, of
  -- lj_str_resize and of gc_sweepstr a string b is interned at q. These are one object exactly if
  -- the strings have the same bytes. The table was well formed at first, and the white of the
  -- collector does not change.
  pub interning :
      (a b : List ℕ) (p q : ℕ) (s s1 s2 s3 : State)
      → IsStrtab hash_sparse hash_dense s
      → lj_str_new hash_sparse hash_dense a s ≡ some (s1, interned p)
      → Reach s1 s2
      → lj_str_new hash_sparse hash_dense b s2 ≡ some (s3, interned q)
      → (p ≡ q) ↔ (a ≡ b)
  interning a b p q s s1 s2 s3 t ea r eb =
      let cw = s.currentwhite in
      let h2 = Reach-Holds a p cw s1 (interned_held a p s s1 t ea) r in
      let h3 = Step-Holds a p cw s2 h2 (new b (interned q) eb) in
      let k3 : Holds b q cw s3 =
        subst (λ (c : ℕ). Holds b q c s3) h2.white (interned_held b q s2 s3 h2.table eb) in
      let same = (result-IsNew b s2 s3 (interned q) h2.table eb).2.same in
      (
        λ e. one_held a b q cw s3 (subst (λ (c : ℕ). Holds a c cw s3) e h3) k3,
        λ e. sym (
            same p (
              held_one b p cw s2 h2.table
                (subst (λ (c : List ℕ). strings (live cw (held c p)) s2 ≡ 1) e h2.one))),
      )
