-- ===== src/Bcdump/Input/Refill.antt =====
-- What a refill leaves of the input.
use omniajit.Prelude.{
  ℕ, ◌-◌, ◌≤◌, ◌<◌, ◌≡◌, ◌⊎◌, inl, inr, refl, ap, ◌∙◌, sym, arith, List, [], ◌∷◌, ◌++◌, length,
  length-append, All, leb, ltb, ◌==◌, if◌then◌else◌, Bool, true, false, ◌||◌, Bool-cases,
}
use mathlib.Core.List.{append_assoc, append-nil}
use omniajit.Bcdump.Result.{Ensures, Returns, Ensures-weaken}
use omniajit.Bcdump.Input.{
  concat, total, max_buf, Input, at_eof, fill, bcread_fill, bcread_need, bcread_want,
}

empty : {A : Type 0} (xs : List A) → (length xs == 0) ≡ true → xs ≡ []
empty [] e = refl
empty (x ∷ xs) e = absurd (ground (arith, e))

-- No byte is lost, and there are enough unless that is allowed.
abbrev Refilled : ℕ → Bool → List ℕ → Input → Type 0
Refilled len need s i = (total i ≡ s) × ((need ≡ false) ⊎ (len ≤ length i.p))

at_eof-total :
    (len : ℕ) (need : Bool) (p : List ℕ) (pieces : List (List ℕ))
    → Ensures (at_eof need p pieces) (Refilled len need (p ++ concat pieces))
at_eof-total len true p pieces = tt
at_eof-total len false p pieces = (refl, inl refl)

fill_total :
    (len : ℕ) (need : Bool) (p : List ℕ) (pieces : List (List ℕ))
    → Ensures (fill len need p pieces) (Refilled len need (p ++ concat pieces))
unfolding fill
fill_total len need p [] = at_eof-total len need p []
fill_total len need p (buf ∷ pieces) = elim (Bool-cases (length buf == 0)) [
  | inl e ↦ rw (e, if◌then◌else◌, empty buf e) (at_eof-total len need p pieces)
  | inr full ↦ elim (Bool-cases (leb (max_buf - length p) (length buf))) [
    | inl e ↦ rw (full, e, if◌then◌else◌) tt
    | inr e ↦ elim (Bool-cases (ltb (length (p ++ buf)) len)) [
      | inl f ↦
          rw (full, e, f, if◌then◌else◌, ← append_assoc p buf (concat pieces))
            (fill_total len need (p ++ buf) pieces)
      | inr f ↦
          rw (full, e, f, if◌then◌else◌)
            (append_assoc p buf (concat pieces), inr (ground (arith, f)))
    ]
  ]
]

bcread_fill-total :
    (len : ℕ) (need : Bool) (i : Input)
    → Ensures (bcread_fill len need i) (Refilled len need (total i))
unfolding bcread_fill
bcread_fill-total len need i = elim (Bool-cases (ltb max_buf len || i.eof)) [
  | inl e ↦ rw (e, if◌then◌else◌) tt
  | inr e ↦ rw (e, if◌then◌else◌) (fill_total len need i.p i.pieces)
]

refilled :
    (len : ℕ) (s : List ℕ) (j : Input) → Refilled len true s j → (total j ≡ s) × (len ≤ length j.p)
refilled len s j (same, inl h) = absurd (ground (arith, h))
refilled len s j (same, inr h) = (same, h)

-- `bcread_need` loses no byte, and throws an error unless there are `len` bytes then.
pub bcread_need-total :
    (len : ℕ) (i : Input)
    → Ensures (bcread_need len i) (λ j. (total j ≡ total i) × (len ≤ length j.p))
unfolding bcread_need
bcread_need-total len i = elim (Bool-cases (ltb (length i.p) len)) [
  | inl e ↦
      rw (e, if◌then◌else◌)
        (Ensures-weaken (bcread_fill len true i) (Refilled len true (total i))
          (λ j. (total j ≡ total i) × (len ≤ length j.p)) (bcread_fill-total len true i)
          (refilled len (total i)))
  | inr e ↦ rw (e, if◌then◌else◌) (refl, ground (arith, e))
]

pub bcread_want-total : (len : ℕ) (i : Input) → Ensures (bcread_want len i) (λ j. total j ≡ total i)
unfolding bcread_want
bcread_want-total len i = elim (Bool-cases (ltb (length i.p) len)) [
  | inl e ↦
      rw (e, if◌then◌else◌)
        (Ensures-weaken (bcread_fill len false i) (Refilled len false (total i))
          (λ j. total j ≡ total i) (bcread_fill-total len false i) (λ j h. h.0))
  | inr e ↦ rw (e, if◌then◌else◌) refl
]

-- An input with these bytes: the reader function returns no empty piece.
pub record IsInput (s : List ℕ) (i : Input) : Type 0 where
  pub whole : total i ≡ s
  pub pieces : All (λ (buf : List ℕ). 0 < length buf) i.pieces
  pub more : (i.eof ≡ false) ⊎ (i.pieces ≡ [])

-- There are `len` bytes, or all that there are.
abbrev pub Available : ℕ → List ℕ → Input → Type 0
Available len s i = IsInput s i × ((len ≤ length i.p) ⊎ (i.p ≡ s))

fill_lem :
    (len : ℕ) (need : Bool) (p : List ℕ) (pieces : List (List ℕ))
    → All (λ (buf : List ℕ). 0 < length buf) pieces
    → length (p ++ concat pieces) < max_buf
    → length p < len
    → (need ≡ false) ⊎ (len ≤ length (p ++ concat pieces))
    → Returns (fill len need p pieces) (Available len (p ++ concat pieces))
unfolding fill
fill_lem len true p [] full small few (inl h) = absurd (ground (arith, h))
fill_lem len true p [] full small few (inr h) = absurd (omega (arith, h, few, length-append p []))
fill_lem len false p [] full small few enough =
    (record { whole = refl; pieces = full; more = inr refl }, inr (sym (append-nil p)))
fill_lem len need p (buf ∷ pieces) full small few enough =
    let some_byte : (length buf == 0) ≡ false = ground (arith, full.0) in
    let fits : leb (max_buf - length p) (length buf) ≡ false =
      ground
        (arith, length-append p (buf ++ concat pieces), length-append buf (concat pieces), small) in
    elim (Bool-cases (ltb (length (p ++ buf)) len)) [
      | inl f ↦
          rw (some_byte, fits, f, if◌then◌else◌, ← append_assoc p buf (concat pieces))
            (fill_lem len need (p ++ buf) pieces full.1
              (rw (append_assoc p buf (concat pieces)) small) (ground (arith, f))
              (rw (append_assoc p buf (concat pieces)) enough))
      | inr f ↦
          rw (some_byte, fits, f, if◌then◌else◌)
            (
              record {
                whole = append_assoc p buf (concat pieces);
                pieces = full.1;
                more = inl refl;
              },
              inl (ground (arith, f)),
            )
    ]

bcread_fill_lem :
    (len : ℕ) (need : Bool) (s : List ℕ) (i : Input)
    → IsInput s i
    → length s < max_buf
    → length i.p < len
    → len ≤ max_buf
    → i.eof ≡ false
    → (need ≡ false) ⊎ (len ≤ length s)
    → Returns (bcread_fill len need i) (Available len s)
unfolding bcread_fill ◌||◌
bcread_fill_lem len need s i is small few limit more enough =
    let in_limit : ltb max_buf len ≡ false = ground (arith, limit) in
    rw (in_limit, more, if◌then◌else◌, ← is.whole)
      (fill_lem len need i.p i.pieces is.pieces (rw is.whole small) few (rw is.whole enough))

pub not_at_end : (s : List ℕ) (i : Input) → IsInput s i → length i.p < length s → i.eof ≡ false
not_at_end s i is few = elim is.more [
  | inl e ↦ e
  | inr e ↦
      let all : i.p ≡ s =
        sym (append-nil i.p) ∙ (ap (λ pieces. i.p ++ concat pieces) (sym e) ∙ is.whole) in
      absurd (omega (arith, ap (λ (p : List ℕ). length p) all, few))
]

-- `bcread_want` returns with the bytes that it was asked for, or all that there are.
pub bcread_want-Available :
    (len : ℕ) (s : List ℕ) (i : Input)
    → IsInput s i
    → length s < max_buf
    → len ≤ max_buf
    → (i.eof ≡ false) ⊎ (len ≤ length s)
    → Returns (bcread_want len i) (Available len s)
unfolding bcread_want
bcread_want-Available len s i is small limit enough = elim (Bool-cases (ltb (length i.p) len)) [
  | inl e ↦
      let few : length i.p < len = ground (arith, e) in
      rw (e, if◌then◌else◌)
        (elim enough [
          | inl open_input ↦ bcread_fill_lem len false s i is small few limit open_input (inl refl)
          | inr l ↦
              bcread_fill_lem len false s i is small few limit
                (not_at_end s i is (omega (arith, few, l))) (inl refl)
        ])
  | inr e ↦ rw (e, if◌then◌else◌) (is, inl (ground (arith, e)))
]

pub bcread_need-Available :
    (len : ℕ) (s : List ℕ) (i : Input)
    → IsInput s i
    → length s < max_buf
    → len ≤ length s
    → Returns (bcread_need len i) (Available len s)
unfolding bcread_need
bcread_need-Available len s i is small enough = elim (Bool-cases (ltb (length i.p) len)) [
  | inl e ↦
      let few : length i.p < len = ground (arith, e) in
      rw (e, if◌then◌else◌)
        (bcread_fill_lem len true s i is small few (omega (arith, small, enough))
          (not_at_end s i is (omega (arith, few, enough))) (inr enough))
  | inr e ↦ rw (e, if◌then◌else◌) (is, inl (ground (arith, e)))
]
