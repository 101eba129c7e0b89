-- ===== src/Bcdump/Input/Refine.antt =====
-- The reader with its buffer does what the reader on the unread bytes does.
use omniajit.Prelude.{
  ℕ, ◌-◌, ◌≤◌, ◌<◌, ◌≡◌, refl, ap, ◌∙◌, sym, arith, List, [], ◌∷◌, ◌++◌, length, leb, ltb, ◌==◌,
  if◌then◌else◌, Bool, true, false, ◌||◌, Bool-cases, inl, inr,
}
use mathlib.Core.Path.{subst}
use omniajit.Bcdump.Result.{Result, ok, error, undefined, Ensures}
use omniajit.Bcdump.Input.{Input, max_buf, concat, total, at_eof, fill, bcread_fill, bcread_need}
use omniajit.Bcdump.Input.Refill.{bcread_need-total}
use omniajit.Bcdump.Input.Buffer
use omniajit.Bcdump.Input.Buffer.{Lex, unread, no_data}
use omniajit.Bcdump.Input.Places.{IsLex, keep_rest_lem, add_piece_lem}

abbrev pub view : Lex → Input
view l = record { p = unread l; pieces = l.pieces; eof = l.eof }

-- The same outcome, where the input is what the buffer shows.
abbrev pub Refines : Result Lex → Result Input → Type 0
Refines (ok l) r = (r ≡ ok (view l)) × IsLex l
Refines (error e) r = r ≡ error e
Refines undefined r = ⊥

no_data-Refines :
    (must : Bool) (m : Lex) (q : List ℕ) (pieces : List (List ℕ))
    → unread m ≡ q
    → IsLex m
    → Refines (no_data must m pieces) (at_eof must q pieces)
no_data-Refines true m q pieces same is = refl
no_data-Refines false m q pieces same is =
    (ap (λ (p : List ℕ). ok (record { p = p; pieces = pieces; eof = true })) (sym same), is)

stop-Refines :
    (l : Lex) (q : List ℕ) (pieces : List (List ℕ))
    → unread l ≡ q
    → IsLex l
    → l.eof ≡ false
    → Refines
        (ok (record l { pieces = pieces }))
        (ok (record { p = q; pieces = pieces; eof = false }))
stop-Refines l q pieces same is more = (
  ap (λ (p : List ℕ). ok (record { p = p; pieces = pieces; eof = false })) (sym same)
      ∙ ap (λ (eof : Bool). ok (record { p = unread l; pieces = pieces; eof = eof })) (sym more),
  is,
)

fill-Refines :
    (len : ℕ) (must : Bool) (pieces : List (List ℕ)) (l : Lex)
    → IsLex l
    → length (unread l) < len
    → len ≤ max_buf
    → l.eof ≡ false
    → Refines (Buffer.fill len must l pieces) (fill len must (unread l) pieces)
unfolding Buffer.fill fill
fill-Refines len must [] l is few small more =
    let (m, e, bytes, (same, valid, eof)) = keep_rest_lem len l is few small in
    rw e (no_data-Refines must m (unread l) [] same valid)
fill-Refines len must (buf ∷ pieces) l is few small more =
    let (m, e, bytes, (same, valid, eof)) = keep_rest_lem len l is few small in
    let q = unread l in
    let limit : leb (max_buf - length (unread m)) (length buf)
        ≡ leb (max_buf - length q) (length buf) =
      ap (λ (p : List ℕ). leb (max_buf - length p) (length buf)) same in
    rw e (elim (Bool-cases (length buf == 0)) [
      | inl a ↦ rw (a, if◌then◌else◌) (no_data-Refines must m q pieces same valid)
      | inr a ↦ elim (Bool-cases (leb (max_buf - length q) (length buf))) [
        | inl b ↦ let b' = limit ∙ b in rw (a, b, b', if◌then◌else◌) refl
        | inr b ↦
            let b' = limit ∙ b in
            let size = ap (λ (p : List ℕ). length p) same in
            let (l', e', (same', valid', eof')) =
              add_piece_lem len buf m valid (bytes ∙ sym same) (ground (arith, b, size)) small in
            let all : unread l' ≡ q ++ buf = same' ∙ ap (λ (p : List ℕ). p ++ buf) same in
            let goes_on : l'.eof ≡ false = eof' ∙ (eof ∙ more) in
            let enough : ltb (length (unread l')) len ≡ ltb (length (q ++ buf)) len =
              ap (λ (p : List ℕ). ltb (length p) len) all in
            elim (Bool-cases (ltb (length (q ++ buf)) len)) [
              | inl c ↦
                  let c' = enough ∙ c in
                  let again =
                    fill-Refines len must pieces l' valid' (ground (arith, c')) small goes_on in
                  rw (a, b, b', e', c, c', if◌then◌else◌)
                    (subst (λ p. Refines (Buffer.fill len must l' pieces) (fill len must p pieces))
                      all again)
              | inr c ↦
                  let c' = enough ∙ c in
                  rw (a, b, b', e', c, c', if◌then◌else◌)
                    (stop-Refines l' (q ++ buf) pieces all valid' goes_on)
            ]
      ]
    ])

bcread_fill-Refines :
    (len : ℕ) (must : Bool) (l : Lex)
    → IsLex l
    → length (unread l) < len
    → Refines (Buffer.bcread_fill len must l) (bcread_fill len must (view l))
unfolding Buffer.bcread_fill bcread_fill
bcread_fill-Refines len must l is few = elim (Bool-cases (ltb max_buf len || l.eof)) [
  | inl e ↦ rw (e, if◌then◌else◌) refl
  | inr e ↦
      rw (e, if◌then◌else◌)
        (fill-Refines len must l.pieces l is few (ground (arith, e)) (ground (arith, e)))
]

-- If the code returns, no byte is lost, added or moved, and there are `len` bytes.
abbrev pub Refilled : ℕ → Lex → Result Lex → Type 0
Refilled len l (ok l') =
    (unread l' ++ concat l'.pieces ≡ unread l ++ concat l.pieces) × (len ≤ length (unread l'))
Refilled len l (error e) = Unit
Refilled len l undefined = ⊥

Refines-Refilled :
    (len : ℕ) (l : Lex) (r : Result Lex) (s : Result Input)
    → Refines r s
    → Ensures s (λ j. (total j ≡ total (view l)) × (len ≤ length j.p))
    → Refilled len l r
Refines-Refilled len l (ok l') s (e, is) h =
    subst (λ (s : Result Input). Ensures s (λ j. (total j ≡ total (view l)) × (len ≤ length j.p))) e
      h
Refines-Refilled len l (error e) s refines h = tt
Refines-Refilled len l undefined s refines h = refines

same_outcome :
    (len : ℕ) (l : Lex) → IsLex l → Refines (Buffer.bcread_need len l) (bcread_need len (view l))
unfolding Buffer.bcread_need bcread_need
same_outcome len l is = elim (Bool-cases (ltb (length (unread l)) len)) [
  | inl e ↦ rw (e, if◌then◌else◌) (bcread_fill-Refines len true l is (ground (arith, e)))
  | inr e ↦ rw (e, if◌then◌else◌) (refl, is)
]

-- `bcread_need` with the lexer's buffer has the outcome, or the error, of `bcread_need` on the unread
-- bytes: no copy leaves the buffer, no assertion fails, and the buffer stays as it must be. If it
-- returns, there are at least the bytes that it was asked for, and the unread bytes and the pieces
-- that are left are those of before. Before, the buffer has no bytes unless `ls->p` points into it.
pub bcread_need-Refines :
    (len : ℕ) (l : Lex)
    → IsLex l
    → Refines (Buffer.bcread_need len l) (bcread_need len (view l))
      × Refilled len l (Buffer.bcread_need len l)
bcread_need-Refines len l is = (
  same_outcome len l is,
  Refines-Refilled len l (Buffer.bcread_need len l) (bcread_need len (view l))
      (same_outcome len l is) (bcread_need-total len (view l)),
)
