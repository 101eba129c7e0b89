-- ===== src/Bcdump/Input/Places.antt =====
-- What the copies of `bcread_fill` leave in the buffer: they are in its bounds.
use omniajit.Prelude.{
  ℕ, zero, suc, ◌+◌, ◌≤◌, ◌<◌, ◌≡◌, refl, ap, ◌∙◌, sym, arith, List, [], ◌∷◌, ◌++◌, length,
  length-append, take, drop, ltb, ◌==◌, if◌then◌else◌, Bool, true, false, Bool-cases, Option-cases,
  none, some, inl, inr,
}
use mathlib.Core.Path.{subst}
use omniajit.Buf.{SBuf, lj_buf_need}
use omniajit.Buf.Growth.{IsSBuf, IsRequest, lj_buf_need-IsRequest}
use omniajit.Bcdump.Result.{ok}
use omniajit.Bcdump.Input.{max_buf}
use omniajit.Bcdump.Input.Buffer.{Lex, unread, need, keep_rest, add_piece}

-- Between two refills the buffer has room for its bytes, and no others than unread ones.
abbrev pub IsLex : Lex → Type 0
IsLex l = IsSBuf l.sb × (if l.in_sb then Unit else (l.sb.bytes ≡ []))

-- What the buffer and the input have after a step: these bytes are unread.
abbrev pub Has : List ℕ → Lex → Lex → Type 0
Has q l m = (unread m ≡ q) × IsLex m × (m.eof ≡ l.eof)

-- The buffer has its bytes, and this size.
abbrev Roomy : ℕ → SBuf → SBuf → Type 0
Roomy sz sb sb' = (sb'.bytes ≡ sb.bytes) × (sz ≤ sb'.size) × IsSBuf sb'

no_bytes : (xs : List ℕ) → (length xs == 0) ≡ true → xs ≡ []
no_bytes [] e = refl
no_bytes (x ∷ xs) e = absurd (ground (arith, e))

drop_nil : (n : ℕ) → drop {A = ℕ} n [] ≡ []
drop_nil zero = refl
drop_nil (suc n) = refl

take-length : (xs : List ℕ) → take (length xs) xs ≡ xs
take-length [] = refl
take-length (x ∷ xs) = ap (λ ys. x ∷ ys) (take-length xs)

drop-le : (n : ℕ) (xs : List ℕ) → length (drop n xs) ≤ length xs
drop-le zero xs = omega arith
drop-le (suc n) [] = omega arith
drop-le (suc n) (x ∷ xs) = omega (arith, drop-le n xs)

-- A size that a buffer can have is granted.
need_lem :
    (sz : ℕ) (sb : SBuf)
    → IsSBuf sb
    → sz ≤ max_buf
    → (sb' : SBuf) × (need sz sb ≡ ok sb') × Roomy sz sb sb'
need_lem sz sb is small = elim (Option-cases (lj_buf_need sz sb)) [
  | inl e ↦
      let h : IsRequest sz sb none = subst (IsRequest sz sb) e (lj_buf_need-IsRequest sz sb is) in
      absurd (omega (arith, h.1, small))
  | inr (sb', e) ↦
      let h : IsRequest sz sb (some sb') =
        subst (IsRequest sz sb) e (lj_buf_need-IsRequest sz sb is) in
      let room : Roomy sz sb sb' = elim h [
        | inl (same, enough) ↦ subst (Roomy sz sb) (sym same) (refl, enough, is)
        | inr (few, (bytes, enough, fits, most)) ↦ (bytes, enough, fits)
      ] in
      (sb', rw (need, e) refl, room)
]

keep_rest_from :
    (b : Bool) (len : ℕ) (l0 : Lex)
    → let l = record l0 { in_sb = b } in
      IsLex l
      → length (unread l) < len
      → len ≤ max_buf
      → (m : Lex) × (keep_rest len l ≡ ok m) × (m.sb.bytes ≡ unread l) × Has (unread l) l m
unfolding keep_rest
keep_rest_from true len l is few small =
    let q = drop l.off l.sb.bytes in
    let le = drop-le l.off l.sb.bytes in
    elim (Bool-cases (length q == 0)) [
      | inl e ↦
          let none_left = sym (no_bytes q e) in
          (
            record l { in_sb = true; sb = record l.sb { bytes = [] } },
            rw (keep_rest, e) refl,
            none_left,
            (drop_nil l.off ∙ none_left, ((omega arith, is.0.1), tt), refl),
          )
      | inr e ↦
          let some_bytes : (length l.sb.bytes == 0) ≡ false = ground (arith, e, le) in
          let fits : ltb l.sb.size (0 + length q) ≡ false = ground (arith, le, is.0.0) in
          (
            record l { in_sb = true; off = 0; sb = record l.sb { bytes = q } },
            rw (keep_rest, e, some_bytes, fits, if◌then◌else◌) refl,
            refl,
            (refl, ((omega (arith, le, is.0.0), is.0.1), tt), refl),
          )
    ]
keep_rest_from false len l is few small =
    let q = l.chunk in
    elim (Bool-cases (length q == 0)) [
      | inl e ↦ (
        record l { in_sb = false; sb = record l.sb { bytes = [] } },
        rw (keep_rest, e) refl,
        sym (no_bytes q e),
        (refl, ((omega arith, is.0.1), refl), refl),
      )
      | inr e ↦
          let (sb', grown, room) = need_lem len l.sb is.0 small in
          let no_byte : (length l.sb.bytes == 0) ≡ true =
            ap (λ (bytes : List ℕ). length bytes == 0) is.1 in
          let fits : ltb sb'.size (0 + length q) ≡ false = ground (arith, few, room.1) in
          (
            record l { in_sb = true; off = 0; sb = record sb' { bytes = q } },
            rw (keep_rest, e, no_byte, grown, fits, if◌then◌else◌) refl,
            refl,
            (refl, ((omega (arith, few, room.1), room.2.1), tt), refl),
          )
    ]

-- The remainder is all that the buffer has then.
pub keep_rest_lem :
    (len : ℕ) (l : Lex)
    → IsLex l
    → length (unread l) < len
    → len ≤ max_buf
    → (m : Lex) × (keep_rest len l ≡ ok m) × (m.sb.bytes ≡ unread l) × Has (unread l) l m
keep_rest_lem len l = keep_rest_from l.in_sb len l

-- A piece is behind the remainder then.
pub add_piece_lem :
    (len : ℕ) (buf : List ℕ) (m : Lex)
    → IsLex m
    → m.sb.bytes ≡ unread m
    → length (unread m) + length buf ≤ max_buf
    → len ≤ max_buf
    → (l' : Lex) × (add_piece len buf m ≡ ok l') × Has (unread m ++ buf) m l'
unfolding add_piece
add_piece_lem len buf m is bytes small limit = elim (Bool-cases (length (unread m) == 0)) [
  | inl e ↦
      let none_left = no_bytes (unread m) e in
      (
        record m { in_sb = false; chunk = buf },
        rw (add_piece, e) refl,
        (ap (λ (q : List ℕ). q ++ buf) (sym none_left), (is.0, bytes ∙ none_left), refl),
      )
  | inr e ↦
      let n = length (unread m) + length buf in
      let sz = if ltb n len then len else n in
      let (sb', grown, room) = need_lem sz m.sb is.0 (ground (arith, small, limit)) in
      let fits : ltb sb'.size n ≡ false = ground (arith, room.1) in
      let here : sb'.bytes ≡ unread m = room.0 ∙ bytes in
      let rest : take (length (unread m)) sb'.bytes ≡ unread m =
        ap (take (length (unread m))) here ∙ take-length (unread m) in
      let size = length-append (unread m) buf in
      (
        record m { in_sb = true; off = 0; sb = record sb' { bytes = unread m ++ buf } },
        rw (add_piece, e, grown, fits, if◌then◌else◌, rest) refl,
        (refl, ((ground (arith, size, room.1), room.2.1), tt), refl),
      )
]
