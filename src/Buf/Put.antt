-- ===== src/Buf/Put.antt =====
-- What the functions append to a buffer.
use omniajit.Prelude.{
  ℕ, zero, suc, ◌+◌, ◌*◌, ◌^◌, ◌≤◌, ◌<◌, ◌≡◌, ◌⊎◌, inl, inr, refl, ap, ◌∙◌, sym, arith, List, [],
  ◌∷◌, ◌++◌, length, length-append, get_or, replicate, ltb, ◌==◌, if◌then◌else◌, true, false, not,
  ◌&&◌, Bool-cases, Option, none, some,
}
use mathlib.Core.List.{reverse, reverse_aux, append_assoc, append-nil}
use omniajit.Buf.{
  SBuf, max_buf, store, lj_buf_more, backwards, lj_buf_putstr_reverse, copies, lj_buf_putstr_rep,
}
use omniajit.Buf.Growth.{IsSBuf, IsRequest, lj_buf_more-IsRequest}

-- The bytes are appended, or there are too many for a buffer and the error is thrown.
abbrev pub IsPut : List ℕ → SBuf → Option SBuf → Type 0
IsPut q sb none = max_buf < length sb.bytes + length q
IsPut q sb (some sb') = (sb'.bytes ≡ sb.bytes ++ q) × IsSBuf sb'

appended :
    (q : List ℕ) (sb sb' : SBuf)
    → sb'.bytes ≡ sb.bytes
    → length sb.bytes + length q ≤ sb'.size
    → sb'.size < 2 ^ 32
    → IsPut q sb (store q (some sb'))
appended q sb sb' same room word =
    let len = ap (λ (b : List ℕ). length b) same in
    (ap (λ b. b ++ q) same, (omega (arith, length-append sb'.bytes q, len, room), word))

store-IsPut :
    (q : List ℕ) (sb : SBuf) (r : Option SBuf)
    → IsSBuf sb
    → IsRequest (length sb.bytes + length q) sb r
    → IsPut q sb (store q r)
store-IsPut q sb none is h = h.1
store-IsPut q sb (some sb') is (inl (same, room)) =
    let bytes : sb'.bytes ≡ sb.bytes = ap (λ (sb : SBuf). sb.bytes) same in
    let size : sb'.size ≡ sb.size = ap (λ (sb : SBuf). sb.size) same in
    appended q sb sb' bytes (omega (arith, room, size)) (omega (arith, size, is.1))
store-IsPut q sb (some sb') is (inr (few, (same, room, is', most))) =
    appended q sb sb' same room is'.1

pub put :
    (q : List ℕ) (n : ℕ) (sb : SBuf)
    → IsSBuf sb
    → length sb.bytes ≤ max_buf
    → n < 2 ^ 32
    → length q ≡ n
    → IsPut q sb (store q (lj_buf_more n sb))
put q n sb is len word e =
    store-IsPut q sb (lj_buf_more n sb) is (rw e (lj_buf_more-IsRequest n sb is len word))

length-backwards : (s : List ℕ) (n : ℕ) → length (backwards s n) ≡ n
unfolding backwards
length-backwards s zero = refl
length-backwards s (suc n) = ap suc (length-backwards s n)

-- From behind is as from the front after `c`.
backwards_cons :
    (c : ℕ) (s : List ℕ) (n : ℕ) → backwards (c ∷ s) (suc n) ≡ backwards s n ++ (c ∷ [])
unfolding backwards
backwards_cons c s zero = refl
backwards_cons c s (suc n) = ap (λ t. get_or s n 0 ∷ t) (backwards_cons c s n)

reverse_aux-append : (s t : List ℕ) → reverse_aux s t ≡ backwards s (length s) ++ t
reverse_aux-append [] t = unfold backwards in refl
reverse_aux-append (c ∷ s) t =
    reverse_aux-append s (c ∷ t)
    ∙ (sym (append_assoc (backwards s (length s)) (c ∷ []) t)
        ∙ ap (λ b. b ++ t) (sym (backwards_cons c s (length s))))

-- lj_buf_putstr_reverse appends the reverse of the string, or throws an error if that is too long
-- for a buffer; the buffer has no more than LJ_MAX_BUF bytes, and the string's length 32 bits.
pub lj_buf_putstr_reverse-IsPut :
    (s : List ℕ) (sb : SBuf)
    → IsSBuf sb
    → length sb.bytes ≤ max_buf
    → length s < 2 ^ 32
    → IsPut (reverse s) sb (lj_buf_putstr_reverse s sb)
unfolding lj_buf_putstr_reverse
lj_buf_putstr_reverse-IsPut s sb is len word =
    let e : reverse s ≡ backwards s (length s) =
      reverse_aux-append s [] ∙ append-nil (backwards s (length s)) in
    rw e (put (backwards s (length s)) (length s) sb is len word (length-backwards s (length s)))

length-copies : (rep : ℕ) (s : List ℕ) → length (copies rep s) ≡ rep * length s
unfolding copies
length-copies zero s = omega arith
length-copies (suc rep) s = grind (arith, length-append s (copies rep s), length-copies rep s)

copies_byte : (rep c : ℕ) → replicate rep c ≡ copies rep (c ∷ [])
unfolding copies
copies_byte zero c = refl
copies_byte (suc rep) c = ap (λ t. c ∷ t) (copies_byte rep c)

-- The bytes that a positive `rep` appends.
copied :
    (rep : ℕ) (s : List ℕ)
    → (if length s == 1 then replicate rep (get_or s 0 0) else copies rep s) ≡ copies rep s
copied rep [] = refl
copied rep (c ∷ []) = copies_byte rep c
copied rep (c ∷ d ∷ s) =
    let long : (length (c ∷ d ∷ s) == 1) ≡ false = ground arith in rw (long, if◌then◌else◌) refl

-- A `rep` that is not positive appends nothing.
abbrev pub times : ℕ → ℕ
times rep = if ltb rep (2 ^ 31) then rep else 0

no_copies : (rep : ℕ) (s : List ℕ) → (rep ≡ 0) ⊎ (length s ≡ 0) → copies rep s ≡ []
unfolding copies
no_copies zero s h = refl
no_copies (suc rep) (c ∷ s) (inl e) = absurd (omega (arith, e))
no_copies (suc rep) (c ∷ s) (inr e) = absurd (omega (arith, e))
no_copies (suc rep) [] h = no_copies rep [] (inr refl)

nothing :
    (rep : ℕ) (s : List ℕ)
    → (ltb 0 rep && ltb rep (2 ^ 31) && not (length s == 0)) ≡ false
    → (times rep ≡ 0) ⊎ (length s ≡ 0)
unfolding not ◌&&◌
nothing rep s h = elim (Bool-cases (length s == 0)) [
  | inl e ↦ inr (ground (arith, e))
  | inr e ↦ inl (ground (arith, e, h))
]

positive :
    (rep : ℕ) (s : List ℕ)
    → (ltb 0 rep && ltb rep (2 ^ 31) && not (length s == 0)) ≡ true
    → times rep ≡ rep
unfolding not ◌&&◌
positive rep s h = ground (arith, h)

-- lj_buf_putstr_rep appends as many copies of the string as a positive count says, and nothing for
-- others, or throws an error if they are too many for a buffer; the buffer has no more than
-- LJ_MAX_BUF bytes.
pub lj_buf_putstr_rep-IsPut :
    (s : List ℕ) (rep : ℕ) (sb : SBuf)
    → IsSBuf sb
    → length sb.bytes ≤ max_buf
    → IsPut (copies (times rep) s) sb (lj_buf_putstr_rep s rep sb)
unfolding lj_buf_putstr_rep
lj_buf_putstr_rep-IsPut s rep sb is len =
    let test = ltb 0 rep && ltb rep (2 ^ 31) && not (length s == 0) in
    elim (Bool-cases test) [
      | inr e ↦
          rw (e, if◌then◌else◌, no_copies (times rep) s (nothing rep s e))
            (sym (append-nil sb.bytes), is)
      | inl e ↦
          let all : times rep ≡ rep = positive rep s e in
          elim (Bool-cases (ltb max_buf (rep * length s))) [
            | inl f ↦ rw (all, e, f, if◌then◌else◌) (ground (arith, length-copies rep s, f))
            | inr f ↦
                rw (all, e, f, if◌then◌else◌, copied rep s)
                  (put (copies rep s) (rep * length s) sb is len (ground (arith, f))
                    (length-copies rep s))
          ]
    ]
