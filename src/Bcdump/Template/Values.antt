-- ===== src/Bcdump/Template/Values.antt =====
-- Round trip of the keys and values of template tables.
use omniajit.Prelude.{
  ℕ, ◌+◌, ◌-◌, ◌^◌, ◌<◌, ◌≡◌, refl, ap, arith, List, [], ◌∷◌, ◌++◌, length, length-append, take,
  drop, ltb, if◌then◌else◌, Bool, true, false, some, not, ◌&&◌, Bool-cases, Option-cases, inl, inr,
}
use mathlib.Core.List.{append_assoc}
use omniajit.Uleb.{wuleb128, ruleb128}
use omniajit.Uleb.Read.{ruleb128-wuleb128}
use omniajit.Bcdump.{int, num, Floats, setint}
use omniajit.Bcdump.Knum.{IsNumber}
use omniajit.Bcdump.Result.{mem}
use omniajit.Bcdump.Template.{
  TValue, nil, bool, str, number, ktab_str, ktab_int, ktab_num, bcwrite_ktabk, bcread_ktabk,
}

take-append : (s p : List ℕ) → take (length s) (s ++ p) ≡ s
take-append [] p = refl
take-append (c ∷ s) p = ap (λ t. c ∷ t) (take-append s p)

pub drop-append_self : (s p : List ℕ) → drop (length s) (s ++ p) ≡ p
drop-append_self [] p = refl
drop-append_self (c ∷ s) p = drop-append_self s p

pub mem-append : (s p : List ℕ) → mem (length s) (s ++ p) ≡ some (s, p)
unfolding mem
mem-append s p =
    let fits : ltb (length (s ++ p)) (length s) ≡ false = ground (arith, length-append s p) in
    rw (fits, if◌then◌else◌, take-append s p, drop-append_self s p) refl

-- The values that a dump can hold: strings that have a length, and numbers but -0.
abbrev pub IsTValue : Bool → TValue → Type 0
IsTValue dualnum nil = Unit
IsTValue dualnum (bool b) = Unit
IsTValue dualnum (str s) = ktab_str + length s < 2 ^ 32
IsTValue dualnum (number o) = IsNumber dualnum o

module _ (dualnum : Bool) (floats : Floats) where
  ktabk-small : (tp : ℕ) (p : List ℕ) → tp < 128 → ruleb128 (tp ∷ p) ≡ some (tp, p)
  unfolding ruleb128
  ktabk-small tp p h = ground arith

  read_double :
      (lo hi : ℕ) (p : List ℕ)
      → lo < 2 ^ 32
      → hi < 2 ^ 32
      → bcread_ktabk dualnum floats (ktab_num ∷ ((wuleb128 lo ++ wuleb128 hi) ++ p))
        ≡ some (number (num lo hi), p)
  unfolding bcread_ktabk
  read_double lo hi p h l = rw (append_assoc (wuleb128 lo) (wuleb128 hi) p) (
      ground (
        arith,
        ktabk-small 4 (wuleb128 lo ++ (wuleb128 hi ++ p)),
        ruleb128-wuleb128 lo (wuleb128 hi ++ p),
        ruleb128-wuleb128 hi p,
      ))

  read_int :
      (k : ℕ) (p : List ℕ)
      → k < 2 ^ 32
      → bcread_ktabk dualnum floats (ktab_int ∷ (wuleb128 k ++ p))
        ≡ some (number (setint dualnum floats k), p)
  unfolding bcread_ktabk
  read_int k p h = ground (arith, ktabk-small 3 (wuleb128 k ++ p), ruleb128-wuleb128 k p)

  pub bcread_ktabk-bcwrite_ktabk :
      (narrow : Bool) (o : TValue) (p : List ℕ)
      → IsTValue dualnum o
      → bcread_ktabk dualnum floats (bcwrite_ktabk dualnum floats narrow o ++ p) ≡ some (o, p)
  unfolding bcread_ktabk bcwrite_ktabk setint not ◌&&◌
  bcread_ktabk-bcwrite_ktabk narrow nil p h = ground (arith, ktabk-small 0 p)
  bcread_ktabk-bcwrite_ktabk narrow (bool true) p h = ground (arith, ktabk-small 2 p)
  bcread_ktabk-bcwrite_ktabk narrow (bool false) p h = ground (arith, ktabk-small 1 p)
  bcread_ktabk-bcwrite_ktabk narrow (str s) p h =
      rw (append_assoc, ruleb128-wuleb128 (ktab_str + length s) (s ++ p) h)
        (let e : ktab_str + length s - ktab_str ≡ length s = omega arith in
          ground (arith, e, mem-append s p))
  bcread_ktabk-bcwrite_ktabk narrow (number (int k)) p h = ground (arith, read_int k p, h)
  bcread_ktabk-bcwrite_ktabk narrow (number (num lo hi)) p h =
      elim (Bool-cases (not dualnum && narrow)) [
        | inl narrowed ↦ elim (Option-cases (floats.narrow lo hi)) [
          | inl wide ↦ rw (narrowed, wide, if◌then◌else◌) (read_double lo hi p h.0 h.1)
          | inr (k, e) ↦
              rw (narrowed, e, if◌then◌else◌)
                (ground (
                  arith,
                  narrowed,
                  read_int k p (floats.narrow-lt lo hi k e),
                  floats.widen-narrow lo hi k h.2 e,
                ))
        ]
        | inr kept ↦ rw (kept, if◌then◌else◌) (read_double lo hi p h.0 h.1)
      ]
