-- ===== src/Bcdump/Knum.antt =====
-- Round trip of the number constants of a prototype.
use omniajit.Prelude.{
  ℕ, ◌+◌, ◌*◌, ◌/◌, ◌%◌, ◌^◌, ◌<◌, ◌≡◌, refl, ap, bit_and, arith, List, [], ◌∷◌, ◌++◌, some, dec_lt,
  ◌∙◌, Bool, true, false, All, length, Option-cases, Bool-cases, if◌then◌else◌, inl, inr,
}
use omniajit.Prelude.Bits.{bit_and_mask}
use mathlib.Core.List.{append_assoc}
use omniajit.Uleb.{wuleb128, ruleb128, uleb128_33}
use omniajit.Uleb.Write.{wuleb128_last, wuleb128_more}
use omniajit.Uleb.Read.{ruleb128-wuleb128}
use omniajit.Bcdump.{
  Number, int, num, is_negzero, Floats, save_int, save_num, write_number, bcwrite_knum, setint,
  read_number, bcread_knum,
}
use omniajit.Bcdump.Signed.{save_int-wuleb128, save_num-wuleb128, uleb128_33-wuleb128}

-- Words are 32 bits wide, only a build with `LJ_DUALNUM` has integer values, and -0 is never a
-- constant.
abbrev pub IsNumber : Bool → Number → Type 0
IsNumber dualnum (int k) = (k < 2 ^ 32) × (dualnum ≡ true)
IsNumber dualnum (num lo hi) = (lo < 2 ^ 32) × (hi < 2 ^ 32) × (is_negzero lo hi ≡ false)

first_byte : (n : ℕ) → (b : ℕ) × (p : List ℕ) × (wuleb128 n ≡ b ∷ p) × (bit_and b 1 ≡ n % 2)
first_byte n = elim (dec_lt n 128) [
  | yes p ↦ (n, [], wuleb128_last n p, bit_and_mask 1 n)
  | no p ↦ (
    n % 128 + 128,
    wuleb128 (n / 2 ^ 7),
    wuleb128_more n (omega arith),
    omega (arith, bit_and_mask 1 (n % 128 + 128)),
  )
]

module _ (dualnum : Bool) (floats : Floats) where
  read_even :
      (l : List ℕ) (b : ℕ) (p : List ℕ) (lo : ℕ) (q : List ℕ)
      → l ≡ b ∷ p
      → bit_and b 1 ≡ 0
      → uleb128_33 l ≡ some (lo, q)
      → read_number dualnum floats l ≡ some (setint dualnum floats lo, q)
  unfolding read_number
  read_even [] b p lo q e low scan = cc
  read_even (x ∷ xs) b p lo q e low scan = ground arith

  read_odd :
      (l : List ℕ) (b : ℕ) (p : List ℕ) (lo hi : ℕ) (q r : List ℕ)
      → l ≡ b ∷ p
      → bit_and b 1 ≡ 1
      → uleb128_33 l ≡ some (lo, q)
      → ruleb128 q ≡ some (hi, r)
      → read_number dualnum floats l ≡ some (num lo hi, r)
  unfolding read_number
  read_odd [] b p lo hi q r e low scan scan' = cc
  read_odd (x ∷ xs) b p lo hi q r e low scan scan' = ground arith

  read-save_int :
      (k : ℕ) (q : List ℕ)
      → k < 2 ^ 32
      → read_number dualnum floats (save_int k ++ q) ≡ some (setint dualnum floats k, q)
  read-save_int k q h =
      let (b, p, e, low) = first_byte (2 * k) in
      rw (save_int-wuleb128 k h) (
        read_even (wuleb128 (2 * k) ++ q) b (p ++ q) k q (ap (λ l. l ++ q) e) (omega arith)
          (uleb128_33-wuleb128 (2 * k) q (omega arith) ∙ ap (λ (n : ℕ). some (n, q)) (omega arith)))

  read-save_num :
      (lo hi : ℕ) (q : List ℕ)
      → lo < 2 ^ 32
      → hi < 2 ^ 32
      → read_number dualnum floats (save_num lo hi ++ q) ≡ some (num lo hi, q)
  read-save_num lo hi q h l =
      let (b, p, e, low) = first_byte (1 + 2 * lo) in
      let after = wuleb128 hi ++ q in
      rw (save_num-wuleb128 lo hi h, append_assoc)
        (read_odd (wuleb128 (1 + 2 * lo) ++ after) b (p ++ after) lo hi after q
          (ap (λ k. k ++ after) e) (omega arith)
          (uleb128_33-wuleb128 (1 + 2 * lo) after (omega arith)
            ∙ ap (λ (n : ℕ). some (n, after)) (omega arith))
          (ruleb128-wuleb128 hi q l))

  read-write_number :
      (o : Number) (q : List ℕ)
      → IsNumber dualnum o
      → read_number dualnum floats (write_number dualnum floats o ++ q) ≡ some (o, q)
  unfolding write_number setint
  read-write_number (int k) q h = read-save_int k q h.0 ∙ rw (h.1, if◌then◌else◌)
  read-write_number (num lo hi) q h = elim (Bool-cases dualnum) [
    | inl on ↦ ground (arith, read-save_num lo hi q)
    | inr off ↦ elim (Option-cases (floats.narrow lo hi)) [
      | inl wide ↦ ground (arith, read-save_num lo hi q)
      | inr (k, e) ↦
          ground
            (arith, read-save_int k q, floats.narrow-lt lo hi k, floats.widen-narrow lo hi k h.2)
    ]
  ]

  -- `bcread_knum` returns the constants that `bcwrite_knum` wrote, and leaves what follows them. Words
  -- are 32 bits wide, integers need a build with `LJ_DUALNUM`, and no constant is -0.
  pub bcread_knum-bcwrite_knum :
      (k : List Number) (rest : List ℕ)
      → All (IsNumber dualnum) k
      → bcread_knum dualnum floats (length k) (bcwrite_knum dualnum floats k ++ rest)
        ≡ some (k, rest)
  unfolding bcread_knum bcwrite_knum
  bcread_knum-bcwrite_knum [] rest h = refl
  bcread_knum-bcwrite_knum (o ∷ k) rest h = rw (
    append_assoc,
    read-write_number o (bcwrite_knum dualnum floats k ++ rest) h.0,
    bcread_knum-bcwrite_knum k rest h.1,
  )
