-- ===== src/Str/Marks.antt =====
-- The marks of strings: which of them are dead, and what the functions make of them.
use omniajit.Prelude.{
  ℕ, zero, suc, ◌<◌, ◌≡◌, refl, arith, ltb, if◌then◌else◌, Bool, true, ◌&&◌, inl, inr, ◌⊎◌,
}
use omniajit.Func.{isdead, flipwhite, makewhite, curwhite}
use omniajit.Str.{survives}

all_below : ℕ → (ℕ → Bool) → Bool
all_below zero p = true
all_below (suc n) p = p n && all_below n p

below-all_below : (n : ℕ) (p : ℕ → Bool) (x : ℕ) → all_below n p ≡ true → x < n → p x ≡ true
unfolding all_below
below-all_below zero p x h lt = absurd (omega arith)
below-all_below (suc n) p x h lt = ground (arith, below-all_below n p x)

-- All that is to be known of a byte of marks.
abbrev sound : ℕ → ℕ → Bool
sound cw m =
    let white = makewhite cw m in
    (if isdead cw m then survives cw (flipwhite m) else survives cw m)
    && survives cw white
    && ltb white 256
    && ltb (flipwhite m) 256

table_zero : all_below 256 (sound 0x21) ≡ true
unfolding all_below survives
table_zero = refl

table_one : all_below 256 (sound 0x22) ≡ true
unfolding all_below survives
table_one = refl

-- The current white, with the mark of fixed objects, as `lua_newstate` and `atomic` leave it.
abbrev pub IsWhite : ℕ → Type 0
IsWhite cw = (cw ≡ 0x21) ⊎ (cw ≡ 0x22)

marks_sound : (cw m : ℕ) → IsWhite cw → m < 256 → sound cw m ≡ true
marks_sound cw m (inl e) h = rw e (below-all_below 256 (sound 0x21) m table_zero h)
marks_sound cw m (inr e) h = rw e (below-all_below 256 (sound 0x22) m table_one h)

module _ (cw m : ℕ) (white : IsWhite cw) (byte : m < 256) where
  pub survives-makewhite : survives cw (makewhite cw m) ≡ true
  survives-makewhite = ground (arith, marks_sound cw m white byte)

  pub makewhite-lt : makewhite cw m < 256
  makewhite-lt = ground (arith, marks_sound cw m white byte)

  pub survives-resurrect : survives cw (if isdead cw m then flipwhite m else m) ≡ true
  survives-resurrect = ground (arith, marks_sound cw m white byte)

  pub flipwhite-lt : flipwhite m < 256
  flipwhite-lt = ground (arith, marks_sound cw m white byte)

pub survives-curwhite : (cw : ℕ) → IsWhite cw → survives cw (curwhite cw) ≡ true
unfolding survives
survives-curwhite cw (inl e) = rw e refl
survives-curwhite cw (inr e) = rw e refl

pub curwhite-lt : (cw : ℕ) → IsWhite cw → curwhite cw < 256
curwhite-lt cw (inl e) = rw e (omega arith)
curwhite-lt cw (inr e) = rw e (omega arith)
