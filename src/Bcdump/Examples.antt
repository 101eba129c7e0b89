-- ===== src/Bcdump/Examples.antt =====
-- Runs of the dump of number constants.
use omniajit.Prelude.{
  ℕ, ◌<◌, ◌^◌, ◌≡◌, refl, arith, List, [], ◌∷◌, ◌++◌, replicate, true, Option, none, some, false,
  lt_wf, dec_le, if◌then◌else◌, ◌==◌, ◌&&◌,
}
use omniajit.Uleb.{wuleb128, wuleb128_loop}
use omniajit.Bcdump.{Number, num, is_negzero, Floats, save_int, bcwrite_knum, bcread_knum}
use omniajit.Bcdump.Template.{Ktab, nil, bool, str, number}
use omniajit.Bcdump.Proto.{with_length}
use omniajit.Bcdump.Proto.Read.{varinfo, nul_terminated, varinfo-nul_terminated}
use omniajit.Bcdump.Proto.Length.{with_length_lem}
use omniajit.Bcdump.Knum.{bcread_knum-bcwrite_knum}

save_int_negative : save_int 0xffff_fffe ≡ 0xfc ∷ 0xff ∷ 0xff ∷ 0xff ∷ 0x1f ∷ []
unfolding save_int wuleb128 wuleb128_loop lt_wf dec_le
save_int_negative = refl

-- Conversions that know the doubles 1.0 and 2.5 only.
unfoldable pub one_narrow : ℕ → ℕ → Option ℕ
one_narrow lo hi = if lo == 0 && hi == 0x3ff0_0000 then some 1 else none

pub one_narrow-lt : (lo hi k : ℕ) → one_narrow lo hi ≡ some k → k < 2 ^ 32
unfolding one_narrow
one_narrow-lt lo hi k h = ground arith

pub one_widen :
    (lo hi k : ℕ)
    → is_negzero lo hi ≡ false
    → one_narrow lo hi ≡ some k
    → ◌≡◌ {A = ℕ × ℕ} (0, 0x3ff0_0000) (lo, hi)
unfolding one_narrow
one_widen lo hi k z h = ground arith

abbrev pub one_float : Floats
one_float = record {
  narrow = one_narrow;
  widen = λ k. (0, 0x3ff0_0000);
  narrow-lt = one_narrow-lt;
  widen-narrow = one_widen;
}

abbrev constants : List Number
constants = num 0 0x3ff0_0000 ∷ num 0 0x4004_0000 ∷ num 0xffff_ffff 0x3fd5_5555 ∷ []

bcread_knum-bcwrite_knum_example :
    bcread_knum false one_float 3 (bcwrite_knum false one_float constants ++ 7 ∷ [])
    ≡ some (constants, 7 ∷ [])
bcread_knum-bcwrite_knum_example = bcread_knum-bcwrite_knum false one_float constants (7 ∷ []) (
  (omega arith, omega arith, refl),
  ((omega arith, omega arith, refl), ((omega arith, omega arith, refl), tt)),
)

abbrev numbers : Ktab
numbers = record {
  array = nil ∷ number (num 0 0x3ff0_0000) ∷ nil ∷ [];
  node = (str (0x78 ∷ []), bool true) ∷ (nil, nil) ∷ (number (num 0 0x4004_0000), bool false) ∷ [];
}

with_length_lem_example : with_length (replicate 300 1) ≡ wuleb128 300 ++ replicate 300 1
with_length_lem_example = with_length_lem (replicate 300 1) (omega arith) (omega arith)

varinfo-nul_terminated_example :
    varinfo 2 (nul_terminated ((0x61 ∷ 0x62 ∷ []) ∷ (0x63 ∷ []) ∷ []) ++ 1 ∷ []) ≡ 1 ∷ []
varinfo-nul_terminated_example =
    varinfo-nul_terminated ((0x61 ∷ 0x62 ∷ []) ∷ (0x63 ∷ []) ∷ []) (1 ∷ [])
      ((omega arith, (omega arith, tt)), ((omega arith, tt), tt))
