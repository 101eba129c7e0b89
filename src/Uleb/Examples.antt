-- ===== src/Uleb/Examples.antt =====
-- Runs of the ULEB128 functions.
use omniajit.Prelude.{◌≡◌, refl, arith, [], ◌∷◌, ◌++◌, none, some, lt_wf, dec_le}
use omniajit.Uleb.{wuleb128, wuleb128_loop, ruleb128, uleb128_33}
use omniajit.Uleb.Read.{ruleb128-wuleb128}

wuleb128_run : wuleb128 0x3fff_ffff ≡ 0xff ∷ 0xff ∷ 0xff ∷ 0xff ∷ 3 ∷ []
unfolding wuleb128 wuleb128_loop lt_wf dec_le
wuleb128_run = refl

ruleb128_cut : ruleb128 (0x80 ∷ 0x80 ∷ []) ≡ none
unfolding ruleb128
ruleb128_cut = refl

-- The sixth byte would be shifted by 35.
ruleb128_long : ruleb128 (0x80 ∷ 0x80 ∷ 0x80 ∷ 0x80 ∷ 0x80 ∷ 1 ∷ []) ≡ none
unfolding ruleb128
ruleb128_long = refl

uleb128_33_run : uleb128_33 (0xfe ∷ 0xff ∷ 0xff ∷ 0xff ∷ 0x1f ∷ 7 ∷ []) ≡ some (0xffff_ffff, 7 ∷ [])
unfolding uleb128_33
uleb128_33_run = refl

ruleb128-wuleb128_example : ruleb128 (wuleb128 300 ++ 9 ∷ []) ≡ some (300, 9 ∷ [])
ruleb128-wuleb128_example = ruleb128-wuleb128 300 (9 ∷ []) (omega arith)
