-- ===== src/Strfmt/Examples.antt =====
-- Runs of `lj_strfmt_wint`.
use omniajit.Prelude.{◌≡◌, refl, arith, [], ◌∷◌}
use omniajit.Strfmt.Wint.{wint}
use omniajit.Strfmt.Decimal.{decimal, wint-decimal}

wint-decimal_example : wint 0xffff_0000 ≡ b'-' ∷ decimal 11 65536
wint-decimal_example = wint-decimal 0xffff_0000 (omega arith)

decimal_65536 : decimal 11 65536 ≡ b'6' ∷ b'5' ∷ b'5' ∷ b'3' ∷ b'6' ∷ []
unfolding decimal
decimal_65536 = refl
