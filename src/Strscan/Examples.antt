-- ===== src/Strscan/Examples.antt =====
-- Runs of the number scanner.
use omniajit.Prelude.{
  replicate, ◌++◌, ℕ, ◌≡◌, refl, List, [], ◌∷◌, Bool, true, false, not, ◌&&◌, ◌||◌,
}
use omniajit.Prelude.Int.{ℤ, pos, negsuc, ◌+ℤ◌}
use omniajit.Strscan.{Opts, Doubles, Outcome, num, int, u64, scanned, failed, i32, w64, double}
use omniajit.Strscan.Scan.{
  scan, skip_spaces, take_sign, scan_special, scan_number, scan_digits, finish_scan, dispatch,
  to_integer,
}
use omniajit.Char.{is_a}
use omniajit.Strscan.Dec.Circular.{to_double}
use omniajit.Strscan.Double.{strscan_double}
use mathlib.Core.List.{reverse}

-- Doubles as they are written: a word, the exponent that it was rescaled by, and the sign.
record Written : Type 0 where
  word : ℕ
  exponent : ℤ
  negative : Bool

abbrev written : ℕ → Written
written x = record { word = x; exponent = pos 0; negative = false }

abbrev doubles : Doubles
doubles = record {
  D = Written;
  of_int64 = written;
  of_int32 = written;
  num2int = λ d. d.word;
  neg = λ d. record d { negative = not d.negative };
  ldexp = λ d e. record d { exponent = d.exponent +ℤ e };
  equal = λ d e. false;
  inf = record { word = 0; exponent = pos 1; negative = false };
  nan = record { word = 0; exponent = pos 2; negative = false };
}

abbrev lua : Opts
lua = record { toint = false; tonum = false; imag = false; ll = false; c = false }

abbrev all_c : Opts
all_c = record { toint = false; tonum = false; imag = true; ll = true; c = true }

run : List ℕ → Opts → Outcome Written
unfolding scan skip_spaces take_sign scan_special scan_number scan_digits finish_scan dispatch
    to_integer is_a
run = scan doubles true

minus_120 : run (b' ' ∷ b'-' ∷ b'1' ∷ b'2' ∷ b'0' ∷ []) lua ≡ scanned int (i32 0xffff_ff88)
unfolding run ◌&&◌ ◌||◌ not
minus_120 = refl

hex_1f : run (b'0' ∷ b'x' ∷ b'1' ∷ b'f' ∷ b' ' ∷ []) lua ≡ scanned int (i32 31)
unfolding run ◌&&◌ ◌||◌ not
hex_1f = refl

octal : run (b'0' ∷ b'1' ∷ b'7' ∷ b'u' ∷ b'l' ∷ b'l' ∷ []) all_c ≡ scanned u64 (w64 15)
unfolding run ◌&&◌ ◌||◌ not
octal = refl

one_and_half :
    run (b'1' ∷ b'.' ∷ b'5' ∷ []) lua
    ≡ scanned num (double (record { word = 96; exponent = negsuc 5; negative = false }))
unfolding run ◌&&◌ ◌||◌ not ◌+ℤ◌ to_double reverse strscan_double
one_and_half = refl

-- 1e23 is 381469726562500000 * 2 ^ 18.
power_of_ten :
    run (b'1' ∷ b'e' ∷ b'2' ∷ b'3' ∷ []) lua
    ≡ scanned num
        (double (record { word = 381469726562500000; exponent = pos 18; negative = false }))
unfolding run ◌&&◌ ◌||◌ not ◌+ℤ◌ to_double reverse strscan_double
power_of_ten = refl

two_points : run (b'1' ∷ b'.' ∷ b'5' ∷ b'.' ∷ []) lua ≡ failed
unfolding run ◌&&◌ ◌||◌ not
two_points = refl

-- 2 ^ 53 * 10 + 8, which lies halfway between two doubles.
abbrev tie : List ℕ
tie =
    b'9' ∷ b'0' ∷ b'0' ∷ b'7' ∷ b'1' ∷ b'9' ∷ b'9' ∷ b'2' ∷ b'5' ∷ b'4' ∷ b'7' ∷ b'4' ∷ b'0' ∷ b'9'
    ∷ b'9' ∷ b'2' ∷ b'8' ∷ []

-- With 799 digits no bit is set behind the word, and the double is rounded to the even one.
tie_799 :
    run (tie ++ (replicate 782 b'0' ++ (b'e' ∷ b'-' ∷ b'7' ∷ b'8' ∷ b'2' ∷ []))) lua
    ≡ scanned num
        (double (record { word = 180143985094819856; exponent = negsuc 0; negative = false }))
unfolding run ◌&&◌ ◌||◌ not ◌+ℤ◌ to_double reverse strscan_double
tie_799 = refl

-- With 800 digits the loop over the excess digits reads the byte behind the number, and the same
-- value is rounded up.
tie_800 :
    run (tie ++ (replicate 783 b'0' ++ (b'e' ∷ b'-' ∷ b'7' ∷ b'8' ∷ b'3' ∷ []))) lua
    ≡ scanned num
        (double (record { word = 180143985094819857; exponent = negsuc 0; negative = false }))
unfolding run ◌&&◌ ◌||◌ not ◌+ℤ◌ to_double reverse strscan_double
tie_800 = refl
