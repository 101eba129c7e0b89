-- ===== src/Strscan/Integers.antt =====
-- The scanner reads back every integer that `lj_strfmt_wint` writes.
use omniajit.Prelude.{ℕ, ◌≡◌, List, [], length, Bool, true, false, if◌then◌else◌, none, some}
use omniajit.Prelude.Int.{pos}
use omniajit.Strfmt.Digits.{value32}
use omniajit.Strscan.{int, num, Opts, Doubles, Outcome, scanned, failed, i32, double, signed32}
use omniajit.Strscan.Scan.{Scan, scan_number, finish_scan, with_neg}

-- What the scan has found behind the digits `p`, which end the string.
abbrev scanned_digits : List ℕ → Scan
scanned_digits p = record {
  fmt = int;
  base = 10;
  sp = p;
  dig = length p;
  x = value32 0 p;
  ex = pos 0;
  p = [];
}

-- What the scanner returns for the integer with a sign and a magnitude.
abbrev pub integer : (d : Doubles) → Opts → Bool → ℕ → Outcome d.D
integer d opt neg u =
    if opt.tonum
    then scanned num (double (with_neg d true neg (d.of_int64 u)))
    else scanned int (i32 (signed32 neg u))

module _ (d : Doubles) (long64 : Bool) (opt : Opts) (no_c : opt.c ≡ false) where
  abbrev finished : Bool → List ℕ → Outcome d.D
  finished neg p = elim (scan_number long64 opt p) [
    | none ↦ failed
    | some s ↦ finish_scan d long64 opt neg s
  ]
