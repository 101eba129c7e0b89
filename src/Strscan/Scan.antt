-- ===== src/Strscan/Scan.antt =====
-- `lj_strscan_scan`: the scan of the whole string, and the dispatch to the parser of its base.
use omniajit.Prelude.{
  ℕ, zero, suc, ◌+◌, ◌-◌, ◌*◌, ◌%◌, ◌^◌, List, [], ◌∷◌, Bool, true, false, not, ◌&&◌, ◌||◌, ltb,
  leb, ◌==◌, if◌then◌else◌, Option, none, some, length, drop, take,
}
use mathlib.Core.List.{reverse}
use omniajit.Prelude.Int.{ℤ, pos, ◌+ℤ◌, sub_ℕ}
use omniajit.Char.{is_space, is_digit, is_a, char_digit, char_xdigit}
use omniajit.Strscan.{
  Fmt, num, imag, int, u32, i64, u64, Opts, Doubles, i32, double, Outcome, failed, scanned, peek,
  next, casecmp, signed32, int_limit,
}
use omniajit.Strscan.Radix.{strscan_hex, strscan_oct, strscan_bin}
use omniajit.Strscan.Dec.{strscan_dec}

infixl 5 ◌>>=◌
abbrev pub ◌>>=◌ : {A B : Type 0} → Option A → (A → Option B) → Option B
none >>= f = none
some a >>= f = f a

unfoldable pub skip_spaces : List ℕ → List ℕ
unfolding is_a
skip_spaces [] = []
skip_spaces (c ∷ p) = if is_space c then skip_spaces p else c ∷ p

-- `if (*p == '+' || *p == '-') neg = (*p++ == '-');`
unfoldable pub take_sign : List ℕ → Bool × List ℕ
take_sign p = if peek p == b'+' || peek p == b'-' then (peek p == b'-', next p) else (false, p)

-- `p[i]`, folded to lower case and compared.
abbrev pub folds : List ℕ → ℕ → ℕ → Bool
folds p i k = casecmp (peek (drop i p)) k

-- What the scan has found out: the format, the base, the digits from `sp` on with their number
-- and the low word of their decimal value, the exponent, and the pointer behind them.
pub record Scan : Type 0 where
  pub fmt : Fmt
  pub base : ℕ
  pub sp : List ℕ
  pub dig : ℕ
  pub x : ℕ
  pub ex : ℤ
  pub p : List ℕ

-- A position is kept as the number of bytes from there to the end. The loop over the leading
-- zeros: the pointer behind them, `hasdig`, and `dp`.
unfoldable pub leading_zeros : List ℕ → Bool → Option ℕ → Option (List ℕ × Bool × Option ℕ)
leading_zeros [] hasdig dp = some ([], hasdig, dp)
leading_zeros (c ∷ p) hasdig dp =
    let zero_digit = leading_zeros p true dp in
    let point = leading_zeros p hasdig (some (length (c ∷ p))) in
    if c == b'0'
    then zero_digit
    else if c == b'.'
    then elim dp [ none ↦ point | some _ ↦ none ]
    else some (c ∷ p, hasdig, dp)

-- The loop over the digits, with `x`, `dig` and `dp`.
unfoldable pub digits_and_point : ℕ → List ℕ → ℕ → ℕ → Option ℕ → Option (List ℕ × ℕ × ℕ × Option ℕ)
unfolding is_a
digits_and_point cmask [] x dig dp = some ([], x, dig, dp)
digits_and_point cmask (c ∷ p) x dig dp =
    let digit = digits_and_point cmask p ((x * 10 + c % 16) % 2 ^ 32) (dig + 1) dp in
    let point = digits_and_point cmask p x dig (some (length (c ∷ p))) in
    if is_a c cmask
    then digit
    else if c == b'.'
    then elim dp [ none ↦ point | some _ ↦ none ]
    else some (c ∷ p, x, dig, dp)

-- `while (ex < 0 && *dp-- == '0')`: how many of the last `n` bytes, read backwards, are zeros.
unfoldable pub trailing_zeros : ℕ → List ℕ → ℕ
trailing_zeros zero back = 0
trailing_zeros (suc n) [] = 0
trailing_zeros (suc n) (c ∷ back) =
    let rest = trailing_zeros n back in if c == b'0' then suc rest else 0

-- The decimal point at `dp`, in the string `m`.
unfoldable pub decimal_point : List ℕ → ℕ → Option ℕ → Scan → Scan
unfolding trailing_zeros
decimal_point m base none s = s
decimal_point m base (some dp) s =
    let n = dp - length s.p - 1 in
    let k = trailing_zeros n (reverse (take (length m - length s.p) m)) in
    if s.dig == 0 then record s { fmt = num } else record s {
      fmt = num;
      dig = s.dig - k;
      ex = sub_ℕ 0 ((n - k) * (if base == 16 then 4 else 1));
    }

unfoldable pub exponent_digits : List ℕ → ℕ → ℕ × List ℕ
unfolding is_a
exponent_digits [] xx = (xx, [])
exponent_digits (c ∷ p) xx =
    let rest = exponent_digits p (if ltb xx 65536 then xx * 10 + c % 16 else xx) in
    if is_digit c then rest else (xx, c ∷ p)

-- Behind the letter of the exponent.
unfoldable pub exponent_value : Scan → Option Scan
unfolding exponent_digits take_sign is_a
exponent_value s =
    let (negx, q) = take_sign (next s.p) in
    let (xx, r) = exponent_digits (next q) (peek q % 16) in
    let ex = s.ex +ℤ (if negx then sub_ℕ 0 xx else pos xx) in
    if is_digit (peek q) then some (record s { fmt = num; p = r; ex = ex }) else none

unfoldable pub exponent : Scan → Option Scan
unfolding exponent_value
exponent s =
    if leb 10 s.base && casecmp (peek s.p) (if s.base == 16 then b'p' else b'e')
    then exponent_value s
    else some s

-- `fmt += STRSCAN_I64 - STRSCAN_INT` and `fmt += STRSCAN_U32 - STRSCAN_INT`
abbrev pub to_64 : Fmt → Fmt
to_64 int = i64
to_64 u32 = u64
to_64 fmt = fmt

abbrev pub to_unsigned : Fmt → Fmt
to_unsigned int = u32
to_unsigned i64 = u64
to_unsigned fmt = fmt

-- The suffixes `u` and `l` of an integer. `long64` says that a `long` has 8 bytes.
unfoldable pub first_u : Fmt × List ℕ → Fmt × List ℕ
first_u (fmt, p) = if folds p 0 b'u' then (u32, next p) else (fmt, p)

unfoldable pub suffix_l : Bool → Opts → Fmt × List ℕ → Option (Fmt × List ℕ)
suffix_l long64 opt (fmt, p) =
    if folds p 0 b'l'
    then if folds p 1 b'l'
      then some (to_64 fmt, drop 2 p)
      else if not opt.c
      then none
      else some (if long64 then to_64 fmt else fmt, next p)
    else some (fmt, p)

-- `fmt == STRSCAN_INT || fmt == STRSCAN_I64`
abbrev is_signed : Fmt → Bool
is_signed int = true
is_signed i64 = true
is_signed fmt = false

unfoldable pub last_u : Fmt × List ℕ → Fmt × List ℕ
last_u (fmt, p) = if folds p 0 b'u' && is_signed fmt then (to_unsigned fmt, next p) else (fmt, p)

-- The formats that the options do not allow.
unfoldable pub is_allowed : Opts → Fmt → Bool
is_allowed opt u32 = opt.c
is_allowed opt i64 = opt.ll
is_allowed opt u64 = opt.ll
is_allowed opt fmt = true

unfoldable pub integer_suffix : Bool → Opts → Fmt → List ℕ → Option (Fmt × List ℕ)
unfolding first_u suffix_l last_u is_allowed
integer_suffix long64 opt int p = do
  s ← suffix_l long64 opt (first_u (int, p))
  let (fmt, q) = last_u s
  if is_allowed opt fmt then some (fmt, q) else none
integer_suffix long64 opt fmt p = some (fmt, p)

unfoldable pub suffix : Bool → Opts → Scan → Option Scan
unfolding integer_suffix skip_spaces
suffix long64 opt s = if peek s.p == 0 then some s else do
  (fmt, q) ←
      if folds s.p 0 b'i'
      then if opt.imag then some (imag, next s.p) else none
      else integer_suffix long64 opt s.fmt s.p
  let r = skip_spaces q
  if peek r == 0 then some (record s { fmt = fmt; p = r }) else none

-- The exponent, the suffix and the test `p < pe` behind the digits.
unfoldable pub scan_rest : Bool → Opts → Scan → Option Scan
unfolding exponent suffix
scan_rest long64 opt s = do
  t ← exponent s
  u ← suffix long64 opt t
  if ltb 0 (length u.p) then none else some u

-- The digits from `start` on, in a base.
unfoldable pub scan_digits : Bool → Opts → List ℕ → ℕ → List ℕ → Option Scan
unfolding leading_zeros digits_and_point decimal_point scan_rest
scan_digits long64 opt p base start = do
  (sp, hasdig, dp) ←
      if leb (peek p) b'0' then leading_zeros start false none else some (start, false, none)
  (q, x, dig, dp') ← digits_and_point (if base == 16 then char_xdigit else char_digit) sp 0 0 dp
  let s : Scan = record { fmt = int; base = base; sp = sp; dig = dig; x = x; ex = pos 0; p = q }
  if not hasdig && dig == 0 then none else scan_rest long64 opt (decimal_point p base dp' s)

-- From the first byte that is no space and no sign.
unfoldable pub scan_number : Bool → Opts → List ℕ → Option Scan
scan_number long64 opt p =
    let is_zero = peek p == b'0' in
    if is_zero && folds p 1 b'x'
    then scan_digits long64 opt p 16 (drop 2 p)
    else if is_zero && folds p 1 b'b'
    then scan_digits long64 opt p 2 (drop 2 p)
    else scan_digits long64 opt p (if opt.c && is_zero then 0 else 10) p

-- `fmt == STRSCAN_INT`, and `!(fmt == STRSCAN_NUM || fmt == STRSCAN_IMAG)`
abbrev pub is_int : Fmt → Bool
is_int int = true
is_int fmt = false

abbrev pub is_integer : Fmt → Bool
is_integer num = false
is_integer imag = false
is_integer fmt = true

module _ (doubles : Doubles) (long64 : Bool) where
  open doubles use {D, of_int64, inf, nan}

  abbrev pub with_neg : Bool → D → D
  with_neg neg n = if neg then doubles.neg n else n

  -- "inf", "infinity" or "nan".
  unfoldable pub scan_special : List ℕ → Bool → Outcome D
  unfolding skip_spaces
  scan_special p neg =
      let is_inf = folds p 0 b'i' && folds p 1 b'n' && folds p 2 b'f' in
      let rest = drop 3 p in
      let inity =
        folds rest 0 b'i'
        && folds rest 1 b'n'
        && folds rest 2 b'i'
        && folds rest 3 b't'
        && folds rest 4 b'y' in
      let is_nan = folds p 0 b'n' && folds p 1 b'a' && folds p 2 b'n' in
      let q =
        if is_inf then if inity then drop 5 rest else rest else if is_nan then drop 3 p else p in
      let r = skip_spaces q in
      if not (peek r == 0) || ltb 0 (length r)
      then failed
      else scanned num (double (if is_inf then with_neg neg inf else nan))

  -- The parser of each base.
  unfoldable pub dispatch : Opts → Bool → Scan → Outcome D
  unfolding strscan_oct strscan_hex strscan_bin strscan_dec
  dispatch opt neg s =
      if s.base == 0 && is_integer s.fmt
      then strscan_oct doubles s.sp s.fmt neg s.dig
      else if s.base == 16
      then strscan_hex doubles s.sp s.fmt opt s.ex neg s.dig
      else if s.base == 2
      then strscan_bin doubles s.sp s.fmt opt s.ex neg s.dig
      else strscan_dec doubles s.sp s.fmt opt s.ex neg s.dig

  -- "Try to convert number to integer, if requested."
  unfoldable pub to_integer : Opts → Outcome D → Outcome D
  to_integer opt (scanned num (double n)) =
      let i = doubles.num2int n in
      if opt.toint && doubles.equal n (doubles.of_int32 i)
      then scanned int (i32 i)
      else scanned num (double n)
  to_integer opt r = r

  -- The fast path for decimal 32 bit integers, and the rest of the function.
  unfoldable pub finish_scan : Opts → Bool → Scan → Outcome D
  finish_scan opt neg s =
      let fits = ltb s.dig 10 || s.dig == 10 && leb (peek s.sp) b'2' && ltb s.x (int_limit neg) in
      if is_int s.fmt && s.base == 10 && fits
      then if opt.tonum
        then scanned num (double (with_neg neg (of_int64 s.x)))
        else scanned int (i32 (signed32 neg s.x))
      else to_integer opt (dispatch opt neg s)

  unfoldable pub scan : List ℕ → Opts → Outcome D
  scan m opt =
      let plain = is_digit (peek m) in
      let (neg, p) = if plain then (false, m) else take_sign (skip_spaces m) in
      if not plain && leb b'A' (peek p)
      then scan_special p neg
      else elim (scan_number long64 opt p) [ none ↦ failed | some s ↦ finish_scan opt neg s ]
