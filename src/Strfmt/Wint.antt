-- ===== src/Strfmt/Wint.antt =====
-- `lj_strfmt_wint`. Each label of the C function is a function of the words `u` and `v` that are
-- live there, and returns the bytes that are written from there on. An `int32_t` is its pattern.
use omniajit.Prelude.{ℕ, ◌+◌, ◌-◌, ◌*◌, ◌/◌, ◌%◌, ◌^◌, List, [], ◌∷◌, ltb, leb, if◌then◌else◌}

-- `WINT_R(x, sh, sc)`: the digit `x / sc` by a multiplication and a shift, and what is left of `x`.
abbrev pub wint_d : ℕ → ℕ → ℕ → ℕ
wint_d x sh sc = x * ((2 ^ sh + sc - 1) / sc) % 2 ^ 32 / 2 ^ sh

abbrev pub wint_x : ℕ → ℕ → ℕ → ℕ
wint_x x sh sc = (x + 2 ^ 32 - wint_d x sh sc * sc % 2 ^ 32) % 2 ^ 32

-- `(char)('0' + d)`
abbrev pub digit : ℕ → ℕ
digit d = (b'0' + d) % 2 ^ 8

unfoldable pub dig1 : ℕ → List ℕ
dig1 u = digit u ∷ []

unfoldable pub dig2 : ℕ → List ℕ
dig2 u = digit (wint_d u 10 10) ∷ dig1 (wint_x u 10 10)

unfoldable pub dig3 : ℕ → List ℕ
dig3 u = digit (wint_d u 12 100) ∷ dig2 (wint_x u 12 100)

unfoldable pub dig4 : ℕ → List ℕ
dig4 u = digit (wint_d u 23 1000) ∷ dig3 (wint_x u 23 1000)

unfoldable pub dig5 : ℕ → ℕ → List ℕ
dig5 v u = digit v ∷ dig4 u

unfoldable pub dig6 : ℕ → ℕ → List ℕ
dig6 v u = digit (wint_d v 10 10) ∷ dig5 (wint_x v 10 10) u

unfoldable pub dig7 : ℕ → ℕ → List ℕ
dig7 v u = digit (wint_d v 12 100) ∷ dig6 (wint_x v 12 100) u

unfoldable pub dig8 : ℕ → ℕ → List ℕ
dig8 v u = digit (wint_d v 23 1000) ∷ dig7 (wint_x v 23 1000) u

-- The two digits above, where `w` is `v / 10000`.
unfoldable pub dig10 : ℕ → ℕ → ℕ → List ℕ
dig10 w v u =
    if leb 10 w
    then digit (wint_d w 10 10) ∷ digit (wint_x w 10 10) ∷ dig8 v u
    else digit w ∷ dig8 v u

unfoldable pub wint_u : ℕ → List ℕ
wint_u u =
    if ltb u 10000
    then if ltb u 10
      then dig1 u
      else if ltb u 100
      then dig2 u
      else if ltb u 1000
      then dig3 u
      else dig4 u
    else let v = u / 10000 in
      let u' = u - v * 10000 in
      if ltb v 10000
      then if ltb v 10
        then dig5 v u'
        else if ltb v 100
        then dig6 v u'
        else if ltb v 1000
        then dig7 v u'
        else dig8 v u'
      else let w = v / 10000 in dig10 w (v - w * 10000) u'

unfoldable pub wint : ℕ → List ℕ
wint k = if leb (2 ^ 31) k then b'-' ∷ wint_u ((2 ^ 32 - k) % 2 ^ 32) else wint_u k
