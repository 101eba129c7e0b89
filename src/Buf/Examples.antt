-- ===== src/Buf/Examples.antt =====
-- Runs of the buffer functions.
use omniajit.Prelude.{◌+◌, ◌≡◌, refl, arith, [], ◌∷◌, length, some}
use mathlib.Core.List.{reverse}
use omniajit.Buf.{
  SBuf, lj_buf_need, lj_buf_more, double, lj_buf_putstr_reverse, lj_buf_putstr_lower, lower_bytes,
  copies, lj_buf_putstr_rep,
}
use omniajit.Buf.Growth.{IsRequest, lj_buf_need-IsRequest, lj_buf_more-IsRequest}
use omniajit.Buf.Put.{IsPut, times, lj_buf_putstr_reverse-IsPut, lj_buf_putstr_rep-IsPut}

abbrev buffer : SBuf
buffer = record { bytes = 1 ∷ 2 ∷ 3 ∷ []; size = 4 }

double_example : double 32 32 1000 ≡ 1024
unfolding double
double_example = refl

lj_buf_putstr_lower_example :
    lj_buf_putstr_lower (b'L' ∷ b'z' ∷ []) (record { bytes = []; size = 32 })
    ≡ some (record { bytes = b'l' ∷ b'z' ∷ []; size = 32 })
unfolding lj_buf_putstr_lower lj_buf_more lower_bytes
lj_buf_putstr_lower_example = refl

lj_buf_need-IsRequest_example : IsRequest 1000 buffer (lj_buf_need 1000 buffer)
lj_buf_need-IsRequest_example = lj_buf_need-IsRequest 1000 buffer (omega arith)

lj_buf_more-IsRequest_example :
    IsRequest (length buffer.bytes + 0x7fff_ff00) buffer (lj_buf_more 0x7fff_ff00 buffer)
lj_buf_more-IsRequest_example =
    lj_buf_more-IsRequest 0x7fff_ff00 buffer (omega arith) (omega arith) (omega arith)

lj_buf_putstr_reverse-IsPut_example :
    IsPut (reverse (4 ∷ 5 ∷ [])) buffer (lj_buf_putstr_reverse (4 ∷ 5 ∷ []) buffer)
lj_buf_putstr_reverse-IsPut_example =
    lj_buf_putstr_reverse-IsPut (4 ∷ 5 ∷ []) buffer (omega arith) (omega arith) (omega arith)

lj_buf_putstr_rep-IsPut_example :
    IsPut (copies (times 20) (4 ∷ 5 ∷ [])) buffer (lj_buf_putstr_rep (4 ∷ 5 ∷ []) 20 buffer)
lj_buf_putstr_rep-IsPut_example =
    lj_buf_putstr_rep-IsPut (4 ∷ 5 ∷ []) 20 buffer (omega arith) (omega arith)
