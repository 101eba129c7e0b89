-- ===== src/Buf.antt =====
-- Buffers: lj_buf.h and lj_buf.c (lib/luajit/src), their growth and the functions that append.
-- A buffer is the bytes from `b` to `p`, and the size from `b` to `e`. `none` is the error that
-- `lj_err_mem` throws. The allocator gives the memory that it is asked for.
pub mod Growth
pub mod Put
mod Examples
use omniajit.Prelude.{
  ℕ, zero, suc, ◌+◌, ◌-◌, ◌*◌, ◌%◌, ◌^◌, List, [], ◌∷◌, ◌++◌, length, get_or, replicate, ltb, leb,
  ◌==◌, if◌then◌else◌, not, ◌&&◌, ◌||◌, Option, none, some,
}
use mathlib.Core.List.{reverse, map}

pub record SBuf : Type 0 where
  pub bytes : List ℕ
  pub size : ℕ

-- `LJ_MAX_BUF`
abbrev pub max_buf : ℕ
max_buf = 0x7fff_ff00

-- `LJ_MIN_SBUF`
abbrev pub min_sbuf : ℕ
min_sbuf = 32

-- `sbufleft`
abbrev pub left : SBuf → ℕ
left sb = sb.size - length sb.bytes

-- `while (nsz < sz) nsz += nsz`, on fuel.
unfoldable pub double : ℕ → ℕ → ℕ → ℕ
double zero nsz sz = nsz
double (suc fuel) nsz sz =
    let more = double fuel ((nsz + nsz) % 2 ^ 32) sz in if ltb nsz sz then more else nsz

unfoldable pub buf_grow : ℕ → SBuf → SBuf
buf_grow sz sb =
    let nsz = if ltb sb.size min_sbuf then min_sbuf else sb.size in
    record sb { size = double 32 nsz sz }

unfoldable pub lj_buf_need2 : ℕ → SBuf → Option SBuf
lj_buf_need2 sz sb = if ltb max_buf sz then none else some (buf_grow sz sb)

unfoldable pub lj_buf_more2 : ℕ → SBuf → Option SBuf
lj_buf_more2 sz sb =
    let len = length sb.bytes in
    if ltb max_buf sz || ltb max_buf ((len + sz) % 2 ^ 32)
    then none
    else some (buf_grow ((len + sz) % 2 ^ 32) sb)

unfoldable pub lj_buf_need : ℕ → SBuf → Option SBuf
lj_buf_need sz sb = if ltb sb.size sz then lj_buf_need2 sz sb else some sb

unfoldable pub lj_buf_more : ℕ → SBuf → Option SBuf
lj_buf_more sz sb = if ltb (left sb) sz then lj_buf_more2 sz sb else some sb

-- Bytes that are stored from `p` on, where `p` ends up behind them.
abbrev pub store : List ℕ → Option SBuf → Option SBuf
store q none = none
store q (some sb) = some (record sb { bytes = sb.bytes ++ q })

unfoldable pub lj_buf_putmem : List ℕ → SBuf → Option SBuf
lj_buf_putmem q sb = store q (lj_buf_more (length q) sb)

unfoldable pub lj_buf_putchar : ℕ → SBuf → Option SBuf
lj_buf_putchar c sb = store (c % 2 ^ 8 ∷ []) (lj_buf_more 1 sb)

unfoldable pub lj_buf_putstr : List ℕ → SBuf → Option SBuf
lj_buf_putstr s sb = store s (lj_buf_more (length s) sb)

-- The bytes from the `n`-th one down, `*p++ = *q--`.
unfoldable pub backwards : List ℕ → ℕ → List ℕ
backwards s zero = []
backwards s (suc n) = get_or s n 0 ∷ backwards s n

unfoldable pub lj_buf_putstr_reverse : List ℕ → SBuf → Option SBuf
lj_buf_putstr_reverse s sb = store (backwards s (length s)) (lj_buf_more (length s) sb)

abbrev pub lower : ℕ → ℕ
lower c = if leb b'A' c && leb c b'Z' then c + 0x20 else c

unfoldable pub lower_bytes : List ℕ → List ℕ
lower_bytes [] = []
lower_bytes (c ∷ s) = lower c ∷ lower_bytes s

unfoldable pub lj_buf_putstr_lower : List ℕ → SBuf → Option SBuf
lj_buf_putstr_lower s sb = store (lower_bytes s) (lj_buf_more (length s) sb)

abbrev pub upper : ℕ → ℕ
upper c = if leb b'a' c && leb c b'z' then c - 0x20 else c

unfoldable pub upper_bytes : List ℕ → List ℕ
upper_bytes [] = []
upper_bytes (c ∷ s) = upper c ∷ upper_bytes s

unfoldable pub lj_buf_putstr_upper : List ℕ → SBuf → Option SBuf
lj_buf_putstr_upper s sb = store (upper_bytes s) (lj_buf_more (length s) sb)

-- The loop for strings that are longer than one byte.
unfoldable pub copies : ℕ → List ℕ → List ℕ
copies zero s = []
copies (suc rep) s = s ++ copies rep s

-- `rep` is the pattern of an `int32_t`.
unfoldable pub lj_buf_putstr_rep : List ℕ → ℕ → SBuf → Option SBuf
lj_buf_putstr_rep s rep sb =
    let len = length s in
    let bytes = if len == 1 then replicate rep (get_or s 0 0) else copies rep s in
    let put = if ltb max_buf (rep * len) then none else store bytes (lj_buf_more (rep * len) sb) in
    if ltb 0 rep && ltb rep (2 ^ 31) && not (len == 0) then put else some sb
