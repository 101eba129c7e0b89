-- ===== src/Bcdump/Input/Buffer.antt =====
-- `bcread_fill`, `bcread_need` and `bcread_want` (lib/luajit/src/lj_bcread.c) with the places where the
-- unread bytes are: the lexer's string buffer, or a piece of the reader function.
use omniajit.Prelude.{
  ℕ, ◌+◌, ◌-◌, List, [], ◌∷◌, ◌++◌, length, take, drop, leb, ltb, ◌==◌, if◌then◌else◌, Bool, true,
  false, ◌||◌, none, some,
}
use omniajit.Buf.{SBuf, lj_buf_need}
use omniajit.Bcdump.Result.{Result, ok, error, undefined, bcbad, errmem, ◌>>=◌}
use omniajit.Bcdump.Input.{max_buf}

-- `ls->p` is `off` bytes behind the start of the buffer, and then `ls->pe` is the end of its bytes, or
-- `chunk` has the bytes from `ls->p` to `ls->pe`. The pieces are those that are left; `ls->c < 0`.
pub record Lex : Type 0 where
  pub sb : SBuf
  pub in_sb : Bool
  pub off : ℕ
  pub chunk : List ℕ
  pub pieces : List (List ℕ)
  pub eof : Bool

-- The bytes from `ls->p` to `ls->pe`.
abbrev pub unread : Lex → List ℕ
unread l = if l.in_sb then drop l.off l.sb.bytes else l.chunk

-- Bytes that are copied to the `n`-th place of the buffer, where `sbufP` ends up behind them.
abbrev pub copy_to : ℕ → List ℕ → SBuf → Result SBuf
copy_to n q sb =
    if ltb sb.size (n + length q)
    then undefined
    else ok (record sb { bytes = take n sb.bytes ++ q })

abbrev pub need : ℕ → SBuf → Result SBuf
need sz sb = elim (lj_buf_need sz sb) [ none ↦ error errmem | some sb' ↦ ok sb' ]

-- The remainder is moved down in the buffer, or copied from the reader's piece. The assertion fails
-- where the buffer has other bytes.
unfoldable pub keep_rest : ℕ → Lex → Result Lex
keep_rest len l =
    let q = unread l in
    let moved = (do sb ← copy_to 0 q l.sb; ok (record l { sb = sb; off = 0 })) in
    let copied = (do
      grown ← need len l.sb
      sb ← copy_to 0 q grown
      ok (record l { sb = sb; in_sb = true; off = 0 })) in
    if length q == 0
    then ok (record l { sb = record l.sb { bytes = [] } })
    else if length l.sb.bytes == 0
    then copied
    else if l.in_sb
    then moved
    else undefined

-- A piece goes behind the remainder in the buffer, or stays where it is.
unfoldable pub add_piece : ℕ → List ℕ → Lex → Result Lex
add_piece len buf m =
    let n = length (unread m) + length buf in
    let appended = (do
      grown ← need (if ltb n len then len else n) m.sb
      sb ← copy_to (length (unread m)) buf grown
      ok (record m { sb = sb; in_sb = true; off = 0 })) in
    if length (unread m) == 0 then ok (record m { in_sb = false; chunk = buf }) else appended

-- The reader function has no more data.
abbrev pub no_data : Bool → Lex → List (List ℕ) → Result Lex
no_data must m pieces = if must then error bcbad else ok (record m { pieces = pieces; eof = true })

-- The loop of `bcread_fill`.
unfoldable pub fill : ℕ → Bool → Lex → List (List ℕ) → Result Lex
unfolding keep_rest add_piece
fill len must l [] = do m ← keep_rest len l; no_data must m []
fill len must l (buf ∷ pieces) = do
  m ← keep_rest len l
  let again = (do
    l' ← add_piece len buf m
    let more = fill len must l' pieces
    if ltb (length (unread l')) len then more else ok (record l' { pieces = pieces }))
  if length buf == 0
      then no_data must m pieces
      else if leb (max_buf - length (unread m)) (length buf)
      then error errmem
      else again

unfoldable pub bcread_fill : ℕ → Bool → Lex → Result Lex
unfolding fill
bcread_fill len must l = if ltb max_buf len || l.eof then error bcbad else fill len must l l.pieces

unfoldable pub bcread_need : ℕ → Lex → Result Lex
unfolding bcread_fill
bcread_need len l = if ltb (length (unread l)) len then bcread_fill len true l else ok l

unfoldable pub bcread_want : ℕ → Lex → Result Lex
unfolding bcread_fill
bcread_want len l = if ltb (length (unread l)) len then bcread_fill len false l else ok l
