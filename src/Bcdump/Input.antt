-- ===== src/Bcdump/Input.antt =====
-- The input of the bytecode reader: `bcread_fill`, `bcread_need` and `bcread_want`
-- (lib/luajit/src/lj_bcread.c). The caller's reader function is the list of the pieces that it
-- returns; it returns NULL behind the last one. Here the input is its unread bytes; Buffer has them where
-- they are, in a piece of the reader or in the string buffer of the lexer, and Refine relates both.
pub mod Refill
pub mod Buffer
pub mod Places
pub mod Refine
use omniajit.Prelude.{
  ℕ, ◌-◌, List, [], ◌∷◌, ◌++◌, length, leb, ltb, ◌==◌, if◌then◌else◌, Bool, true, false, ◌||◌,
}
use omniajit.Bcdump.Result.{Result, ok, error, undefined, bcbad, errmem, ◌>>=◌}

-- `LJ_MAX_BUF`
abbrev pub max_buf : ℕ
max_buf = 0x7fff_ff00

-- The bytes from `ls->p` to `ls->pe`, the pieces that are left, and `ls->c < 0`.
pub record Input : Type 0 where
  pub p : List ℕ
  pub pieces : List (List ℕ)
  pub eof : Bool

abbrev pub concat : List (List ℕ) → List ℕ
concat [] = []
concat (buf ∷ pieces) = buf ++ concat pieces

-- All the bytes that are to come.
abbrev pub total : Input → List ℕ
total i = i.p ++ concat i.pieces

-- The reader function has no more data.
abbrev pub at_eof : Bool → List ℕ → List (List ℕ) → Result Input
at_eof need p pieces =
    if need then error bcbad else ok (record { p = p; pieces = pieces; eof = true })

-- The loop of `bcread_fill`, which is entered with fewer than `len` bytes.
unfoldable pub fill : ℕ → Bool → List ℕ → List (List ℕ) → Result Input
fill len need p [] = at_eof need p []
fill len need p (buf ∷ pieces) =
    let more = fill len need (p ++ buf) pieces in
    if length buf == 0
    then at_eof need p pieces
    else if leb (max_buf - length p) (length buf)
    then error errmem
    else if ltb (length (p ++ buf)) len
    then more
    else ok (record { p = p ++ buf; pieces = pieces; eof = false })

unfoldable pub bcread_fill : ℕ → Bool → Input → Result Input
unfolding fill
bcread_fill len need i =
    if ltb max_buf len || i.eof then error bcbad else fill len need i.p i.pieces

unfoldable pub bcread_need : ℕ → Input → Result Input
unfolding bcread_fill
bcread_need len i = if ltb (length i.p) len then bcread_fill len true i else ok i

unfoldable pub bcread_want : ℕ → Input → Result Input
unfolding bcread_fill
bcread_want len i = if ltb (length i.p) len then bcread_fill len false i else ok i
