-- ===== src/Bcdump/Template.antt =====
-- Template tables in a dump: `bcwrite_ktabk`, `bcwrite_ktab` (lib/luajit/src/lj_bcwrite.c),
-- `bcread_ktabk` and the array entries of `bcread_ktab` (lib/luajit/src/lj_bcread.c).
pub mod Values
pub mod Read
pub mod Nodes
pub mod RoundTrip
use omniajit.Prelude.{
  ℕ, zero, suc, ◌+◌, ◌-◌, ◌*◌, ◌/◌, ◌%◌, ◌^◌, List, [], ◌∷◌, ◌++◌, length, get_or, take, ltb, leb,
  ◌==◌, if◌then◌else◌, Bool, true, false, Option, none, some, not, ◌&&◌,
}
use mathlib.Core.List.{reverse}
use omniajit.Uleb.{wuleb128, ruleb128}
use omniajit.Bcdump.{Number, int, num, Floats, setint, ◌>>=◌}
use omniajit.Bcdump.Result.{mem}

-- A key or value of a template table. A string is its bytes.
pub data TValue : Type 0 where
  nil : TValue
  bool : Bool → TValue
  str : List ℕ → TValue
  number : Number → TValue

abbrev pub is_nil : TValue → Bool
is_nil nil = true
is_nil o = false

-- The array part, and the nodes from 0 to `hmask`, with their keys and values; there are none if
-- `hmask` is 0. A table that was read has its nodes in the order in which `lj_tab_set` made them.
pub record Ktab : Type 0 where
  pub array : List TValue
  pub node : List (TValue × TValue)

-- `BCDUMP_KTAB_*`
abbrev pub ktab_int : ℕ
ktab_int = 3

abbrev pub ktab_num : ℕ
ktab_num = 4

abbrev pub ktab_str : ℕ
ktab_str = 5

-- The number of array entries up to the last one that is not nil, from `i` entries on.
unfoldable pub narray : List TValue → ℕ → ℕ
narray array zero = 0
narray array (suc i) = if is_nil (get_or array i nil) then narray array i else suc i

unfoldable pub nhash : List (TValue × TValue) → ℕ
nhash [] = 0
nhash ((key, val) ∷ node) = if is_nil val then nhash node else suc (nhash node)

module _ (dualnum : Bool) (floats : Floats) where
  unfoldable pub bcwrite_ktabk : Bool → TValue → List ℕ
  bcwrite_ktabk narrow nil = 0 ∷ []
  bcwrite_ktabk narrow (bool b) = (if b then 2 else 1) ∷ []
  bcwrite_ktabk narrow (str s) = wuleb128 (ktab_str + length s) ++ s
  bcwrite_ktabk narrow (number (int k)) = ktab_int ∷ wuleb128 k
  bcwrite_ktabk narrow (number (num lo hi)) =
      let wide = ktab_num ∷ (wuleb128 lo ++ wuleb128 hi) in
      if not dualnum && narrow
      then elim (floats.narrow lo hi) [ some k ↦ ktab_int ∷ wuleb128 k | none ↦ wide ]
      else wide

  unfoldable pub write_array : List TValue → List ℕ
  unfolding bcwrite_ktabk
  write_array [] = []
  write_array (o ∷ array) = bcwrite_ktabk true o ++ write_array array

  -- The loop from the last node down, for `i` nodes that are used.
  unfoldable pub write_nodes : ℕ → List (TValue × TValue) → List ℕ
  unfolding bcwrite_ktabk
  write_nodes zero node = []
  write_nodes (suc i) [] = []
  write_nodes (suc i) ((key, val) ∷ node) =
      let rest = write_nodes (if is_nil val then suc i else i) node in
      if is_nil val then rest else bcwrite_ktabk false key ++ (bcwrite_ktabk true val ++ rest)

  unfoldable pub bcwrite_ktab : Ktab → List ℕ
  unfolding narray nhash write_array write_nodes
  bcwrite_ktab t =
      let n = narray t.array (length t.array) in
      let h = nhash t.node in
      wuleb128 n ++ (wuleb128 h ++ (write_array (take n t.array) ++ write_nodes h (reverse t.node)))

  -- What follows the type code `tp`.
  unfoldable pub ktabk_data : ℕ → List ℕ → Option (TValue × List ℕ)
  unfolding mem setint
  ktabk_data tp q =
      let string = (do (s, r) ← mem (tp - ktab_str) q; some (str s, r)) in
      let integer = (do (k, r) ← ruleb128 q; some (number (setint dualnum floats k), r)) in
      let double = (do (lo, r) ← ruleb128 q; (hi, s) ← ruleb128 r; some (number (num lo hi), s)) in
      if leb ktab_str tp
      then string
      else if tp == ktab_int
      then integer
      else if tp == ktab_num
      then double
      else some ((if tp == 0 then nil else bool (tp == 2)), q)

  unfoldable pub bcread_ktabk : List ℕ → Option (TValue × List ℕ)
  unfolding ktabk_data
  bcread_ktabk p = do (tp, q) ← ruleb128 p; ktabk_data tp q

  unfoldable pub read_array : ℕ → List ℕ → Option (List TValue × List ℕ)
  unfolding bcread_ktabk
  read_array zero p = some ([], p)
  read_array (suc n) p = do
    (o, q) ← bcread_ktabk p
    (array, r) ← read_array n q
    some (o ∷ array, r)
