-- ===== src/Bcdump/Template/Read.antt =====
-- `bcread_ktab` (lib/luajit/src/lj_bcread.c), with what `lj_tab_new`, `lj_tab_set`, `lj_tab_setint` and
-- `lj_tab_setinth` (lib/luajit/src/lj_tab.c) do to the table that it makes. Which node of the hash part
-- a key gets is not modelled. There are no more calls of `lj_tab_set` than nodes, so that the table is
-- never rehashed.
use omniajit.Prelude.{
  ℕ, zero, suc, ◌+◌, ◌*◌, ◌%◌, ◌^◌, List, [], ◌∷◌, length, ltb, ◌==◌, if◌then◌else◌, Bool, true,
  false, none, some, not, ◌&&◌, ◌||◌,
}
use omniajit.Uleb.{ruleb128}
use omniajit.Tab.Sizes.{hsize2hbits}
use omniajit.Bcdump.{int, num, Floats}
use omniajit.Bcdump.Result.{Result, ok, error, nilidx, nanidx, tabov, defined, ◌>>=◌}
use omniajit.Bcdump.Template.{TValue, nil, bool, str, number, Ktab, bcread_ktabk, read_array}

-- Equal strings are the same object.
abbrev pub same_str : List ℕ → List ℕ → Bool
same_str [] [] = true
same_str (x ∷ xs) (y ∷ ys) = x == y && same_str xs ys
same_str xs ys = false

-- `lj_obj_equal` of two keys of nodes. No node has an integer key.
abbrev pub same_key : TValue → TValue → Bool
same_key (bool b) (bool c) = if b then c else not c
same_key (str s) (str t) = same_str s t
same_key (number (num lo hi)) (number (num lo' hi')) = lo == lo' && hi == hi'
same_key k k' = false

-- `tvisnan`
abbrev pub is_nan : ℕ → ℕ → Bool
is_nan lo hi = ltb (0x7ff0_0000 * 2 ^ 32) (hi % 2 ^ 31 * 2 ^ 32 + lo)

-- Where a value is stored: in a slot of the array part, or in the node with a key.
pub data Place : Type 0 where
  array_slot : ℕ → Place
  node_slot : TValue → Place

-- `LJ_MAX_ASIZE` and `LJ_MAX_HBITS`
abbrev pub max_asize : ℕ
max_asize = 2 ^ 27 + 1

abbrev pub max_hbits : ℕ
max_hbits = 26

unfoldable pub set_index : ℕ → TValue → List TValue → List TValue
set_index i val [] = []
set_index zero val (o ∷ array) = val ∷ array
set_index (suc i) val (o ∷ array) = o ∷ set_index i val array

-- The node with the key, or a new one.
unfoldable pub set_node : TValue → TValue → List (TValue × TValue) → List (TValue × TValue)
set_node key val [] = (key, val) ∷ []
set_node key val ((k, v) ∷ node) =
    let rest = set_node key val node in if same_key k key then (k, val) ∷ node else (k, v) ∷ rest

unfoldable pub store : Place → TValue → Ktab → Ktab
unfolding set_index set_node
store (array_slot i) val t = record t { array = set_index i val t.array }
store (node_slot key) val t = record t { node = set_node key val t.node }

module _ (dualnum : Bool) (floats : Floats) where
  -- `lj_tab_setint`: behind the array part, the key of the node is the double.
  abbrev pub int_place : ℕ → ℕ → Place
  int_place asize k =
      let (lo, hi) = floats.widen k in
      if ltb k asize then array_slot k else node_slot (number (num lo hi))

  -- `lj_tab_set`
  unfoldable pub tab_set : ℕ → TValue → Result Place
  tab_set asize nil = error nilidx
  tab_set asize (bool b) = ok (node_slot (bool b))
  tab_set asize (str s) = ok (node_slot (str s))
  tab_set asize (number (int k)) = ok (int_place asize k)
  tab_set asize (number (num lo hi)) = elim (floats.narrow lo hi) [
    | some k ↦ ok (int_place asize k)
    | none ↦ if is_nan lo hi then error nanidx else ok (node_slot (number (num lo hi)))
  ]

  -- The loop over the hash entries.
  unfoldable pub read_nodes : ℕ → Ktab → List ℕ → Result (Ktab × List ℕ)
  unfolding bcread_ktabk tab_set store
  read_nodes zero t p = ok (t, p)
  read_nodes (suc n) t p = do
    (key, q) ← defined (bcread_ktabk dualnum floats p)
    place ← tab_set (length t.array) key
    (val, r) ← defined (bcread_ktabk dualnum floats q)
    read_nodes n (store place val t) r

  unfoldable pub bcread_ktab : List ℕ → Result (Ktab × List ℕ)
  unfolding read_array read_nodes hsize2hbits
  bcread_ktab p = do
    (n, q) ← defined (ruleb128 p)
    (h, r) ← defined (ruleb128 q)
    let entries = (do
      (array, s) ← defined (read_array dualnum floats n r)
      read_nodes h (record { array = array; node = [] }) s)
    if ltb max_asize n || ltb max_hbits (hsize2hbits h) then error tabov else entries
