-- ===== src/Tab.antt =====
-- Tables, lib/luajit/src/lj_tab.c: the array part, the hash part with its chains, and the lookup of
-- integer keys. A table is a record; a pointer to a node is the node's index, and NULL is `none`.
pub mod Length
pub mod Chain
mod Search
pub mod Sizes
pub mod Optimal
pub mod Hbits
pub mod Next
pub mod Traversal
pub mod Border
mod Examples
use omniajit.Prelude.{
  ℕ, zero, suc, ◌+◌, ◌-◌, ◌*◌, ◌/◌, ◌%◌, ◌^◌, bit_and, bit_or, bit_xor, List, [], ◌∷◌, length,
  get_or, Bool, true, false, ltb, if◌then◌else◌, Option, none, some,
}

-- The type of a key, with the words of a double and the ID of a string.
pub data Key : Type 0 where
  nil : Key
  str : ℕ → Key
  num : ℕ → ℕ → Key
  bool : Bool → Key
  gcref : ℕ → Key

-- A value that is nil is `none`.
pub record Node (V : Type 0) : Type 0 where
  pub val : Option V
  pub key : Key
  pub next : Option ℕ

-- `asize` is the length of the array part. Without a hash part, `node` is the `nilnode` of the
-- global state.
pub record Tab (V : Type 0) : Type 0 where
  pub array : List (Option V)
  pub node : List (Node V)
  pub hmask : ℕ

abbrev pub nilnode : {V : Type 0} → Node V
nilnode = record { val = none; key = nil; next = none }

-- The conversion of an `int32_t` to a double, by its words, and the equality of doubles.
pub record Numbers : Type 0 where
  pub of_int : ℕ → ℕ × ℕ
  pub equal : ℕ × ℕ → ℕ × ℕ → Bool

-- `lj_rol(x, n)` on 32 bits.
abbrev rol : ℕ → ℕ → ℕ
rol x n = bit_or (x * 2 ^ n % 2 ^ 32) (x / 2 ^ (32 - n))

-- `hashrot` in its variant for x86.
unfoldable pub hashrot : ℕ → ℕ → ℕ
hashrot lo hi =
    let lo' = bit_xor lo hi in
    let hi' = rol hi 14 in
    let lo'' = (lo' + 2 ^ 32 - hi') % 2 ^ 32 in
    let hi'' = bit_xor (rol hi' 5) lo'' in (hi'' + 2 ^ 32 - rol lo'' 13) % 2 ^ 32

module _ {V : Type 0} where
  abbrev pub asize : Tab V → ℕ
  asize t = length t.array

  abbrev pub slot : Tab V → ℕ → Option V
  slot t i = get_or t.array i none

  abbrev pub node_at : Tab V → ℕ → Node V
  node_at t i = get_or t.node i nilnode

  unfoldable pub hashmask : Tab V → ℕ → ℕ
  hashmask t hash = bit_and hash t.hmask

  unfoldable pub hashnum : Tab V → ℕ → ℕ → ℕ
  unfolding hashmask hashrot
  hashnum t lo hi = hashmask t (hashrot lo (hi * 2 % 2 ^ 32))

module _ {V : Type 0} (numbers : Numbers) where
  open numbers use {of_int, equal}

  -- `tvisnum(&n->key) && n->key.n == k.n`
  abbrev pub is_key : ℕ × ℕ → Node V → Bool
  is_key k n = elim n.key [ num lo hi ↦ equal (lo, hi) k | _ ↦ false ]

  -- The loop over the chain from the node `n` on: the node with the key, or NULL. A chain of more
  -- nodes than there are would be a cycle.
  unfoldable pub find_num : Tab V → ℕ × ℕ → ℕ → ℕ → Option ℕ
  find_num t k zero n = none
  find_num t k (suc fuel) n = elim (is_key k (node_at t n)) [
    | true ↦ some n
    | false ↦ elim (node_at t n).next [ some next ↦ find_num t k fuel next | none ↦ none ]
  ]

  -- A pointer to a value, or NULL.
  unfoldable pub getinth : Tab V → ℕ → Option (Option V)
  unfolding find_num
  getinth t key =
      let k = of_int key in
      elim (find_num t k (length t.node) (hashnum t k.0 k.1)) [
        | some n ↦ some (node_at t n).val
        | none ↦ none
      ]

  unfoldable pub getint : Tab V → ℕ → Option (Option V)
  unfolding getinth
  getint t key = if ltb key (asize t) then some (slot t key) else getinth t key
