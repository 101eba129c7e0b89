-- ===== src/Bcdump/Template/Nodes.antt =====
-- Round trip of the nodes of template tables: the keys are distinct, so that each makes a new node.
use omniajit.Prelude.{
  ℕ, zero, suc, ◌≤◌, ◌≡◌, refl, ap, ◌∙◌, arith, List, [], ◌∷◌, ◌++◌, length, All, if◌then◌else◌,
  Bool, true, false, Option, none, some, ltb, sym, Bool-cases, Option-cases, inl, inr,
}
use mathlib.Core.List.{append_assoc, append-nil}
use omniajit.Bcdump.{int, num, Floats}
use omniajit.Bcdump.Template.{
  TValue, nil, bool, str, number, is_nil, Ktab, bcwrite_ktabk, write_nodes,
}
use omniajit.Bcdump.Template.Read.{
  same_key, is_nan, node_slot, set_node, store, tab_set, read_nodes,
}
use omniajit.Bcdump.Result.{ok}
use mathlib.Core.Path.{subst}
use omniajit.Bcdump.Template.Values.{IsTValue, bcread_ktabk-bcwrite_ktabk}

abbrev pub IsNode : Bool → TValue × TValue → Type 0
IsNode dualnum (key, val) = IsTValue dualnum key × IsTValue dualnum val

-- The nodes with a value.
unfoldable pub used : List (TValue × TValue) → List (TValue × TValue)
used [] = []
used ((key, val) ∷ node) = if is_nil val then used node else (key, val) ∷ used node

empty : {A : Type 0} (xs : List A) → length xs ≡ 0 → xs ≡ []
empty [] e = refl
empty (x ∷ xs) e = absurd (omega (arith, e))

-- The bytes of nodes that all have a value.
unfoldable pub write_used : Bool → Floats → List (TValue × TValue) → List ℕ
write_used dualnum floats [] = []
write_used dualnum floats ((key, val) ∷ us) =
    bcwrite_ktabk dualnum floats false key
    ++ (bcwrite_ktabk dualnum floats true val ++ write_used dualnum floats us)

-- Not in the array part.
abbrev pub IsOutside : ℕ → Option ℕ → Type 0
IsOutside asize none = Unit
IsOutside asize (some k) = asize ≤ k

-- The key of a node: behind an array part of this size, no integer and no NaN.
abbrev pub IsKey : Floats → ℕ → TValue → Type 0
IsKey floats asize nil = ⊥
IsKey floats asize (bool b) = Unit
IsKey floats asize (str s) = Unit
IsKey floats asize (number (int k)) = ⊥
IsKey floats asize (number (num lo hi)) =
    (is_nan lo hi ≡ false) × IsOutside asize (floats.narrow lo hi)

-- The nodes have other keys than `key`.
abbrev pub Lacks : TValue → List (TValue × TValue) → Type 0
Lacks key = All (λ n. same_key n.0 key ≡ false)

-- No two nodes have the same key.
abbrev pub DistinctKeys : List (TValue × TValue) → Type 0
DistinctKeys [] = Unit
DistinctKeys (n ∷ node) = All (λ m. same_key n.0 m.0 ≡ false) node × DistinctKeys node

pub set_node_new :
    (key val : TValue) (node : List (TValue × TValue))
    → Lacks key node
    → set_node key val node ≡ node ++ (key, val) ∷ []
unfolding set_node
set_node_new key val [] h = refl
set_node_new key val ((k, v) ∷ node) h = rw (h.0, if◌then◌else◌, set_node_new key val node h.1) refl

Lacks-append :
    (key : TValue) (node : List (TValue × TValue)) (n : TValue × TValue)
    → Lacks key node
    → same_key n.0 key ≡ false
    → Lacks key (node ++ n ∷ [])
Lacks-append key [] n h e = (e, tt)
Lacks-append key (m ∷ node) n h e = (h.0, Lacks-append key node n h.1 e)

All-Lacks :
    (node us : List (TValue × TValue)) (n : TValue × TValue)
    → All (λ m. Lacks m.0 node) us
    → All (λ m. same_key n.0 m.0 ≡ false) us
    → All (λ m. Lacks m.0 (node ++ n ∷ [])) us
All-Lacks node [] n h l = tt
All-Lacks node (m ∷ us) n h l = (Lacks-append m.0 node n h.0 l.0, All-Lacks node us n h.1 l.1)

pub All-used :
    (P : TValue × TValue → Type 0) (node : List (TValue × TValue)) → All P node → All P (used node)
unfolding used
All-used P [] h = tt
All-used P ((key, val) ∷ node) h = elim (Bool-cases (is_nil val)) [
  | inl free ↦ rw (free, if◌then◌else◌) (All-used P node h.1)
  | inr kept ↦ rw (kept, if◌then◌else◌) (h.0, All-used P node h.1)
]

module _ (dualnum : Bool) (floats : Floats) where
  pub write_nodes-used :
      (i : ℕ) (node : List (TValue × TValue))
      → length (used node) ≡ i
      → write_nodes dualnum floats i node ≡ write_used dualnum floats (used node)
  unfolding write_nodes write_used used
  write_nodes-used zero [] e = refl
  write_nodes-used zero ((key, val) ∷ node) e = rw (empty (used ((key, val) ∷ node)) e) refl
  write_nodes-used (suc i) [] e = absurd (omega (arith, e))
  write_nodes-used (suc i) ((key, val) ∷ node) e = elim (Bool-cases (is_nil val)) [
    | inl free ↦ rw (free, if◌then◌else◌) (write_nodes-used (suc i) node (ground (arith, e, free)))
    | inr kept ↦ rw (kept, if◌then◌else◌, write_nodes-used i node (ground (arith, e, kept))) refl
  ]

  tab_set_node :
      (asize : ℕ) (key : TValue)
      → IsTValue dualnum key
      → IsKey floats asize key
      → tab_set dualnum floats asize key ≡ ok (node_slot key)
  unfolding tab_set
  tab_set_node asize nil h k = absurd k
  tab_set_node asize (bool b) h k = refl
  tab_set_node asize (str s) h k = refl
  tab_set_node asize (number (int k)) h key = absurd key
  tab_set_node asize (number (num lo hi)) h (valid, outside) =
      elim (Option-cases (floats.narrow lo hi)) [
        | inl e ↦ rw (tab_set, e, valid, if◌then◌else◌) refl
        | inr (k, e) ↦
            let above : asize ≤ k = subst (IsOutside asize) e outside in
            let in_hash : ltb k asize ≡ false = ground (arith, above) in
            rw (tab_set, e, in_hash, if◌then◌else◌, floats.widen-narrow lo hi k h.2 e) refl
      ]

  -- The nodes are made one by one.
  pub read_nodes-write_used :
      (us : List (TValue × TValue)) (t : Ktab) (p : List ℕ)
      → All (IsNode dualnum) us
      → All (λ n. IsKey floats (length t.array) n.0) us
      → All (λ n. Lacks n.0 t.node) us
      → DistinctKeys us
      → read_nodes dualnum floats (length us) t (write_used dualnum floats us ++ p)
        ≡ ok (record t { node = t.node ++ us }, p)
  unfolding read_nodes write_used store
  read_nodes-write_used [] t p h keys new distinct =
      ap (λ (node : List (TValue × TValue)). ok (record t { node = node }, p))
        (sym (append-nil t.node))
  read_nodes-write_used ((key, val) ∷ us) t p h keys new distinct =
      let rest = write_used dualnum floats us ++ p in
      let t' = record t { node = t.node ++ (key, val) ∷ [] } in
      let after =
        read_nodes-write_used us t' p h.1 keys.1 (All-Lacks t.node us (key, val) new.1 distinct.0)
          distinct.1 in
      rw
        (
          append_assoc,
          append_assoc,
          bcread_ktabk-bcwrite_ktabk dualnum floats false key
              (bcwrite_ktabk dualnum floats true val ++ rest) h.0.0,
          tab_set_node (length t.array) key h.0.0 keys.0,
          bcread_ktabk-bcwrite_ktabk dualnum floats true val rest h.0.1,
          set_node_new key val t.node new.0,
        )
        (after
          ∙ ap (λ (node : List (TValue × TValue)). ok (record t { node = node }, p))
              (append_assoc t.node ((key, val) ∷ []) us))
