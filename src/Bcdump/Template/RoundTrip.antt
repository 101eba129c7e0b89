-- ===== src/Bcdump/Template/RoundTrip.antt =====
-- Round trip of template tables.
use omniajit.Prelude.{
  ℕ, zero, suc, ◌+◌, ◌^◌, ◌≤◌, ◌<◌, ◌≡◌, refl, ap, ◌∙◌, arith, List, [], ◌∷◌, ◌++◌, length, get_or,
  take, All, if◌then◌else◌, Bool, true, false, some, ◌||◌, ltb, Bool-cases, inl, inr, dec_lt,
}
use mathlib.Core.List.{reverse, reverse_aux, append_assoc}
use omniajit.Uleb.{wuleb128}
use omniajit.Uleb.Read.{ruleb128-wuleb128}
use omniajit.Bcdump.{Floats}
use omniajit.Bcdump.Template.{
  TValue, nil, is_nil, Ktab, narray, nhash, write_array, write_nodes, bcwrite_ktab, read_array,
}
use omniajit.Bcdump.Template.Read.{max_asize, max_hbits, bcread_ktab}
use omniajit.Bcdump.Result.{ok}
use omniajit.Tab.Sizes.{hsize2hbits}
use omniajit.Bcdump.Template.Values.{IsTValue, bcread_ktabk-bcwrite_ktabk}
use omniajit.Bcdump.Template.Nodes.{
  IsNode, used, IsKey, Lacks, DistinctKeys, All-used, write_nodes-used, read_nodes-write_used,
}

module _ (dualnum : Bool) (floats : Floats) where
  read_array-write_array :
      (array : List TValue) (p : List ℕ)
      → All (IsTValue dualnum) array
      → read_array dualnum floats (length array) (write_array dualnum floats array ++ p)
        ≡ some (array, p)
  unfolding read_array write_array
  read_array-write_array [] p h = refl
  read_array-write_array (o ∷ array) p h = rw (
    append_assoc,
    bcread_ktabk-bcwrite_ktabk dualnum floats true o (write_array dualnum floats array ++ p) h.0,
    read_array-write_array array p h.1,
  )

narray-le : (array : List TValue) (i : ℕ) → narray array i ≤ i
unfolding narray
narray-le array zero = omega arith
narray-le array (suc i) = ground (arith, narray-le array i)

length-used : (node : List (TValue × TValue)) → length (used node) ≡ nhash node
unfolding used nhash
length-used [] = refl
length-used ((key, val) ∷ node) = ground (arith, length-used node)

nhash-reverse_aux :
    (node after : List (TValue × TValue))
    → nhash (reverse_aux node after) ≡ nhash node + nhash after
unfolding nhash
nhash-reverse_aux [] after = omega arith
nhash-reverse_aux ((key, val) ∷ node) after =
    ground (arith, nhash-reverse_aux node ((key, val) ∷ after))

All-reverse_aux :
    {A : Type 0} (P : A → Type 0) (xs ys : List A) → All P xs → All P ys → All P (reverse_aux xs ys)
All-reverse_aux P [] ys h k = k
All-reverse_aux P (x ∷ xs) ys h k = All-reverse_aux P xs (x ∷ ys) h.1 (h.0, k)

length-take : {A : Type 0} (n : ℕ) (xs : List A) → n ≤ length xs → length (take n xs) ≡ n
length-take zero xs h = refl
length-take (suc n) [] h = absurd (omega arith)
length-take (suc n) (x ∷ xs) h = ap suc (length-take n xs (omega arith))

All-take : {A : Type 0} (P : A → Type 0) (n : ℕ) (xs : List A) → All P xs → All P (take n xs)
All-take P zero xs h = tt
All-take P (suc n) [] h = tt
All-take P (suc n) (x ∷ xs) h = (h.0, All-take P n xs h.1)

All_nothing : (us : List (TValue × TValue)) → All (λ n. Lacks n.0 []) us
All_nothing [] = tt
All_nothing (n ∷ us) = (tt, All_nothing us)

-- The table that is read back: without the nils behind the last array entry and without unused
-- nodes, which are made from the last one down.
abbrev pub dumped : Ktab → Ktab
dumped t = record {
  array = take (narray t.array (length t.array)) t.array;
  node = used (reverse t.node);
}

-- A table with values that a dump can hold, of a size that tables can have. The nodes with values
-- have distinct keys, which are no integers of the array part.
pub record IsKtab (dualnum : Bool) (floats : Floats) (t : Ktab) : Type 0 where
  pub array : All (IsTValue dualnum) t.array
  pub node : All (IsNode dualnum) t.node
  pub keys : All (λ n. IsKey floats (length (dumped t).array) n.0) (dumped t).node
  pub distinct : DistinctKeys (dumped t).node
  pub asize : length t.array ≤ max_asize
  pub few : nhash t.node < 2 ^ 32
  pub hbits : hsize2hbits (nhash t.node) ≤ max_hbits

pub bcread_ktab-bcwrite_ktab :
    (dualnum : Bool) (floats : Floats) (t : Ktab) (p : List ℕ)
    → IsKtab dualnum floats t
    → bcread_ktab dualnum floats (bcwrite_ktab dualnum floats t ++ p) ≡ ok (dumped t, p)
unfolding bcread_ktab bcwrite_ktab ◌||◌
bcread_ktab-bcwrite_ktab dualnum floats t p is =
    let n = narray t.array (length t.array) in
    let h = nhash t.node in
    let us = used (reverse t.node) in
    let array = write_array dualnum floats (take n t.array) in
    let node = write_nodes dualnum floats h (reverse t.node) in
    let le = narray-le t.array (length t.array) in
    let all = All-take (IsTValue dualnum) n t.array is.array in
    let array_back = read_array-write_array dualnum floats (take n t.array) (node ++ p) all in
    let count : length us ≡ h =
      length-used (reverse t.node) ∙ nhash-reverse_aux t.node [] ∙ (unfold nhash in omega arith) in
    let node_back =
      read_nodes-write_used dualnum floats us (record { array = take n t.array; node = [] }) p
        (All-used (IsNode dualnum) (reverse t.node)
          (All-reverse_aux (IsNode dualnum) t.node [] is.node tt))
        is.keys (All_nothing us) is.distinct in
    let small : ltb max_asize n ≡ false = ground (arith, is.asize, le) in
    let few_bits : ltb max_hbits (hsize2hbits h) ≡ false = ground (arith, is.hbits) in
    rw (
      append_assoc (wuleb128 n),
      append_assoc (wuleb128 h),
      append_assoc array,
      ruleb128-wuleb128 n (wuleb128 h ++ (array ++ (node ++ p))) (omega (arith, le, is.asize)),
      ruleb128-wuleb128 h (array ++ (node ++ p)) is.few,
      small,
      few_bits,
      if◌then◌else◌,
      rw (length-take n t.array le) at array_back,
      write_nodes-used dualnum floats h (reverse t.node) count,
      rw count at node_back,
    )

-- What the array part loses is nil.
pub narray-nil :
    (array : List TValue) (i k : ℕ)
    → narray array i ≤ k
    → k < i
    → is_nil (get_or array k nil) ≡ true
unfolding narray
narray-nil array zero k h l = absurd (omega arith)
narray-nil array (suc i) k h l = elim (Bool-cases (is_nil (get_or array i nil))) [
  | inl e ↦ elim (dec_lt k i) [
    | yes p ↦ narray-nil array i k (ground (arith, e, h)) p
    | no p ↦ let same : k ≡ i = omega arith in rw same e
  ]
  | inr e ↦ absurd (ground (arith, e, h, l))
]
