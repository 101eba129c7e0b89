-- ===== src/Str/Ops.antt =====
-- The operations on the table of strings, over the hash functions.
use omniajit.Prelude.{
  ℕ, zero, suc, ◌+◌, ◌-◌, ◌*◌, ◌%◌, ◌^◌, bit_and, List, [], ◌∷◌, length, ltb, leb, ◌==◌,
  if◌then◌else◌, Bool, true, false, not, ◌&&◌, ◌||◌, Option, none, some,
}
use omniajit.Func.{curwhite, makewhite}
use omniajit.Prng.{lj_prng_u64}
use omniajit.Str.{
  NewStr, State, StrObj, empty, hit, interned, survives, is_sweepstring, lj_str_free, max_coll,
  max_str, max_strtab, min_strtab, miss, next_id, push, search, set_at, size, strov,
}

-- The two hash functions of a string, by the seed: a build for x86-64 with SSE 4.2 has its own.
module _ (hash_sparse : ℕ → List ℕ → ℕ) (hash_dense : ℕ → ℕ → List ℕ → ℕ) where
  -- The hash of a string by the first of them.
  abbrev pub primary : ℕ → StrObj → ℕ
  primary seed x = if x.hashalg then hash_sparse seed x.bytes else x.hash

  abbrev pub bump : (ℕ → ℕ) → ℕ → ℕ → ℕ
  bump lens i = set_at lens i (lens i + 1)

  unfoldable pub chain_lengths : ℕ → ℕ → List StrObj → (ℕ → ℕ) → ℕ → ℕ
  chain_lengths seed newmask [] lens = lens
  chain_lengths seed newmask (x ∷ xs) lens =
      chain_lengths seed newmask xs (bump lens (bit_and (primary seed x) newmask))

  -- The lengths of the chains of the new table by primary hashes, from the first `n` of the old one.
  unfoldable pub primary_lengths : ℕ → ℕ → (ℕ → List StrObj) → ℕ → (ℕ → ℕ) → ℕ → ℕ
  unfolding chain_lengths
  primary_lengths seed newmask tab zero lens = lens
  primary_lengths seed newmask tab (suc i) lens =
      primary_lengths seed newmask tab i (chain_lengths seed newmask (tab i) lens)

  unfoldable pub any_secondary : (ℕ → ℕ) → ℕ → Bool
  any_secondary lens zero = false
  any_secondary lens (suc i) = ltb max_coll (lens i) || any_secondary lens i

  -- A string with the hash that it has in a table with these secondary chains.
  unfoldable pub switch : ℕ → ℕ → (ℕ → Bool) → StrObj → StrObj
  switch seed newmask secondary x =
      let shash = hash_sparse seed x.bytes in
      let to_secondary = record x { hash = hash_dense seed x.hash x.bytes; hashalg = true } in
      if x.hashalg
      then if secondary (bit_and shash newmask)
        then x
        else record x { hash = shash; hashalg = false }
      else if secondary (bit_and x.hash newmask)
      then to_secondary
      else x

  unfoldable pub reinsert_chain :
      ℕ → ℕ → (ℕ → Bool) → List StrObj → (ℕ → List StrObj) → ℕ → List StrObj
  unfolding switch
  reinsert_chain seed newmask secondary [] newtab = newtab
  reinsert_chain seed newmask secondary (x ∷ xs) newtab =
      let x' = switch seed newmask secondary x in
      reinsert_chain seed newmask secondary xs (push newtab (bit_and x'.hash newmask) x')

  unfoldable pub reinsert :
      ℕ → ℕ → (ℕ → Bool) → (ℕ → List StrObj) → ℕ → (ℕ → List StrObj) → ℕ → List StrObj
  unfolding reinsert_chain
  reinsert seed newmask secondary tab zero newtab = newtab
  reinsert seed newmask secondary tab (suc i) newtab =
      reinsert seed newmask secondary tab i (reinsert_chain seed newmask secondary (tab i) newtab)

  unfoldable pub lj_str_resize : ℕ → State → State
  unfolding primary_lengths any_secondary reinsert
  lj_str_resize newmask s =
      let lens = primary_lengths s.seed newmask s.tab (size s.mask) (λ (i : ℕ). 0) in
      let secondary = λ (i : ℕ). if s.second then ltb max_coll (lens i) else false in
      let resized = record s {
        tab = reinsert s.seed newmask secondary s.tab (size s.mask) (λ i. []);
        secondary = secondary;
        mask = newmask;
        second = (if s.second then any_secondary lens (size newmask) else false);
      } in
      if is_sweepstring s.gcstate || leb (max_strtab - 1) newmask then s else resized

  -- A round of `lj_str_rehash_chain`, which changes the table and the number of strings.
  unfoldable pub rechain : State → StrObj → (ℕ → List StrObj) → ℕ → (ℕ → List StrObj) × ℕ
  unfolding survives lj_str_free
  rechain s x tab num =
      let sweeping = is_sweepstring s.gcstate in
      let white = makewhite s.currentwhite x.marked in
      let marked = if sweeping then white else x.marked in
      let dense = hash_dense s.seed x.hash x.bytes in
      let hash = if x.hashalg then x.hash else dense in
      let x' = record x { marked = marked; hash = hash; hashalg = true } in
      if sweeping && not (survives s.currentwhite x.marked)
      then (tab, lj_str_free num)
      else (push tab (bit_and hash s.mask) x', num)

  -- Its loop, over the chain as it was.
  unfoldable pub rehash_chain : State → List StrObj → (ℕ → List StrObj) → ℕ → (ℕ → List StrObj) × ℕ
  unfolding rechain
  rehash_chain s [] tab num = (tab, num)
  rehash_chain s (x ∷ xs) tab num =
      let (tab', num') = rechain s x tab num in rehash_chain s xs tab' num'

  -- Up to the second call of `lj_str_new`; `i` is `hashc & strmask`.
  unfoldable pub lj_str_rehash_chain : ℕ → State → State
  unfolding rehash_chain
  lj_str_rehash_chain i s =
      let (tab, num) = rehash_chain s (s.tab i) (set_at s.tab i []) s.num in
      record s { tab = tab; secondary = set_at s.secondary i true; num = num; second = true }

  unfoldable pub lj_str_alloc : List ℕ → ℕ → Bool → State → State × ℕ
  unfolding next_id lj_str_resize
  lj_str_alloc str hash hashalg s =
      let (ids, sid) = next_id s.ids in
      let x : StrObj = record {
        ref = s.fresh;
        marked = curwhite s.currentwhite;
        reserved = 0;
        hashalg = hashalg;
        sid = sid;
        hash = hash;
        bytes = str;
      } in
      let added = record s {
        tab = push s.tab (bit_and hash s.mask) x;
        num = (s.num + 1) % 2 ^ 32;
        ids = ids;
        fresh = s.fresh + 1;
      } in
      let grown = lj_str_resize ((s.mask * 2 + 1) % 2 ^ 32) added in
      (if ltb s.mask s.num then grown else added, s.fresh)

  -- The body of `lj_str_new` for a length in range; a call that is nested deeper than `fuel`
  -- has no result.
  unfoldable pub intern : ℕ → List ℕ → State → Option (State × ℕ)
  unfolding search lj_str_rehash_chain lj_str_alloc
  intern zero str s = none
  intern (suc fuel) str s =
      let first = hash_sparse s.seed str in
      let hashalg = s.secondary (bit_and first s.mask) in
      let hash = if hashalg then hash_dense s.seed first str else first in
      let i = bit_and hash s.mask in
      let again = intern fuel str (lj_str_rehash_chain i s) in
      let alloc = some (lj_str_alloc str hash hashalg s) in
      elim (search s.currentwhite hash str 0 (s.tab i)) [
        | hit r chain ↦ some (record s { tab = set_at s.tab i chain }, r)
        | miss coll ↦ if ltb max_coll coll && not hashalg then again else alloc
      ]

  -- Where the length is out of range there is the empty string `g->strempty`, or an error.
  unfoldable pub lj_str_new : List ℕ → State → Option (State × NewStr)
  unfolding intern
  lj_str_new str s =
      let unchanged : NewStr = if length str == 0 then empty else strov in
      let found : Option (State × NewStr) = elim (intern 2 str s) [
        | none ↦ none
        | some (s', r) ↦ some (s', interned r)
      ] in
      if ltb 0 (length str) && ltb (length str) max_str then found else some (s, unchanged)

  unfoldable pub lj_str_init : State → State
  unfolding lj_str_resize lj_prng_u64
  lj_str_init s =
      let (rs, seed) = lj_prng_u64 s.ids.prng in
      lj_str_resize (min_strtab - 1) (record s { seed = seed; ids = record s.ids { prng = rs } })
