-- ===== src/Tab/Sizes.antt =====
-- The sizes that `rehashtab` chooses: `bestasize` of lj_tab.c and `hsize2hbits` of lj_tab.h. Bin `b`
-- counts the integer keys above `2 ^ b` up to `2 ^ (b + 1)`; bin 0 has the keys up to 2.
use omniajit.Prelude.{
  ℕ, zero, suc, ◌+◌, ◌-◌, ◌*◌, ◌/◌, ◌%◌, ◌^◌, List, [], ◌∷◌, not, ◌&&◌, ltb, ◌==◌, if◌then◌else◌,
}

-- The loop of `bestasize` from bin `b` on, with `sum`, `na` and `sz`, all of them `uint32_t`.
unfoldable pub best : ℕ → ℕ → ℕ → ℕ → ℕ → List ℕ → ℕ × ℕ
best nn b sum na sz [] = (na, sz)
best nn b sum na sz (n ∷ bins) =
    let sum' = (sum + n) % 2 ^ 32 in
    let bit = 2 ^ b % 2 ^ 32 in
    let taken = best nn (suc b) sum' sum' ((2 * 2 ^ b % 2 ^ 32 + 1) % 2 ^ 32) bins in
    let passed = best nn (suc b) sum' na sz bins in
    if ltb bit (2 * nn % 2 ^ 32) && not (sum == nn)
    then if ltb 0 n && ltb bit (2 * sum' % 2 ^ 32) then taken else passed
    else (na, sz)

-- The keys of the array part, and its size.
unfoldable pub bestasize : List ℕ → ℕ → ℕ × ℕ
bestasize bins narray = best narray 0 0 0 0 bins

-- `lj_fls`, the index of the highest bit of a word that is not zero.
unfoldable pub fls : ℕ → ℕ → ℕ
fls zero x = 0
fls (suc bits) x = let rest = fls bits (x / 2) in if ltb x 2 then 0 else suc rest

unfoldable pub hsize2hbits : ℕ → ℕ
hsize2hbits s = if s == 0 then 0 else if s == 1 then 1 else 1 + fls 31 (s - 1)
