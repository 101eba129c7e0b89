-- ===== src/Buf/Growth.antt =====
-- The size of a buffer that grows.
use omniajit.Prelude.{
  ℕ, zero, suc, ◌+◌, ◌*◌, ◌%◌, ◌^◌, ◌≤◌, ◌<◌, ◌≡◌, ◌⊎◌, inl, inr, refl, ap, arith, length, ltb,
  if◌then◌else◌, true, false, Bool-cases, ◌||◌, Option, none, some, dec_lt,
}
use native.Mathlib.Nat.{pow-suc, add-mul, mul_assoc}
use omniajit.Buf.{
  SBuf, max_buf, min_sbuf, left, double, buf_grow, lj_buf_need2, lj_buf_more2, lj_buf_need,
  lj_buf_more,
}

-- The loop ends with enough room, and less than twice as much if it did anything.
double_lem :
    (fuel nsz sz : ℕ)
    → 0 < nsz
    → nsz ≤ 2 * sz + min_sbuf
    → sz ≤ max_buf
    → sz ≤ nsz * 2 ^ fuel
    → (sz ≤ double fuel nsz sz) × (double fuel nsz sz ≤ 2 * sz + min_sbuf)
unfolding double
double_lem zero nsz sz some_byte limit small enough = (omega (arith, enough), limit)
double_lem (suc fuel) nsz sz some_byte limit small enough = elim (dec_lt nsz sz) [
  | yes p ↦
      let no_wrap : (nsz + nsz) % 2 ^ 32 ≡ nsz + nsz = omega (arith, p, small) in
      let less : ltb nsz sz ≡ true = ground (arith, p) in
      rw (less, if◌then◌else◌, no_wrap)
        (double_lem fuel (nsz + nsz) sz (omega arith) (omega (arith, p)) small (
          omega (
            arith,
            enough,
            ap (λ (t : ℕ). nsz * t) (pow-suc 2 fuel),
            add-mul nsz nsz (2 ^ fuel),
            mul_assoc nsz (2 ^ fuel) 2,
          )))
  | no p ↦
      let stop : ltb nsz sz ≡ false = ground (arith, p) in
      rw (stop, if◌then◌else◌) (omega (arith, p), limit)
]

-- A buffer in memory: the bytes fit in it, and its size has 32 bits.
abbrev pub IsSBuf : SBuf → Type 0
IsSBuf sb = (length sb.bytes ≤ sb.size) × (sb.size < 2 ^ 32)

-- The buffer has the same bytes, and at least this size, but not much more than twice as much.
abbrev pub IsGrown : ℕ → SBuf → SBuf → Type 0
IsGrown sz sb sb' =
    (sb'.bytes ≡ sb.bytes) × (sz ≤ sb'.size) × IsSBuf sb' × (sb'.size ≤ 2 * sz + min_sbuf)

grown :
    (sz : ℕ) (sb : SBuf) (nsz : ℕ)
    → IsSBuf sb
    → min_sbuf ≤ nsz
    → nsz ≤ 2 * sz + min_sbuf
    → sb.size < sz
    → sz ≤ max_buf
    → IsGrown sz sb (record sb { size = double 32 nsz sz })
grown sz sb nsz is least limit few small =
    let (enough, most) =
      double_lem 32 nsz sz (omega (arith, least)) limit small (omega (arith, least, small)) in
    (refl, enough, (omega (arith, is.0, few, enough), omega (arith, most, small)), most)

buf_grow-IsGrown :
    (sz : ℕ) (sb : SBuf) → IsSBuf sb → sb.size < sz → sz ≤ max_buf → IsGrown sz sb (buf_grow sz sb)
unfolding buf_grow
buf_grow-IsGrown sz sb is few small = elim (Bool-cases (ltb sb.size min_sbuf)) [
  | inl e ↦ rw (e, if◌then◌else◌) (grown sz sb min_sbuf is (omega arith) (omega arith) few small)
  | inr e ↦
      rw (e, if◌then◌else◌)
        (grown sz sb sb.size is (ground (arith, e)) (omega (arith, few)) few small)
]

-- What a request for a size of `sz` does: nothing if the buffer has it, an error if that is too
-- much for any buffer, else the buffer grows.
abbrev pub IsRequest : ℕ → SBuf → Option SBuf → Type 0
IsRequest sz sb none = (sb.size < sz) × (max_buf < sz)
IsRequest sz sb (some sb') = (sb' ≡ sb) × (sz ≤ sb.size) ⊎ (sb.size < sz) × IsGrown sz sb sb'

-- lj_buf_need leaves a buffer alone that has the size it is asked for, throws an error above
-- LJ_MAX_BUF, and else grows it to at least that size and at most twice that and 32, with its
-- bytes kept.
pub lj_buf_need-IsRequest : (sz : ℕ) (sb : SBuf) → IsSBuf sb → IsRequest sz sb (lj_buf_need sz sb)
unfolding lj_buf_need lj_buf_need2
lj_buf_need-IsRequest sz sb is = elim (Bool-cases (ltb sb.size sz)) [
  | inr e ↦ rw (e, if◌then◌else◌) (inl (refl, ground (arith, e)))
  | inl e ↦ elim (Bool-cases (ltb max_buf sz)) [
    | inl f ↦ rw (e, f, if◌then◌else◌) (ground (arith, e), ground (arith, f))
    | inr f ↦
        let few : sb.size < sz = ground (arith, e) in
        rw (e, f, if◌then◌else◌) (inr (few, buf_grow-IsGrown sz sb is few (ground (arith, f))))
  ]
]

-- lj_buf_more leaves a buffer alone that has room for the bytes it is asked for, throws an error
-- if they are too many for any buffer, and else grows it: the doubling ends with room for them,
-- the bytes are kept, and the size is at most twice what is needed and 32. The buffer has no more
-- than LJ_MAX_BUF bytes, and the request has 32 bits.
pub lj_buf_more-IsRequest :
    (sz : ℕ) (sb : SBuf)
    → IsSBuf sb
    → length sb.bytes ≤ max_buf
    → sz < 2 ^ 32
    → IsRequest (length sb.bytes + sz) sb (lj_buf_more sz sb)
unfolding lj_buf_more lj_buf_more2 ◌||◌
lj_buf_more-IsRequest sz sb is len word = elim (Bool-cases (ltb (left sb) sz)) [
  | inr e ↦ rw (e, if◌then◌else◌) (inl (refl, ground (arith, e, is.0)))
  | inl e ↦
      let few : sb.size < length sb.bytes + sz = ground (arith, e, is.0) in
      elim (Bool-cases (ltb max_buf sz)) [
        | inl f ↦ rw (e, f, if◌then◌else◌) (few, ground (arith, f))
        | inr f ↦
            let no_wrap : (length sb.bytes + sz) % 2 ^ 32 ≡ length sb.bytes + sz =
              ground (arith, f, len) in
            elim (Bool-cases (ltb max_buf (length sb.bytes + sz))) [
              | inl g ↦ rw (e, f, no_wrap, g, if◌then◌else◌) (few, ground (arith, g))
              | inr g ↦
                  rw (e, f, no_wrap, g, if◌then◌else◌)
                    (inr
                      (few, buf_grow-IsGrown (length sb.bytes + sz) sb is few (ground (arith, g))))
            ]
      ]
]
