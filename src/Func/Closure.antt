-- ===== src/Func/Closure.antt =====
-- The upvalues of a new closure: `lj_func_newL_gc` (lib/luajit/src/lj_func.c).
pub mod Count
pub mod Keeps
pub mod Share
use omniajit.Prelude.{
  ℕ, ◌+◌, ◌-◌, ◌*◌, ◌/◌, ◌%◌, ◌^◌, bit_and, bit_xor, List, [], ◌∷◌, get_or, ◌==◌, if◌then◌else◌,
}
use omniajit.Func.{Upval, State, set_uv, func_finduv}

-- `count - ((count >> PROTO_CLC_BITS) & PROTO_CLCOUNT)`, stored to the 8 bits of the flags.
unfoldable pub closure_flags : ℕ → ℕ
closure_flags flags = let count = flags + 0x20 in (count - bit_and (count / 2 ^ 3) 0x20) % 2 ^ 8

-- What the closure notes on an upvalue that it has found for a local; `pc` is the 32 bits of the
-- parent's `pc`.
abbrev pub describe : {V : Type 0} → ℕ → ℕ → ℕ → State V → State V
describe pc v p s =
    let u = record (s.uv p) {
      immutable = bit_and (v / 0x4000) 1;
      dhash = bit_xor pc (v * 2 ^ 24 % 2 ^ 32);
    } in
    record s { uv = set_uv s.uv p u }

-- `base` is the stack slot `L->base`, and `puv` the upvalues of the parent.
module _ {V : Type 0} (base : ℕ) (pc : ℕ) (puv : List ℕ) where
  unfoldable pub local : ℕ → State V → State V × ℕ
  local v s = let (s1, p) = func_finduv (base + bit_and v 0xff) s in (describe pc v p s1, p)

  unfoldable pub inherit : ℕ → State V → State V × ℕ
  unfolding local
  inherit v s = if bit_and v 0x8000 == 0 then (s, get_or puv v 0) else local v s

  -- The loop over `proto_uv(pt)`, which gives `uvptr`.
  unfoldable pub upvalues : List ℕ → State V → State V × List ℕ
  unfolding inherit
  upvalues [] s = (s, [])
  upvalues (v ∷ vs) s = let (s1, p) = inherit v s in let (s2, ps) = upvalues vs s1 in (s2, p ∷ ps)
