-- ===== src/Bcdump/Load/Flags.antt =====
-- The flags of a dump that `bcwrite_header` writes, as `bcread_header` tests them.
use omniajit.Prelude.{
  ℕ, ◌+◌, ◌<◌, ◌≡◌, refl, arith, bit_and, ◌==◌, if◌then◌else◌, Bool, true, false, not,
}

-- The flags of a dump.
abbrev pub dump_flags : Bool → Bool → Bool → Bool → ℕ
dump_flags strip be no_ffi fr2 =
    (if strip then 0x02 else 0)
    + (if be then 0x01 else 0)
    + (if no_ffi then 0 else 0x04)
    + (if fr2 then 0x08 else 0)

pub record HasFlags (strip : Bool) (be : Bool) (no_ffi : Bool) (fr2 : Bool) (flags : ℕ)
    : Type 0 where
  pub known : (bit_and flags 0xffff_fff0 == 0) ≡ true
  pub frames : (bit_and flags 0x08 == (if fr2 then 0x08 else 0)) ≡ true
  pub ffi : (bit_and flags 0x04 == 0) ≡ no_ffi
  pub stripped : (bit_and flags 0x02 == 0) ≡ not strip
  pub order : (bit_and flags 0x01 == 0) ≡ not be
  pub one_byte : flags < 128

pub dump_flags-HasFlags :
    (strip be no_ffi fr2 : Bool) → HasFlags strip be no_ffi fr2 (dump_flags strip be no_ffi fr2)
dump_flags-HasFlags true true true true = record {
  known = refl;
  frames = refl;
  ffi = refl;
  stripped = refl;
  order = refl;
  one_byte = omega arith;
}
dump_flags-HasFlags true true true false = record {
  known = refl;
  frames = refl;
  ffi = refl;
  stripped = refl;
  order = refl;
  one_byte = omega arith;
}
dump_flags-HasFlags true true false true = record {
  known = refl;
  frames = refl;
  ffi = refl;
  stripped = refl;
  order = refl;
  one_byte = omega arith;
}
dump_flags-HasFlags true true false false = record {
  known = refl;
  frames = refl;
  ffi = refl;
  stripped = refl;
  order = refl;
  one_byte = omega arith;
}
dump_flags-HasFlags true false true true = record {
  known = refl;
  frames = refl;
  ffi = refl;
  stripped = refl;
  order = refl;
  one_byte = omega arith;
}
dump_flags-HasFlags true false true false = record {
  known = refl;
  frames = refl;
  ffi = refl;
  stripped = refl;
  order = refl;
  one_byte = omega arith;
}
dump_flags-HasFlags true false false true = record {
  known = refl;
  frames = refl;
  ffi = refl;
  stripped = refl;
  order = refl;
  one_byte = omega arith;
}
dump_flags-HasFlags true false false false = record {
  known = refl;
  frames = refl;
  ffi = refl;
  stripped = refl;
  order = refl;
  one_byte = omega arith;
}
dump_flags-HasFlags false true true true = record {
  known = refl;
  frames = refl;
  ffi = refl;
  stripped = refl;
  order = refl;
  one_byte = omega arith;
}
dump_flags-HasFlags false true true false = record {
  known = refl;
  frames = refl;
  ffi = refl;
  stripped = refl;
  order = refl;
  one_byte = omega arith;
}
dump_flags-HasFlags false true false true = record {
  known = refl;
  frames = refl;
  ffi = refl;
  stripped = refl;
  order = refl;
  one_byte = omega arith;
}
dump_flags-HasFlags false true false false = record {
  known = refl;
  frames = refl;
  ffi = refl;
  stripped = refl;
  order = refl;
  one_byte = omega arith;
}
dump_flags-HasFlags false false true true = record {
  known = refl;
  frames = refl;
  ffi = refl;
  stripped = refl;
  order = refl;
  one_byte = omega arith;
}
dump_flags-HasFlags false false true false = record {
  known = refl;
  frames = refl;
  ffi = refl;
  stripped = refl;
  order = refl;
  one_byte = omega arith;
}
dump_flags-HasFlags false false false true = record {
  known = refl;
  frames = refl;
  ffi = refl;
  stripped = refl;
  order = refl;
  one_byte = omega arith;
}
dump_flags-HasFlags false false false false = record {
  known = refl;
  frames = refl;
  ffi = refl;
  stripped = refl;
  order = refl;
  one_byte = omega arith;
}
