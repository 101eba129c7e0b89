-- ===== src/Strfmt.antt =====
-- String formatting: the raw integer conversion `lj_strfmt_wint` (lib/luajit/src/lj_strfmt.c).
pub mod Wint
pub mod Decimal
pub mod Digits
mod Examples
