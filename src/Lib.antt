-- ===== src/Lib.antt =====
-- A verification library for LuaJIT, the runtime that omniajit builds and ships in
-- lib/luajit/src. omniajit itself is a bundler: makefiles and scripts that link Lua modules and
-- this runtime into one binary; all C code of the repository is the runtime's.
--
-- A Lua number travels through the runtime as text and as bytes: `lj_strscan_scan` turns the text
-- of the source or of `tonumber` into a number, `lj_strfmt_wint` prints it, and the bytecode
-- dump, which the bundler embeds in the binary, stores them as ULEB128 bytes: `lj_bcwrite` passes a
-- prototype and its children to a writer function, `lj_bcread` loads them again. Tables
-- keep values under numbers in an array part and in a hash part. The JIT compiler records a trace
-- of instructions and eliminates the dead ones. Closures share their variables as upvalues, which
-- are open while the variable is on the stack. Strings are interned: there is one object for each
-- sequence of bytes, in a hash table that the collector sweeps chain by chain, after it has marked
-- what can be reached.
-- The FFI and the constant folding of the JIT compiler compute with 64 bit integers.
--
-- Files and the code they model (paths from lib/luajit/src):
--   Prelude/     lists, tests into Bool, bits of native numbers, powers, signed numbers
--   Char         lj_char.c, lj_char.h: the table `lj_char_bits` and its tests
--   Strscan      lj_strscan.h: formats and options. Double: `strscan_double`. Radix:
--                `strscan_hex`, `strscan_oct`, `strscan_bin`. Dec: `strscan_dec`, with the circular
--                buffer of its slow path in Dec/Circular. Scan: `lj_strscan_scan`
--   Strfmt       lj_strfmt.c. Wint: `lj_strfmt_wint`, a function for each of its labels
--   Uleb         `lj_strfmt_wuleb128`, `lj_buf_ruleb128`, `bcread_uleb128_33`
--   Bcdump       lj_bcdump.h, lj_bcwrite.c, lj_bcread.c: the number constants. Result: values, errors
--                and undefined behaviour. Words: blocks of words in both byte orders. Template:
--                `bcwrite_ktab`, `bcread_ktab`, with `lj_tab_set` of lj_tab.c in
--                Template/Read. Proto: `lj_bcwrite` and all that it calls.
--                Proto/Read: `lj_bcread_proto` and what it calls. Input: `bcread_fill`,
--                `bcread_need`, `bcread_want`, with the lexer's buffer in Input/Buffer. Load: `bcread_header`, `lj_bcread`
--   Carith       the integer helpers of lj_carith.c, and `lj_vm_modi` of lj_vmmath.c
--   Tab          lj_tab.c, lj_tab.h: the layout and the lookup of integer keys. Length: `lj_tab_len`,
--                `tab_len_slow`, `lj_tab_len_hint`. Sizes: `bestasize`, `hsize2hbits`.
--                Next: `lj_tab_next` behind `keyindex`, `lj_tab_nkeys`
--   Dce          lj_opt_dce.c: `lj_opt_dce`, with `ir_sideeff` and `lj_ir_nop` of lj_ir.h
--   Func         lj_func.c: `func_finduv`, `lj_func_closeuv`, with `lj_gc_closeuv` of lj_gc.c and the
--                colours of lj_gc.h. Closure: the upvalues of `lj_func_newL_gc`
--   Prng         `lj_prng_u64` of lj_prng.c
--   Str          lj_str.c: the string table, and `gc_sweepstr` of lj_gc.c. Ops: `lj_str_new`,
--                `lj_str_alloc`, `lj_str_resize`, `lj_str_rehash_chain`. Hash: the two hashes.
--                Compare: `lj_str_cmp`. Find: `lj_str_find`, `lj_str_haspattern`
--   Gc           lj_gc.c: `gc_mark`, and the colours of lj_gc.h. Ops: the traversals,
--                `propagatemark`, `gc_propagate_gray`, `gc_mark_start`
--   Buf          lj_buf.h, lj_buf.c: growth, and the functions that append
--
-- Integers are native natural numbers. A word of `w` bits is a number below `2 ^ w`, a signed
-- word is its two's complement pattern, and wrap-around is written out. A pointer into a string or
-- a buffer is the list of the bytes from there on.
--
-- Loops recurse on the bytes they read, on `Acc`, or on fuel. The loops of `lj_carith_powu64` get
-- 64 rounds, one for each bit of the exponent. The loops over the circular buffer of `strscan_dec`
-- get 512 rounds, its size; its scaling loops get 1024 rounds, where each round moves the number
-- by a factor of 64 and the tests before them leave a range of about 10 ^ 640. The
-- widening search of `tab_len_slow` doubles a number up to `2 ^ 31`, and its linear search ends at
-- the first positive `int32_t` without a value. The loop of `lj_bcread` gets one round more than
-- there are bytes behind the header; a round reads at least one. The doubling of `buf_grow` gets
-- 32 rounds, since sizes have 32 bits. The calls of `lj_str_new` nest two deep, since the second one
-- finds the chain marked that the first one rehashed. `gc_propagate_gray` gets a round for each
-- object, and the calls of `gc_mark` nest three deep: an upvalue, its userdata, and that one's
-- tables. The loop of `lj_str_find` gets a round for each place, that of `lj_str_cmp` one for each
-- byte of the shorter string.
--
-- Parameters: the reader and writer functions that `lua_load` and `lua_dump` are given, the first
-- instructions of traces, the test for white objects, the hash functions of strings (a build for
-- x86-64 has its own), the arithmetic of doubles, the conversions of the processor between doubles and
-- integers, the table `lj_ir_mode`, and the build options `LJ_DUALNUM` and `sizeof(long) == 8`, `LJ_BE`,
-- `LJ_FR2` and `LJ_HASFFI`.
--
-- Not modelled: the interpreter and the assembler (generated for each target), the allocator (a
-- copy of dlmalloc), the FFI's type system and calls (the processor's calling conventions), the
-- standard library's bindings to the C library, and the build tools. The mark phase is modelled
-- without steps of the program between its own, so that no write barrier is needed, and without
-- the sizes that it counts and the stack slots above the top; the lookup of `__mode` in a metatable
-- is a field of the table. Running out of memory is left out.

pub mod Prelude
pub mod Uleb
pub mod Bcdump
pub mod Carith
pub mod Strfmt
pub mod Char
pub mod Strscan
pub mod Tab
pub mod Dce
pub mod Func
pub mod Buf
pub mod Prng
pub mod Str
pub mod Gc
