-- ===== src/Func/Examples.antt =====
-- Runs of the upvalue functions.
use omniajit.Prelude.{ℕ, ◌*◌, ◌≡◌, refl, arith, List, [], ◌∷◌, leb, true, Bool}
use omniajit.Func.{State, propagate, search, insert, found, create, func_finduv, lj_func_closeuv}
use omniajit.Func.Insert.{IsOpen}
use omniajit.Func.Find.{IsFound, func_finduv-IsHit, func_finduv-IsFound, func_finduv_again}
use omniajit.Func.Closure.{closure_flags, upvalues}
use omniajit.Func.Closure.Count.{closure_flags_lem}
use omniajit.Func.Closure.Share.{AllCaptured, upvalues-AllCaptured, upvalues_again}
use omniajit.Func.Close.{IsClosed, lj_func_closeuv-IsClosed}

-- Values are numbers, and those from 100 on are white objects.
abbrev is_white : ℕ → Bool
is_white v = leb 100 v

abbrev start : State ℕ
start = record {
  stack = λ n. 30 * n;
  uv = λ p. record { marked = 0; closed = true; immutable = 0; slot = 0; tv = 0; dhash = 0 };
  fresh = 0;
  openupval = [];
  uvhead = [];
  root = [];
  currentwhite = 1;
  gcstate = propagate;
  gray = [];
  freed = [];
}

-- The slots 3, 5, 4 and again 5.
abbrev busy : State ℕ
busy = (func_finduv 5 (func_finduv 4 (func_finduv 5 (func_finduv 3 start).0).0).0).0

busy_list : busy.openupval ≡ 1 ∷ 2 ∷ 0 ∷ []
unfolding func_finduv search insert found create
busy_list = refl

busy-IsOpen : IsOpen busy
busy-IsOpen =
    let s1 = (func_finduv 3 start).0 in
    let s2 = (func_finduv 5 s1).0 in
    let s3 = (func_finduv 4 s2).0 in
    let h2 = (func_finduv-IsHit 5 s1 (func_finduv-IsHit 3 start tt).0).0 in
    (func_finduv-IsHit 5 s3 (func_finduv-IsHit 4 s2 h2).0).0

func_finduv-IsFound_example : IsFound 4 busy (func_finduv 4 busy)
func_finduv-IsFound_example = func_finduv-IsFound 4 busy busy-IsOpen

func_finduv_again_example :
    let (s1, p) = func_finduv 6 busy in
    let (s2, q) = func_finduv 6 s1 in
    (q ≡ p) × (s2.fresh ≡ s1.fresh) × (s2.openupval ≡ s1.openupval)
func_finduv_again_example = func_finduv_again 6 busy busy-IsOpen

lj_func_closeuv-IsClosed_example : IsClosed 4 busy (lj_func_closeuv is_white 4 busy)
lj_func_closeuv-IsClosed_example = lj_func_closeuv-IsClosed is_white 4 busy busy-IsOpen

-- The locals 1 and 2 above slot 2, and the first upvalue of the parent.
abbrev references : List ℕ
references = 0x8001 ∷ 0xc002 ∷ 0 ∷ []

upvalues-AllCaptured_example :
    let r = upvalues 2 7 (9 ∷ []) references busy in
    IsOpen r.0 × AllCaptured 2 7 (9 ∷ []) r.0 references r.1
upvalues-AllCaptured_example = upvalues-AllCaptured 2 7 (9 ∷ []) references busy busy-IsOpen

upvalues_again_example :
    let (s1, ps) = upvalues 2 7 (9 ∷ []) references busy in
    (upvalues 2 7 (9 ∷ []) references s1).1 ≡ ps
upvalues_again_example = upvalues_again 2 7 (9 ∷ []) references busy busy-IsOpen

closure_flags_lem_example : closure_flags 0xe3 ≡ 0xe3
closure_flags_lem_example = closure_flags_lem 0xe3 (omega arith)
