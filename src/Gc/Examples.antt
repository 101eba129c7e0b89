-- ===== src/Gc/Examples.antt =====
-- Runs of the mark phase.
use omniajit.Prelude.{
  ℕ, zero, suc, ◌+◌, ◌≤◌, ◌<◌, ◌≡◌, refl, arith, List, [], ◌∷◌, All, true, false, none, some, ◌↔◌,
  inl, inr, ◌==◌, if◌then◌else◌,
}
use omniajit.Gc.{nil, plain, ref, Body, str, udata, upval, thread, proto, lua_func, tab, State}
use omniajit.Gc.Ops.{propagatemark, gc_propagate_gray, gc_mark_start}
use omniajit.Gc.Reach.{white, Marked, children, Reach, FitsIn}
use omniajit.Gc.Propagate.{IsMarking, work, propagatemark-IsMarking}
use omniajit.Gc.Cycle.{roots, gc_propagate_gray-Reach}

-- The main thread runs a function with an upvalue, which has a userdata. The last table is garbage.
abbrev heap : ℕ → Body
heap zero = thread (plain ∷ ref 1 ∷ []) 2 []
heap (suc zero) = lua_func 2 3 (4 ∷ [])
heap (suc (suc zero)) =
    tab (record { metatable = some 6; mode = []; array = nil ∷ ref 5 ∷ []; node = [] })
heap (suc (suc (suc zero))) = proto 5 [] none
heap (suc (suc (suc (suc zero)))) = upval true (ref 7)
heap (suc (suc (suc (suc (suc zero))))) = str
heap (suc (suc (suc (suc (suc (suc zero)))))) =
    tab (record { metatable = none; mode = b'k' ∷ []; array = []; node = (ref 8, nil) ∷ [] })
heap (suc (suc (suc (suc (suc (suc (suc zero))))))) = udata (some 6) 2
heap (suc (suc (suc (suc (suc (suc (suc (suc zero)))))))) =
    tab (record { metatable = none; mode = []; array = ref 1 ∷ []; node = [] })
heap other = str

heap_bounded : (o : ℕ) → All (λ r. r < 9) (children heap true none o)
heap_bounded zero = omega arith
heap_bounded (suc zero) = omega arith
heap_bounded (suc (suc zero)) = omega arith
heap_bounded (suc (suc (suc zero))) = omega arith
heap_bounded (suc (suc (suc (suc zero)))) = omega arith
heap_bounded (suc (suc (suc (suc (suc zero))))) = tt
heap_bounded (suc (suc (suc (suc (suc (suc zero)))))) = tt
heap_bounded (suc (suc (suc (suc (suc (suc (suc zero))))))) = omega arith
heap_bounded (suc (suc (suc (suc (suc (suc (suc (suc zero)))))))) = omega arith
heap_bounded (suc (suc (suc (suc (suc (suc (suc (suc (suc o))))))))) = tt

heap_fits : (o : ℕ) → FitsIn heap true none (heap o)
heap_fits zero = tt
heap_fits (suc zero) = tt
heap_fits (suc (suc zero)) = tt
heap_fits (suc (suc (suc zero))) = (refl, tt)
heap_fits (suc (suc (suc (suc zero)))) = omega arith
heap_fits (suc (suc (suc (suc (suc zero))))) = tt
heap_fits (suc (suc (suc (suc (suc (suc zero)))))) = tt
heap_fits (suc (suc (suc (suc (suc (suc (suc zero))))))) = omega arith
heap_fits (suc (suc (suc (suc (suc (suc (suc (suc zero)))))))) = tt
heap_fits (suc (suc (suc (suc (suc (suc (suc (suc (suc o))))))))) = tt

abbrev clean : State
clean = record { marked = λ r. 1; gray = []; grayagain = []; weak = [] }

abbrev marked_heap : State
marked_heap =
    gc_propagate_gray heap true none 9 (gc_mark_start heap true none 0 2 plain (2 ∷ []) clean)

whites_left :
    (white marked_heap 0 ≡ false) × (white marked_heap 7 ≡ false) × (white marked_heap 8 ≡ true)
unfolding gc_propagate_gray gc_mark_start
whites_left = (refl, refl, refl)

gc_propagate_gray-Reach_example :
    (marked_heap.gray ≡ [])
    × ((r : ℕ) → Marked marked_heap r ↔ Reach heap true none (roots 0 2 plain (2 ∷ [])) r)
gc_propagate_gray-Reach_example =
    gc_propagate_gray-Reach heap true none 9 heap_bounded heap_fits 0 2 plain (2 ∷ []) (omega arith)
      clean (λ r. refl)

all_objects : (rs : List ℕ) → All (λ r. Unit {0}) rs
all_objects [] = tt
all_objects (r ∷ rs) = (tt, all_objects rs)

-- The main thread is in the gray list, and all else is white.
abbrev begun : State
begun = record { marked = λ r. if r == 0 then 0 else 1; gray = 0 ∷ []; grayagain = []; weak = [] }

begun-IsMarking :
    IsMarking heap true none 9
      (λ r. Unit {0})
      (λ o q. all_objects (children heap true none o))
      heap_bounded
      heap_fits
      begun
begun-IsMarking = record {
  all = λ r m. (inr (inl (ground (arith, m))), tt);
  list = ((refl, tt), tt);
}

propagatemark-IsMarking_example :
    let s' = propagatemark heap true none 0 [] begun in
    IsMarking heap true none 9
      (λ r. Unit {0})
      (λ o q. all_objects (children heap true none o))
      heap_bounded
      heap_fits
      s'
    × (work heap true none 9
            (λ r. Unit {0})
            (λ o q. all_objects (children heap true none o))
            heap_bounded
            heap_fits
            s'
          + 1
        ≤ work heap true none 9
            (λ r. Unit {0})
            (λ o q. all_objects (children heap true none o))
            heap_bounded
            heap_fits
            begun)
propagatemark-IsMarking_example =
    propagatemark-IsMarking heap true none 9 (λ r. Unit {0})
      (λ o q. all_objects (children heap true none o)) heap_bounded heap_fits 0 [] begun refl
      begun-IsMarking
