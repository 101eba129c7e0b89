-- ===== src/Str/Live.antt =====
-- Properties of the strings that survive a sweep.
use omniajit.Prelude.{ℕ, ◌<◌, ◌≡◌, arith, List, Bool, true, ◌&&◌}
use omniajit.Func.{makewhite}
use omniajit.Str.{survives}
use omniajit.Str.Marks.{IsWhite, survives-makewhite}

-- A property that only strings have that survive a sweep, and that none of them loses by it, if
-- the strings are swept.
abbrev pub IsStable : ℕ → Bool → (List ℕ → ℕ → ℕ → Bool) → Type 0
IsStable cw sweeping F =
    (b : List ℕ) (r m : ℕ)
    → m < 256
    → sweeping ≡ true
    → F b r m ≡ (survives cw m && F b r (makewhite cw m))

-- A property of the live strings, those that survive a sweep.
abbrev pub live : ℕ → (List ℕ → ℕ → ℕ → Bool) → List ℕ → ℕ → ℕ → Bool
live cw F bytes ref marked = F bytes ref marked && survives cw marked

-- The property does not depend on the marks.
abbrev pub IsUnmarked : (List ℕ → ℕ → ℕ → Bool) → Type 0
IsUnmarked F = (b : List ℕ) (r m m' : ℕ) → F b r m ≡ F b r m'

pub live-IsStable :
    (cw : ℕ) (sweeping : Bool) (F : List ℕ → ℕ → ℕ → Bool)
    → IsWhite cw
    → IsUnmarked F
    → IsStable cw sweeping (live cw F)
live-IsStable cw sweeping F white h b r m lt e =
    let kept = survives-makewhite cw m white lt in ground (arith, kept, h b r m (makewhite cw m))
