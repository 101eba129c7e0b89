-- ===== src/Bcdump/Load/Fuel.antt =====
-- The loop over the prototypes of a dump ends: the fuel of `lj_bcread` is enough.
use omniajit.Prelude.{ℕ, ◌≤◌, ◌<◌, ◌≡◌, List, length, Option, none, some}
use omniajit.Bcdump.Result.{Result}
use omniajit.Bcdump.Input.{Input, total}
use omniajit.Bcdump.Proto.{Proto}

-- Some bytes of `p` were read.
abbrev Consumed : {A : Type 0} → List ℕ → A × List ℕ → Type 0
Consumed p r = length r.1 < length p

-- No more bytes are to come than before.
abbrev Left : Input → List Proto × Input → Type 0
Left i (stack, j) = length (total j) ≤ length (total i)

-- If there is another round, fewer bytes are to come.
abbrev Shorter : Input → Option (List Proto) × Input → Type 0
Shorter i (none, j) = Unit
Shorter i (some stack, j) = length (total j) < length (total i)

-- Two runs of the loop have ended, with the same outcome.
abbrev Ends : Option (Result (List Proto × Input)) → Option (Result (List Proto × Input)) → Type 0
Ends o o' = (r : Result (List Proto × Input)) × (o ≡ some r) × (o' ≡ some r)
