-- ===== src/Bcdump/Load/RoundTrip.antt =====
-- A dump that `lj_bcwrite` has written is read back by `lj_bcread`.
use omniajit.Prelude.{ℕ, ◌≡◌, ◌⊎◌, refl, ap, ◌∙◌, bit_and, List, [], ◌∷◌, ◌++◌, ◌==◌, Bool, true}
use omniajit.Bcdump.Input.{Input, concat}
use omniajit.Bcdump.Input.Refill.{IsInput}
use omniajit.Bcdump.Proto.{Build, Info, Proto, proto, Kgcs, pdata, with_length, header, bcwrite}
use omniajit.Bcdump.Proto.Writer.{pieces_of, pieces, keep, bcwrite-keep}
use omniajit.Bcdump.Load.Flags.{dump_flags}
use omniajit.Bcdump.Load.Header.{named}
use omniajit.Bcdump.Load.Children.{IsProto, concat-append, concat-pieces}

-- What `lj_bcread` returns.
abbrev pub IsLoaded : Proto → List ℕ → Proto × List ℕ × Input → Type 0
IsLoaded pt name (pt', name', i) = (pt' ≡ pt) × (name' ≡ name) × IsInput [] i

abbrev FfiFits : Build → Info → Type 0
FfiFits build i = ((bit_and i.flags 0x04 == 0) ≡ true) ⊎ (build.hasffi ≡ true)

-- The bytes of a dump.
pub bcwrite_bytes :
    (build : Build) (strip : Bool) (i : Info) (ks : Kgcs) (chunkname : List ℕ)
    → IsProto build strip i ks
    → (bcwrite build keep strip (proto i ks) chunkname []).0
      ≡ 0x1b
        ∷ 0x4c
        ∷ 0x4a
        ∷ 2
        ∷ dump_flags strip build.be (bit_and i.flags 0x04 == 0) build.fr2
        ∷ (named strip chunkname
            ++ (concat (pieces_of build strip ks)
                ++ (with_length (pdata build strip i ks) ++ (0 ∷ []))))
unfolding header
bcwrite_bytes build strip i ks chunkname h =
    ap (λ (r : List ℕ × ℕ). r.0) (bcwrite-keep build strip i ks chunkname)
    ∙ rw
        (
          concat-append (pieces build strip i ks) ((0 ∷ []) ∷ []),
          concat-pieces build strip i ks (0 ∷ []) h,
        )
        refl
