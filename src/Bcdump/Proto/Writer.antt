-- ===== src/Bcdump/Proto/Writer.antt =====
-- The order of the pieces that `lj_bcwrite` passes to the writer function.
use omniajit.Prelude.{
  ℕ, ◌≡◌, ◌≢◌, refl, ap, ◌∙◌, sym, arith, bit_and, List, [], ◌∷◌, ◌++◌, ◌==◌, if◌then◌else◌, Bool,
  false, Bool-cases, inl, inr,
}
use mathlib.Core.List.{append_assoc, append-nil}
use omniajit.Bcdump.Input.{concat}
use omniajit.Bcdump.Proto.{
  Build, Info, proto, Kgcs, no_kgc, child, const, pdata, with_length, header, pass, bcwrite_proto,
  write_children, bcwrite,
}

-- The pieces of the children, and those of a prototype behind them.
unfoldable pub pieces_of : Build → Bool → Kgcs → List (List ℕ)
pieces_of build strip no_kgc = []
pieces_of build strip (const k ks) = pieces_of build strip ks
pieces_of build strip (child (proto i below) ks) =
    pieces_of build strip ks
    ++ ((if bit_and i.flags 0x01 == 0 then [] else pieces_of build strip below)
        ++ (with_length (pdata build strip i below) ∷ []))

abbrev pub pieces : Build → Bool → Info → Kgcs → List (List ℕ)
pieces build strip i ks =
    (if bit_and i.flags 0x01 == 0 then [] else pieces_of build strip ks)
    ++ (with_length (pdata build strip i ks) ∷ [])

-- All pieces of a dump.
abbrev pub dump_pieces : Build → Bool → Info → Kgcs → List ℕ → List (List ℕ)
dump_pieces build strip i ks chunkname =
    header build strip i chunkname ∷ (pieces build strip i ks ++ ((0 ∷ []) ∷ []))

-- The writer function gets the pieces one by one, as long as its status is 0, and what it returned
-- last is the result.
unfoldable pub feed : {W : Type 0} → (W → List ℕ → W × ℕ) → List (List ℕ) → W × ℕ → W × ℕ
feed wfunc [] ctx = ctx
feed wfunc (p ∷ ps) (w, status) =
    let rest = feed wfunc ps (wfunc w p) in if status == 0 then rest else (w, status)

module _ {W : Type 0} (wfunc : W → List ℕ → W × ℕ) where
  -- A status that is not 0 stays, and the writer function is not called again.
  feed_failed :
      (ps : List (List ℕ)) (w : W) (status : ℕ)
      → status ≢ 0
      → feed wfunc ps (w, status) ≡ (w, status)
  unfolding feed
  feed_failed [] w status h = refl
  feed_failed (p ∷ ps) w status h =
      let failed : (status == 0) ≡ false = ground (arith, h) in rw (failed, if◌then◌else◌) refl

  feed-append :
      (ps qs : List (List ℕ)) (ctx : W × ℕ)
      → feed wfunc (ps ++ qs) ctx ≡ feed wfunc qs (feed wfunc ps ctx)
  unfolding feed
  feed-append [] qs ctx = refl
  feed-append (p ∷ ps) qs (w, status) = elim (Bool-cases (status == 0)) [
    | inl e ↦ rw (e, if◌then◌else◌) (feed-append ps qs (wfunc w p))
    | inr e ↦
        rw (e, if◌then◌else◌) (sym (feed_failed qs w status (λ z. absurd (ground (arith, e, z)))))
  ]

  pass-feed : (p : List ℕ) (ctx : W × ℕ) → pass wfunc p ctx ≡ feed wfunc (p ∷ []) ctx
  unfolding feed
  pass-feed p ctx = refl

  module _ (build : Build) (strip : Bool) where
    own :
        (flags : ℕ) (below : List (List ℕ)) (p : List ℕ) (ctx ctx' : W × ℕ)
        → ctx' ≡ feed wfunc below ctx
        → pass wfunc p (if bit_and flags 0x01 == 0 then ctx else ctx')
          ≡ feed wfunc ((if bit_and flags 0x01 == 0 then [] else below) ++ (p ∷ [])) ctx
    own flags below p ctx ctx' e = elim (Bool-cases (bit_and flags 0x01 == 0)) [
      | inl f ↦ rw (f, if◌then◌else◌) (unfold feed in refl)
      | inr f ↦ rw (f, if◌then◌else◌, e, feed-append below (p ∷ []) ctx) (unfold feed in refl)
    ]

    write_children-pieces_of :
        (ks : Kgcs) (ctx : W × ℕ)
        → write_children build wfunc strip ks ctx ≡ feed wfunc (pieces_of build strip ks) ctx
    unfolding bcwrite_proto write_children pieces_of
    write_children-pieces_of no_kgc ctx = unfold feed in refl
    write_children-pieces_of (const k ks) ctx = write_children-pieces_of ks ctx
    write_children-pieces_of (child (proto i below) ks) ctx =
        let ctx' = write_children build wfunc strip ks ctx in
        own i.flags (pieces_of build strip below) (with_length (pdata build strip i below)) ctx'
          (write_children build wfunc strip below ctx') (write_children-pieces_of below ctx')
        ∙ rw (write_children-pieces_of ks ctx, feed-append (pieces_of build strip ks)) refl

    -- lj_bcwrite passes the header, the prototypes with each child before its parent, and the
    -- final zero byte to the writer function, one by one as long as its status is 0.
    pub bcwrite-dump_pieces :
        (i : Info) (ks : Kgcs) (chunkname : List ℕ) (w : W)
        → bcwrite build wfunc strip (proto i ks) chunkname w
          ≡ feed wfunc (dump_pieces build strip i ks chunkname) (w, 0)
    unfolding bcwrite bcwrite_proto write_children feed
    bcwrite-dump_pieces i ks chunkname w =
        let ctx = wfunc w (header build strip i chunkname) in
        let below = pieces_of build strip ks in
        let p = with_length (pdata build strip i ks) in
        ap (pass wfunc (0 ∷ [])) (
          own i.flags below p ctx (write_children build wfunc strip ks ctx)
            (write_children-pieces_of ks ctx))
        ∙ sym (feed-append (pieces build strip i ks) ((0 ∷ []) ∷ []) ctx)

    -- If the writer function returns a status that is not 0 for one of the pieces of a dump,
    -- lj_bcwrite passes no other piece to it and returns that status.
    pub bcwrite_failed :
        (i : Info) (ks : Kgcs) (chunkname : List ℕ) (w : W) (ps qs : List (List ℕ))
        → dump_pieces build strip i ks chunkname ≡ ps ++ qs
        → (feed wfunc ps (w, 0)).1 ≢ 0
        → bcwrite build wfunc strip (proto i ks) chunkname w ≡ feed wfunc ps (w, 0)
    bcwrite_failed i ks chunkname w ps qs e h =
        bcwrite-dump_pieces i ks chunkname w
        ∙ (ap (λ (ps : List (List ℕ)). feed wfunc ps (w, 0)) e
            ∙ (feed-append ps qs (w, 0)
                ∙ feed_failed qs (feed wfunc ps (w, 0)).0 (feed wfunc ps (w, 0)).1 h))

-- A writer function that keeps all pieces, as that of `string.dump` does.
abbrev pub keep : List ℕ → List ℕ → List ℕ × ℕ
keep w p = (w ++ p, 0)

feed-keep : (ps : List (List ℕ)) (w : List ℕ) → feed keep ps (w, 0) ≡ (w ++ concat ps, 0)
unfolding feed
feed-keep [] w = ap (λ w. (w, 0)) (sym (append-nil w))
feed-keep (p ∷ ps) w = feed-keep ps (w ++ p) ∙ ap (λ w. (w, 0)) (append_assoc w p (concat ps))

pub bcwrite-keep :
    (build : Build) (strip : Bool) (i : Info) (ks : Kgcs) (chunkname : List ℕ)
    → bcwrite build keep strip (proto i ks) chunkname []
      ≡ (concat (dump_pieces build strip i ks chunkname), 0)
bcwrite-keep build strip i ks chunkname =
    bcwrite-dump_pieces keep build strip i ks chunkname []
    ∙ feed-keep (dump_pieces build strip i ks chunkname) []
