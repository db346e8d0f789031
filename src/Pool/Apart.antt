-- ===== src/Pool/Apart.antt =====
-- Two sequences of slots without a slot in common.
use zape.Base.{◌≡◌, sym, some, List, [], ◌∷◌, ◌++◌}
use zape.Pool.State.{Ptr, Slot, Mem, write, set_prev}
use zape.Pool.Seg.{Cell, NotIn, Distinct, NotIn-append}

module _ {P : Type 0} where
  -- no slot of the first list is one of the second
  abbrev pub Apart : List (Cell P) → List (Cell P) → Type 0
  Apart [] ds = Unit {0}
  Apart (c ∷ cs) ds = NotIn c.at ds × Apart cs ds

  pub Distinct-append :
      (cs ds : List (Cell P)) → Distinct (cs ++ ds) → Distinct cs × Distinct ds × Apart cs ds
  Distinct-append [] ds d = (tt, d, tt)
  Distinct-append (c ∷ cs) ds d =
      let (x, y, z) = Distinct-append cs ds d.1 in
      let out = NotIn-append c.at cs ds d.0 in ((out.0, x), y, (out.1, z))

  pub Apart-head :
      (cs : List (Cell P)) (d : Cell P) (ds : List (Cell P)) → Apart cs (d ∷ ds) → NotIn d.at cs
  Apart-head [] d ds h = tt
  Apart-head (c ∷ cs) d ds h = ((λ e. h.0.0 (sym e)), Apart-head cs d ds h.1)

  pub set_prev_run :
      (m : Mem P) (p q : Ptr) (s : Slot P)
      → m p ≡ some s
      → set_prev m p q ≡ some (write m p (record s { prev = q }))
  unfolding set_prev
  set_prev_run m p q s e = rw e
