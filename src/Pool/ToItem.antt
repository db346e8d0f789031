-- ===== src/Pool/ToItem.antt =====
-- A slot of a list rewritten, its links kept, on the sequence of the slots.
use zape.Base.{◌∙◌, ◌≢◌, ℕ, ◌≡◌, some, List, [], ◌∷◌, ◌++◌}
use zape.Pool.State.{Ptr, null, Slot, Mem, PoolList, write, set_item}
use zape.Pool.Seg.{
  Cell, Seg, NotIn, Distinct, write_self, frame, Seg-append, Seg-split, Distinct-split, IsPool,
  Ends, Ends-append, Ends-of_append,
}
use zape.Pool.ToCurrent.{slot_of}

module _ {P : Type 0} where
  -- a cell with another item
  abbrev pub holding : Cell P → P → Cell P
  holding c x = record c { item = x }

  set_item_run :
      (m : Mem P) (p : Ptr) (x : P) (s : Slot P)
      → m p ≡ some s
      → set_item m p x ≡ some (write m p (record s { item = x }))
  unfolding set_item
  set_item_run m p x s e = rw e

  -- a cell with another item and other flags
  abbrev pub altered : Cell P → P → ℕ → Cell P
  altered c x f = record c { item = x; flags = f }

  -- distinctness is about the places alone
  NotIn-altered :
      (a : Ptr) (cs : List (Cell P)) (c : Cell P) (x : P) (f : ℕ) (ds : List (Cell P))
      → NotIn a (cs ++ c ∷ ds)
      → NotIn a (cs ++ altered c x f ∷ ds)
  NotIn-altered a [] c x f ds h = h
  NotIn-altered a (b ∷ cs) c x f ds h = (h.0, NotIn-altered a cs c x f ds h.1)

  pub Distinct-altered :
      (cs : List (Cell P)) (c : Cell P) (x : P) (f : ℕ) (ds : List (Cell P))
      → Distinct (cs ++ c ∷ ds)
      → Distinct (cs ++ altered c x f ∷ ds)
  Distinct-altered [] c x f ds d = d
  Distinct-altered (b ∷ cs) c x f ds d =
      (NotIn-altered b.at cs c x f ds d.0, Distinct-altered cs c x f ds d.1)

  Ends-altered :
      (q : Ptr) (c : Cell P) (x : P) (f : ℕ) (ds : List (Cell P))
      → Ends q (c ∷ ds)
      → Ends q (altered c x f ∷ ds)
  Ends-altered q c x f [] h = h
  Ends-altered q c x f (d ∷ ds) h = h

  -- a slot of a list rewritten, its links kept
  pub write-IsPool :
      (l : PoolList P) (front back : List (Cell P)) (c : Cell P) (x : P) (f : ℕ)
      → IsPool l (front ++ c ∷ back)
      → (next before : Ptr) × (l.mem c.at ≡ some (slot_of c next before))
        × IsPool
            (record l { mem = write l.mem c.at (slot_of (altered c x f) next before) })
            (front ++ altered c x f ∷ back)
  write-IsPool l front back c x f v =
      let (q, a, b) = Seg-split l.mem l.head front (c ∷ back) null v.chain in
      let out = Distinct-split front c back v.apart in
      let s : Slot P = slot_of (altered c x f) b.2 b.3.0 in
      let m = write l.mem c.at s in
      (
        b.2,
        b.3.0,
        b.3.1,
        record {
          chain =
              Seg-append m l.head q front (altered c x f ∷ back) null
                (frame l.mem c.at s l.head q front out.0 a)
                (
                  b.0,
                  b.1,
                  b.2,
                  (b.3.0, write_self l.mem c.at s),
                  frame l.mem c.at s b.2 null back out.1 b.4,
                );
          apart = Distinct-altered front c x f back v.apart;
          ends =
              Ends-append l.queue front (altered c x f) back
                (Ends-altered l.queue c x f back (Ends-of_append l.queue front c back v.ends));
        },
      )

  -- `p->ptr = x` for a slot of a list
  pub set_item-IsPool :
      (l : PoolList P) (front back : List (Cell P)) (c : Cell P) (x : P)
      → IsPool l (front ++ c ∷ back)
      → (m : Mem P) × (set_item l.mem c.at x ≡ some m)
        × IsPool (record l { mem = m }) (front ++ holding c x ∷ back)
  set_item-IsPool l front back c x v =
      let (next, before, e, w) = write-IsPool l front back c x c.flags v in
      (_, set_item_run l.mem c.at x (slot_of c next before) e, w)

  -- the slot of a cell in a list, and where it leads
  pub IsPool-slot :
      (l : PoolList P) (front back : List (Cell P)) (c : Cell P)
      → IsPool l (front ++ c ∷ back)
      → (s : Slot P) × (l.mem c.at ≡ some s) × Seg l.mem s.next back null
  IsPool-slot l front back c v =
      let (q, a, b) = Seg-split l.mem l.head front (c ∷ back) null v.chain in
      (slot_of c b.2 b.3.0, b.3.1, b.4)

  -- the same, with the item and the flags of the slot
  pub IsPool-next :
      (l : PoolList P) (front back : List (Cell P)) (c : Cell P)
      → IsPool l (front ++ c ∷ back)
      → (next before : Ptr) × (l.mem c.at ≡ some (slot_of c next before)) × Seg l.mem next back null
  IsPool-next l front back c v =
      let (q, a, b) = Seg-split l.mem l.head front (c ∷ back) null v.chain in
      (b.2, b.3.0, b.3.1, b.4)

  -- a slot outside of a list is not its last
  pub Ends-NotIn : (q a : Ptr) (cs : List (Cell P)) → Ends q cs → NotIn a cs → a ≢ q
  Ends-NotIn q a [] e out = elim e [ ]
  Ends-NotIn q a (c ∷ []) e out = λ same. out.0 (same ∙ e)
  Ends-NotIn q a (c ∷ d ∷ ds) e out = Ends-NotIn q a (d ∷ ds) e out.1
