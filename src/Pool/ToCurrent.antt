-- ===== src/Pool/ToCurrent.antt =====
-- `ape_pool_head_to_current` on the sequence of the slots of a list.
use zape.Base.{
  append_assoc, ℕ, ◌≡◌, ◌≢◌, refl, sym, ap, ◌∙◌, some, List, [], ◌∷◌, ◌++◌, arith, ◌==◌,
  if◌then◌else◌, true, false,
}
use zape.Pool.State.{Ptr, null, Slot, Mem, PoolList, write, set_next, head_to_current}
use zape.Pool.Seg.{
  Cell, Seg, NotIn, Distinct, write_ne, write_self, frame, Seg-append, Seg-split, NotIn-append,
  Distinct-split, Distinct-insert, IsPool, Ends, Ends-append, Ends-of_append,
}

module _ {P : Type 0} where
  -- the slot that stands for `c`
  abbrev pub slot_of : Cell P → (next before : Ptr) → Slot P
  slot_of c next before = record { item = c.item; next = next; prev = before; flags = c.flags }

  pub set_next_run :
      (m : Mem P) (p q : Ptr) (s : Slot P)
      → m p ≡ some s
      → set_next m p q ≡ some (write m p (record s { next = q }))
  unfolding set_next
  set_next_run m p q s e = rw e

  -- `head_to_current`, for a head `h` before the current slot `c`
  module _ (m : Mem P) (size queue : ℕ) (h c : Cell P) (mid back : List (Cell P))
      (chain : Seg m h.at (h ∷ (mid ++ c ∷ back)) null)
      (apart : Distinct (h ∷ (mid ++ c ∷ back))) where
    abbrev before : PoolList P
    before = record { head = h.at; queue = queue; current = c.at; size = size; mem = m }

    split : (q : Ptr) × Seg m chain.2 mid q × Seg m q (c ∷ back) null
    split = Seg-split m chain.2 mid (c ∷ back) null chain.4

    other : c.at ≢ h.at
    other e = (NotIn-append h.at mid (c ∷ back) apart.0).1.0 (sym e)

    -- the slot behind `c`, and the two slots that are written
    abbrev behind : Ptr
    behind = split.2.2

    abbrev new_head : Slot P
    new_head = slot_of h behind chain.3.0

    abbrev new_here : Slot P
    new_here = slot_of c h.at split.2.3.0

    abbrev moved : Mem P
    moved = write (write m h.at new_head) c.at new_here

    abbrev after : PoolList P
    after = record before {
      head = chain.2;
      current = h.at;
      queue = if behind == null then h.at else queue;
      mem = moved;
    }

    moved-head : moved h.at ≡ some new_head
    moved-head =
        write_ne (write m h.at new_head) c.at h.at new_here other ∙ write_self m h.at new_head

    run : head_to_current before ≡ some after
    unfolding head_to_current
    run =
        let ne : (h.at == c.at) ≡ false = ground (arith, other) in
        let first = set_next_run m h.at behind _ chain.3.1 in
        let there : write m h.at new_head c.at ≡ m c.at =
          write_ne m h.at c.at new_head (λ e. other (sym e)) in
        let second = set_next_run (write m h.at new_head) c.at h.at _ (there ∙ split.2.3.1) in
        rw (ne, if◌then◌else◌, chain.3.1, split.2.3.1, first, second, moved-head)

    moved-Seg : Seg moved chain.2 (mid ++ c ∷ h ∷ back) null
    moved-Seg =
        let (q, a, b) = split in
        let out = Distinct-split (h ∷ mid) c back apart in
        let h_out = NotIn-append h.at mid (c ∷ back) apart.0 in
        let keep =
          λ (p r : Ptr) (cs : List (Cell P)) (x : NotIn h.at cs) (y : NotIn c.at cs)
              (g : Seg m p cs r).
            frame (write m h.at new_head) c.at new_here p r cs y
              (frame m h.at new_head p r cs x g) in
        Seg-append moved chain.2 q mid (c ∷ h ∷ back) null (keep chain.2 q mid h_out.0 out.0.1 a) (
          b.0,
          b.1,
          h.at,
          (b.3.0, write_self (write m h.at new_head) c.at new_here),
          (
            refl,
            chain.1,
            behind,
            (chain.3.0, moved-head),
            keep behind null back h_out.1.1 out.1 b.4,
          ),
        )

    moved-Distinct : Distinct (mid ++ c ∷ h ∷ back)
    moved-Distinct =
        rw append_assoc at (
          Distinct-insert h (mid ++ c ∷ []) back (rw append_assoc apart.0)
            (rw append_assoc apart.1))

  last_moved :
      (m : Mem P) (queue : Ptr) (h c : Cell P) (mid back : List (Cell P)) (behind : Ptr)
      → Seg m behind back null
      → Ends queue (mid ++ c ∷ back)
      → Ends (if behind == null then h.at else queue) (mid ++ c ∷ h ∷ back)
  last_moved m queue h c mid [] behind g e = rw (g) (Ends-append h.at mid c (h ∷ []) refl)
  last_moved m queue h c mid (d ∷ ds) behind g e =
      let nz : (behind == null) ≡ false = ground (arith, g.0, g.1) in
      rw (nz, if◌then◌else◌)
        (Ends-append queue mid c (h ∷ d ∷ ds) (Ends-of_append queue mid c (d ∷ ds) e))

  -- `ape_pool_head_to_current` moves a head before the current slot to the place behind it, the other
  -- slots keep their order, and the moved slot is the current one then.
  pub head_to_current-IsPool :
      (l : PoolList P) (h c : Cell P) (mid back : List (Cell P))
      → IsPool l (h ∷ (mid ++ c ∷ back))
      → l.current ≡ c.at
      → (l' : PoolList P) × (head_to_current l ≡ some l')
        × IsPool l' (mid ++ c ∷ h ∷ back)
        × (l'.current ≡ h.at)
  head_to_current-IsPool l h c mid back v here =
      let at : l ≡ record l { head = h.at; current = c.at } =
        λ i. record l { head = v.chain.0 i; current = here i } in
      let chain : Seg l.mem h.at (h ∷ (mid ++ c ∷ back)) null =
        (refl, v.chain.1, v.chain.2, v.chain.3, v.chain.4) in
      (
        after l.mem l.size l.queue h c mid back chain v.apart,
        ap head_to_current at ∙ run l.mem l.size l.queue h c mid back chain v.apart,
        record {
          chain = moved-Seg l.mem l.size l.queue h c mid back chain v.apart;
          apart = moved-Distinct l.mem l.size l.queue h c mid back chain v.apart;
          ends =
              last_moved l.mem l.queue h c mid back _
                (split l.mem l.size l.queue h c mid back chain v.apart).2.4
                (Ends-append l.queue mid c back (Ends-of_append l.queue (h ∷ mid) c back v.ends));
        },
        refl,
      )

  -- a head that is the current slot stays
  pub head_to_current_self : (l : PoolList P) → l.head ≡ l.current → head_to_current l ≡ some l
  unfolding head_to_current
  head_to_current_self l e =
      let same : (l.head == l.current) ≡ true = ground arith in rw (same, if◌then◌else◌)
