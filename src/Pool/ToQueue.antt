-- ===== src/Pool/ToQueue.antt =====
-- `ape_pool_head_to_queue` on the sequence of the slots of a list.
use zape.Base.{ℕ, ◌≡◌, ◌≢◌, refl, sym, ap, ◌∙◌, some, List, [], ◌∷◌, ◌++◌, append_assoc, append-nil}
use zape.Pool.State.{Ptr, null, Slot, Mem, PoolList, write, head_to_queue}
use zape.Pool.ToCurrent.{slot_of, set_next_run}
use zape.Pool.Seg.{
  Cell, Seg, Distinct, IsPool, write_ne, write_self, frame, Seg-append, Seg-split, NotIn-append,
  Distinct-split, Distinct-insert, Ends-append, Ends-of_append,
}

module _ {P : Type 0} where
  module _ (m : Mem P) (size current : ℕ) (h z : Cell P) (mid : List (Cell P))
      (chain : Seg m h.at (h ∷ (mid ++ z ∷ [])) null) (apart : Distinct (h ∷ (mid ++ z ∷ []))) where
    abbrev before : PoolList P
    before = record { head = h.at; queue = z.at; current = current; size = size; mem = m }

    split : (q : Ptr) × Seg m chain.2 mid q × Seg m q (z ∷ []) null
    split = Seg-split m chain.2 mid (z ∷ []) null chain.4

    other : z.at ≢ h.at
    other e = (NotIn-append h.at mid (z ∷ []) apart.0).1.0 (sym e)

    -- the two slots that are written
    abbrev old_last : Slot P
    old_last = slot_of z h.at split.2.3.0

    abbrev new_last : Slot P
    new_last = slot_of h null chain.3.0

    abbrev moved : Mem P
    moved = write (write m z.at old_last) h.at new_last

    abbrev after : PoolList P
    after = record before { head = chain.2; queue = h.at; mem = moved }

    run : head_to_queue before ≡ some after
    unfolding head_to_queue
    run =
        let first = set_next_run m z.at h.at _ split.2.3.1 in
        let there : write m z.at old_last h.at ≡ m h.at = write_ne m z.at h.at old_last other in
        let second = set_next_run (write m z.at old_last) h.at null _ (there ∙ chain.3.1) in
        rw (chain.3.1, first, second)

    moved-Seg : Seg moved chain.2 (mid ++ z ∷ h ∷ []) null
    moved-Seg =
        let (q, a, b) = split in
        let z_out = Distinct-split (h ∷ mid) z [] apart in
        let h_out = NotIn-append h.at mid (z ∷ []) apart.0 in
        let kept =
          frame (write m z.at old_last) h.at new_last chain.2 q mid h_out.0
            (frame m z.at old_last chain.2 q mid z_out.0.1 a) in
        let z_here : moved z.at ≡ some old_last =
          write_ne (write m z.at old_last) h.at z.at new_last (λ e. other (sym e))
          ∙ write_self m z.at old_last in
        let h_here : moved h.at ≡ some new_last =
          write_self (write m z.at old_last) h.at new_last in
        Seg-append moved chain.2 q mid (z ∷ h ∷ []) null kept
          (b.0, b.1, h.at, (b.3.0, z_here), (refl, chain.1, null, (chain.3.0, h_here), refl))

    moved-Distinct : Distinct (mid ++ z ∷ h ∷ [])
    moved-Distinct =
        rw append_assoc at
          (Distinct-insert h (mid ++ z ∷ []) [] (rw append-nil apart.0) (rw append-nil apart.1))

  -- `ape_pool_head_to_queue` moves the head of a list of two or more slots to its end; the current
  -- slot stays, and the slot that was second is the head.
  pub head_to_queue-IsPool :
      (l : PoolList P) (h z : Cell P) (mid : List (Cell P))
      → IsPool l (h ∷ (mid ++ z ∷ []))
      → (l' : PoolList P) × (head_to_queue l ≡ some l')
        × IsPool l' (mid ++ z ∷ h ∷ [])
        × (l'.current ≡ l.current)
  head_to_queue-IsPool l h z mid v =
      let chain : Seg l.mem h.at (h ∷ (mid ++ z ∷ [])) null =
        (refl, v.chain.1, v.chain.2, v.chain.3, v.chain.4) in
      let tail : l.queue ≡ z.at = Ends-of_append l.queue (h ∷ mid) z [] v.ends in
      let at : l ≡ record l { head = h.at; queue = z.at } =
        λ i. record l { head = v.chain.0 i; queue = tail i } in
      (
        after l.mem l.size l.current h z mid chain v.apart,
        ap head_to_queue at ∙ run l.mem l.size l.current h z mid chain v.apart,
        record {
          chain = moved-Seg l.mem l.size l.current h z mid chain v.apart;
          apart = moved-Distinct l.mem l.size l.current h z mid chain v.apart;
          ends = Ends-append h.at mid z (h ∷ []) refl;
        },
        refl,
      )
