-- ===== src/Pool/Grow.antt =====
-- New slots: `ape_new_pool`, `ape_init_pool_list` and `ape_grow_pool` on the sequence of the slots.
use zape.Base.{
  ℕ, zero, suc, ◌+◌, ◌*◌, ◌-◌, ◌<◌, ◌≡◌, ◌≢◌, refl, sym, ap, ◌∙◌, none, some, List, [], ◌∷◌, ◌++◌,
  arith, ◌==◌, if◌then◌else◌, append_assoc,
}
use mathlib.Core.Path.{subst}
use zape.Pool.State.{
  Ptr, null, pool_alloc, Slot, Mem, PoolList, write, fill, new_pool, init_pool_list, grow_pool,
}
use zape.Pool.ToCurrent.{slot_of, set_next_run}
use zape.Pool.Apart.{Apart, Distinct-append, Apart-head, set_prev_run}
use zape.Pool.Seg.{
  Cell, Seg, NotIn, Distinct, IsPool, Ends, write_ne, write_self, frame, Seg-append, Seg-split,
  NotIn-append, Distinct-split, Ends-append, Ends-of_append,
}

module _ {P : Type 0} (blank : P) (size : ℕ) where
  -- `n` empty slots from `p` on, the first with `flags`
  abbrev pub block : Ptr → ℕ → ℕ → List (Cell P)
  block p flags zero = []
  block p flags (suc n) = record { at = p; flags = flags; item = blank } ∷ block (p + size) 0 n

  Ends-block : (p flags n : ℕ) → Ends (p + n * size) (block p flags (suc n))
  Ends-block p flags zero = omega arith
  Ends-block p flags (suc n) =
      let q : p + size + n * size ≡ p + suc n * size = omega arith in
      subst (λ t. Ends t (block (p + size) 0 (suc n))) q (Ends-block (p + size) 0 n)

  -- the slot that the loop writes with `n` more to go
  abbrev fresh : Ptr → Ptr → ℕ → ℕ → Slot P
  fresh p before flags n = record {
    item = blank;
    next = if n == 0 then null else p + size;
    prev = before;
    flags = flags;
  }

  fill_other :
      (m : Mem P) (p before flags n : ℕ) (a : Ptr)
      → NotIn a (block p flags n)
      → fill blank m size p before flags n a ≡ m a
  unfolding fill
  fill_other m p before flags zero a out = refl
  fill_other m p before flags (suc n) a out =
      fill_other (write m p (fresh p before flags n)) (p + size) p 0 n a out.1
      ∙ write_ne m p a (fresh p before flags n) (λ e. out.0 (sym e))

  fill-Seg :
      (m : Mem P) (p before flags n : ℕ)
      → 0 < p
      → Distinct (block p flags (suc n))
      → Seg (fill blank m size p before flags (suc n)) p (block p flags (suc n)) null
  unfolding fill
  fill-Seg m p before flags zero pos d =
      (refl, omega arith, null, (before, write_self m p (fresh p before flags 0)), refl)
  fill-Seg m p before flags (suc n) pos d =
      let s = fresh p before flags (suc n) in
      let next : (if suc n == 0 then null else p + size) ≡ p + size = ground arith in
      (
        refl,
        omega arith,
        p + size,
        (
          before,
          fill_other (write m p s) (p + size) p 0 (suc n) p d.0
              ∙ write_self m p s
              ∙ ap (λ t. some (record s { next = t })) next,
        ),
        fill-Seg (write m p s) (p + size) p 0 n (omega arith) d.1,
      )

  -- `ape_init_pool_list` makes a list of `n + 1` empty slots, the first of them current, in a block
  -- that is not null and whose slots stand at places of their own.
  pub init_pool_list-IsPool :
      (n : ℕ) (base : Ptr)
      → 0 < base
      → Distinct (block base pool_alloc (suc n))
      → IsPool (init_pool_list blank size (suc n) base) (block base pool_alloc (suc n))
        × ((init_pool_list blank size (suc n) base).current ≡ base)
  unfolding init_pool_list new_pool
  init_pool_list-IsPool n base pos d =
      let count : base + (suc n - 1) * size ≡ base + n * size =
        ap (λ t. base + t * size) (omega arith) in
      (
        record {
          chain = fill-Seg (λ _. none) base null pool_alloc n pos d;
          apart = d;
          ends =
              subst (λ t. Ends t (block base pool_alloc (suc n))) (sym count)
                (Ends-block base pool_alloc n);
        },
        refl,
      )

  fill_frame :
      (m : Mem P) (p before flags n : ℕ) (a b : Ptr) (cs : List (Cell P))
      → Apart cs (block p flags n)
      → Seg m a cs b
      → Seg (fill blank m size p before flags n) a cs b
  fill_frame m p before flags n a b [] out g = g
  fill_frame m p before flags n a b (c ∷ cs) out g = (
    g.0,
    g.1,
    g.2,
    (g.3.0, fill_other m p before flags n c.at out.0 ∙ g.3.1),
    fill_frame m p before flags n g.2 b cs out.1 g.4,
  )

  module _ (m : Mem P) (head current base n : ℕ) (front : List (Cell P)) (z : Cell P)
      (pos : 0 < base) (chain : Seg m head (front ++ z ∷ []) null)
      (apart : Distinct (front ++ z ∷ block base pool_alloc (suc n))) where
    abbrev first : Cell P
    first = record { at = base; flags = pool_alloc; item = blank }

    abbrev more : List (Cell P)
    more = block (base + size) 0 n

    abbrev before : PoolList P
    before = record { head = head; queue = z.at; current = current; size = size; mem = m }

    parts :
        Distinct (front ++ z ∷ [])
        × Distinct (first ∷ more)
        × Apart (front ++ z ∷ []) (first ∷ more)
    parts = Distinct-append (front ++ z ∷ []) (first ∷ more) (rw append_assoc apart)

    abbrev filled : Mem P
    filled = new_pool blank m size (suc n) base

    old : (q : Ptr) × Seg filled head front q × Seg filled q (z ∷ []) null
    unfolding new_pool
    old =
        Seg-split filled head front (z ∷ []) null
          (fill_frame m base null pool_alloc (suc n) head null (front ++ z ∷ []) parts.2 chain)

    new : Seg filled base (first ∷ more) null
    unfolding new_pool
    new = fill-Seg m base null pool_alloc n pos parts.1

    base_out : NotIn base (front ++ z ∷ [])
    base_out = Apart-head (front ++ z ∷ []) first more parts.2

    base_ne : base ≢ z.at
    base_ne = (NotIn-append base front (z ∷ []) base_out).1.0

    abbrev linked : Slot P
    linked = slot_of z base old.2.3.0

    abbrev start : Slot P
    start = slot_of first new.2 z.at

    abbrev grown : Mem P
    grown = write (write filled z.at linked) base start

    abbrev after : PoolList P
    after = record before { queue = base + n * size; mem = grown }

    run : grow_pool blank before (suc n) base ≡ some after
    unfolding grow_pool
    run =
        let one = set_next_run filled z.at base _ old.2.3.1 in
        let there : write filled z.at linked base ≡ filled base =
          write_ne filled z.at base linked (λ e. base_ne (sym e)) in
        let two = set_prev_run (write filled z.at linked) base z.at _ (there ∙ new.3.1) in
        let count : suc n - 1 ≡ n = omega arith in rw (one, two, count)

    grown-Seg : Seg grown head (front ++ z ∷ first ∷ more) null
    grown-Seg =
        let out = Distinct-split front z (first ∷ more) apart in
        let keep =
          λ (p r : Ptr) (cs : List (Cell P)) (x : NotIn z.at cs) (y : NotIn base cs)
              (g : Seg filled p cs r).
            frame (write filled z.at linked) base start p r cs y
              (frame filled z.at linked p r cs x g) in
        let z_here : grown z.at ≡ some linked =
          write_ne (write filled z.at linked) base z.at start base_ne
          ∙ write_self filled z.at linked in
        Seg-append grown head old.0 front (z ∷ first ∷ more) null
          (keep head old.0 front out.0 (NotIn-append base front (z ∷ []) base_out).0 old.1)
          (
            old.2.0,
            old.2.1,
            base,
            (old.2.3.0, z_here),
            (
              refl,
              new.1,
              new.2,
              (z.at, write_self (write filled z.at linked) base start),
              keep new.2 null more out.1.1 parts.1.0 new.4,
            ),
          )

  -- `ape_grow_pool` puts `n + 1` empty slots behind the slots of a list that has one or more, and the
  -- current slot stays. The hypotheses on the fresh block are those of `malloc`: it is not null, and its
  -- slots are none of the list's.
  pub grow_pool-IsPool :
      (l : PoolList P) (front : List (Cell P)) (z : Cell P) (n : ℕ) (base : Ptr)
      → IsPool l (front ++ z ∷ [])
      → l.size ≡ size
      → 0 < base
      → Distinct (front ++ z ∷ block base pool_alloc (suc n))
      → (l' : PoolList P) × (grow_pool blank l (suc n) base ≡ some l')
        × IsPool l' (front ++ z ∷ block base pool_alloc (suc n))
        × (l'.current ≡ l.current)
  grow_pool-IsPool l front z n base v stride pos apart =
      let tail : l.queue ≡ z.at = Ends-of_append l.queue front z [] v.ends in
      let at : l ≡ before l.mem l.head l.current base n front z pos v.chain apart =
        λ i. record l { queue = tail i; size = stride i } in
      (
        after l.mem l.head l.current base n front z pos v.chain apart,
        ap (λ t. grow_pool blank t (suc n) base) at
            ∙ run l.mem l.head l.current base n front z pos v.chain apart,
        record {
          chain = grown-Seg l.mem l.head l.current base n front z pos v.chain apart;
          apart = apart;
          ends =
              Ends-append (base + n * size) front z (block base pool_alloc (suc n))
                (Ends-block base pool_alloc n);
        },
        refl,
      )
