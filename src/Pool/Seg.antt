-- ===== src/Pool/Seg.antt =====
-- List segments: the slots that the `next` pointers lead through.
use zape.Base.{ℕ, ◌≡◌, ◌≢◌, refl, sym, ◌∙◌, some, List, [], ◌∷◌, ◌++◌, arith}
use zape.Pool.State.{Ptr, null, Slot, Mem, PoolList, write}

-- a slot as the list sees it
pub record Cell (P : Type 0) : Type 0 where
  pub at : Ptr
  pub flags : ℕ
  pub item : P

module _ {P : Type 0} where
  -- the slot at `c` in `m` holds what `c` says and leads to `next`
  abbrev pub Holds : Mem P → Cell P → Ptr → Type 0
  Holds m c next =
      (before : Ptr) × (m c.at
        ≡ some (record { item = c.item; next = next; prev = before; flags = c.flags }))

  -- from `p` the slots `cs` lead to `q`
  abbrev pub Seg : Mem P → Ptr → List (Cell P) → Ptr → Type 0
  Seg m p [] q = p ≡ q
  Seg m p (c ∷ cs) q = (p ≡ c.at) × (c.at ≢ null) × (next : Ptr) × Holds m c next × Seg m next cs q

  abbrev pub NotIn : Ptr → List (Cell P) → Type 0
  NotIn a [] = Unit {0}
  NotIn a (c ∷ cs) = (a ≢ c.at) × NotIn a cs

  abbrev pub Distinct : List (Cell P) → Type 0
  Distinct [] = Unit {0}
  Distinct (c ∷ cs) = NotIn c.at cs × Distinct cs

  pub write_ne : (m : Mem P) (p a : Ptr) (s : Slot P) → p ≢ a → write m p s a ≡ m a
  unfolding write
  write_ne m p a s ne = ground arith

  pub write_self : (m : Mem P) (p : Ptr) (s : Slot P) → write m p s p ≡ some s
  unfolding write
  write_self m p s = ground arith

  -- a write elsewhere leaves a segment alone
  pub frame :
      (m : Mem P) (a : Ptr) (s : Slot P) (p q : Ptr) (cs : List (Cell P))
      → NotIn a cs
      → Seg m p cs q
      → Seg (write m a s) p cs q
  frame m a s p q [] out g = g
  frame m a s p q (c ∷ cs) out g =
      (g.0, g.1, g.2, (g.3.0, write_ne m a c.at s out.0 ∙ g.3.1), frame m a s g.2 q cs out.1 g.4)

  pub Seg-append :
      (m : Mem P) (p q : Ptr) (cs ds : List (Cell P)) (r : Ptr)
      → Seg m p cs q
      → Seg m q ds r
      → Seg m p (cs ++ ds) r
  Seg-append m p q [] ds r g h = rw g h
  Seg-append m p q (c ∷ cs) ds r g h = (g.0, g.1, g.2, g.3, Seg-append m g.2 q cs ds r g.4 h)

  pub Seg-split :
      (m : Mem P) (p : Ptr) (cs ds : List (Cell P)) (r : Ptr)
      → Seg m p (cs ++ ds) r
      → (q : Ptr) × Seg m p cs q × Seg m q ds r
  Seg-split m p [] ds r g = (p, refl, g)
  Seg-split m p (c ∷ cs) ds r g =
      let (q, a, b) = Seg-split m g.2 cs ds r g.4 in (q, (g.0, g.1, g.2, g.3, a), b)

  pub NotIn-append :
      (a : Ptr) (cs ds : List (Cell P)) → NotIn a (cs ++ ds) → NotIn a cs × NotIn a ds
  NotIn-append a [] ds h = (tt, h)
  NotIn-append a (c ∷ cs) ds h = let (x, y) = NotIn-append a cs ds h.1 in ((h.0, x), y)

  pub NotIn-of_append :
      (a : Ptr) (cs ds : List (Cell P)) → NotIn a cs → NotIn a ds → NotIn a (cs ++ ds)
  NotIn-of_append a [] ds h k = k
  NotIn-of_append a (c ∷ cs) ds h k = (h.0, NotIn-of_append a cs ds h.1 k)

  pub Distinct-split :
      (cs : List (Cell P)) (z : Cell P) (ds : List (Cell P))
      → Distinct (cs ++ z ∷ ds)
      → NotIn z.at cs × NotIn z.at ds
  Distinct-split [] z ds d = (tt, d.0)
  Distinct-split (c ∷ cs) z ds d =
      let (x, y) = Distinct-split cs z ds d.1 in
      let out = NotIn-append c.at cs (z ∷ ds) d.0 in ((λ e. out.1.0 (sym e), x), y)

  -- `q` is the last of the slots
  abbrev pub Ends : Ptr → List (Cell P) → Type 0
  Ends q [] = ⊥
  Ends q (c ∷ []) = q ≡ c.at
  Ends q (c ∷ d ∷ ds) = Ends q (d ∷ ds)

  -- The list `l` holds the slots `cs`, from `head` to `queue`, each at a place of its own.
  pub record IsPool (l : PoolList P) (cs : List (Cell P)) : Type 0 where
    pub chain : Seg l.mem l.head cs null
    pub apart : Distinct cs
    pub ends : Ends l.queue cs

  pub Ends-append :
      (q : Ptr) (cs : List (Cell P)) (d : Cell P) (ds : List (Cell P))
      → Ends q (d ∷ ds)
      → Ends q (cs ++ d ∷ ds)
  Ends-append q [] d ds h = h
  Ends-append q (c ∷ []) d ds h = h
  Ends-append q (c ∷ b ∷ cs) d ds h = Ends-append q (b ∷ cs) d ds h

  pub Ends-of_append :
      (q : Ptr) (cs : List (Cell P)) (d : Cell P) (ds : List (Cell P))
      → Ends q (cs ++ d ∷ ds)
      → Ends q (d ∷ ds)
  Ends-of_append q [] d ds h = h
  Ends-of_append q (c ∷ []) d ds h = h
  Ends-of_append q (c ∷ b ∷ cs) d ds h = Ends-of_append q (b ∷ cs) d ds h

  -- a slot moved behind others keeps all apart
  pub Distinct-insert :
      (h : Cell P) (cs ds : List (Cell P))
      → NotIn h.at (cs ++ ds)
      → Distinct (cs ++ ds)
      → Distinct (cs ++ h ∷ ds)
  Distinct-insert h [] ds out d = (out, d)
  Distinct-insert h (c ∷ cs) ds out d =
      let (x, y) = NotIn-append c.at cs ds d.0 in
      (
        NotIn-of_append c.at cs (h ∷ ds) x (λ e. out.0 (sym e), y),
        Distinct-insert h cs ds out.1 d.1,
      )
