-- ===== src/Pool/Push.antt =====
-- `ape_pool_push` on the sequence of the slots of a list.
use zape.Base.{
  ℕ, ◌<◌, ◌≡◌, refl, ap, ◌∙◌, true, false, some, List, [], ◌∷◌, ◌++◌, ◌==◌, if◌then◌else◌, arith,
}
use zape.Pool.State.{Ptr, null, pool_alloc, PoolList, Slot, Mem, set_item, grow_pool, push}
use zape.Pool.Seg.{Cell, Distinct, IsPool}
use zape.Pool.ToItem.{holding, set_item-IsPool, IsPool-slot}
use zape.Pool.Grow.{block, grow_pool-IsPool}

module _ {P : Type 0} (blank : P) where
  -- the slots behind the current one when an item is stored there: those that are, or eight new ones
  abbrev pub room : (size : ℕ) → (base : Ptr) → List (Cell P) → List (Cell P)
  room size base [] = block blank size base pool_alloc 8
  room size base (d ∷ ds) = d ∷ ds

  -- a list with another current slot
  abbrev at_slot : PoolList P → Ptr → PoolList P
  at_slot l p = record l { current = p }

  at_slot-IsPool :
      (l : PoolList P) (p : Ptr) (cs : List (Cell P)) → IsPool l cs → IsPool (at_slot l p) cs
  at_slot-IsPool l p cs v = record { chain = v.chain; apart = v.apart; ends = v.ends }

  push_run :
      (l : PoolList P) (x : P) (base : Ptr) (s : Slot P) (l₁ : PoolList P) (mem : Mem P)
      (s₁ : Slot P)
      → l.mem l.current ≡ some s
      → (if s.next == null then grow_pool blank l 8 base else some l) ≡ some l₁
      → set_item l₁.mem l₁.current x ≡ some mem
      → mem l₁.current ≡ some s₁
      → push blank l x base
        ≡ some (let r : PoolList P = record l₁ { mem = mem } in record r { current = s₁.next })
  unfolding push
  push_run l x base s l₁ mem s₁ e f g h = simp (e, f, g, h)

  -- the end of a push, for a list with a slot behind the current one
  store_next :
      (l l₁ : PoolList P) (front ds : List (Cell P)) (c d : Cell P) (x : P) (base : Ptr)
      (s : Slot P)
      → IsPool l₁ (front ++ c ∷ d ∷ ds)
      → l₁.current ≡ c.at
      → l.mem l.current ≡ some s
      → (if s.next == null then grow_pool blank l 8 base else some l) ≡ some l₁
      → (l' : PoolList P) × (push blank l x base ≡ some l')
        × IsPool l' (front ++ holding c x ∷ d ∷ ds)
        × (l'.current ≡ d.at)
  store_next l l₁ front ds c d x base s v here e f =
      let (mem, run, v₁) = set_item-IsPool l₁ front (d ∷ ds) c x v in
      let (s₁, h, g) = IsPool-slot (record l₁ { mem = mem }) front (d ∷ ds) (holding c x) v₁ in
      (
        at_slot (record l₁ { mem = mem }) s₁.next,
        push_run l x base s l₁ mem s₁ e f (ap (λ a. set_item l₁.mem a x) here ∙ run)
            (ap mem here ∙ h),
        at_slot-IsPool (record l₁ { mem = mem }) s₁.next _ v₁,
        g.0,
      )

  -- `ape_pool_push` stores an item in the current slot, and the slot behind it is current then: one
  -- that was there, or the first of eight new ones. The hypotheses on `base` are those of `malloc`: a
  -- place that is not null, with slots that are none of the list's.
  pub push-IsPool :
      (l : PoolList P) (front back : List (Cell P)) (c : Cell P) (x : P) (base : Ptr)
      → IsPool l (front ++ c ∷ back)
      → l.current ≡ c.at
      → 0 < base
      → Distinct (front ++ c ∷ (back ++ block blank l.size base pool_alloc 8))
      → (l' : PoolList P) × (d : Cell P) × (ds : List (Cell P)) × (room l.size base back ≡ d ∷ ds)
        × (push blank l x base ≡ some l')
        × IsPool l' (front ++ holding c x ∷ d ∷ ds)
        × (l'.current ≡ d.at)
  push-IsPool l front (d ∷ ds) c x base v here pos apart =
      let (s, e, g) = IsPool-slot l front (d ∷ ds) c v in
      let keeps : (s.next == null) ≡ false = ground (arith, g.0, g.1) in
      let (l', y, z, w) =
        store_next l l front ds c d x base s v here (ap l.mem here ∙ e)
          (simp (keeps, if◌then◌else◌)) in
      (l', d, ds, refl, y, z, w)
  push-IsPool l front [] c x base v here pos apart =
      let (s, e, g) = IsPool-slot l front [] c v in
      let (l₁, run, v₁, same) = grow_pool-IsPool blank l.size l front c 7 base v refl pos apart in
      let grows : (s.next == null) ≡ true = ground (arith, g) in
      let (l', y, z, w) =
        store_next l l₁ front _ c _ x base s v₁ (same ∙ here) (ap l.mem here ∙ e)
          ((simp (grows, if◌then◌else◌)) ∙ run) in
      (l', _, _, refl, y, z, w)
