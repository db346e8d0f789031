-- ===== src/Pool/Destroy.antt =====
-- The destructors of ape_pool.c. `bytes` is what `malloc` has recorded: the size of the block that
-- begins at a pointer. `clean` is the cleaner on the slot at a pointer with its context; the null
-- cleaner leaves the context as it is. `none` is an access to a slot that is not there, a slot of a
-- block given back among them.
use zape.Base.{
  ℕ, zero, suc, ◌+◌, true, false, not, ◌&&◌, Option, none, some, List, [], ◌∷◌, ltb, leb, ◌==◌,
  if◌then◌else◌,
}
use zape.Base.Fault.{◌>>=◌}
use zape.Pool.State.{Ptr, null, pool_alloc, Slot, Mem, PoolList, set_next}
use zape.Events.Epoll.{has}

-- the memory, the context and the blocks given back, the last first
pub record Teardown (P C : Type 0) : Type 0 where
  pub mem : Mem P
  pub context : C
  pub freed : List Ptr

module _ {P C : Type 0} where
  module _ (bytes : Ptr → ℕ) (clean : Ptr → Slot P → C → Option C) where
    -- `free`
    unfoldable pub free_block : Ptr → Mem P → Mem P
    free_block b m a = if leb b a && ltb a (b + bytes b) then none else m a

    unfoldable pub give_back : Ptr → Teardown P C → Teardown P C
    give_back b e = record e { mem = free_block b e.mem; freed = b ∷ e.freed }

    -- the first loop of `ape_destroy_pool_with_cleaner`, with `tPool` and `fPool`
    unfoldable pub gather_blocks :
        (fuel : ℕ) → (pool t f : Ptr) → Mem P → C → Option (Ptr × Ptr × Mem P × C)
    gather_blocks zero pool t f m c = none
    gather_blocks (suc k) pool t f m c = if pool == null then some (t, f, m, c) else (do
      s ← m pool
      c₁ ← clean pool s c
      let allocated = has s.flags pool_alloc
      let first = if allocated && (f == null) then pool else f
      elim (allocated && not (t == null)) [
        | true ↦ do
          m₁ ← set_next m first s.next
          m₂ ← set_next m₁ pool t
          s₁ ← m₂ first
          gather_blocks k s₁.next pool first m₂ c₁
        | false ↦ gather_blocks k s.next (if allocated then pool else t) first m c₁
      ])

    -- its second loop
    unfoldable pub free_blocks : (fuel : ℕ) → Ptr → Teardown P C → Option (Teardown P C)
    free_blocks zero pool e = none
    free_blocks (suc k) pool e = if pool == null then some e else (do
      s ← e.mem pool
      if has s.flags pool_alloc then free_blocks k s.next (give_back pool e) else some e)

    -- `ape_destroy_pool_with_cleaner`, and `ape_destroy_pool`, whose cleaner is null
    unfoldable pub destroy_pool_with_cleaner : (fuel : ℕ) → Ptr → Mem P → C → Option (Teardown P C)
    destroy_pool_with_cleaner k pool m c = do
      (t, f, m₁, c₁) ← gather_blocks k pool null null m c
      m₂ ← if f == null then some m₁ else set_next m₁ f null
      free_blocks k t (record { mem = m₂; context = c₁; freed = [] })

    -- `ape_destroy_pool_list_with_cleaner`, but for `free` of the list itself
    unfoldable pub destroy_pool_list_with_cleaner :
        (fuel : ℕ) → PoolList P → C → Option (Teardown P C)
    destroy_pool_list_with_cleaner k l c = destroy_pool_with_cleaner k l.head l.mem c

    -- the loop of `ape_destroy_pool_ordered`, with `tPool`
    unfoldable pub free_ordered :
        (fuel : ℕ) → (pool t : Ptr) → Teardown P C → Option (Ptr × Teardown P C)
    free_ordered zero pool t e = none
    free_ordered (suc k) pool t e = if pool == null then some (t, e) else (do
      s ← e.mem pool
      c ← clean pool s e.context
      let e₁ = record e { context = c }
      let allocated = has s.flags pool_alloc
      let e₂ = if allocated && not (t == null) then give_back t e₁ else e₁
      s₁ ← e₂.mem pool
      free_ordered k s₁.next (if allocated then pool else t) e₂)

    -- `ape_destroy_pool_ordered`
    unfoldable pub destroy_pool_ordered : (fuel : ℕ) → Ptr → Mem P → C → Option (Teardown P C)
    destroy_pool_ordered k pool m c = do
      (t, e) ← free_ordered k pool null (record { mem = m; context = c; freed = [] })
      some (if t == null then e else give_back t e)

    -- `ape_destroy_pool_list_ordered`, but for `free` of the list itself
    unfoldable pub destroy_pool_list_ordered : (fuel : ℕ) → PoolList P → C → Option (Teardown P C)
    destroy_pool_list_ordered k l c = destroy_pool_ordered k l.head l.mem c
