-- ===== src/Hash/Free.antt =====
-- `hashtbl_free` on an explicit heap, where an access to an item that has been freed is `none`.
use zape.Base.{ℕ, zero, suc, Bool, Option, none, some, List, [], ◌∷◌, ◌==◌, if◌then◌else◌}
use zape.Base.Fault.{◌>>=◌}
use zape.Pool.State.{Ptr, null}
use zape.Hash.State.{Event, cleaned, freed, key_freed, table_freed, htbl_freed}

-- what `hashtbl_free` reads of an item
pub record Node : Type 0 where
  pub next : Ptr
  pub content : ℕ

abbrev pub Heap : Type 0
Heap = Ptr → Option Node

-- `free` of an item
unfoldable pub free_item : Heap → Ptr → Heap
free_item m p a = if a == p then none else m a

module _ (has_cleaner is_str : Bool) where
  -- the cleaner, if one is set, and `free` of the string, if the keys are strings
  unfoldable pub clean_item : Ptr → Node → List Event → List Event
  clean_item p n log =
      let log₁ = if has_cleaner then cleaned n.content ∷ log else log in
      if is_str then key_freed p ∷ log₁ else log₁

  -- the loop over a bucket, on fuel
  unfoldable pub free_chain : (fuel : ℕ) → Ptr → Heap → List Event → Option (Heap × List Event)
  free_chain zero p m log = none
  free_chain (suc k) p m log =
      if p == null
      then some (m, log)
      else (do n ← m p; free_chain k n.next (free_item m p) (freed p ∷ clean_item p n log))

  -- the loop over the buckets, given by their first items
  unfoldable pub free_chains :
      (fuel : ℕ) → List Ptr → Heap → List Event → Option (Heap × List Event)
  free_chains k [] m log = some (m, log)
  free_chains k (p ∷ ps) m log = do (m₁, log₁) ← free_chain k p m log; free_chains k ps m₁ log₁

  -- `hashtbl_free`, with the events, the last first
  unfoldable pub free_table : (fuel : ℕ) → List Ptr → Heap → List Event → Option (Heap × List Event)
  free_table k ps m log = do
    (m₁, log₁) ← free_chains k ps m log
    some (m₁, htbl_freed ∷ table_freed ∷ log₁)
