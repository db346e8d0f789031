-- ===== src/Pool/DestroyTests.antt =====
-- A list of two blocks at its destruction.
use zape.Base.{
  ℕ, ◌≡◌, ◌≢◌, refl, true, false, Option, none, some, List, [], ◌∷◌, ◌==◌, if◌then◌else◌, arith,
}
use zape.Pool.State.{Ptr, null, Slot, Mem}
use zape.Pool.Seg.{Cell, Seg, Distinct}
use zape.Pool.Destroy.{
  Teardown, destroy_pool_with_cleaner, destroy_pool_ordered, free_ordered, give_back, free_block,
}
use zape.Pool.Teardown.{covered, blocks_of}
use zape.Pool.Cleaned.{destroy_pool_with_cleaner-folded}

abbrev slot : (item next prev flags : ℕ) → Option (Slot ℕ)
slot i n p f = some (record { item = i; next = n; prev = p; flags = f })

-- two blocks of two slots, whose second slots have been moved behind the beginning of both
abbrev heap : Mem ℕ
heap a =
    if a == 4096
    then slot 10 8192 0 1
    else if a == 8192
    then slot 20 4128 4096 1
    else if a == 4128
    then slot 11 8224 8192 0
    else if a == 8224
    then slot 21 0 4128 0
    else none

abbrev cell : (p f x : ℕ) → Cell ℕ
cell p f x = record { at = p; flags = f; item = x }

abbrev cells : List (Cell ℕ)
cells = cell 4096 1 10 ∷ cell 8192 1 20 ∷ cell 4128 0 11 ∷ cell 8224 0 21 ∷ []

ne : (p q : ℕ) → (p == q) ≡ false → p ≢ q
ne p q h e = ground (arith, h, e)

cells-Seg : Seg heap 4096 cells null
cells-Seg = (
  refl,
  ne 4096 0 refl,
  8192,
  (0, refl),
  (
    refl,
    ne 8192 0 refl,
    4128,
    (4096, refl),
    (refl, ne 4128 0 refl, 8224, (8192, refl), (refl, ne 8224 0 refl, 0, (4128, refl), refl)),
  ),
)

cells-Distinct : Distinct cells
cells-Distinct = (
  (ne 4096 8192 refl, (ne 4096 4128 refl, (ne 4096 8224 refl, tt))),
  ((ne 8192 4128 refl, (ne 8192 8224 refl, tt)), ((ne 4128 8224 refl, tt), (tt, tt))),
)

-- a cleaner that collects the items
abbrev note : Ptr → Slot ℕ → List ℕ → Option (List ℕ)
note p s xs = some (s.item ∷ xs)

abbrev noted : Cell ℕ → List ℕ → List ℕ
noted c xs = c.item ∷ xs

abbrev sizes : Ptr → ℕ
sizes p = 64

destroy_pool_with_cleaner-folded_example :
    (e : Teardown ℕ (List ℕ)) × (destroy_pool_with_cleaner sizes note 6 4096 heap [] ≡ some e)
    × (e.context ≡ 21 ∷ 11 ∷ 20 ∷ 10 ∷ [])
    × (e.freed ≡ 4096 ∷ 8192 ∷ [])
    × ((a : Ptr) → covered sizes a (blocks_of cells) ≡ true → e.mem a ≡ none)
destroy_pool_with_cleaner-folded_example =
    destroy_pool_with_cleaner-folded sizes note noted (λ c next before x. refl) 6 cells heap 4096 []
      cells-Seg cells-Distinct ((refl, tt), (tt, tt)) (omega arith)

-- The ordered destructor gives the first block back before its second slot has been visited.
destroy_pool_ordered_test : destroy_pool_ordered sizes note 6 4096 heap [] ≡ none
unfolding destroy_pool_ordered free_ordered give_back free_block
destroy_pool_ordered_test = refl
