-- ===== src/Hash/Freed.antt =====
-- What `hashtbl_free` does to the items of its buckets.
use zape.Base.{
  ℕ, zero, suc, ◌<◌, ◌≡◌, ◌≢◌, refl, ◌∙◌, Bool, false, none, some, List, [], ◌∷◌, ◌++◌, length,
  ◌==◌, if◌then◌else◌, arith, ◌||◌, Bool-cases, inl, inr,
}
use zape.Pool.State.{Ptr, null}
use zape.Pool.Chain.{Absent, Apart}
use zape.Hash.Chain.{Item, places}
use zape.Hash.State.{Event, cleaned, freed, key_freed, table_freed, htbl_freed}
use zape.Hash.Free.{Heap, free_item, clean_item, free_chain, free_chains, free_table}

abbrev pub erased : List Ptr → Heap → Heap
erased [] m = m
erased (p ∷ ps) m = erased ps (free_item m p)

free_other : (m : Heap) (p a : Ptr) → p ≢ a → free_item m p a ≡ m a
unfolding free_item
free_other m p a ne = ground arith

abbrev pub is_in : Ptr → List Ptr → Bool
is_in a [] = false
is_in a (p ∷ ps) = (a == p) || is_in a ps

erased-none : (ps : List Ptr) (m : Heap) (a : Ptr) → m a ≡ none → erased ps m a ≡ none
unfolding free_item
erased-none [] m a e = e
erased-none (p ∷ ps) m a e = erased-none ps (free_item m p) a (ground (arith, e))

erased_at :
    (ps : List Ptr) (m : Heap) (a : Ptr) → erased ps m a ≡ (if is_in a ps then none else m a)
unfolding free_item
erased_at [] m a = refl
erased_at (p ∷ ps) m a = elim (Bool-cases (a == p)) [
  | inl e ↦ simp (e, if◌then◌else◌) (erased-none ps (free_item m p) a (simp e refl))
  | inr e ↦ erased_at ps (free_item m p) a ∙ simp (e, if◌then◌else◌) refl
]

erased-append : (ps qs : List Ptr) (m : Heap) → erased (ps ++ qs) m ≡ erased qs (erased ps m)
erased-append [] qs m = refl
erased-append (p ∷ ps) qs m = erased-append ps qs (free_item m p)

Absent-split : (a : Ptr) (xs ys : List Ptr) → Absent a (xs ++ ys) → Absent a xs × Absent a ys
Absent-split a [] ys h = (tt, h)
Absent-split a (x ∷ xs) ys (ne, h) = let (l, r) = Absent-split a xs ys h in ((ne, l), r)

module _ {K : Type 0} where
  -- the items of a bucket are linked from `p` on
  abbrev pub Linked : Heap → Ptr → List (Item K) → Type 0
  Linked m p [] = p ≡ null
  Linked m p (u ∷ c) =
      (p ≡ u.at)
      × ((u.at == null) ≡ false)
      × (next : Ptr) × (m u.at ≡ some (record { next = next; content = u.content }))
      × Linked m next c

  abbrev pub AllLinked : Heap → List Ptr → List (List (Item K)) → Type 0
  AllLinked m [] [] = Unit
  AllLinked m (p ∷ ps) (c ∷ cs) = Linked m p c × AllLinked m ps cs
  AllLinked m _ _ = ⊥

  abbrev pub all_places : List (List (Item K)) → List Ptr
  all_places [] = []
  all_places (c ∷ cs) = places c ++ all_places cs

  -- each bucket is shorter than the fuel
  abbrev pub AllShort : (fuel : ℕ) → List (List (Item K)) → Type 0
  AllShort k [] = Unit
  AllShort k (c ∷ cs) = (length c < k) × AllShort k cs

  Linked-free :
      (m : Heap) (a p : Ptr) (c : List (Item K))
      → Absent a (places c)
      → Linked m p c
      → Linked (free_item m a) p c
  Linked-free m a p [] out g = g
  Linked-free m a p (u ∷ c) (ne, out) (at, nn, next, here, g) =
      (at, nn, next, free_other m a u.at ne ∙ here, Linked-free m a next c out g)

  AllLinked-free :
      (m : Heap) (a : Ptr) (ps : List Ptr) (cs : List (List (Item K)))
      → Absent a (all_places cs)
      → AllLinked m ps cs
      → AllLinked (free_item m a) ps cs
  AllLinked-free m a [] [] out g = tt
  AllLinked-free m a [] (c ∷ cs) out g = g
  AllLinked-free m a (p ∷ ps) [] out g = g
  AllLinked-free m a (p ∷ ps) (c ∷ cs) out (g, gs) =
      let (l, r) = Absent-split a (places c) (all_places cs) out in
      (Linked-free m a p c l g, AllLinked-free m a ps cs r gs)

module _ (has_cleaner is_str : Bool) where
  module _ {K : Type 0} where
    -- what is done to the items, the last first: to each its cleaner, `free` of its string and of itself
    abbrev pub ends : List (Item K) → List Event → List Event
    ends [] log = log
    ends (u ∷ c) log = ends c (
        freed u.at
        ∷ (if is_str
            then key_freed u.at ∷ (if has_cleaner then cleaned u.content ∷ log else log)
            else if has_cleaner
            then cleaned u.content ∷ log
            else log))

    abbrev pub all_ends : List (List (Item K)) → List Event → List Event
    all_ends [] log = log
    all_ends (c ∷ cs) log = all_ends cs (ends c log)

    free_chain_lem :
        (k : ℕ) (c : List (Item K)) (p : Ptr) (ps : List Ptr) (cs : List (List (Item K))) (m : Heap)
        (log : List Event)
        → Linked m p c
        → AllLinked m ps cs
        → Apart (places c ++ all_places cs)
        → length c < k
        → (free_chain has_cleaner is_str k p m log ≡ some (erased (places c) m, ends c log))
          × AllLinked (erased (places c) m) ps cs
          × Apart (all_places cs)
    unfolding free_chain clean_item
    free_chain_lem zero c p ps cs m log g gs apart enough = absurd (omega arith)
    free_chain_lem (suc k) [] p ps cs m log g gs apart enough = (rw g refl, gs, apart)
    free_chain_lem (suc k) (u ∷ c) p ps cs m log (at, nn, next, here, g) gs (out, apart) enough =
        let (l, r) = Absent-split u.at (places c) (all_places cs) out in
        let (run, gs', apart') =
          free_chain_lem k c next ps cs (free_item m u.at) _ (Linked-free m u.at next c l g)
            (AllLinked-free m u.at ps cs r gs) apart (omega arith) in
        (rw (at, nn, here, if◌then◌else◌) run, gs', apart')

    free_chains_lem :
        (k : ℕ) (ps : List Ptr) (cs : List (List (Item K))) (m : Heap) (log : List Event)
        → AllLinked m ps cs
        → Apart (all_places cs)
        → AllShort k cs
        → free_chains has_cleaner is_str k ps m log
          ≡ some (erased (all_places cs) m, all_ends cs log)
    unfolding free_chains
    free_chains_lem k [] [] m log g apart enough = refl
    free_chains_lem k [] (c ∷ cs) m log g apart enough = elim g [ ]
    free_chains_lem k (p ∷ ps) [] m log g apart enough = elim g [ ]
    free_chains_lem k (p ∷ ps) (c ∷ cs) m log (g, gs) apart (short, enough) =
        let (run, gs', apart') = free_chain_lem k c p ps cs m log g gs apart short in
        rw (run, erased-append (places c) (all_places cs) m)
          (free_chains_lem k ps cs (erased (places c) m) (ends c log) gs' apart' enough)

    -- `hashtbl_free` of buckets that are linked in memory, with every item at a place of its own, runs
    -- with fuel for each item of a bucket and a last round, without an access to an item that has been freed.
    -- For each item, in the order of the buckets and of `next`, it has called the cleaner, if one
    -- is set, and freed the string, if the keys are strings, and the item; then it has freed the buckets and the
    -- table. Of the items nothing is left in memory, and the rest is as before.
    pub free_table_lem :
        (k : ℕ) (ps : List Ptr) (cs : List (List (Item K))) (m : Heap) (log : List Event)
        → AllLinked m ps cs
        → Apart (all_places cs)
        → AllShort k cs
        → (m' : Heap) × (free_table has_cleaner is_str k ps m log
            ≡ some (m', htbl_freed ∷ table_freed ∷ all_ends cs log))
          × ((a : Ptr) → m' a ≡ (if is_in a (all_places cs) then none else m a))
    unfolding free_table
    free_table_lem k ps cs m log g apart enough = (
      erased (all_places cs) m,
      rw (free_chains_lem k ps cs m log g apart enough) refl,
      λ a. erased_at (all_places cs) m a,
    )
