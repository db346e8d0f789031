-- ===== src/Pool/Teardown.antt =====
-- The second loop of `ape_destroy_pool_with_cleaner`: the blocks of the chain are given back.
use zape.Base.{
  ℕ, zero, suc, ◌+◌, ◌≤◌, ◌<◌, ◌≡◌, refl, Bool, true, false, ◌&&◌, ◌||◌, Option, none, some, List,
  [], ◌∷◌, ◌==◌, length, if◌then◌else◌, ltb, leb, arith, Bool-cases, inl, inr,
}
use zape.Pool.State.{Ptr, null, pool_alloc, Slot, Mem}
use zape.Pool.Seg.{Cell, Seg}
use zape.Pool.Chain.{Chain}
use zape.Pool.Destroy.{free_block, give_back, free_blocks}
use zape.Pool.Gather.{pushed}
use zape.Events.Epoll.{has}

module _ (bytes : Ptr → ℕ) where
  -- a pointer into the block at `b`
  abbrev pub inside : (b a : Ptr) → Bool
  inside b a = leb b a && ltb a (b + bytes b)

  abbrev pub covered : Ptr → List Ptr → Bool
  covered a [] = false
  covered a (b ∷ bs) = inside b a || covered a bs

  abbrev pub Outside : Ptr → List Ptr → Type 0
  Outside b [] = Unit {0}
  Outside b (d ∷ ds) = (inside b d ≡ false) × Outside b ds

  -- no block begins in one before it
  abbrev pub Separate : List Ptr → Type 0
  Separate [] = Unit {0}
  Separate (b ∷ bs) = Outside b bs × Separate bs

abbrev pub NonNull : List Ptr → Type 0
NonNull [] = Unit {0}
NonNull (b ∷ bs) = ((b == null) ≡ false) × NonNull bs

abbrev pub reverse_on : List Ptr → List Ptr → List Ptr
reverse_on [] l = l
reverse_on (b ∷ bs) l = reverse_on bs (b ∷ l)

module _ {P : Type 0} where
  -- the blocks that begin in some slots
  abbrev pub blocks_of : List (Cell P) → List Ptr
  blocks_of [] = []
  blocks_of (c ∷ cs) = if has c.flags pool_alloc then c.at ∷ blocks_of cs else blocks_of cs

  pub reverse_on-pushed :
      (cs : List (Cell P)) (bs : List Ptr)
      → reverse_on (pushed cs bs) [] ≡ reverse_on bs (blocks_of cs)
  reverse_on-pushed [] bs = refl
  reverse_on-pushed (c ∷ cs) bs = elim (Bool-cases (has c.flags pool_alloc)) [
    | inl e ↦ simp e (reverse_on-pushed cs (c.at ∷ bs))
    | inr e ↦ simp e (reverse_on-pushed cs bs)
  ]

  pub length-pushed :
      (cs : List (Cell P)) (bs : List Ptr) → length (pushed cs bs) ≤ length cs + length bs
  length-pushed [] bs = omega arith
  length-pushed (c ∷ cs) bs = elim (Bool-cases (has c.flags pool_alloc)) [
    | inl e ↦ simp e (omega (arith, length-pushed cs (c.at ∷ bs)))
    | inr e ↦ simp e (omega (arith, length-pushed cs bs))
  ]

  pub NonNull-pushed :
      (m : Mem P) (p : Ptr) (cs : List (Cell P)) (bs : List Ptr)
      → Seg m p cs null
      → NonNull bs
      → NonNull (pushed cs bs)
  NonNull-pushed m p [] bs g n = n
  NonNull-pushed m p (c ∷ cs) bs (at, ne, next, here, g) n =
      elim (Bool-cases (has c.flags pool_alloc)) [
        | inl e ↦ simp e (NonNull-pushed m next cs (c.at ∷ bs) g (ground (arith, ne), n))
        | inr e ↦ simp e (NonNull-pushed m next cs bs g n)
      ]

  pub covered-pushed :
      (bytes : Ptr → ℕ) (a : Ptr) (cs : List (Cell P)) (bs : List Ptr)
      → covered bytes a (pushed cs bs) ≡ (covered bytes a (blocks_of cs) || covered bytes a bs)
  covered-pushed bytes a [] bs = refl
  covered-pushed bytes a (c ∷ cs) bs = elim (Bool-cases (has c.flags pool_alloc)) [
    | inl e ↦ simp e (ground (arith, covered-pushed bytes a cs (c.at ∷ bs)))
    | inr e ↦ simp e (covered-pushed bytes a cs bs)
  ]

  module _ {C : Type 0} (bytes : Ptr → ℕ) (clean : Ptr → Slot P → C → Option C) where
    abbrev pub released : List Ptr → Mem P → Mem P
    released [] m = m
    released (b ∷ bs) m = released bs (free_block bytes clean b m)

    released-none : (bs : List Ptr) (m : Mem P) (a : Ptr) → m a ≡ none → released bs m a ≡ none
    unfolding free_block
    released-none [] m a h = h
    released-none (b ∷ bs) m a h =
        released-none bs (free_block bytes clean b m) a (ground (arith, h))

    pub released-covered :
        (bs : List Ptr) (m : Mem P) (a : Ptr) → covered bytes a bs ≡ true → released bs m a ≡ none
    unfolding free_block
    released-covered [] m a h = cc
    released-covered (b ∷ bs) m a h = elim (Bool-cases (inside bytes b a)) [
      | inl e ↦ released-none bs (free_block bytes clean b m) a (simp e refl)
      | inr e ↦ released-covered bs (free_block bytes clean b m) a (ground (arith, h, e))
    ]

    Chain-free :
        (m : Mem P) (b : Ptr) (bs : List Ptr) (f after : Ptr)
        → Outside bytes b bs
        → Chain m bs f after
        → Chain (free_block bytes clean b m) bs f after
    unfolding free_block
    Chain-free m b [] f after out c = elim c [ ]
    Chain-free m b (d ∷ []) f after (o, out) (e, (s, found, next, flag)) =
        (e, (s, simp o found, next, flag))
    Chain-free m b (d ∷ d' ∷ ds) f after (o, out) ((s, found, next, flag), c) =
        ((s, simp o found, next, flag), Chain-free m b (d' ∷ ds) f after out c)

    pub free_blocks_lem :
        (k : ℕ) (m : Mem P) (x : C) (b : Ptr) (bs : List Ptr) (f : Ptr) (l : List Ptr)
        → Chain m (b ∷ bs) f null
        → Separate bytes (b ∷ bs)
        → NonNull (b ∷ bs)
        → length (b ∷ bs) < k
        → free_blocks bytes clean k b (record { mem = m; context = x; freed = l })
          ≡ some (record { mem = released (b ∷ bs) m; context = x; freed = reverse_on (b ∷ bs) l })
    unfolding free_blocks give_back
    free_blocks_lem zero m x b bs f l c o n enough = absurd (omega arith)
    free_blocks_lem (suc zero) m x b bs f l c o n enough = absurd (omega arith)
    free_blocks_lem (suc (suc k)) m x b [] f l (e, (s, found, next, flag)) o (n, _) enough =
        simp n (simp found (simp flag (simp next refl)))
    free_blocks_lem (suc (suc k)) m x b (d ∷ ds) f l ((s, found, next, flag), c) (o, os) (n, ns)
          enough =
        let rest =
          free_blocks_lem (suc k) (free_block bytes clean b m) x d ds f (b ∷ l)
            (Chain-free m b (d ∷ ds) f null o c) os ns (omega arith) in
        simp n (simp found (simp flag (simp next rest)))
