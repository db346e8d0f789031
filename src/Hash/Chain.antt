-- ===== src/Hash/Chain.antt =====
-- The chain of a bucket: the loops over `next` of ape_hash.c, and their laws.
use zape.Base.{ℕ, ◌+◌, ◌≡◌, Bool, true, Option, none, some, List, [], ◌∷◌, ◌==◌, if◌then◌else◌}
use zape.Base.Fault.{◌>>=◌}
use zape.Pool.State.{Ptr}

-- `ape_htable_item_t`; `content` is the union of a pointer and a `uint32_t`
pub record Item (K : Type 0) : Type 0 where
  pub at : Ptr
  pub key : K
  pub content : ℕ

-- how often a pointer stands in a list
abbrev pub count : Ptr → List Ptr → ℕ
count p [] = 0
count p (q ∷ ps) = (if p == q then 1 else 0) + count p ps

abbrev pub places : {K : Type 0} → List (Item K) → List Ptr
places [] = []
places (t ∷ c) = t.at ∷ places c

-- the comparison of a stored key with a key: an equivalence
pub record IsEquiv {K : Type 0} (same : K → K → Bool) : Type 0 where
  pub reflexive : (a : K) → same a a ≡ true
  pub congr_left : (a b c : K) → same a b ≡ true → same a c ≡ same b c
  pub congr_right : (a b c : K) → same a b ≡ true → same c a ≡ same c b

module _ {K : Type 0} (same : K → K → Bool) where
  -- the loop of the `seek` functions
  unfoldable pub find : K → List (Item K) → Option ℕ
  find k [] = none
  find k (t ∷ c) = if same t.key k then some t.content else find k c

  -- the loop of the `append` functions over a chain: the content of the item with the key is changed
  unfoldable pub assign : K → (ℕ → ℕ) → List (Item K) → Option (List (Item K))
  assign k f [] = none
  assign k f (t ∷ c) =
      if same t.key k
      then some (record t { content = f t.content } ∷ c)
      else (do c' ← assign k f c; some (t ∷ c'))

  -- the loop of the `erase` functions: the item with the key, and the chain without it
  unfoldable pub remove : K → List (Item K) → Option (Item K × List (Item K))
  remove k [] = none
  remove k (t ∷ c) =
      if same t.key k then some (t, c) else (do (u, c') ← remove k c; some (u, t ∷ c'))

  -- no two items have the same key
  abbrev pub Distinct : List (Item K) → Type 0
  Distinct [] = Unit {0}
  Distinct (t ∷ c) = (find t.key c ≡ none) × Distinct c
