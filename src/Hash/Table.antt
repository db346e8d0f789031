-- ===== src/Hash/Table.antt =====
-- The three ways to change a table, against the contents found under the keys.
use mathlib.Core.Path.{subst}
use zape.Base.{
  ℕ, zero, suc, ◌+◌, ◌<◌, ◌≡◌, inl, inr, refl, ap, ◌∙◌, Bool, true, false, Option, none, some, List,
  [], ◌∷◌, length, get_elem?, ◌==◌, if◌then◌else◌, arith, Bool-cases,
}
use zape.Base.Fault.{◌>>=◌, store, >>=-eq-some}
use zape.Pool.State.{Ptr}
use zape.Hash.Chain.{Item, count, places, IsEquiv, find, assign, Distinct}
use zape.Hash.State.{Table, freed, clean, insert}

-- how often an item stands in the chains
abbrev pub total : {K : Type 0} → Ptr → List (List (Item K)) → ℕ
total p [] = 0
total p (c ∷ cs) = count p (places c) + total p cs

module _ {K : Type 0} (same : K → K → Bool) where
  -- There is a chain for each bucket, no chain has a key twice, and the items that are linked from
  -- `first` on are those of the chains, each as often.
  pub record IsTable (t : Table K) : Type 0 where
    pub sized : length t.table ≡ t.size
    pub roomy : 0 < t.size
    pub distinct : (i : ℕ) (c : List (Item K)) → get_elem? t.table i ≡ some c → Distinct same c
    pub linked : (p : Ptr) → count p t.first ≡ total p t.table

  -- what is found in a bucket under a key
  abbrev pub found : Table K → (h : ℕ) → K → Option ℕ
  found t h q = do c ← get_elem? t.table h; find same q c

module _ {ℓ} {A : Type ℓ} where
  pub store_in :
      (xs : List A) (i : ℕ) (v : A) → i < length xs → (ys : List A) × (store xs i v ≡ some ys)
  unfolding store
  store_in [] i v h = absurd (omega arith)
  store_in (x ∷ xs) zero v h = (v ∷ xs, refl)
  store_in (x ∷ xs) (suc i) v h = let (ys, e) = store_in xs i v (omega arith) in (x ∷ ys, rw e refl)

  pub get_elem?-store :
      (xs ys : List A) (i j : ℕ) (v : A)
      → store xs i v ≡ some ys
      → get_elem? ys j ≡ (if j == i then some v else get_elem? xs j)
  unfolding store
  get_elem?-store [] ys i j v h = cc
  get_elem?-store (x ∷ xs) ys zero zero v h = ground arith
  get_elem?-store (x ∷ xs) ys zero (suc j) v h = ground arith
  get_elem?-store (x ∷ xs) ys (suc i) zero v h =
      let (zs, run, e) = >>=-eq-some (store xs i v) (λ zs. some (x ∷ zs)) h in ground arith
  get_elem?-store (x ∷ xs) ys (suc i) (suc j) v h =
      let (zs, run, e) = >>=-eq-some (store xs i v) (λ zs. some (x ∷ zs)) h in
      ground (arith, get_elem?-store xs zs i j v run)

pub total-store :
    {K : Type 0} (p : Ptr) (cs ds : List (List (Item K))) (i : ℕ) (old c : List (Item K))
    → get_elem? cs i ≡ some old
    → store cs i c ≡ some ds
    → total p ds + count p (places old) ≡ total p cs + count p (places c)
unfolding store
total-store p [] ds i old c e h = cc
total-store p (x ∷ cs) ds zero old c e h = ground arith
total-store p (x ∷ cs) ds (suc i) old c e h =
    let (zs, run, f) = >>=-eq-some (store cs i c) (λ zs. some (x ∷ zs)) h in
    ground (arith, total-store p cs zs i old c e run)

module _ {K : Type 0} (same : K → K → Bool) (eq : IsEquiv same) where
  -- a table in which one chain is another
  abbrev with_chain : Table K → List (List (Item K)) → Table K
  with_chain t cs = record t { table = cs }

  pub insert_found :
      (h : ℕ) (k : K) (u : Item K) (f : ℕ → ℕ) (cleans : Bool) (t : Table K) (c c' : List (Item K))
      (ds : List (List (Item K)))
      → get_elem? t.table h ≡ some c
      → assign same k f c ≡ some c'
      → store t.table h c' ≡ some ds
      → insert same h k u f cleans t
        ≡ some (record t {
          table = ds;
          log = freed u.at ∷ (if cleans then clean t u.content else t.log);
        })
  unfolding insert
  insert_found h k u f cleans t c c' ds e g s = ground arith

  pub insert_new :
      (h : ℕ) (k : K) (u : Item K) (f : ℕ → ℕ) (cleans : Bool) (t : Table K) (c : List (Item K))
      (ds : List (List (Item K)))
      → get_elem? t.table h ≡ some c
      → assign same k f c ≡ none
      → store t.table h (u ∷ c) ≡ some ds
      → insert same h k u f cleans t ≡ some (record t { table = ds; first = u.at ∷ t.first })
  unfolding insert
  insert_new h k u f cleans t c ds e g s = ground arith

  -- one chain changed for another with distinct keys
  pub Distinct-store :
      (cs ds : List (List (Item K))) (h : ℕ) (c : List (Item K))
      → ((i : ℕ) (b : List (Item K)) → get_elem? cs i ≡ some b → Distinct same b)
      → store cs h c ≡ some ds
      → Distinct same c
      → (i : ℕ) (b : List (Item K)) → get_elem? ds i ≡ some b
      → Distinct same b
  Distinct-store cs ds h c all run d i b e = elim (Bool-cases (i == h)) [
    | inl here ↦
        let q : c ≡ b = ground (arith, get_elem?-store cs ds h i c run) in subst (Distinct same) q d
    | inr other ↦ all i b (ground (arith, get_elem?-store cs ds h i c run))
  ]

  -- what is found in a bucket, when one chain has become another
  pub found-store :
      (t t' : Table K) (h i : ℕ) (c c' : List (Item K)) (q : K)
      → get_elem? t.table h ≡ some c
      → store t.table h c' ≡ some t'.table
      → found same t' i q ≡ (if i == h then find same q c' else found same t i q)
  found-store t t' h i c c' q e run =
      ap (λ o. o >>= find same q) (get_elem?-store t.table t'.table h i c' run) ∙ split (i == h)
    where
      split :
          (b : Bool)
          → ((if b then some c' else get_elem? t.table i) >>= find same q)
            ≡ (if b then find same q c' else found same t i q)
      split true = refl
      split false = refl
