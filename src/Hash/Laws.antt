-- ===== src/Hash/Laws.antt =====
-- The chains as association lists up to the comparison of keys.
use mathlib.Core.Option
use mathlib.Core.Path.{subst⁻¹}
use zape.Base.{
  ℕ, ◌+◌, ◌≡◌, refl, ◌∙◌, Bool, true, false, none, some, List, [], ◌∷◌, ◌==◌, if◌then◌else◌, arith,
  Option-cases, Bool-cases, ◌⊎◌, inl, inr,
}
use zape.Base.Fault.{◌>>=◌}
use zape.Pool.State.{Ptr}
use zape.Hash.Chain.{Item, count, places, IsEquiv, find, assign, remove, Distinct}

module _ {K : Type 0} (same : K → K → Bool) where
  module _ (eq : IsEquiv same) (k q : K) where
    open eq use {congr_left, congr_right}

    pub find-assign :
        (f : ℕ → ℕ) (c c' : List (Item K))
        → assign same k f c ≡ some c'
        → find same q c' ≡ (if same k q then (do v ← find same q c; some (f v)) else find same q c)
    unfolding find assign
    find-assign f [] c' h = cc
    find-assign f (t ∷ c) c' h = elim (Option-cases (assign same k f c)) [
      | inl none_here ↦ ground (arith, congr_left t.key k q, congr_right k q t.key)
      | inr (d, e) ↦
          ground (arith, find-assign f c d e, congr_left t.key k q, congr_right k q t.key)
    ]

    -- what `g` sees of a new content `v` is found under the key alone
    pub find-assign_seen :
        (f g : ℕ → ℕ) (v : ℕ) (c c' : List (Item K))
        → ((x : ℕ) → g (f x) ≡ v)
        → assign same k f c ≡ some c'
        → Option.map g (find same q c')
          ≡ (if same k q then some v else Option.map g (find same q c))
    unfolding find assign
    find-assign_seen f g v [] c' seen h = cc
    find-assign_seen f g v (t ∷ c) c' seen h = elim (Option-cases (assign same k f c)) [
      | inl none_here ↦ ground (arith, seen t.content, congr_left t.key k q, congr_right k q t.key)
      | inr (d, e) ↦ ground (
        arith,
        seen t.content,
        find-assign_seen f g v c d seen e,
        congr_left t.key k q,
        congr_right k q t.key,
      )
    ]

    -- nothing of the key is found where there is none to change
    pub find-eq-none :
        (f : ℕ → ℕ) (c : List (Item K)) → assign same k f c ≡ none → find same k c ≡ none
    unfolding find assign
    find-eq-none f [] h = refl
    find-eq-none f (t ∷ c) h = elim (Option-cases (assign same k f c)) [
      | inl e ↦ ground (arith, find-eq-none f c e)
      | inr (d, e) ↦ ground arith
    ]

    pub find_congr : (c : List (Item K)) → same k q ≡ true → find same k c ≡ find same q c
    unfolding find
    find_congr [] h = refl
    find_congr (t ∷ c) h = ground (arith, find_congr c h, congr_right k q t.key)

  remove-cons :
      (k : K) (u : Item K) (c c' : List (Item K)) (t : Item K)
      → remove same k (u ∷ c) ≡ some (t, c')
      → ((same u.key k ≡ true) × (c' ≡ c))
        ⊎ ((rest : List (Item K)) × (same u.key k ≡ false)
            × (remove same k c ≡ some (t, rest))
            × (c' ≡ u ∷ rest))
  unfolding remove
  remove-cons k u c c' t h = elim (Option-cases (remove same k c)) [
    | inl e ↦ ground arith
    | inr ((v, rest), e) ↦ elim (Bool-cases (same u.key k)) [
      | inl y ↦ inl (y, ground arith)
      | inr n ↦ inr (rest, n, ground arith, ground arith)
    ]
  ]

  assign-cons :
      (k : K) (f : ℕ → ℕ) (u : Item K) (c c' : List (Item K))
      → assign same k f (u ∷ c) ≡ some c'
      → ((same u.key k ≡ true) × (c' ≡ record u { content = f u.content } ∷ c))
        ⊎ ((rest : List (Item K)) × (same u.key k ≡ false)
            × (assign same k f c ≡ some rest)
            × (c' ≡ u ∷ rest))
  unfolding assign
  assign-cons k f u c c' h = elim (Option-cases (assign same k f c)) [
    | inl e ↦ inl (ground arith, ground arith)
    | inr (rest, e) ↦ elim (Bool-cases (same u.key k)) [
      | inl y ↦ inl (y, ground arith)
      | inr n ↦ inr (rest, n, ground arith, ground arith)
    ]
  ]

  if_same {ℓ} : {A : Type ℓ} (b : Bool) (x : A) → (if b then x else x) ≡ x
  if_same true x = refl
  if_same false x = refl

  module _ (eq : IsEquiv same) (k : K) where
    open eq use {congr_left, congr_right}

    -- a removed key is not found in a chain where it stood once; all else is
    pub find-remove :
        (q : K) (c c' : List (Item K)) (t : Item K)
        → Distinct same c
        → remove same k c ≡ some (t, c')
        → find same q c' ≡ (if same k q then none else find same q c)
    unfolding find remove
    find-remove q [] c' t d h = cc
    find-remove q (u ∷ c) c' t d h = elim (Option-cases (remove same k c)) [
      | inl e ↦ ground (arith, congr_left u.key k q, congr_right k q u.key, find_congr eq u.key q c)
      | inr ((v, rest), e) ↦ ground (
        arith,
        find-remove q c rest v d.1 e,
        congr_left u.key k q,
        congr_right k q u.key,
        find_congr eq u.key q c,
      )
    ]

    pub remove-none : (c : List (Item K)) → remove same k c ≡ none → find same k c ≡ none
    unfolding find remove
    remove-none [] h = refl
    remove-none (u ∷ c) h = elim (Option-cases (remove same k c)) [
      | inl e ↦ ground (arith, remove-none c e)
      | inr ((v, rest), e) ↦ ground arith
    ]

    pub Distinct-remove :
        (c c' : List (Item K)) (t : Item K)
        → Distinct same c
        → remove same k c ≡ some (t, c')
        → Distinct same c'
    unfolding remove
    Distinct-remove [] c' t d h = cc
    Distinct-remove (u ∷ c) c' t d h = elim (remove-cons k u c c' t h) [
      | inl e ↦ subst⁻¹ (Distinct same) e.1 d.1
      | inr (rest, ne, e, f) ↦ subst⁻¹ (Distinct same) f (
        find-remove u.key c rest t d.1 e
            ∙ (λ i. if same k u.key then none else d.0 i)
            ∙ if_same (same k u.key) none,
        Distinct-remove c rest t d.1 e,
      )
    ]

    pub Distinct-assign :
        (f : ℕ → ℕ) (c c' : List (Item K))
        → Distinct same c
        → assign same k f c ≡ some c'
        → Distinct same c'
    unfolding assign
    Distinct-assign f [] c' d h = cc
    Distinct-assign f (u ∷ c) c' d h = elim (assign-cons k f u c c' h) [
      | inl e ↦ subst⁻¹ (Distinct same) e.1 d
      | inr (rest, ne, e, g) ↦ subst⁻¹ (Distinct same) g (
        find-assign eq k u.key f c rest e
            ∙ (λ i. if same k u.key then (d.0 i >>= λ v. some (f v)) else d.0 i)
            ∙ if_same (same k u.key) none,
        Distinct-assign f c rest d.1 e,
      )
    ]

  pub places-assign :
      (k : K) (f : ℕ → ℕ) (c c' : List (Item K))
      → assign same k f c ≡ some c'
      → places c' ≡ places c
  unfolding assign
  places-assign k f [] c' h = cc
  places-assign k f (u ∷ c) c' h = elim (Option-cases (assign same k f c)) [
    | inl e ↦ ground arith
    | inr (d, e) ↦ ground (arith, places-assign k f c d e)
  ]

  pub count-remove :
      (k : K) (p : Ptr) (c c' : List (Item K)) (t : Item K)
      → remove same k c ≡ some (t, c')
      → count p (places c) ≡ (if p == t.at then 1 else 0) + count p (places c')
  unfolding remove
  count-remove k p [] c' t h = cc
  count-remove k p (u ∷ c) c' t h = elim (Option-cases (remove same k c)) [
    | inl e ↦ ground arith
    | inr ((v, rest), e) ↦ ground (arith, count-remove k p c rest v e)
  ]
