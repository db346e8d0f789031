-- ===== src/Hash/Erase.antt =====
-- The end of the `erase` functions on the contents found under the keys.
use zape.Base.{
  ℕ, ◌+◌, ◌<◌, ◌≡◌, refl, sym, ap, ◌∙◌, Bool, true, ◌&&◌, none, some, List, [], ◌∷◌, get_elem?,
  get_elem?_of_lt, ◌==◌, ==→eq, ==_refl, if◌then◌else◌, arith, Option-cases, Bool-cases, inl, inr,
}
use zape.Base.Fault.{◌>>=◌, store, store-length}
use zape.Pool.State.{Ptr}
use zape.Hash.Chain.{Item, count, IsEquiv, find, remove}
use zape.Hash.Laws.{find-remove, find_congr, remove-none, Distinct-remove, count-remove}
use zape.Hash.State.{Table, freed, clean, erase, unlink}
use zape.Hash.Table.{total, IsTable, found, store_in, total-store, Distinct-store, found-store}

count-unlink :
    (p a : Ptr) (ps : List Ptr)
    → 0 < count a ps
    → count p ps ≡ (if p == a then 1 else 0) + count p (unlink a ps)
unfolding unlink
count-unlink p a [] h = absurd (omega arith)
count-unlink p a (q ∷ ps) h = ground (arith, count-unlink p a ps, ==→eq a q, ==_refl a)

module _ {K : Type 0} (same : K → K → Bool) (eq : IsEquiv same) (h : ℕ) (k : K) where
  erase_run :
      (t : Table K) (c c' : List (Item K)) (u : Item K) (ds : List (List (Item K)))
      → get_elem? t.table h ≡ some c
      → remove same k c ≡ some (u, c')
      → store t.table h c' ≡ some ds
      → erase same h k t
        ≡ some (record t {
          table = ds;
          first = unlink u.at t.first;
          log = freed u.at ∷ clean t u.content;
        })
  unfolding erase
  erase_run t c c' u ds e r s = ground arith

  erase-none :
      (t : Table K) (c : List (Item K))
      → get_elem? t.table h ≡ some c
      → remove same k c ≡ none
      → erase same h k t ≡ some t
  unfolding erase
  erase-none t c e r = ground arith

  -- nothing is found under the key, and all else as it was
  abbrev pub Erased : Table K → Table K → Type 0
  Erased t t' =
      (i : ℕ) (q : K)
      → found same t' i q ≡ (if (i == h) && same k q then none else found same t i q)

  found_at :
      (t : Table K) (c : List (Item K)) (i : ℕ) (q : K)
      → get_elem? t.table h ≡ some c
      → (i == h) ≡ true
      → found same t i q ≡ find same q c
  found_at t c i q e here =
      ap (λ j. found same t j q) (==→eq i h here) ∙ ap (λ o. o >>= find same q) e

  Erased-none :
      (t : Table K) (c : List (Item K))
      → get_elem? t.table h ≡ some c
      → find same k c ≡ none
      → Erased t t
  Erased-none t c e absent i q = elim (Bool-cases (i == h)) [
    | inl here ↦
        let there = found_at t c i q e here in
        rw here (elim (Bool-cases (same k q)) [
          | inl y ↦ rw y (there ∙ sym (find_congr same eq k q c y) ∙ absent)
          | inr n ↦ rw n refl
        ])
    | inr other ↦ rw other refl
  ]

  -- The table stays well-formed, and exactly the key is gone.
  pub erase_lem :
      (t : Table K)
      → IsTable same t
      → h < t.size
      → (t' : Table K) × (erase same h k t ≡ some t')
        × IsTable same t'
        × (t'.size ≡ t.size)
        × Erased t t'
  erase_lem t w small =
      let (c, e) = get_elem?_of_lt t.table h (omega (arith, w.sized)) in
      elim (Option-cases (remove same k c)) [
        | inr ((u, c'), r) ↦
            let (ds, run) = store_in t.table h c' (omega (arith, w.sized)) in
            let t' : Table K = record t {
              table = ds;
              first = unlink u.at t.first;
              log = freed u.at ∷ clean t u.content;
            } in
            (
              t',
              erase_run t c c' u ds e r run,
              record {
                sized = omega (arith, store-length t.table h c' run, w.sized);
                roomy = w.roomy;
                distinct =
                    Distinct-store same eq t.table ds h c' w.distinct run
                      (Distinct-remove same eq k c c' u (w.distinct h c e) r);
                linked = λ p. linked_after t ds c c' u p w e r run;
              },
              refl,
              λ i q. erased t t' c c' u i q w e r run,
            )
        | inl r ↦ (t, erase-none t c e r, w, refl, Erased-none t c e (remove-none same eq k c r))
      ]
    where
      present :
          (t : Table K) (ds : List (List (Item K))) (c c' : List (Item K)) (u : Item K)
          → IsTable same t
          → get_elem? t.table h ≡ some c
          → remove same k c ≡ some (u, c')
          → store t.table h c' ≡ some ds
          → 0 < count u.at t.first
      present t ds c c' u w e r run =
          let one : (u.at == u.at) ≡ true = ==_refl u.at in
          ground (
            arith,
            w.linked u.at,
            total-store u.at t.table ds h c c' e run,
            one,
            count-remove same k u.at c c' u r,
          )

      linked_after :
          (t : Table K) (ds : List (List (Item K))) (c c' : List (Item K)) (u : Item K) (p : Ptr)
          → IsTable same t
          → get_elem? t.table h ≡ some c
          → remove same k c ≡ some (u, c')
          → store t.table h c' ≡ some ds
          → count p (unlink u.at t.first) ≡ total p ds
      linked_after t ds c c' u p w e r run = omega (
        arith,
        w.linked p,
        total-store p t.table ds h c c' e run,
        count-remove same k p c c' u r,
        count-unlink p u.at t.first (present t ds c c' u w e r run),
      )

      erased :
          (t t' : Table K) (c c' : List (Item K)) (u : Item K) (i : ℕ) (q : K)
          → IsTable same t
          → get_elem? t.table h ≡ some c
          → remove same k c ≡ some (u, c')
          → store t.table h c' ≡ some t'.table
          → found same t' i q ≡ (if (i == h) && same k q then none else found same t i q)
      erased t t' c c' u i q w e r run =
          found-store same eq t t' h i c c' q e run ∙ (elim (Bool-cases (i == h)) [
            | inl here ↦ rw here (
                find-remove same eq k q c c' u (w.distinct h c e) r ∙ λ j.
                if same k q then none else sym (found_at t c i q e here) j)
            | inr other ↦ rw other refl
          ])
