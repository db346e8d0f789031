-- ===== src/Hash/Insert.antt =====
-- The end of the `append` functions on the contents found under the keys.
use mathlib.Core.Option
use zape.Base.{
  ℕ, ◌<◌, ◌≡◌, refl, sym, ap, ◌∙◌, Bool, ◌&&◌, none, some, List, ◌∷◌, get_elem?, get_elem?_of_lt,
  ◌==◌, ==→eq, if◌then◌else◌, arith, Option-cases, Bool-cases, inl, inr,
}
use zape.Base.Fault.{◌>>=◌, store, store-length}
use zape.Hash.Chain.{Item, count, IsEquiv, find, assign}
use zape.Hash.Laws.{find-assign_seen, find-eq-none, find_congr, Distinct-assign, places-assign}
use zape.Hash.State.{Table, freed, clean, insert}
use zape.Hash.Table.{
  IsTable, found, store_in, total-store, Distinct-store, found-store, insert_found, insert_new,
}

module _ {K : Type 0} (same : K → K → Bool) (eq : IsEquiv same) (h : ℕ) (k : K) (u : Item K)
    (f g : ℕ → ℕ) (v : ℕ) (stored : (q : K) → same u.key q ≡ same k q)
    (seen : (x : ℕ) → g (f x) ≡ v) (shown : g u.content ≡ v) where
  -- what `g` sees under the keys: `v` under `k`, and all else as it was
  abbrev pub Stored : Table K → Table K → Type 0
  Stored t t' =
      (i : ℕ) (q : K)
      → Option.map g (found same t' i q)
        ≡ (if (i == h) && same k q then some v else Option.map g (found same t i q))

  Stored-chain :
      (t t' : Table K) (c c' : List (Item K))
      → get_elem? t.table h ≡ some c
      → store t.table h c' ≡ some t'.table
      → ((q : K)
          → Option.map g (find same q c')
            ≡ (if same k q then some v else Option.map g (find same q c)))
      → Stored t t'
  Stored-chain t t' c c' e run law i q =
      ap (Option.map g) (found-store same eq t t' h i c c' q e run) ∙ split
    where
      split :
          Option.map g (if i == h then find same q c' else found same t i q)
          ≡ (if (i == h) && same k q then some v else Option.map g (found same t i q))
      split = elim (Bool-cases (i == h)) [
        | inl here ↦
            let there : found same t i q ≡ find same q c =
              ap (λ j. found same t j q) (==→eq i h here) ∙ ap (λ o. o >>= find same q) e in
            rw here (law q ∙ λ j. if same k q then some v else Option.map g (sym there j))
        | inr other ↦ rw other refl
      ]

  -- the new item at the head of a chain without the key
  pushed_law :
      (c : List (Item K)) (q : K)
      → find same k c ≡ none
      → Option.map g (find same q (u ∷ c))
        ≡ (if same k q then some v else Option.map g (find same q c))
  unfolding find
  pushed_law c q e = ground (arith, stored q, shown)

  -- The table stays well-formed, and exactly the key gets the content.
  pub insert_lem :
      (cleans : Bool) (t : Table K)
      → IsTable same t
      → h < t.size
      → (t' : Table K) × (insert same h k u f cleans t ≡ some t')
        × IsTable same t'
        × (t'.size ≡ t.size)
        × Stored t t'
  insert_lem cleans t w small =
      let (c, e) = get_elem?_of_lt t.table h (omega (arith, w.sized)) in
      elim (Option-cases (assign same k f c)) [
        | inr (c', a) ↦
            let (ds, run) = store_in t.table h c' (omega (arith, w.sized)) in
            let t' : Table K = record t {
              table = ds;
              log = freed u.at ∷ (if cleans then clean t u.content else t.log);
            } in
            (
              t',
              insert_found same eq h k u f cleans t c c' ds e a run,
              record {
                sized = omega (arith, store-length t.table h c' run, w.sized);
                roomy = w.roomy;
                distinct =
                    Distinct-store same eq t.table ds h c' w.distinct run
                      (Distinct-assign same eq k f c c' (w.distinct h c e) a);
                linked = λ p. omega (
                  arith,
                  w.linked p,
                  total-store p t.table ds h c c' e run,
                  ap (count p) (places-assign same k f c c' a),
                );
              },
              refl,
              Stored-chain t t' c c' e run (λ q. find-assign_seen same eq k q f g v c c' seen a),
            )
        | inl a ↦
            let (ds, run) = store_in t.table h (u ∷ c) (omega (arith, w.sized)) in
            let t' : Table K = record t { table = ds; first = u.at ∷ t.first } in
            let absent : find same k c ≡ none = find-eq-none same eq k k f c a in
            (
              t',
              insert_new same eq h k u f cleans t c ds e a run,
              record {
                sized = omega (arith, store-length t.table h (u ∷ c) run, w.sized);
                roomy = w.roomy;
                distinct = Distinct-store same eq t.table ds h (u ∷ c) w.distinct run (
                  find_congr same eq u.key k c (stored k ∙ eq.reflexive k) ∙ absent,
                  w.distinct h c e,
                );
                linked = λ p. omega (arith, w.linked p, total-store p t.table ds h c (u ∷ c) e run);
              },
              refl,
              Stored-chain t t' c (u ∷ c) e run (λ q. pushed_law c q absent),
            )
      ]
