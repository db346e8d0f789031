-- ===== src/Pool/Cleaned.antt =====
-- `ape_destroy_pool_with_cleaner` as a whole.
use mathlib.Core.Path.{subst}
use zape.Base.{
  ℕ, zero, suc, ◌<◌, ◌≡◌, refl, sym, ap, ◌∙◌, ◌⊎◌, inl, inr, true, false, Option, none, some, List,
  [], ◌∷◌, ◌==◌, length, arith, Bool-cases,
}
use zape.Pool.State.{Ptr, null, pool_alloc, Slot, Mem, write}
use zape.Pool.Seg.{Cell, Seg, NotIn, Distinct}
use zape.Pool.ToCurrent.{slot_of, set_next_run}
use zape.Pool.Chain.{Chain-last, Chain-redirect}
use zape.Pool.Destroy.{Teardown, gather_blocks, free_blocks, destroy_pool_with_cleaner}
use zape.Pool.Gather.{pushed, folded, AllAbsent, AllAbsent-cons, Gathered, gather_blocks-Gathered}
use zape.Pool.Teardown.{
  covered, Separate, blocks_of, reverse_on, reverse_on-pushed, length-pushed, NonNull,
  NonNull-pushed, covered-pushed, released, released-covered, free_blocks_lem,
}
use zape.Events.Epoll.{has}

module _ {P C : Type 0} (bytes : Ptr → ℕ) (clean : Ptr → Slot P → C → Option C)
    (step : Cell P → C → C)
    (cleans : (c : Cell P) (next before : Ptr) (x : C)
      → clean c.at (slot_of c next before) x ≡ some (step c x)) where
  AllAbsent-nil : (cs : List (Cell P)) → AllAbsent [] cs
  AllAbsent-nil [] = tt
  AllAbsent-nil (c ∷ cs) = (tt, AllAbsent-nil cs)

  -- the first loop from its start: no block, or a chain of them
  abbrev Start : List (Cell P) → Mem P → C → Option (Ptr × Ptr × Mem P × C) → Type 0
  Start cs m x o =
      ((pushed cs [] ≡ []) × (o ≡ some (null, null, m, folded clean step cleans bytes cs x)))
      ⊎ ((f : Ptr) × ((f == null) ≡ false) × Gathered clean step cleans bytes cs [] x o f)

  start_lem :
      (k : ℕ) (cs : List (Cell P)) (m : Mem P) (p : Ptr) (x : C)
      → Seg m p cs null
      → Distinct cs
      → length cs < k
      → Start cs m x (gather_blocks bytes clean k p null null m x)
  unfolding gather_blocks
  start_lem zero cs m p x g d enough = absurd (omega arith)
  start_lem (suc k) [] m p x g d enough =
      let end : (p == null) ≡ true = ground (arith, g) in inl (refl, simp end refl)
  start_lem (suc k) (u ∷ us) m p x (at, ne, next, (before, found), g) (nin, d) enough =
      let s = slot_of u next before in
      let here : m p ≡ some s = ap m at ∙ found in
      let ptr : (p == null) ≡ false = ground (arith, at, ne) in
      let cleaned : clean p s x ≡ some (step u x) =
        ap (λ q. clean q s x) at ∙ cleans u next before x in
      elim (Bool-cases (has u.flags pool_alloc)) [
        | inr plain ↦ elim (start_lem k us m next (step u x) g d (omega arith)) [
          | inl (bs, run) ↦
              inl (simp plain bs, simp ptr (simp here (simp cleaned (simp plain run))))
          | inr (f, fn, (t, ds, after, m', run, bs, c, a)) ↦ inr (
            f,
            fn,
            (
              t,
              ds,
              after,
              m',
              simp ptr (simp here (simp cleaned (simp plain run))),
              bs ∙ simp plain refl,
              c,
              a,
            ),
          )
        ]
        | inl block ↦
            let pn = subst (λ q. NotIn q us) (sym at) nin in
            let (t, ds, after, m', run, bs, c, a) =
              gather_blocks-Gathered clean step cleans bytes k us m next p [] p next (step u x) g d
                (refl, (s, here, refl, block)) (tt, tt)
                (AllAbsent-cons p [] us pn (AllAbsent-nil us)) ptr ptr (omega arith) in
            inr (
              p,
              ptr,
              (
                t,
                ds,
                after,
                m',
                simp ptr (simp here (simp cleaned (simp block run))),
                bs ∙ ap (λ q. pushed us (q ∷ [])) at ∙ simp block refl,
                c,
                a,
              ),
            )
      ]

  free_blocks-null : (k : ℕ) (e : Teardown P C) → 0 < k → free_blocks bytes clean k null e ≡ some e
  unfolding free_blocks
  free_blocks-null zero e pos = absurd (omega arith)
  free_blocks-null (suc k) e pos = refl

  -- On a list of slots, each at a place of its own, if no block that is given back holds the beginning
  -- of one to come, and with fuel for each slot and a last round and a cleaner that does not fail:
  -- `ape_destroy_pool_with_cleaner` runs without an access to memory that has been given back. The cleaner
  -- has been called once on each slot, in the order of the list; each block of the list has been
  -- given back once, against the order of their first slots (`freed` has the last first), and nothing
  -- is left of them, in whatever order `next` led through their slots.
  pub destroy_pool_with_cleaner-folded :
      (k : ℕ) (cs : List (Cell P)) (m : Mem P) (p : Ptr) (x : C)
      → Seg m p cs null
      → Distinct cs
      → Separate bytes (pushed cs [])
      → length cs < k
      → (e : Teardown P C) × (destroy_pool_with_cleaner bytes clean k p m x ≡ some e)
        × (e.context ≡ folded clean step cleans bytes cs x)
        × (e.freed ≡ blocks_of cs)
        × ((a : Ptr) → covered bytes a (blocks_of cs) ≡ true → e.mem a ≡ none)
  unfolding destroy_pool_with_cleaner
  destroy_pool_with_cleaner-folded k cs m p x g d apart enough =
      elim (start_lem k cs m p x g d enough) [
        | inl (bs, run) ↦
            let none_of : blocks_of cs ≡ [] =
              sym (reverse_on-pushed cs []) ∙ ap (λ l. reverse_on l []) bs in
            let e : Teardown P C = record {
              mem = m;
              context = folded clean step cleans bytes cs x;
              freed = [];
            } in
            (
              e,
              simp run (free_blocks-null k e (omega arith)),
              refl,
              sym none_of,
              λ b inside. let no = ap (covered bytes b) none_of in cc,
            )
        | inr (f, fn, (t, ds, after, m₁, run, bs, c, a)) ↦
            let (s, last, _, _) = Chain-last m₁ (t ∷ ds) f after c in
            let cut = set_next_run m₁ f null s last in
            let ended = Chain-redirect m₁ s null (t ∷ ds) f after a c last in
            let m₂ : Mem P = write m₁ f (record s { next = null }) in
            let freed =
              free_blocks_lem bytes clean k m₂ (folded clean step cleans bytes cs x) t ds f [] ended
                (subst (Separate bytes) (sym bs) apart)
                (subst NonNull (sym bs) (NonNull-pushed m p cs [] g tt))
                (let len : length (t ∷ ds) ≡ length (pushed cs []) = ap (length {0}) bs in
                  omega (arith, length-pushed cs [])) in
            let e : Teardown P C = record {
              mem = released bytes clean (t ∷ ds) m₂;
              context = folded clean step cleans bytes cs x;
              freed = reverse_on (t ∷ ds) [];
            } in
            (
              e,
              simp run (simp fn (simp cut freed)),
              refl,
              ap (λ l. reverse_on l []) bs ∙ reverse_on-pushed cs [],
              λ b inside. released-covered bytes clean (t ∷ ds) m₂ b (
                  subst (λ l. covered bytes b l ≡ true) (sym bs)
                    (ground (arith, covered-pushed bytes b cs [], inside))),
            )
      ]
