-- ===== src/Pool/Gather.antt =====
-- The first loop of `ape_destroy_pool_with_cleaner`: every slot is cleaned, and the blocks are chained.
use mathlib.Core.Path.{subst}
use zape.Base.{
  ℕ, zero, suc, ◌<◌, ◌≡◌, ◌≢◌, refl, sym, ap, ◌∙◌, true, false, Option, some, List, [], ◌∷◌, ◌==◌,
  length, if◌then◌else◌, arith, Bool-cases, inl, inr,
}
use zape.Pool.State.{Ptr, null, pool_alloc, Slot, Mem, write}
use zape.Pool.Seg.{Cell, Seg, NotIn, Distinct, write_ne, write_self, frame}
use zape.Pool.ToCurrent.{slot_of, set_next_run}
use zape.Pool.Chain.{Absent, Apart, Chain, Absent-last, Chain-last, Chain-write, Chain-redirect}
use zape.Pool.Destroy.{gather_blocks}
use zape.Events.Epoll.{has}

module _ {P : Type 0} where
  -- the blocks that begin in some slots, the last first, before others
  abbrev pub pushed : List (Cell P) → List Ptr → List Ptr
  pushed [] bs = bs
  pushed (c ∷ cs) bs = pushed cs (if has c.flags pool_alloc then c.at ∷ bs else bs)

  abbrev pub AllAbsent : List Ptr → List (Cell P) → Type 0
  AllAbsent bs [] = Unit {0}
  AllAbsent bs (c ∷ cs) = Absent c.at bs × AllAbsent bs cs

  NotIn-last :
      (m : Mem P) (bs : List Ptr) (f after : Ptr) (cs : List (Cell P))
      → Chain m bs f after
      → AllAbsent bs cs
      → NotIn f cs
  NotIn-last m bs f after [] chain out = tt
  NotIn-last m bs f after (c ∷ cs) chain (a, out) =
      (λ e. Absent-last m bs f after c.at chain a (sym e), NotIn-last m bs f after cs chain out)

  pub AllAbsent-cons :
      (a : Ptr) (bs : List Ptr) (cs : List (Cell P))
      → NotIn a cs
      → AllAbsent bs cs
      → AllAbsent (a ∷ bs) cs
  AllAbsent-cons a bs [] ne out = tt
  AllAbsent-cons a bs (c ∷ cs) (ne, nes) (o, out) =
      ((λ e. ne (sym e), o), AllAbsent-cons a bs cs nes out)

  module _ {C : Type 0} (clean : Ptr → Slot P → C → Option C) (step : Cell P → C → C)
      (cleans : (c : Cell P) (next before : Ptr) (x : C)
        → clean c.at (slot_of c next before) x ≡ some (step c x))
      (bytes : Ptr → ℕ) where
    abbrev pub folded : List (Cell P) → C → C
    folded [] x = x
    folded (c ∷ cs) x = folded cs (step c x)

    -- what the loop comes to
    abbrev pub Gathered :
        List (Cell P) → List Ptr → C → Option (Ptr × Ptr × Mem P × C) → (f : Ptr) → Type 0
    Gathered cs bs x o f =
        (t : Ptr) × (ds : List Ptr) × (after : Ptr) × (m : Mem P) × (o
          ≡ some (t, f, m, folded cs x))
        × (t ∷ ds ≡ pushed cs bs)
        × Chain m (t ∷ ds) f after
        × Apart (t ∷ ds)

    pub gather_blocks-Gathered :
        (k : ℕ) (cs : List (Cell P)) (m : Mem P) (p t : Ptr) (ds : List Ptr) (f after : Ptr) (x : C)
        → Seg m p cs null
        → Distinct cs
        → Chain m (t ∷ ds) f after
        → Apart (t ∷ ds)
        → AllAbsent (t ∷ ds) cs
        → (t == null) ≡ false
        → (f == null) ≡ false
        → length cs < k
        → Gathered cs (t ∷ ds) x (gather_blocks bytes clean k p t f m x) f
    unfolding gather_blocks
    gather_blocks-Gathered zero cs m p t ds f after x g d c a out tn fn enough =
        absurd (omega arith)
    gather_blocks-Gathered (suc k) [] m p t ds f after x g d c a out tn fn enough =
        let end : (p == null) ≡ true = ground (arith, g) in
        (t, ds, after, m, simp end refl, refl, c, a)
    gather_blocks-Gathered (suc k) (u ∷ us) m p t ds f after x (at, ne, next, (before, found), g)
          (nin, d) c a (o, out) tn fn enough =
        let s = slot_of u next before in
        let here : m p ≡ some s = ap m at ∙ found in
        let ptr : (p == null) ≡ false = ground (arith, at, ne) in
        let cleaned : clean p s x ≡ some (step u x) =
          ap (λ q. clean q s x) at ∙ cleans u next before x in
        elim (Bool-cases (has u.flags pool_alloc)) [
          | inr plain ↦
              let (t', ds', after', m', run, bs, c', a') =
                gather_blocks-Gathered k us m next t ds f after (step u x) g d c a out tn fn
                  (omega arith) in
              (
                t',
                ds',
                after',
                m',
                simp ptr (simp here (simp cleaned (simp plain run))),
                bs ∙ simp plain refl,
                c',
                a',
              )
          | inl block ↦
              let (sf, last, _, _) = Chain-last m (t ∷ ds) f after c in
              let fp : f ≢ p = λ e. Absent-last m (t ∷ ds) f after u.at c o (sym (e ∙ at)) in
              let sf' : Slot P = record sf { next = next } in
              let m₁ = write m f sf' in
              let here₁ : m₁ p ≡ some s = write_ne m f p sf' fp ∙ here in
              let s' : Slot P = record s { next = t } in
              let m₂ = write m₁ p s' in
              let last₂ : m₂ f ≡ some sf' =
                write_ne m₁ p f s' (λ e. fp (sym e)) ∙ write_self m f sf' in
              let c₁ = Chain-redirect m sf next (t ∷ ds) f after a c last in
              let po = subst (λ q. Absent q (t ∷ ds)) (sym at) o in
              let pn = subst (λ q. NotIn q us) (sym at) nin in
              let c₂ : Chain m₂ (p ∷ t ∷ ds) f next = (
                (s', write_self m₁ p s', refl, block),
                Chain-write m₁ p s' (t ∷ ds) f next po c₁,
              ) in
              let g₂ : Seg m₂ next us null =
                frame m₁ p s' next null us pn
                  (frame m f sf' next null us (NotIn-last m (t ∷ ds) f after us c out) g) in
              let (t', ds', after', m', run, bs, c', a') =
                gather_blocks-Gathered k us m₂ next p (t ∷ ds) f next (step u x) g₂ d c₂ (po, a)
                  (AllAbsent-cons p (t ∷ ds) us pn out) ptr fn (omega arith) in
              let first = set_next_run m f next sf last in
              let second = set_next_run m₁ p t s here₁ in
              let shape : pushed us (p ∷ t ∷ ds) ≡ pushed (u ∷ us) (t ∷ ds) =
                ap (λ q. pushed us (q ∷ t ∷ ds)) at ∙ simp block refl in
              (
                t',
                ds',
                after',
                m',
                simp ptr (
                    simp here (
                      simp cleaned
                        (simp (block, tn) (simp fn (simp first (simp second (simp last₂ run))))))),
                bs ∙ shape,
                c',
                a',
              )
        ]
