-- ===== src/Pool/Chain.antt =====
-- The chain of blocks that `ape_destroy_pool_with_cleaner` makes of a list.
use mathlib.Core.Path.{subst}
use zape.Base.{◌≡◌, ◌≢◌, refl, sym, ap, ◌∙◌, true, some, List, [], ◌∷◌, arith}
use zape.Pool.State.{Ptr, pool_alloc, Slot, Mem, write}
use zape.Pool.Seg.{write_ne, write_self}
use zape.Events.Epoll.{has}

abbrev pub Absent : Ptr → List Ptr → Type 0
Absent a [] = Unit {0}
Absent a (b ∷ bs) = (a ≢ b) × Absent a bs

abbrev pub Apart : List Ptr → Type 0
Apart [] = Unit {0}
Apart (b ∷ bs) = Absent b bs × Apart bs

module _ {P : Type 0} where
  -- the slot at `b` begins a block and leads to `next`
  abbrev pub IsBlock : Mem P → (b next : Ptr) → Type 0
  IsBlock m b next =
      (s : Slot P) × (m b ≡ some s) × (s.next ≡ next) × (has s.flags pool_alloc ≡ true)

  -- The blocks `bs` lead from one to the next; the last is `f`, and leads to `after`.
  abbrev pub Chain : Mem P → List Ptr → (f after : Ptr) → Type 0
  Chain m [] f after = ⊥
  Chain m (b ∷ []) f after = (b ≡ f) × IsBlock m b after
  Chain m (b ∷ d ∷ ds) f after = IsBlock m b d × Chain m (d ∷ ds) f after

  pub Absent-last :
      (m : Mem P) (bs : List Ptr) (f after a : Ptr) → Chain m bs f after → Absent a bs → a ≢ f
  Absent-last m [] f after a c out = elim c [ ]
  Absent-last m (b ∷ []) f after a (e, g) (ne, out) = λ h. ne (h ∙ sym e)
  Absent-last m (b ∷ d ∷ ds) f after a (g, c) (ne, out) = Absent-last m (d ∷ ds) f after a c out

  pub Chain-last :
      (m : Mem P) (bs : List Ptr) (f after : Ptr) → Chain m bs f after → IsBlock m f after
  Chain-last m [] f after c = elim c [ ]
  Chain-last m (b ∷ []) f after (e, g) = subst (λ x. IsBlock m x after) e g
  Chain-last m (b ∷ d ∷ ds) f after (g, c) = Chain-last m (d ∷ ds) f after c

  pub Chain-write :
      (m : Mem P) (a : Ptr) (s : Slot P) (bs : List Ptr) (f after : Ptr)
      → Absent a bs
      → Chain m bs f after
      → Chain (write m a s) bs f after
  Chain-write m a s [] f after out c = elim c [ ]
  Chain-write m a s (b ∷ []) f after (ne, out) (e, (t, found, next, flag)) =
      (e, (t, write_ne m a b s ne ∙ found, next, flag))
  Chain-write m a s (b ∷ d ∷ ds) f after (ne, out) ((t, found, next, flag), c) =
      ((t, write_ne m a b s ne ∙ found, next, flag), Chain-write m a s (d ∷ ds) f after out c)

  -- the last block led elsewhere
  pub Chain-redirect :
      (m : Mem P) (s : Slot P) (x : Ptr) (bs : List Ptr) (f after : Ptr)
      → Apart bs
      → Chain m bs f after
      → m f ≡ some s
      → Chain (write m f (record s { next = x })) bs f x
  Chain-redirect m s x [] f after apart c here = elim c [ ]
  Chain-redirect m s x (b ∷ []) f after apart (e, (t, found, next, flag)) here =
      let same : some t ≡ some s = sym found ∙ ap m e ∙ here in
      let t' : Slot P = record s { next = x } in
      let there : write m f t' b ≡ some t' = ap (write m f t') e ∙ write_self m f t' in
      (e, (t', there, refl, ground (arith, same, flag)))
  Chain-redirect m s x (b ∷ d ∷ ds) f after (out, apart) (g, c) here =
      let other = Absent-last m (d ∷ ds) f after b c out in
      let t' : Slot P = record s { next = x } in
      let (t, found, next, flag) = g in
      (
        (t, write_ne m f b t' (λ e. other (sym e)) ∙ found, next, flag),
        Chain-redirect m s x (d ∷ ds) f after apart c here,
      )
