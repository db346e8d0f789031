-- ===== src/Pool/Fresh.antt =====
-- The slots of a fresh block stand at places of their own.
use zape.Base.{ℕ, zero, suc, ◌+◌, ◌<◌, arith}
use zape.Pool.Seg.{NotIn, Distinct}
use zape.Pool.Grow.{block}

module _ {P : Type 0} (blank : P) (size : ℕ) (pos : 0 < size) where
  pub NotIn-block : (a p flags n : ℕ) → a < p → NotIn a (block blank size p flags n)
  NotIn-block a p flags zero h = tt
  NotIn-block a p flags (suc n) h = ((λ e. omega arith), NotIn-block a (p + size) 0 n (omega arith))

  pub Distinct-block : (p flags n : ℕ) → Distinct (block blank size p flags n)
  Distinct-block p flags zero = tt
  Distinct-block p flags (suc n) =
      (NotIn-block p (p + size) 0 n (omega arith), Distinct-block (p + size) 0 n)
