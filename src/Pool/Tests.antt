-- ===== src/Pool/Tests.antt =====
-- The pool functions at concrete lists.
use zape.Base.{ℕ, ◌-◌, ◌≤◌, ◌≡◌, ◌≢◌, refl, some, List, [], ◌∷◌, ◌++◌, arith}
use zape.Pool.State.{PoolList, pool_alloc, init_pool_list, head_to_current}
use zape.Pool.Seg.{Cell, Distinct, IsPool}
use zape.Pool.ToCurrent.{head_to_current-IsPool}
use zape.Pool.Grow.{block, init_pool_list-IsPool}

-- three slots of 32 bytes from 4096 on
abbrev slots : List (Cell ℕ)
slots = block 0 32 4096 pool_alloc 3

slots-Distinct : Distinct slots
slots-Distinct =
    let ne : (p q : ℕ) → 1 ≤ q - p → p ≢ q = λ p q h e. omega arith in
    (
      (ne 4096 4128 (omega arith), (ne 4096 4160 (omega arith), tt)),
      ((ne 4128 4160 (omega arith), tt), (tt, tt)),
    )

unfoldable three : PoolList ℕ
three = init_pool_list 0 32 3 4096

three-IsPool : IsPool three slots
unfolding three
three-IsPool = (init_pool_list-IsPool 0 32 2 4096 (omega arith) slots-Distinct).0

abbrev cell : ℕ → ℕ → Cell ℕ
cell p f = record { at = p; flags = f; item = 0 }

-- the same list, with its third slot current
abbrev third : PoolList ℕ
third = record three { current = 4160 }

third-IsPool : IsPool third slots
third-IsPool = record {
  chain = three-IsPool.chain;
  apart = slots-Distinct;
  ends = three-IsPool.ends;
}

head_to_current-IsPool_example :
    (l : PoolList ℕ) × (head_to_current third ≡ some l)
    × IsPool l (cell 4128 0 ∷ cell 4160 0 ∷ cell 4096 1 ∷ [])
    × (l.current ≡ 4096)
head_to_current-IsPool_example =
    head_to_current-IsPool third (cell 4096 1) (cell 4160 0) (cell 4128 0 ∷ []) [] third-IsPool refl

slots-Distinct_more : Distinct (slots ++ cell 8192 1 ∷ [])
slots-Distinct_more =
    let ne : (p q : ℕ) → 1 ≤ q - p → p ≢ q = λ p q h e. omega arith in
    (
      (ne 4096 4128 (omega arith), (ne 4096 4160 (omega arith), (ne 4096 8192 (omega arith), tt))),
      (
        (ne 4128 4160 (omega arith), (ne 4128 8192 (omega arith), tt)),
        ((ne 4160 8192 (omega arith), tt), (tt, tt)),
      ),
    )

three-size : three.size ≡ 32
unfolding three init_pool_list
three-size = refl

unfoldable single : PoolList ℕ
single = init_pool_list 0 32 1 4096

single-IsPool : IsPool single (cell 4096 1 ∷ [])
unfolding single
single-IsPool = (init_pool_list-IsPool 0 32 0 4096 (omega arith) (tt, tt)).0

single-current : single.current ≡ 4096
unfolding single init_pool_list
single-current = refl

single-size : single.size ≡ 32
unfolding single init_pool_list
single-size = refl
