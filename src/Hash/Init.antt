-- ===== src/Hash/Init.antt =====
-- A new table.
use mathlib.Core.Path.{subst⁻¹}
use zape.Base.{
  ℕ, zero, suc, ◌<◌, ◌≡◌, refl, ap, sym, Bool, some, List, [], length, get_elem?, arith,
}
use zape.Pool.State.{Ptr}
use zape.Hash.Chain.{Item, Distinct}
use zape.Hash.State.{empty_chains, init_with_size}
use zape.Hash.Table.{total, IsTable}

length-empty_chains : (K : Type 0) (n : ℕ) → length (empty_chains {K = K} n) ≡ n
length-empty_chains K zero = refl
length-empty_chains K (suc n) = ap suc (length-empty_chains K n)

total-empty_chains : (K : Type 0) (p : Ptr) (n : ℕ) → total p (empty_chains {K = K} n) ≡ 0
total-empty_chains K p zero = refl
total-empty_chains K p (suc n) = omega (arith, total-empty_chains K p n)

chain_empty :
    {K : Type 0} (n i : ℕ) (c : List (Item K)) → get_elem? (empty_chains n) i ≡ some c → c ≡ []
chain_empty zero i c e = cc
chain_empty (suc n) zero c e = cc
chain_empty (suc n) (suc i) c e = chain_empty n i c e

-- `hashtbl_init_with_size` of a size that is not 0 makes a well-formed table.
pub init_with_size-IsTable :
    {K : Type 0} (same : K → K → Bool) (n : ℕ) → 0 < n → IsTable same (init_with_size n)
unfolding init_with_size
init_with_size-IsTable {K} same n pos = record {
  sized = length-empty_chains K n;
  roomy = pos;
  distinct = λ i c e. subst⁻¹ (Distinct same) (chain_empty n i c e) tt;
  linked = λ p. sym (total-empty_chains K p n);
}
