-- ===== src/Timers/Links.antt =====
-- The list of the timers as one that pointers lead through: no pointer stands in it twice.
use zape.Base.{◌+◌, ◌≤◌, ◌≡◌, false, ◌==◌, if◌then◌else◌, some, List, [], ◌∷◌, ◌++◌, arith}
use zape.Pool.State.{Ptr, null}
use zape.Hash.Chain.{count}
use zape.Timers.State.{Timer, head, get, next_of, modify, unlink}

abbrev pub places : List Timer → List Ptr
places [] = []
places (t ∷ ts) = t.at ∷ places ts

-- the timers are at places of their own, none at the null pointer
abbrev pub IsLinked : List Timer → Type 0
IsLinked ts = (p : Ptr) → count p (places ts) ≤ (if p == null then 0 else 1)

pub count-places :
    (p : Ptr) (us vs : List Timer)
    → count p (places (us ++ vs)) ≡ count p (places us) + count p (places vs)
count-places p [] vs = omega arith
count-places p (u ∷ us) vs = omega (arith, count-places p us vs)

module _ (us vs : List Timer) (u : Timer) (linked : IsLinked (us ++ u ∷ vs)) where
  -- no timer in front of one is at its place
  pub front_apart : count u.at (places us) ≡ 0
  front_apart = ground (arith, linked u.at, count-places u.at us (u ∷ vs))

  pub not_null : (u.at == null) ≡ false
  not_null = ground (arith, linked u.at, count-places u.at us (u ∷ vs))

  -- the timer taken out, and another put in its place
  pub IsLinked-unlink : IsLinked (us ++ vs)
  IsLinked-unlink p = ground (arith, linked p, count-places p us (u ∷ vs), count-places p us vs)

  pub IsLinked-modify : (u' : Timer) → u'.at ≡ u.at → IsLinked (us ++ u' ∷ vs)
  IsLinked-modify u' e p =
      ground (arith, linked p, count-places p us (u ∷ vs), count-places p us (u' ∷ vs), e)

module _ (vs : List Timer) (u : Timer) where
  pub get-append : (us : List Timer) → count u.at (places us) ≡ 0 → get u.at (us ++ u ∷ vs) ≡ some u
  unfolding get
  get-append [] apart = ground arith
  get-append (t ∷ us) apart = ground (arith, get-append us)

  pub next_of-append :
      (us : List Timer) → count u.at (places us) ≡ 0 → next_of u.at (us ++ u ∷ vs) ≡ head vs
  unfolding next_of
  next_of-append [] apart = ground arith
  next_of-append (t ∷ us) apart = ground (arith, next_of-append us)

  pub unlink-append :
      (us : List Timer) → count u.at (places us) ≡ 0 → unlink u.at (us ++ u ∷ vs) ≡ us ++ vs
  unfolding unlink
  unlink-append [] apart = ground arith
  unlink-append (t ∷ us) apart = ground (arith, unlink-append us)

  pub modify-append :
      (f : Timer → Timer) (us : List Timer)
      → count u.at (places us) ≡ 0
      → modify u.at f (us ++ u ∷ vs) ≡ us ++ f u ∷ vs
  unfolding modify
  modify-append f [] apart = ground arith
  modify-append f (t ∷ us) apart = ground (arith, modify-append f us)
