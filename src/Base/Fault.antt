-- ===== src/Base/Fault.antt =====
-- Programs that may access memory out of bounds: `none` is the fault.
-- `store` and `copy` write into a block of memory, given us the list of its bytes.
use Prim.Native.Nat.{ℕ, zero, suc, ◌+◌, ◌≤◌}
use mathlib.Core.Path.{◌≡◌, refl, ap}
use mathlib.Core.List.{List, [], ◌∷◌, ◌++◌, append_assoc}
use mathlib.Core.Option.{Option, none, some}
use native.Mathlib.Omega.{arith}
use zape.Base.Lists.{length, take, drop, length-append, length-take, length-drop}

infixl 5 ◌>>=◌
abbrev pub ◌>>=◌ {ℓ κ} : {A : Type ℓ} {B : Type κ} → Option A → (A → Option B) → Option B
none >>= f = none
some a >>= f = f a

-- `p[i] = v`
unfoldable pub store {ℓ} : {A : Type ℓ} → List A → ℕ → A → Option (List A)
store [] i v = none
store (x ∷ xs) zero v = some (v ∷ xs)
store (x ∷ xs) (suc i) v = do ys ← store xs i v; some (x ∷ ys)

-- `memcpy(p + i, src, n)`, the list being `src[0..n)`
unfoldable pub copy {ℓ} : {A : Type ℓ} → List A → ℕ → List A → Option (List A)
copy xs i [] = some xs
copy xs i (v ∷ vs) = do ys ← store xs i v; copy ys (suc i) vs

-- the first `n` bytes behind a pointer
unfoldable pub slice {ℓ} : {A : Type ℓ} → List A → ℕ → Option (List A)
slice xs zero = some []
slice [] (suc n) = none
slice (x ∷ xs) (suc n) = do ys ← slice xs n; some (x ∷ ys)

pub >>=-eq-some {ℓ κ} :
    {A : Type ℓ} {B : Type κ} (m : Option A) (f : A → Option B) {b : B}
    → (m >>= f) ≡ some b
    → (a : A) × (m ≡ some a) × (f a ≡ some b)
>>=-eq-some (some a) f h = (a, refl, h)
>>=-eq-some none f h = cc

module _ {ℓ} {A : Type ℓ} where
  pub store-append :
      (us : List A) (b : A) (ts : List A) (i : ℕ) (v : A)
      → i ≡ length us
      → store (us ++ b ∷ ts) i v ≡ some (us ++ v ∷ ts)
  unfolding store
  store-append [] b ts zero v e = refl
  store-append [] b ts (suc i) v e = absurd (omega arith)
  store-append (a ∷ us) b ts zero v e = absurd (omega arith)
  store-append (a ∷ us) b ts (suc i) v e = rw (store-append us b ts i v (omega arith))

  pub store-length :
      (xs : List A) (i : ℕ) (v : A) {ys : List A} → store xs i v ≡ some ys → length ys ≡ length xs
  unfolding store
  store-length [] i v h = cc
  store-length (x ∷ xs) zero v h = ground arith
  store-length (x ∷ xs) (suc i) v h =
      let (zs, run, e) = >>=-eq-some (store xs i v) (λ ys. some (x ∷ ys)) h in
      ground (arith, store-length xs i v run)

  pub copy-append :
      (us ts vs : List A) (i : ℕ)
      → i ≡ length us
      → length vs ≤ length ts
      → copy (us ++ ts) i vs ≡ some (us ++ (vs ++ drop (length vs) ts))
  unfolding copy
  copy-append us ts [] i e h = refl
  copy-append us [] (v ∷ vs) i e h = absurd (omega arith)
  copy-append us (b ∷ ts) (v ∷ vs) i e h =
      let longer : suc i ≡ length (us ++ v ∷ []) = omega (arith, length-append us (v ∷ [])) in
      let run = copy-append (us ++ v ∷ []) ts vs (suc i) longer (omega arith) in
      rw (store-append us b ts i v e) (simp append_assoc at run)

  pub slice-append : (xs ys : List A) (n : ℕ) → n ≡ length xs → slice (xs ++ ys) n ≡ some xs
  unfolding slice
  slice-append [] ys zero e = refl
  slice-append [] ys (suc n) e = absurd (omega arith)
  slice-append (x ∷ xs) ys zero e = absurd (omega arith)
  slice-append (x ∷ xs) ys (suc n) e = rw (slice-append xs ys n (omega arith))

  pub slice-take : (xs : List A) (n : ℕ) → n ≤ length xs → slice xs n ≡ some (take n xs)
  unfolding slice
  slice-take xs zero h = refl
  slice-take [] (suc n) h = absurd (omega arith)
  slice-take (x ∷ xs) (suc n) h = rw (slice-take xs n (omega arith))

  pub take-drop : (n : ℕ) (xs : List A) → take n xs ++ drop n xs ≡ xs
  take-drop zero xs = refl
  take-drop (suc n) [] = refl
  take-drop (suc n) (x ∷ xs) = ap (λ t. x ∷ t) (take-drop n xs)

-- `copy` behind the first `i` elements
pub copy-drop {ℓ} :
    {A : Type ℓ} (xs : List A) (i : ℕ) (vs : List A)
    → i + length vs ≤ length xs
    → copy xs i vs ≡ some (take i xs ++ (vs ++ drop (length vs) (drop i xs)))
copy-drop xs i vs h =
    let run =
      copy-append (take i xs) (drop i xs) vs i (omega (arith, length-take i xs))
        (omega (arith, length-drop i xs)) in
    rw take-drop at run

pub bind_assoc {ℓ} :
    {A B C : Type ℓ} (m : Option A) (f : A → Option B) (g : B → Option C)
    → (m >>= f >>= g) ≡ (m >>= λ a. f a >>= g)
bind_assoc none f g = refl
bind_assoc (some a) f g = refl

pub bind_some {ℓ} : {A : Type ℓ} (m : Option A) → (m >>= λ a. some a) ≡ m
bind_some none = refl
bind_some (some a) = refl
