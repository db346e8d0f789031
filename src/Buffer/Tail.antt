-- ===== src/Buffer/Tail.antt =====
-- The tail that the appending functions share: the bytes copied behind those in use, and a NUL.
use zape.Base.{
  ℕ, zero, suc, ◌+◌, ◌%◌, ◌^◌, ◌≤◌, ◌<◌, ◌≡◌, refl, sym, ap, ◌∙◌, Option, none, some, List, [], ◌∷◌,
  ◌++◌, map, append_assoc, length, take, drop, get_elem?, length-append, length-take, length-drop,
  arith, take-append_le, take_of_length-le,
}
use native.Mathlib.Nat.{add-zero}
use zape.Base.Fault.{◌>>=◌, store, copy, bind_assoc, store-append, copy-drop, slice-take}
use zape.Buffer.State.{bytes, Buffer, add_size}
use zape.Buffer.Growth.{IsValid, contents, Grown}
use zape.Buffer.Append.{tolower, lower_loop, put_bytes, put_lower}

-- a block that `used` bytes, `cs` and a NUL fit into, after these are written
abbrev written : List ℕ → ℕ → List ℕ → List ℕ
written d used cs = take used d ++ (cs ++ 0 ∷ drop (suc (length cs)) (drop used d))

pub drop-suc : (n : ℕ) (xs : List ℕ) → n < length xs → (x : ℕ) × (drop n xs ≡ x ∷ drop (suc n) xs)
drop-suc n [] h = absurd (omega arith)
drop-suc zero (x ∷ xs) h = (x, refl)
drop-suc (suc n) (x ∷ xs) h = drop-suc n xs (omega arith)

write_terminated :
    (d : List ℕ) (used n : ℕ) (cs : List ℕ)
    → n ≡ length cs
    → used + n < length d
    → (copy d used cs >>= λ d₁. store d₁ (used + n) 0) ≡ some (written d used cs)
write_terminated d used n cs e h =
    let (x, split) = drop-suc (length cs) (drop used d) (omega (arith, length-drop used d)) in
    let fits =
      store-append (take used d ++ cs) x (drop (suc (length cs)) (drop used d)) (used + n) 0
        (omega (arith, length-append (take used d) cs, length-take used d)) in
    rw (copy-drop d used cs (omega arith), split) (simp append_assoc at fits)

lower_loop_lem :
    (d : List ℕ) (used i : ℕ) (cs : List ℕ)
    → used + i + length cs < 2 ^ 64
    → i + length cs < 2 ^ 32
    → lower_loop d used i cs ≡ copy d (used + i) (map tolower cs)
unfolding lower_loop copy
lower_loop_lem d used i [] h k = refl
lower_loop_lem d used i (c ∷ cs) h k =
    let here : add_size used i ≡ used + i = omega arith in
    let next : (i + 1) % 2 ^ 32 ≡ suc i = omega arith in
    let step : used + suc i ≡ suc (used + i) = omega arith in
    let later : (d' : List ℕ)
        → lower_loop d' used (suc i) cs ≡ copy d' (suc (used + i)) (map tolower cs) =
      λ d'.
        lower_loop_lem d' used (suc i) cs (omega arith) (omega arith)
        ∙ ap (λ t. copy d' t (map tolower cs)) step in
    rw (here, next) (λ j. store d (used + i) (tolower c) >>= λ d'. later d' j)

-- `b` has become `c` with `cs` appended and a NUL behind.
pub record Appended (b c : Buffer) (cs : List ℕ) : Type 0 where
  pub valid : IsValid c
  pub count : c.used ≡ b.used + length cs
  pub appended : contents c ≡ contents b ++ cs
  pub terminated : get_elem? (bytes c.block) c.used ≡ some 0

pub block_of : (o : Option (List ℕ)) → 0 < length (bytes o) → (d : List ℕ) × (o ≡ some d)
block_of none h = absurd (omega arith)
block_of (some d) h = (d, refl)

pub get_elem?-append :
    (xs ys : List ℕ) (n : ℕ) → n ≡ length xs → get_elem? (xs ++ ys) n ≡ get_elem? ys 0
get_elem?-append [] ys zero e = refl
get_elem?-append [] ys (suc n) e = absurd (omega arith)
get_elem?-append (x ∷ xs) ys zero e = absurd (omega arith)
get_elem?-append (x ∷ xs) ys (suc n) e = get_elem?-append xs ys n (omega arith)

-- the buffer that the tail of each appending function leaves
abbrev finish : Buffer → List ℕ → List ℕ → Buffer
finish c d cs = record c { block = some (written d c.used cs); used = c.used + length cs }

module _ (b c : Buffer) (d cs : List ℕ) (g : Grown b c (length cs + 1)) (e : c.block ≡ some d) where
  held : length d ≡ c.size
  held = ap (λ o. length (bytes o)) (sym e) ∙ g.valid.sized

  kept : List ℕ
  kept = take c.used d ++ cs

  length-kept : length kept ≡ c.used + length cs
  unfolding kept
  length-kept = omega (arith, held, length-append (take c.used d) cs, length-take c.used d)

  rest : List ℕ
  rest = drop (suc (length cs)) (drop c.used d)

  length-rest : length rest + suc (c.used + length cs) ≡ c.size
  unfolding rest
  length-rest =
      omega (arith, held, length-drop (suc (length cs)) (drop c.used d), length-drop c.used d)

  regroup : written d c.used cs ≡ kept ++ 0 ∷ rest
  unfolding kept rest
  regroup = simp append_assoc

  start : kept ≡ contents b ++ cs
  unfolding kept
  start = ap (λ t. t ++ cs) (ap (λ o. take c.used (bytes o)) (sym e) ∙ g.same)

  pub finish-Appended : Appended b (finish c d cs) cs
  finish-Appended = rw regroup (record {
    valid = record {
      sized = omega (arith, length-append kept (0 ∷ rest), length-kept, length-rest);
      within = omega (arith, length-rest);
    };
    count = omega arith;
    appended =
        take-append_le (c.used + length cs) kept (0 ∷ rest) (omega (arith, length-kept))
        ∙ take_of_length-le _ kept (omega (arith, length-kept))
        ∙ start;
    terminated = get_elem?-append kept (0 ∷ rest) (c.used + length cs) (sym length-kept);
  })

pub length-map {ℓ κ} :
    {A : Type ℓ} {B : Type κ} (f : A → B) (xs : List A) → length (map f xs) ≡ length xs
length-map f [] = refl
length-map f (x ∷ xs) = ap suc (length-map f xs)

pub length-take_of_le : (n : ℕ) (xs : List ℕ) → n ≤ length xs → n ≡ length (take n xs)
length-take_of_le n xs h = omega (arith, length-take n xs)

-- the tail of the appending functions, once the block is at hand
tail_run :
    (c : Buffer) (d cs : List ℕ) (n : ℕ)
    → n ≡ length cs
    → c.used + n < length d
    → (copy d c.used cs >>= λ d₁.
        store d₁ (c.used + n) 0 >>= λ d₂. some (record c { block = some d₂; used = c.used + n }))
      ≡ some (finish c d cs)
tail_run c d cs n e h =
    sym (
      bind_assoc (copy d c.used cs) (λ d₁. store d₁ (c.used + n) 0)
        (λ d₂. some (record c { block = some d₂; used = c.used + n })))
    ∙ rw (write_terminated d c.used n cs e h) (rw e refl)

module _ (b c : Buffer) (src : List ℕ) (n : ℕ) (has : n ≤ length src) (g : Grown b c (n + 1))
    (small : b.used + n < 2 ^ 64) where
  used_total : add_size c.used n ≡ c.used + n
  used_total = omega (arith, g.room, g.same_used)

  module _ (d : List ℕ) (e : c.block ≡ some d) where
    room : c.used + n < length d
    room = omega (arith, ap (λ o. length (bytes o)) (sym e), g.valid.sized, g.room, g.same_used)

    put_bytes_run : put_bytes c src n ≡ some (finish c d (take n src))
    unfolding put_bytes
    put_bytes_run =
        rw (slice-take src n has, e, used_total)
          (tail_run c d (take n src) n (length-take_of_le n src has) room)

    put_lower_run : n < 2 ^ 32 → put_lower c src n ≡ some (finish c d (map tolower (take n src)))
    unfolding put_lower
    put_lower_run short =
        let len = length-take_of_le n src has in
        let loop = lower_loop_lem d c.used 0 (take n src) (omega arith) (omega arith) in
        rw (slice-take src n has, e, used_total, loop, add-zero)
          (tail_run c d (map tolower (take n src)) n (len ∙ sym (length-map tolower (take n src)))
            room)

  pub put_bytes-Appended :
      (c' : Buffer) × (put_bytes c src n ≡ some c') × Appended b c' (take n src)
  put_bytes-Appended =
      let (d, e) = block_of c.block (omega (arith, g.valid.sized, g.room)) in
      (
        finish c d (take n src),
        put_bytes_run d e,
        finish-Appended b c d (take n src) (rw (← length-take_of_le n src has) g) e,
      )

  pub put_lower-Appended :
      n < 2 ^ 32
      → (c' : Buffer) × (put_lower c src n ≡ some c') × Appended b c' (map tolower (take n src))
  put_lower-Appended short =
      let (d, e) = block_of c.block (omega (arith, g.valid.sized, g.room)) in
      (
        finish c d (map tolower (take n src)),
        put_lower_run d e short,
        finish-Appended b c d (map tolower (take n src))
            (rw (length-map, ← length-take_of_le n src has) g) e,
      )
