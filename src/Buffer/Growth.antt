-- ===== src/Buffer/Growth.antt =====
-- Growing a buffer keeps its invariant and its contents, and makes the room that was asked for.
use zape.Base.{
  ℕ, ◌+◌, ap, Bool-cases, inl, inr, ◌==◌, ==→eq, if◌then◌else◌, ltb, ◌≤◌, ◌<◌, ◌^◌, ◌≡◌, refl,
  Option, none, some, List, [], arith, length, take, ◌∙◌, length-append, length-tabulate,
  take-append_le, take_of_length-le, ◌-◌,
}
use zape.Buffer.State.{bytes, Buffer, prepare, prepare_for, enlarge, add_size, malloc, realloc}

-- the bytes in use
abbrev pub contents : Buffer → List ℕ
contents b = take b.used (bytes b.block)

-- `size` is the length of the block, and `used` bytes of it are in use.
pub record IsValid (b : Buffer) : Type 0 where
  pub sized : length (bytes b.block) ≡ b.size
  pub within : b.used ≤ b.size

pub length-realloc :
    (junk : ℕ → ℕ) (o : Option (List ℕ)) (n : ℕ)
    → length (bytes o) ≤ n
    → length (realloc junk o n) ≡ n
length-realloc junk none n h = length-tabulate junk 0 n
length-realloc junk (some d) n h =
    length-append (take n d) _
    ∙ omega
        (arith, length-tabulate junk (length d) (n - length d), ap length (take_of_length-le n d h))

the_zero : (n : ℕ) → n ≤ 0 → n ≡ 0
the_zero n h = omega arith

pub take-realloc :
    (junk : ℕ → ℕ) (o : Option (List ℕ)) (n k : ℕ)
    → length (bytes o) ≤ n
    → k ≤ length (bytes o)
    → take k (realloc junk o n) ≡ take k (bytes o)
take-realloc junk none n k h l = rw (the_zero k l) refl
take-realloc junk (some d) n k h l = rw (take_of_length-le n d h) (take-append_le k d _ l)

-- `b` has become `c`: the contents are kept and `n` more bytes fit.
pub record Grown (b c : Buffer) (n : ℕ) : Type 0 where
  pub valid : IsValid c
  pub same_used : c.used ≡ b.used
  pub same : contents c ≡ contents b
  pub room : b.used + n ≤ c.size

module _ (junk : ℕ → ℕ) (b : Buffer) (v : IsValid b) where
  fresh-Grown :
      (size n : ℕ)
      → b.size ≡ 0
      → n ≤ size
      → Grown b (record b { size = size; used = 0; block = some (malloc junk size) }) n
  fresh-Grown size n e h = record {
    valid = record { sized = length-tabulate junk 0 size; within = omega arith };
    same_used = omega arith;
    same = empty;
    room = omega arith;
  }
    where
      empty : [] ≡ contents b
      empty = rw (the_zero b.used (omega arith))

  enlarge-Grown :
      (more n : ℕ)
      → b.size + more < 2 ^ 64
      → b.used + n ≤ b.size + more
      → Grown b (enlarge junk b more) n
  unfolding enlarge
  enlarge-Grown more n small h =
      let total : add_size b.size more ≡ b.size + more = omega arith in
      rw total (record {
        valid = record {
          sized = length-realloc junk b.block (b.size + more) (omega arith);
          within = omega arith;
        };
        same_used = refl;
        same = take-realloc junk b.block (b.size + more) b.used (omega arith) (omega arith);
        room = h;
      })

  kept-Grown : (n : ℕ) → b.used + n ≤ b.size → Grown b b n
  kept-Grown n h = record { valid = v; same_used = refl; same = refl; room = h }

  -- the growing branch, which both functions share
  grow-Grown :
      (size forsize : ℕ)
      → forsize ≤ size
      → b.size + size + 1 < 2 ^ 64
      → Grown b
          (if ltb b.size (add_size b.used forsize)
            then enlarge junk b (if size == 0 then 1 else size)
            else b)
          forsize
  grow-Grown size forsize h small = elim (Bool-cases (ltb b.size (add_size b.used forsize))) [
    | inl e ↦
        rw (e, if◌then◌else◌)
          (enlarge-Grown (if size == 0 then 1 else size) forsize (ground arith) (ground arith))
    | inr e ↦ rw (e, if◌then◌else◌) (kept-Grown forsize (ground arith))
  ]

  -- `buffer_prepare_for`: `forsize` bytes fit afterwards, if `size` is not less.
  pub prepare_for-Grown :
      (size forsize : ℕ)
      → forsize ≤ size
      → b.size + size + 1 < 2 ^ 64
      → Grown b (prepare_for junk b size forsize) forsize
  unfolding prepare_for
  prepare_for-Grown size forsize h small = elim (Bool-cases (b.size == 0)) [
    | inl e ↦ rw (e, if◌then◌else◌) (fresh-Grown size forsize (==→eq b.size 0 e) h)
    | inr e ↦ rw (e, if◌then◌else◌) (grow-Grown size forsize h small)
  ]

  -- `buffer_prepare` on a valid buffer, for a `size` whose sum with that of the block does not wrap:
  -- the buffer is valid, its contents are kept, and `size` more bytes fit.
  pub prepare-Grown : (size : ℕ) → b.size + size + 1 < 2 ^ 64 → Grown b (prepare junk b size) size
  unfolding prepare
  prepare-Grown size small = elim (Bool-cases (b.size == 0)) [
    | inl e ↦ rw (e, if◌then◌else◌) (fresh-Grown size size (==→eq b.size 0 e) (omega arith))
    | inr e ↦ rw (e, if◌then◌else◌) (grow-Grown size size (omega arith) small)
  ]
