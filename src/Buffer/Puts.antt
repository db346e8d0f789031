-- ===== src/Buffer/Puts.antt =====
-- Bytes stored one by one behind those in use, within the block: `b->data[b->used++] = c`.
use zape.Base.{
  ℕ, suc, ◌+◌, ◌^◌, ◌≤◌, ◌<◌, ◌≡◌, refl, sym, ap, ◌∙◌, Option, some, List, [], ◌∷◌, ◌++◌, length,
  take, drop, arith, take-append_le, take_of_length-le, length-append, length-drop, length-take,
  append_assoc, append-nil,
}
use zape.Base.Fault.{◌>>=◌, bind_assoc, store, store-append, take-drop}
use zape.Buffer.State.{bytes, Buffer, add_size}
use zape.Buffer.Growth.{IsValid, contents}
use zape.Buffer.Append.{put_char}
use zape.Buffer.Tail.{block_of, drop-suc, length-take_of_le}

-- `b` has become `c` by storing `cs` behind the bytes in use.
pub record Put (b c : Buffer) (cs : List ℕ) : Type 0 where
  pub valid : IsValid c
  pub count : c.used ≡ b.used + length cs
  pub same_size : c.size ≡ b.size
  pub contains : contents c ≡ contents b ++ cs

-- the block after one byte
unfoldable pub char_block : Buffer → List ℕ → ℕ → List ℕ
char_block c d ch = (take c.used d ++ ch ∷ []) ++ drop (suc c.used) d

pub char_store :
    (c : Buffer) (d : List ℕ) (ch : ℕ)
    → c.used < length d
    → store d c.used ch ≡ some (char_block c d ch)
unfolding char_block
char_store c d ch h =
    let (x, split) = drop-suc c.used d h in
    let len : c.used ≡ length (take c.used d) = length-take_of_le c.used d (omega arith) in
    let there = store-append (take c.used d) x (drop (suc c.used) d) c.used ch len in
    let run = rw (← split, take-drop) at there in rw (run, append_assoc)

char_run :
    (c : Buffer) (d : List ℕ) (ch : ℕ)
    → c.block ≡ some d
    → c.used < length d
    → c.used + 1 < 2 ^ 64
    → put_char c ch ≡ some (record c { block = some (char_block c d ch); used = c.used + 1 })
unfolding put_char
char_run c d ch e h small =
    let one : add_size c.used 1 ≡ c.used + 1 = omega arith in simp (e, one, char_store c d ch h)

pub char_block_lem :
    (c : Buffer) (d : List ℕ) (ch : ℕ)
    → c.used < length d
    → (length (char_block c d ch) ≡ length d)
      × (take (c.used + 1) (char_block c d ch) ≡ take c.used d ++ ch ∷ [])
unfolding char_block
char_block_lem c d ch h =
    let front = take c.used d ++ ch ∷ [] in
    let len : length front ≡ c.used + 1 =
      omega (arith, length-append (take c.used d) (ch ∷ []), length-take c.used d) in
    (
      omega (arith, length-append front (drop (suc c.used) d), len, length-drop (suc c.used) d),
      take-append_le (c.used + 1) front (drop (suc c.used) d) (omega arith)
          ∙ take_of_length-le (c.used + 1) front (omega arith),
    )

pub put_char-Put :
    (b : Buffer) (ch : ℕ)
    → IsValid b
    → b.used < b.size
    → b.used + 1 < 2 ^ 64
    → (c : Buffer) × (put_char b ch ≡ some c) × Put b c (ch ∷ [])
put_char-Put b ch v h small =
    let (d, e) = block_of b.block (omega (arith, v.sized)) in
    let held = ap (λ o. length (bytes o)) (sym e) ∙ v.sized in
    let (len, front) = char_block_lem b d ch (omega (arith, held)) in
    let old : take b.used d ≡ contents b = ap (λ o. take b.used (bytes o)) (sym e) in
    (
      record b { block = some (char_block b d ch); used = b.used + 1 },
      char_run b d ch e (omega (arith, held)) small,
      record {
        valid = record { sized = len ∙ held; within = omega arith };
        count = omega arith;
        same_size = refl;
        contains = front ∙ ap (λ t. t ++ ch ∷ []) old;
      },
    )

-- several bytes, one after the other
unfoldable pub puts : Buffer → List ℕ → Option Buffer
puts b [] = some b
puts b (c ∷ cs) = do b' ← put_char b c; puts b' cs

pub puts-append :
    (b : Buffer) (xs ys : List ℕ) → puts b (xs ++ ys) ≡ (puts b xs >>= λ b'. puts b' ys)
unfolding puts
puts-append b [] ys = refl
puts-append b (x ∷ xs) ys =
    (λ j. put_char b x >>= λ b'. puts-append b' xs ys j)
    ∙ sym (bind_assoc (put_char b x) (λ b'. puts b' xs) (λ b'. puts b' ys))

pub puts-Put :
    (b : Buffer) (cs : List ℕ)
    → IsValid b
    → b.used + length cs ≤ b.size
    → b.used + length cs < 2 ^ 64
    → (c : Buffer) × (puts b cs ≡ some c) × Put b c cs
unfolding puts
puts-Put b [] v h small = (
  b,
  refl,
  record {
    valid = v;
    count = omega arith;
    same_size = refl;
    contains = sym (append-nil (contents b));
  },
)
puts-Put b (x ∷ cs) v h small =
    let (b', run, p) = put_char-Put b x v (omega arith) (omega arith) in
    let (c, runs, q) =
      puts-Put b' cs p.valid (omega (arith, p.count, p.same_size)) (omega (arith, p.count)) in
    (
      c,
      rw run runs,
      record {
        valid = q.valid;
        count = omega (arith, p.count, q.count);
        same_size = q.same_size ∙ p.same_size;
        contains =
            q.contains ∙ ap (λ t. t ++ cs) p.contains ∙ append_assoc (contents b) (x ∷ []) cs;
      },
    )
