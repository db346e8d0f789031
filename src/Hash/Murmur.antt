-- ===== src/Hash/Murmur.antt =====
-- `MurmurHash2` and `ape_hash_str` on machine words. `none` is a read past the end of the key, or a
-- division by 0.
use Prim.Native.Nat.{bit_xor}
use zape.Base.{
  ℕ, ◌+◌, ◌-◌, ◌*◌, ◌/◌, ◌%◌, ◌^◌, Option, none, some, List, ◌∷◌, get_elem?, leb, ◌==◌,
  if◌then◌else◌,
}
use zape.Base.Fault.{◌>>=◌}

-- `m`
abbrev pub mixer : ℕ
mixer = 0x5bd1e995

-- `x *= m` and `x ^= x >> r` on 32 bits
unfoldable pub times : ℕ → ℕ
times x = (x * mixer) % 2 ^ 32

unfoldable pub fold_down : ℕ → ℕ → ℕ
fold_down r x = bit_xor x (x / 2 ^ r)

-- `*(unsigned int *)data`, the lowest byte first
unfoldable pub load32 : (a b c d : ℕ) → ℕ
load32 a b c d = a + b * 2 ^ 8 + c * 2 ^ 16 + d * 2 ^ 24

-- one round of the loop: `h` with the word `k`
unfoldable pub mix : (h k : ℕ) → ℕ
mix h k = bit_xor (times h) (times (fold_down 24 (times k)))

-- the loop: `bytes` from `data` on, `len` and `h`, before it and behind it
unfoldable pub murmur_loop : List ℕ → (len h : ℕ) → Option (List ℕ × ℕ × ℕ)
murmur_loop (a ∷ b ∷ c ∷ d ∷ bytes) len h =
    let rest = murmur_loop bytes (len - 4) (mix h (load32 a b c d)) in
    if leb 4 len then rest else some (a ∷ b ∷ c ∷ d ∷ bytes, len, h)
murmur_loop bytes len h = if leb 4 len then none else some (bytes, len, h)

-- the `switch`, whose cases fall through
unfoldable pub murmur_tail : List ℕ → (len h : ℕ) → Option ℕ
murmur_tail bytes len h = do
  h₁ ← if len == 3 then (do c ← get_elem? bytes 2; some (bit_xor h (c * 2 ^ 16))) else some h
  h₂ ← if leb 2 len then (do b ← get_elem? bytes 1; some (bit_xor h₁ (b * 2 ^ 8))) else some h₁
  if leb 1 len then (do a ← get_elem? bytes 0; some (times (bit_xor h₂ a))) else some h₂

-- the last three lines
unfoldable pub finish : ℕ → ℕ
finish h = fold_down 15 (times (fold_down 13 h))

-- `MurmurHash2`
unfoldable pub murmur_hash2 : (key : List ℕ) → (len seed : ℕ) → Option ℕ
murmur_hash2 key len seed = do
  (bytes, left, h) ← murmur_loop key len (bit_xor seed len)
  h' ← murmur_tail bytes left h
  some (finish h')

-- `ape_hash_str`
unfoldable pub ape_hash_str : (seed : ℕ) → (key : List ℕ) → (len max : ℕ) → Option ℕ
ape_hash_str seed key len max = do
  h ← murmur_hash2 key len (seed % 2 ^ 32)
  if max == 0 then none else some (h % max)
