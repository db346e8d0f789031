-- ===== src/Hash/Bytes.antt =====
-- The hash of a key reads its bytes and no others, and is a word.
use Prim.Native.Nat.{bit_xor}
use zape.Base.{
  ℕ, suc, ◌-◌, ◌*◌, ◌/◌, ◌%◌, ◌^◌, ◌<◌, ◌≤◌, ◌≡◌, refl, sym, ap, ◌∙◌, true, false, Option, some,
  List, [], ◌∷◌, ◌++◌, length, leb, le→leb, gt→leb, ◌==◌, if◌then◌else◌, arith,
}
use zape.Base.Fault.{◌>>=◌, bind_assoc}
use zape.Base.Bits.{bit_xor-lt}
use zape.Hash.Murmur.{
  times, fold_down, load32, mix, murmur_loop, murmur_tail, finish, murmur_hash2, ape_hash_str,
}

times-lt : (x : ℕ) → times x < 2 ^ 32
unfolding times
times-lt x = omega arith

fold_down-lt : (r x : ℕ) → x / 2 ^ r ≤ x → x < 2 ^ 32 → fold_down r x < 2 ^ 32
unfolding fold_down
fold_down-lt r x h k = bit_xor-lt 32 x (x / 2 ^ r) k (omega arith)

finish-lt : (h : ℕ) → finish h < 2 ^ 32
unfolding finish
finish-lt h = fold_down-lt 15 (times (fold_down 13 h)) (omega arith) (times-lt (fold_down 13 h))

-- MurmurHash2 by the words of the key: the words, then the bytes that are left
abbrev words : List ℕ → ℕ → ℕ
words (a ∷ b ∷ c ∷ d ∷ key) h = words key (mix h (load32 a b c d))
words (a ∷ b ∷ c ∷ []) h = times (bit_xor (bit_xor (bit_xor h (c * 2 ^ 16)) (b * 2 ^ 8)) a)
words (a ∷ b ∷ []) h = times (bit_xor (bit_xor h (b * 2 ^ 8)) a)
words (a ∷ []) h = times (bit_xor h a)
words [] h = h

abbrev pub reference_hash : List ℕ → ℕ → ℕ
reference_hash key seed = finish (words key (bit_xor seed (length key)))

loop_done : (bytes : List ℕ) (len h : ℕ) → len < 4 → murmur_loop bytes len h ≡ some (bytes, len, h)
unfolding murmur_loop
loop_done [] len h small = rw (gt→leb 4 len small) refl
loop_done (a ∷ []) len h small = rw (gt→leb 4 len small) refl
loop_done (a ∷ b ∷ []) len h small = rw (gt→leb 4 len small) refl
loop_done (a ∷ b ∷ c ∷ []) len h small = rw (gt→leb 4 len small) refl
loop_done (a ∷ b ∷ c ∷ d ∷ bytes) len h small = rw (gt→leb 4 len small) refl

loop_word :
    (key more : List ℕ) (a b c d h : ℕ)
    → murmur_loop (a ∷ b ∷ c ∷ d ∷ key ++ more) (length (a ∷ b ∷ c ∷ d ∷ key)) h
      ≡ murmur_loop (key ++ more) (length key) (mix h (load32 a b c d))
unfolding murmur_loop
loop_word key more a b c d h =
    let n = suc (suc (suc (suc (length key)))) in
    let left : n - 4 ≡ length key = omega arith in
    let word : leb 4 n ≡ true = le→leb 4 n (omega arith) in rw (word, left) refl

-- the loop and the `switch` behind it
loop_tail : (key more : List ℕ) (h : ℕ) → Option ℕ
loop_tail key more h = do
  (bytes, left, h') ← murmur_loop (key ++ more) (length key) h
  murmur_tail bytes left h'

loop_tail-words : (key more : List ℕ) (h : ℕ) → loop_tail key more h ≡ some (words key h)
unfolding loop_tail murmur_tail
loop_tail-words [] more h = rw (loop_done more 0 h (omega arith)) refl
loop_tail-words (a ∷ []) more h = rw (loop_done (a ∷ more) 1 h (omega arith)) refl
loop_tail-words (a ∷ b ∷ []) more h = rw (loop_done (a ∷ b ∷ more) 2 h (omega arith)) refl
loop_tail-words (a ∷ b ∷ c ∷ []) more h = rw (loop_done (a ∷ b ∷ c ∷ more) 3 h (omega arith)) refl
loop_tail-words (a ∷ b ∷ c ∷ d ∷ key) more h =
    ap (λ r. r >>= λ t. murmur_tail t.0 t.1 t.2) (loop_word key more a b c d h)
    ∙ loop_tail-words key more (mix h (load32 a b c d))

-- For a key of `len` bytes, whatever stands behind it, `MurmurHash2` reads no other byte, and gives
-- the hash by the words of the key, a 32-bit number.
pub murmur_hash2_lem :
    (key more : List ℕ) (seed : ℕ)
    → (murmur_hash2 (key ++ more) (length key) seed ≡ some (reference_hash key seed))
      × (reference_hash key seed < 2 ^ 32)
unfolding murmur_hash2 loop_tail
murmur_hash2_lem key more seed = (
  sym (bind_assoc (murmur_loop (key ++ more) (length key) (bit_xor seed (length key))) _ _)
      ∙ ap (λ r. r >>= λ h. some (finish h)) (loop_tail-words key more (bit_xor seed (length key))),
  finish-lt _,
)

-- the bucket of a key
abbrev pub bucket_of : (seed : ℕ) → List ℕ → (size : ℕ) → ℕ
bucket_of seed key size = reference_hash key (seed % 2 ^ 32) % size

pub ape_hash_str_lem :
    (seed : ℕ) (key more : List ℕ) (max : ℕ)
    → 0 < max
    → (ape_hash_str seed (key ++ more) (length key) max ≡ some (bucket_of seed key max))
      × (bucket_of seed key max < max)
unfolding ape_hash_str
ape_hash_str_lem seed key more max pos =
    let (run, _) = murmur_hash2_lem key more (seed % 2 ^ 32) in
    let some_room : (max == 0) ≡ false = ground arith in
    (simp (run, some_room, if◌then◌else◌), omega arith)
