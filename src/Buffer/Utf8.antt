-- ===== src/Buffer/Utf8.antt =====
-- `buffer_to_buffer_utf8` and `buffer_utf8_to_buffer` of ape_buffer.c. `none` is an access outside a
-- block (or, in `decode_loop`, fuel that runs out).
use Prim.Native.Nat.{bit_and, bit_or}
use zape.Base.{
  ℕ, zero, suc, ◌-◌, ◌*◌, ◌/◌, ◌%◌, ◌^◌, Option, none, some, List, [], ◌∷◌, drop, get_elem?, ltb,
  leb, ◌==◌, if◌then◌else◌,
}
use zape.Base.Fault.{◌>>=◌, store}
use zape.Buffer.State.{Buffer, bytes, add_size, new, realloc}
use zape.Buffer.Append.{put_char}

-- `int pos = b->used`, only tested for `pos > 0`: a negative value runs no round, as 0 does
unfoldable pub signed_pos : ℕ → ℕ
signed_pos used = if ltb (used % 2 ^ 32) (2 ^ 31) then used % 2 ^ 32 else 0

-- `newb->data[newb->used++] = v`, the value cut to a byte
unfoldable pub emit : Buffer → ℕ → Option Buffer
emit nb v = put_char nb (v % 256)

-- the branches of the loop in `buffer_to_buffer_utf8`
unfoldable pub encode_step : Buffer → ℕ → Option Buffer
encode_step nb c =
    if ltb c 0x80
    then emit nb c
    else if ltb c 0x800
    then (do nb₁ ← emit nb (bit_or 0xc0 (c / 2 ^ 6)); emit nb₁ (bit_or 0x80 (bit_and c 0x3f)))
    else if ltb c 0x10000
    then (do
      nb₁ ← emit nb (bit_or 0xe0 (c / 2 ^ 12))
      nb₂ ← emit nb₁ (bit_or 0xc0 (bit_and (c / 2 ^ 6) 0x3f))
      emit nb₂ (bit_or 0x80 (bit_and c 0x3f)))
    else if ltb c 0x200000
    then (do
      nb₁ ← emit nb (bit_or 0xf0 (c / 2 ^ 18))
      nb₂ ← emit nb₁ (bit_or 0xe0 (bit_and (c / 2 ^ 12) 0x3f))
      nb₃ ← emit nb₂ (bit_or 0xc0 (bit_and (c / 2 ^ 6) 0x3f))
      emit nb₃ (bit_or 0x80 (bit_and c 0x3f)))
    else some nb

-- `pos` rounds from the pointer `s` on
unfoldable pub encode_loop : ℕ → List ℕ → Buffer → Option Buffer
encode_loop zero s nb = some nb
encode_loop (suc pos) [] nb = none
encode_loop (suc pos) (c ∷ s) nb = do nb' ← encode_step nb c; encode_loop pos s nb'

-- the sequences of four, three and two bytes
unfoldable pub four : ℕ → List ℕ → Option ℕ
four c s = do
  s₁ ← get_elem? s 1
  s₂ ← get_elem? s 2
  s₃ ← get_elem? s 3
  let high = bit_or (bit_and c 7 * 2 ^ 18) (bit_and s₁ 63 * 2 ^ 12)
  some (bit_or (bit_or high (bit_and s₂ 63 * 2 ^ 6)) (bit_and s₃ 63))

unfoldable pub three : ℕ → List ℕ → Option ℕ
three c s = do
  s₁ ← get_elem? s 1
  s₂ ← get_elem? s 2
  some (bit_or (bit_or (bit_and c 63 * 2 ^ 12) (bit_and s₁ 63 * 2 ^ 6)) (bit_and s₂ 63))

unfoldable pub two : ℕ → List ℕ → Option ℕ
two c s = do s₁ ← get_elem? s 1; some (bit_or (bit_and c 63 * 2 ^ 6) (bit_and s₁ 63))

-- how far the first byte moves `s` and `pos`
unfoldable pub width : ℕ → ℕ
width c = if leb 0xf0 c then 4 else if leb 0xe0 c then 3 else if leb 0xc0 c then 2 else 1

-- `c` after the branches of the loop in `buffer_utf8_to_buffer`
unfoldable pub decode_char : (pos c : ℕ) → List ℕ → Option ℕ
decode_char pos c s =
    if leb 0xf0 c
    then (if leb 4 pos then four c s else some b'?')
    else if leb 0xe0 c
    then (if leb 3 pos then three c s else some b'?')
    else if leb 0xc0 c
    then (if leb 2 pos then two c s else some b'?')
    else some c

-- `pos` may pass below 0, which ends the loop as 0 does
unfoldable pub decode_loop : ℕ → ℕ → List ℕ → Buffer → Option Buffer
decode_loop zero pos s nb = none
decode_loop (suc fuel) pos s nb = if pos == 0 then some nb else (do
  first ← get_elem? s 0
  c ← decode_char pos first s
  nb' ← emit nb (if ltb 0xff c then b'?' else c)
  decode_loop fuel (pos - width first) (drop (width first) s) nb')

module _ (junk : ℕ → ℕ) where
  -- the NUL behind the result, and the `realloc` to the bytes in use
  unfoldable pub trim : Buffer → Option Buffer
  trim nb = do
    d ← nb.block
    d' ← store d nb.used 0
    let fit = add_size nb.used 1
    if ltb fit nb.size
        then some (record nb { size = fit; block = some (realloc junk (some d') fit) })
        else some (record nb { block = some d' })

  -- `buffer_to_buffer_utf8`
  unfoldable pub to_utf8 : Buffer → Option Buffer
  to_utf8 b = do
    nb ←
        encode_loop (signed_pos b.used) (bytes b.block)
          (new junk (add_size ((b.used * 4) % 2 ^ 64) 1))
    trim nb

  -- `buffer_utf8_to_buffer`
  unfoldable pub from_utf8 : Buffer → Option Buffer
  from_utf8 b = do
    nb ←
        decode_loop (suc (signed_pos b.used)) (signed_pos b.used) (bytes b.block)
          (new junk (add_size b.used 1))
    trim nb
