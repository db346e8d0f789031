-- ===== src/Buffer/ToUtf8.antt =====
-- The whole of `buffer_to_buffer_utf8`.
use zape.Base.{
  ℕ, ◌+◌, ◌*◌, ◌%◌, ◌^◌, ◌<◌, ◌≡◌, ap, ◌∙◌, some, List, ◌++◌, length, take, arith, length-take,
  lt→ltb, if◌then◌else◌,
}
use zape.Base.Fault.{◌>>=◌}
use zape.Buffer.State.{Buffer, bytes, add_size, new}
use zape.Buffer.Growth.{IsValid, contents}
use zape.Buffer.Puts.{puts, puts-Put}
use zape.Buffer.Recode.{Bytes, utf8, encode_loop-puts, length-utf8-le}
use zape.Buffer.Trim.{Recoded, new-IsValid, trim-Recoded}
use zape.Buffer.Utf8.{signed_pos, trim, to_utf8}

pub signed_pos_lem : (used : ℕ) → used < 2 ^ 31 → signed_pos used ≡ used
unfolding signed_pos
signed_pos_lem used h =
    let same : used % 2 ^ 32 ≡ used = omega arith in
    rw (same, lt→ltb used (2 ^ 31) h, if◌then◌else◌)

pub length-contents : (b : Buffer) → IsValid b → length (contents b) ≡ b.used
length-contents b v = omega (arith, length-take b.used (bytes b.block), v.sized, v.within)

module _ (junk : ℕ → ℕ) where
  -- Bytes stored into a fresh buffer that has room for them and a NUL, which is then trimmed.
  pub collect :
      (n : ℕ) (cs : List ℕ)
      → length cs < n
      → n < 2 ^ 64
      → (r : Buffer) × ((puts (new junk n) cs >>= trim junk) ≡ some r) × Recoded r cs
  collect n cs h small =
      let (v, zero_used, size) = new-IsValid junk n (omega arith) in
      let (c, run, p) =
        puts-Put (new junk n) cs v (omega (arith, zero_used, size)) (omega (arith, zero_used)) in
      let (r, trimmed, done) =
        trim-Recoded junk c p.valid (omega (arith, p.count, p.same_size, zero_used, size))
          (omega (arith, p.same_size, size)) in
      let all : contents c ≡ cs =
        p.contains ∙ ap (λ k. take k (bytes (new junk n).block) ++ cs) zero_used in
      (r, rw (run, ◌>>=◌) trimmed, rw all at done)

  to_utf8-puts :
      (b : Buffer)
      → IsValid b
      → Bytes (contents b)
      → b.used < 2 ^ 31
      → to_utf8 junk b ≡ (puts (new junk (b.used * 4 + 1)) (utf8 (contents b)) >>= trim junk)
  unfolding to_utf8
  to_utf8-puts b v bs small =
      let room : add_size ((b.used * 4) % 2 ^ 64) 1 ≡ b.used * 4 + 1 = omega arith in
      let stored =
        encode_loop-puts b.used (bytes b.block) (new junk (b.used * 4 + 1))
          (omega (arith, v.sized, v.within)) bs in
      rw (room, signed_pos_lem b.used small, stored)

  -- On a valid buffer of fewer than 2^31 bytes, `buffer_to_buffer_utf8` accesses no byte outside a
  -- block, and its result holds the UTF-8 of the Latin-1 bytes in use, with a NUL behind.
  pub to_utf8-Recoded :
      (b : Buffer)
      → IsValid b
      → Bytes (contents b)
      → b.used < 2 ^ 31
      → (r : Buffer) × (to_utf8 junk b ≡ some r) × Recoded r (utf8 (contents b))
  to_utf8-Recoded b v bs small =
      let (r, run, done) =
        collect (b.used * 4 + 1) (utf8 (contents b))
          (omega (arith, length-utf8-le (contents b), length-contents b v)) (omega arith) in
      (r, to_utf8-puts b v bs small ∙ run, done)
