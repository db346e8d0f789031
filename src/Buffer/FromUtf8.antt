-- ===== src/Buffer/FromUtf8.antt =====
-- `buffer_utf8_to_buffer` reads and writes in bounds on any input, and undoes `buffer_to_buffer_utf8`.
use Prim.Native.Nat.{bit_and, bit_or}
use zape.Base.{
  ℕ, zero, suc, ◌+◌, ◌-◌, ◌*◌, ◌/◌, ◌%◌, ◌^◌, ◌≤◌, ◌<◌, ◌≡◌, refl, sym, ap, ◌∙◌, some, List, [],
  ◌∷◌, ◌++◌, true, false, ◌||◌, length, drop, arith, ltb, ◌==◌, if◌then◌else◌, Bool-cases, inl, inr,
  length-append, table, entry, ltb→lt, ltb→ge, ==→eq, le→leb, gt→leb, ge→ltb,
}
use zape.Base.Fault.{◌>>=◌, take-drop}
use zape.Buffer.State.{Buffer, bytes, add_size, new}
use zape.Buffer.Growth.{IsValid, contents}
use zape.Buffer.Puts.{puts}
use zape.Buffer.Recode.{Bytes, utf8_char, utf8, length-utf8-le}
use zape.Buffer.Trim.{Recoded}
use zape.Buffer.ToUtf8.{signed_pos_lem, length-contents, collect, to_utf8-Recoded}
use zape.Buffer.Decode.{latin1, length-latin1-le, decode_loop-puts}
use zape.Buffer.Utf8.{two, width, decode_char, trim, to_utf8, from_utf8}

ascii : (pos c : ℕ) (s : List ℕ) → c < 128 → (decode_char pos c s ≡ some c) × (width c ≡ 1)
unfolding decode_char width
ascii pos c s h =
    rw
      (
        gt→leb 0xf0 c (omega arith),
        gt→leb 0xe0 c (omega arith),
        gt→leb 0xc0 c (omega arith),
        if◌then◌else◌,
      )
      (refl, refl)

pair_table :
    table
      (λ c.
        ltb c 128 || (bit_or (bit_and (192 + c / 64) 63 * 2 ^ 6) (bit_and (128 + c % 64) 63) == c))
      256
    ≡ true
unfolding table
pair_table = refl

pair :
    (pos c : ℕ) (s : List ℕ)
    → 128 ≤ c
    → c < 256
    → 2 ≤ pos
    → (decode_char pos (192 + c / 64) ((192 + c / 64) ∷ (128 + c % 64) ∷ s) ≡ some c)
      × (width (192 + c / 64) ≡ 2)
unfolding decode_char width two
pair pos c s h l p =
    let value = entry _ 256 c pair_table l in
    rw
      (
        gt→leb 0xf0 (192 + c / 64) (omega arith),
        gt→leb 0xe0 (192 + c / 64) (omega arith),
        le→leb 0xc0 (192 + c / 64) (omega arith),
        le→leb 2 pos p,
        if◌then◌else◌,
      )
      (ap some (==→eq _ c (rw (ge→ltb c 128 h) at value)), refl)

char_pos : (c : ℕ) → 1 ≤ length (utf8_char c)
unfolding utf8_char
char_pos c = ground arith

utf8_longer : (cs : List ℕ) → length cs ≤ length (utf8 cs)
unfolding utf8
utf8_longer [] = omega arith
utf8_longer (c ∷ cs) =
    omega (arith, length-append (utf8_char c) (utf8 cs), char_pos c, utf8_longer cs)

latin1-zero : (fuel : ℕ) (s : List ℕ) → latin1 fuel 0 s ≡ []
unfolding latin1
latin1-zero zero s = refl
latin1-zero (suc fuel) [] = refl
latin1-zero (suc fuel) (c ∷ s) = refl

latin1_step :
    (fuel n k c v : ℕ) (s : List ℕ)
    → decode_char n c (c ∷ s) ≡ some v
    → width c ≡ k
    → v < 256
    → 0 < n
    → latin1 (suc fuel) n (c ∷ s) ≡ v ∷ latin1 fuel (n - k) (drop k (c ∷ s))
unfolding latin1
latin1_step fuel n k c v s run step small pos =
    let e : (n == 0) ≡ false = ground arith in
    let byte : v % 256 ≡ v = omega arith in
    rw (e, if◌then◌else◌, run, step, ge→ltb 0xff v (omega arith), if◌then◌else◌, byte)

-- Decoding the UTF-8 of some bytes gives the bytes back, whatever stands behind.
latin1-utf8 :
    (fuel : ℕ) (cs rest : List ℕ)
    → length (utf8 cs) < fuel
    → Bytes cs
    → latin1 fuel (length (utf8 cs)) (utf8 cs ++ rest) ≡ cs
unfolding utf8 utf8_char
latin1-utf8 fuel [] rest h bs = latin1-zero fuel rest
latin1-utf8 zero (c ∷ cs) rest h bs = absurd (omega arith)
latin1-utf8 (suc fuel) (c ∷ cs) rest h bs = elim (Bool-cases (ltb c 128)) [
  | inl e ↦
      let (value, step) =
        ascii (suc (length (utf8 cs))) c (c ∷ (utf8 cs ++ rest)) (ltb→lt c 128 e) in
      let sub : suc (length (utf8 cs)) - 1 ≡ length (utf8 cs) = omega arith in
      let small : length (utf8 cs) < fuel =
        omega (arith, length-append (utf8_char c) (utf8 cs), char_pos c) in
      rw (e, if◌then◌else◌)
        (latin1_step fuel _ 1 c c (utf8 cs ++ rest) value step bs.0 (omega arith)
          ∙ ap (λ t. c ∷ latin1 fuel t (utf8 cs ++ rest)) sub
          ∙ ap (λ t. c ∷ t) (latin1-utf8 fuel cs rest small bs.1))
  | inr e ↦
      let (value, step) =
        pair (suc (suc (length (utf8 cs)))) c (utf8 cs ++ rest) (ltb→ge c 128 e) bs.0
          (omega arith) in
      let sub : suc (suc (length (utf8 cs))) - 2 ≡ length (utf8 cs) = omega arith in
      let small : length (utf8 cs) < fuel =
        omega (arith, length-append (utf8_char c) (utf8 cs), char_pos c) in
      rw (e, if◌then◌else◌)
        (latin1_step fuel _ 2 (192 + c / 64) c ((128 + c % 64) ∷ (utf8 cs ++ rest)) value step bs.0
            (omega arith)
          ∙ ap (λ t. c ∷ latin1 fuel t (utf8 cs ++ rest)) sub
          ∙ ap (λ t. c ∷ t) (latin1-utf8 fuel cs rest small bs.1))
]

module _ (junk : ℕ → ℕ) (b : Buffer) (v : IsValid b) (small : b.used < 2 ^ 31) where
  from_utf8-puts :
      from_utf8 junk b
      ≡ (puts (new junk (b.used + 1)) (latin1 (suc b.used) b.used (bytes b.block)) >>= trim junk)
  unfolding from_utf8
  from_utf8-puts =
      let room : add_size b.used 1 ≡ b.used + 1 = omega arith in
      let stored =
        decode_loop-puts (suc b.used) b.used (bytes b.block) (new junk (b.used + 1)) (omega arith)
          (omega (arith, v.sized, v.within)) in
      rw (room, signed_pos_lem b.used small, stored)

  -- On fewer than 2^31 bytes that its block has, whatever they are, `buffer_utf8_to_buffer` accesses
  -- no byte outside a block, and its result is a NUL-terminated buffer of no more bytes.
  pub from_utf8_in_bounds :
      (out : List ℕ) × (r : Buffer) × (from_utf8 junk b ≡ some r)
      × Recoded r out
      × (length out ≤ b.used)
  from_utf8_in_bounds =
      let out = latin1 (suc b.used) b.used (bytes b.block) in
      let few = length-latin1-le (suc b.used) b.used (bytes b.block) in
      let (r, run, done) = collect junk (b.used + 1) out (omega (arith, few)) (omega arith) in
      (out, r, from_utf8-puts ∙ run, done, few)

-- For a valid buffer of fewer than 2^30 bytes, `buffer_to_buffer_utf8` and `buffer_utf8_to_buffer`
-- on its result both succeed, and the second gives back the bytes that the first was given.
pub from_utf8-to_utf8 :
    (junk : ℕ → ℕ) (b : Buffer)
    → IsValid b
    → Bytes (contents b)
    → b.used < 2 ^ 30
    → (r : Buffer) × (c : Buffer) × (to_utf8 junk b ≡ some r)
      × (from_utf8 junk r ≡ some c)
      × (contents c ≡ contents b)
from_utf8-to_utf8 junk b v bs small =
    let (r, run, done) = to_utf8-Recoded junk b v bs (omega arith) in
    let cs = contents b in
    let rest = drop r.used (bytes r.block) in
    let few : r.used ≤ 2 * b.used =
      omega (arith, done.used, length-utf8-le cs, length-contents b v) in
    let same : latin1 (suc r.used) r.used (bytes r.block) ≡ cs =
      ap (λ t. latin1 (suc r.used) r.used t)
        (sym (take-drop r.used (bytes r.block)) ∙ ap (λ t. t ++ rest) done.holds)
      ∙ ap (λ n. latin1 (suc r.used) n (utf8 cs ++ rest)) done.used
      ∙ latin1-utf8 (suc r.used) cs rest (omega (arith, done.used)) bs in
    let (c, back, end) =
      collect junk (r.used + 1) cs (omega (arith, done.used, utf8_longer cs)) (omega arith) in
    let decoded : from_utf8 junk r ≡ (puts (new junk (r.used + 1)) cs >>= trim junk) =
      from_utf8-puts junk r done.valid (omega arith)
      ∙ ap (λ t. puts (new junk (r.used + 1)) t >>= trim junk) same in
    (r, c, run, decoded ∙ back, end.holds)
