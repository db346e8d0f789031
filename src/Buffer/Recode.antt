-- ===== src/Buffer/Recode.antt =====
-- `buffer_to_buffer_utf8`: bytes as Latin-1 to UTF-8, in bounds.
use Prim.Native.Nat.{bit_and, bit_or}
use zape.Base.{
  ℕ, zero, suc, ◌+◌, ◌*◌, ◌/◌, ◌%◌, ◌^◌, ◌≤◌, ◌<◌, ◌≡◌, refl, sym, ap, ◌∙◌, some, List, [], ◌∷◌,
  ◌++◌, true, length, take, arith, ltb, ◌==◌, if◌then◌else◌, Bool-cases, inl, inr, table, entry,
  ltb→lt, lt→ltb, length-append, ==→eq,
}
use zape.Base.Fault.{◌>>=◌, bind_some}
use zape.Buffer.State.{Buffer}
use zape.Buffer.Append.{put_char}
use zape.Buffer.Puts.{puts, puts-append}
use zape.Buffer.Utf8.{emit, encode_step, encode_loop}

-- every element is a byte
abbrev pub Bytes : List ℕ → Type 0
Bytes [] = Unit {0}
Bytes (c ∷ s) = (c < 256) × Bytes s

-- a Latin-1 character in UTF-8
unfoldable pub utf8_char : ℕ → List ℕ
utf8_char c = if ltb c 128 then c ∷ [] else (192 + c / 64) ∷ (128 + c % 64) ∷ []

unfoldable pub utf8 : List ℕ → List ℕ
utf8 [] = []
utf8 (c ∷ s) = utf8_char c ++ utf8 s

first_table : table (λ c. bit_or 0xc0 (c / 2 ^ 6) % 256 == 192 + c / 64) 256 ≡ true
unfolding table
first_table = refl

second_table : table (λ c. bit_or 0x80 (bit_and c 0x3f) % 256 == 128 + c % 64) 256 ≡ true
unfolding table
second_table = refl

pub emit-put_char : (nb : Buffer) (v w : ℕ) → v % 256 ≡ w → emit nb v ≡ put_char nb w
unfolding emit
emit-put_char nb v w e = ap (put_char nb) e

encode_step-puts : (nb : Buffer) (c : ℕ) → c < 256 → encode_step nb c ≡ puts nb (utf8_char c)
unfolding encode_step puts utf8_char
encode_step-puts nb c h =
    let first : bit_or 0xc0 (c / 2 ^ 6) % 256 ≡ 192 + c / 64 =
      ==→eq _ _ (entry _ 256 c first_table h) in
    let second : bit_or 0x80 (bit_and c 0x3f) % 256 ≡ 128 + c % 64 =
      ==→eq _ _ (entry _ 256 c second_table h) in
    let both : (b : Buffer)
        → emit b (bit_or 0x80 (bit_and c 0x3f)) ≡ (put_char b (128 + c % 64) >>= λ b'. some b') =
      λ b. emit-put_char b _ _ second ∙ sym (bind_some (put_char b (128 + c % 64))) in
    elim (Bool-cases (ltb c 128)) [
      | inl e ↦
          rw (e, if◌then◌else◌)
            (emit-put_char nb c c (omega (arith, ltb→lt c 128 e)) ∙ sym (bind_some (put_char nb c)))
      | inr e ↦
          rw (e, if◌then◌else◌, lt→ltb c 2048 (omega arith), emit-put_char nb _ _ first)
            (λ j. put_char nb (192 + c / 64) >>= λ b'. both b' j)
    ]

-- The loop of `buffer_to_buffer_utf8` stores the UTF-8 of the bytes that it reads.
pub encode_loop-puts :
    (pos : ℕ) (s : List ℕ) (nb : Buffer)
    → pos ≤ length s
    → Bytes (take pos s)
    → encode_loop pos s nb ≡ puts nb (utf8 (take pos s))
unfolding encode_loop utf8 puts
encode_loop-puts zero s nb h bs = refl
encode_loop-puts (suc pos) [] nb h bs = absurd (omega arith)
encode_loop-puts (suc pos) (c ∷ s) nb h bs =
    rw (puts-append nb (utf8_char c) (utf8 (take pos s)), encode_step-puts nb c bs.0)
      (λ j. puts nb (utf8_char c) >>= λ b'. encode_loop-puts pos s b' (omega arith) bs.1 j)

length-utf8_char-le : (c : ℕ) → length (utf8_char c) ≤ 2
unfolding utf8_char
length-utf8_char-le c = ground arith

-- at most two bytes for each
pub length-utf8-le : (s : List ℕ) → length (utf8 s) ≤ 2 * length s
unfolding utf8
length-utf8-le [] = omega arith
length-utf8-le (c ∷ s) =
    omega (arith, length-append (utf8_char c) (utf8 s), length-utf8_char-le c, length-utf8-le s)
