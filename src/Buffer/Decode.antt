-- ===== src/Buffer/Decode.antt =====
-- The loop of `buffer_utf8_to_buffer`: it reads in bounds on any input; the bytes that it stores.
use zape.Base.{
  ℕ, zero, suc, ◌-◌, ◌%◌, ◌≤◌, ◌<◌, ◌≡◌, refl, none, some, List, [], ◌∷◌, true, length, drop, arith,
  ltb, leb, ◌==◌, if◌then◌else◌, Bool-cases, inl, inr, length-drop,
}
use zape.Base.Fault.{◌>>=◌}
use zape.Buffer.State.{Buffer}
use zape.Buffer.Append.{put_char}
use zape.Buffer.Puts.{puts}
use zape.Buffer.Recode.{emit-put_char}
use zape.Buffer.Utf8.{four, three, two, width, decode_char, decode_loop}

four-total : (c : ℕ) (s : List ℕ) → 4 ≤ length s → (v : ℕ) × (four c s ≡ some v)
unfolding four
four-total c (s₀ ∷ s₁ ∷ s₂ ∷ s₃ ∷ s) h = (_, refl)
four-total c [] h = absurd (omega arith)
four-total c (s₀ ∷ []) h = absurd (omega arith)
four-total c (s₀ ∷ s₁ ∷ []) h = absurd (omega arith)
four-total c (s₀ ∷ s₁ ∷ s₂ ∷ []) h = absurd (omega arith)

three-total : (c : ℕ) (s : List ℕ) → 3 ≤ length s → (v : ℕ) × (three c s ≡ some v)
unfolding three
three-total c (s₀ ∷ s₁ ∷ s₂ ∷ s) h = (_, refl)
three-total c [] h = absurd (omega arith)
three-total c (s₀ ∷ []) h = absurd (omega arith)
three-total c (s₀ ∷ s₁ ∷ []) h = absurd (omega arith)

two-total : (c : ℕ) (s : List ℕ) → 2 ≤ length s → (v : ℕ) × (two c s ≡ some v)
unfolding two
two-total c (s₀ ∷ s₁ ∷ s) h = (_, refl)
two-total c [] h = absurd (omega arith)
two-total c (s₀ ∷ []) h = absurd (omega arith)

-- with `pos` bytes left a sequence is read only if it is whole
decode_char-total :
    (pos c : ℕ) (s : List ℕ) → pos ≤ length s → (v : ℕ) × (decode_char pos c s ≡ some v)
unfolding decode_char
decode_char-total pos c s h = elim (Bool-cases (leb 0xf0 c)) [
  | inl e ↦
      rw (e, if◌then◌else◌)
        (elim (Bool-cases (leb 4 pos)) [
          | inl p ↦ rw (p, if◌then◌else◌) (four-total c s (ground arith))
          | inr p ↦ rw (p, if◌then◌else◌) (b'?', refl)
        ])
  | inr e ↦
      rw (e, if◌then◌else◌)
        (elim (Bool-cases (leb 0xe0 c)) [
          | inl e' ↦
              rw (e', if◌then◌else◌)
                (elim (Bool-cases (leb 3 pos)) [
                  | inl p ↦ rw (p, if◌then◌else◌) (three-total c s (ground arith))
                  | inr p ↦ rw (p, if◌then◌else◌) (b'?', refl)
                ])
          | inr e' ↦
              rw (e', if◌then◌else◌)
                (elim (Bool-cases (leb 0xc0 c)) [
                  | inl e'' ↦
                      rw (e'', if◌then◌else◌)
                        (elim (Bool-cases (leb 2 pos)) [
                          | inl p ↦ rw (p, if◌then◌else◌) (two-total c s (ground arith))
                          | inr p ↦ rw (p, if◌then◌else◌) (b'?', refl)
                        ])
                  | inr e'' ↦ rw (e'', if◌then◌else◌) (c, refl)
                ])
        ])
]

width_pos : (c : ℕ) → 1 ≤ width c
unfolding width
width_pos c = ground arith

-- the bytes that the loop stores
unfoldable pub latin1 : ℕ → ℕ → List ℕ → List ℕ
latin1 zero pos s = []
latin1 (suc fuel) pos [] = []
latin1 (suc fuel) pos (c ∷ s) = if pos == 0 then [] else elim (decode_char pos c (c ∷ s)) [
  | none ↦ []
  | some v ↦
      ((if ltb 0xff v then b'?' else v) % 256)
      ∷ latin1 fuel (pos - width c) (drop (width c) (c ∷ s))
]

pub length-latin1-le : (fuel pos : ℕ) (s : List ℕ) → length (latin1 fuel pos s) ≤ pos
unfolding latin1
length-latin1-le zero pos s = omega arith
length-latin1-le (suc fuel) pos [] = omega arith
length-latin1-le (suc fuel) pos (c ∷ s) =
    ground (arith, width_pos c, length-latin1-le fuel (pos - width c) (drop (width c) (c ∷ s)))

pub decode_loop-puts :
    (fuel pos : ℕ) (s : List ℕ) (nb : Buffer)
    → pos < fuel
    → pos ≤ length s
    → decode_loop fuel pos s nb ≡ puts nb (latin1 fuel pos s)
unfolding decode_loop latin1 puts
decode_loop-puts zero pos s nb f h = absurd (omega arith)
decode_loop-puts (suc fuel) pos [] nb f h =
    let e : (pos == 0) ≡ true = ground arith in rw (e, if◌then◌else◌)
decode_loop-puts (suc fuel) pos (c ∷ s) nb f h = elim (Bool-cases (pos == 0)) [
  | inl e ↦ rw (e, if◌then◌else◌)
  | inr e ↦
      let (v, run) = decode_char-total pos c (c ∷ s) h in
      let w = width_pos c in
      let later : (b : Buffer)
          → decode_loop fuel (pos - width c) (drop (width c) (c ∷ s)) b
            ≡ puts b (latin1 fuel (pos - width c) (drop (width c) (c ∷ s))) =
        λ b.
          decode_loop-puts fuel (pos - width c) (drop (width c) (c ∷ s)) b (ground arith)
            (omega (arith, length-drop (width c) (c ∷ s))) in
      rw (e, if◌then◌else◌, run, emit-put_char nb _ _ refl)
        (λ j. put_char nb ((if ltb 0xff v then b'?' else v) % 256) >>= λ b. later b j)
]
