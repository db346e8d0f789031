-- ===== src/Socket/Sent.antt =====
-- What the loop of `APE_socket_write` asks of the system and what it makes of the answers.
use zape.Base.{
  ℕ, zero, suc, ◌-◌, ◌+◌, ◌%◌, ◌^◌, ◌<◌, ◌≡◌, refl, ap, ◌∙◌, true, false, Option, none, some, List,
  [], ◌∷◌, length, take, drop, ltb, lt→ltb, ge→ltb, take_of_length-le, length-drop, ◌==◌,
  if◌then◌else◌, arith,
}
use zape.Base.Fault.{slice}
use zape.Socket.Write.{
  Answer, wrote, again, failed, Outcome, sent, broken, blocked, ape_min, write_loop,
}

pub slice-length : (xs : List ℕ) (n : ℕ) → n ≡ length xs → slice xs n ≡ some xs
unfolding slice
slice-length [] zero e = refl
slice-length [] (suc n) e = absurd (omega arith)
slice-length (x ∷ xs) zero e = absurd (omega arith)
slice-length (x ∷ xs) (suc n) e = rw (slice-length xs n (omega arith))

slice_past : (xs : List ℕ) (n : ℕ) → length xs < n → slice xs n ≡ none
unfolding slice
slice_past [] zero h = absurd (omega arith)
slice_past [] (suc n) h = refl
slice_past (x ∷ xs) zero h = absurd (omega arith)
slice_past (x ∷ xs) (suc n) h = rw (slice_past xs n (omega arith))

-- `k` answers of 0 bytes before others
abbrev pub zeros : ℕ → List Answer → List Answer
zeros zero answers = answers
zeros (suc k) answers = wrote 0 ∷ zeros k answers

-- nothing is left to send
over :
    (answers : List Answer) (payload : List ℕ) (len t r : ℕ) (out : List ℕ)
    → ltb t len ≡ false
    → write_loop answers payload len t r out ≡ some (sent out)
unfolding write_loop
over [] payload len t r out e = simp (e, if◌then◌else◌)
over (wrote n ∷ answers) payload len t r out e = simp (e, if◌then◌else◌)
over (again ∷ answers) payload len t r out e = simp (e, if◌then◌else◌)
over (failed ∷ answers) payload len t r out e = simp (e, if◌then◌else◌)

-- a call that asks for more than is left of the block
past :
    (a : Answer) (answers : List Answer) (payload : List ℕ) (len t r : ℕ) (out : List ℕ)
    → ltb t len ≡ true
    → slice (drop t payload) r ≡ none
    → write_loop (a ∷ answers) payload len t r out ≡ none
unfolding write_loop
past (wrote n) answers payload len t r out e f = simp (e, f, if◌then◌else◌)
past again answers payload len t r out e f = simp (e, f, if◌then◌else◌)
past failed answers payload len t r out e f = simp (e, f, if◌then◌else◌)

module _ (payload : List ℕ) (len : ℕ) (whole : len ≡ length payload) (pos : 0 < len) where
  todo : ltb 0 len ≡ true
  todo = lt→ltb 0 len pos

  first : slice (drop 0 payload) len ≡ some payload
  first = slice-length payload len whole

  -- `r_bytes` stays as it is
  kept : (n : ℕ) → len - ape_min n 0 ≡ len
  kept zero = omega arith
  kept (suc n) = ground arith

  step :
      (n t : ℕ) (answers : List Answer)
      → (0 + n) % 2 ^ 64 ≡ t
      → write_loop (wrote n ∷ answers) payload len 0 len []
        ≡ write_loop answers payload len t len (take n payload)
  unfolding write_loop
  step n t answers e = simp (todo, first, e, kept n, if◌then◌else◌)

  skip :
      (k : ℕ) (answers : List Answer)
      → write_loop (zeros k answers) payload len 0 len [] ≡ write_loop answers payload len 0 len []
  skip zero answers = refl
  skip (suc k) answers = step 0 0 (zeros k answers) (omega arith) ∙ skip k answers

  abbrev run : List Answer → Option Outcome
  run answers = write_loop answers payload len 0 len []

  blocks : (answers : List Answer) → run (again ∷ answers) ≡ some (blocked 0 len [])
  unfolding write_loop
  blocks answers =
      let some_left : (len == 0) ≡ false = ground arith in
      simp (todo, first, some_left, if◌then◌else◌)

  breaks : (answers : List Answer) → run (failed ∷ answers) ≡ some (broken [])
  unfolding write_loop
  breaks answers = simp (todo, first, if◌then◌else◌)

  -- For a block of `len` bytes that is not empty, after any number of answers of 0 bytes: an answer
  -- of `len` bytes ends the loop with the whole block sent, `EAGAIN` ends it with `t_bytes` 0 and all
  -- of `len` to be queued, and another error ends it as broken; in each case the bytes taken are told.
  pub write_loop_whole :
      len < 2 ^ 64
      → (k : ℕ) (answers : List Answer)
      → (write_loop (zeros k (wrote len ∷ answers)) payload len 0 len [] ≡ some (sent payload))
        × (write_loop (zeros k (again ∷ answers)) payload len 0 len [] ≡ some (blocked 0 len []))
        × (write_loop (zeros k (failed ∷ answers)) payload len 0 len [] ≡ some (broken []))
  write_loop_whole small k answers =
      let full : ltb len len ≡ false = ge→ltb len len (omega arith) in
      let all : take len payload ≡ payload = take_of_length-le len payload (omega arith) in
      (
        skip k (wrote len ∷ answers)
            ∙ step len len answers (omega arith)
            ∙ over answers payload len _ _ _ full
            ∙ ap (λ out. some (sent out)) all,
        skip k (again ∷ answers) ∙ blocks answers,
        skip k (failed ∷ answers) ∙ breaks answers,
      )

  -- For a block of `len` bytes, after any number of answers of 0 bytes: when the system takes some of
  -- the bytes but not all, the next call of `write` reads past the end of the block, whatever the
  -- answers are from there on, since `r_bytes` is still `len`.
  pub write_loop_partial :
      len < 2 ^ 64
      → (k n : ℕ) → 0 < n
      → n < len
      → (a : Answer) (answers : List Answer)
      → write_loop (zeros k (wrote n ∷ a ∷ answers)) payload len 0 len [] ≡ none
  write_loop_partial small k n some_taken left a answers =
      let rest : length (drop n payload) < len = rw (length-drop n payload) (omega arith) in
      skip k (wrote n ∷ a ∷ answers)
      ∙ step n n (a ∷ answers) (omega arith)
      ∙ past a answers payload len n len _ (lt→ltb n len left)
          (slice_past (drop n payload) len rest)
