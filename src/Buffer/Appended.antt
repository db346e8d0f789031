-- ===== src/Buffer/Appended.antt =====
-- The appending functions of ape_buffer.c access no byte outside a block and append what they say.
use zape.Base.{
  ℕ, ◌+◌, ◌^◌, ◌≤◌, ◌<◌, ◌≡◌, ◌≢◌, refl, ap, ◌∙◌, some, List, [], ◌∷◌, ◌++◌, map, length, take,
  arith, ◌==◌, if◌then◌else◌, Bool-cases, inl, inr, take-append_le, take_of_length-le,
  length-append, ==→eq,
}
use zape.Buffer.State.{Buffer, add_size, prepare, prepare_for}
use zape.Buffer.Growth.{IsValid, contents, Grown, prepare-Grown, prepare_for-Grown}
use zape.Buffer.Append.{
  tolower, strlen, append_data, append_data_tolower, append_char, append_string_n, append_string,
}
use zape.Buffer.Puts.{put_char-Put}
use zape.Buffer.Tail.{Appended, put_bytes-Appended, put_lower-Appended}

module _ (junk : ℕ → ℕ) (b : Buffer) (v : IsValid b) where
  module _ (src : List ℕ) (n : ℕ) (has : n ≤ length src) (small : b.size + n + 2 < 2 ^ 64) where
    prepared : Grown b (prepare junk b (add_size n 1)) (n + 1)
    prepared =
        let one : add_size n 1 ≡ n + 1 = omega arith in
        rw one (prepare-Grown junk b v (n + 1) (omega arith))

    fits : b.used + n < 2 ^ 64
    fits = omega (arith, v.within)

    -- On a valid buffer, for `size` bytes that the source has and whose sum with the size of the
    -- block does not wrap, `buffer_append_data` accesses no byte outside a block and appends those
    -- bytes, with a NUL behind them, unless `size` is 0, where it leaves the buffer alone.
    pub append_data-Appended :
        (n ≡ 0 → append_data junk b src n ≡ some b)
        × (n ≢ 0 → (c : Buffer) × (append_data junk b src n ≡ some c) × Appended b c (take n src))
    unfolding append_data
    append_data-Appended = elim (Bool-cases (n == 0)) [
      | inl e ↦ (λ _. rw (e, if◌then◌else◌), λ ne. absurd (ne (==→eq n 0 e)))
      | inr e ↦ (
        λ z. absurd (ground arith),
        λ _.
            rw (e, if◌then◌else◌)
              (put_bytes-Appended b (prepare junk b (add_size n 1)) src n has prepared fits),
      )
    ]

    -- On a valid buffer, for `size` bytes below 2^32 that the source has and whose sum with the size
    -- of the block does not wrap, `buffer_append_data_tolower` accesses no byte outside a block and
    -- appends those bytes in lower case, with a NUL behind them.
    pub append_data_tolower-Appended :
        n < 2 ^ 32
        → (c : Buffer) × (append_data_tolower junk b src n ≡ some c)
          × Appended b c (map tolower (take n src))
    unfolding append_data_tolower
    append_data_tolower-Appended short =
        put_lower-Appended b (prepare junk b (add_size n 1)) src n has prepared fits short

    -- `buffer_append_string_n` appends the first `length` bytes of the string and a NUL.
    pub append_string_n-Appended :
        (c : Buffer) × (append_string_n junk b src n ≡ some c) × Appended b c (take n src)
    unfolding append_string_n
    append_string_n-Appended =
        put_bytes-Appended b (prepare junk b (add_size n 1)) src n has prepared fits

-- no byte of `s` is NUL
abbrev pub NoNul : List ℕ → Type 0
NoNul [] = Unit {0}
NoNul (c ∷ s) = (c ≢ 0) × NoNul s

strlen_lem : (s rest : List ℕ) → NoNul s → strlen (s ++ 0 ∷ rest) ≡ some (length s)
unfolding strlen
strlen_lem [] rest h = refl
strlen_lem (c ∷ s) rest h = rw (strlen_lem s rest h.1) (ground arith)

module _ (junk : ℕ → ℕ) (b : Buffer) (v : IsValid b) where
  -- On a valid buffer, for a string with a NUL whose length does not make the size of the block wrap,
  -- `buffer_append_string` accesses no byte outside a block and appends the bytes before the NUL, with
  -- a NUL behind them.
  pub append_string-Appended :
      (s rest : List ℕ)
      → NoNul s
      → b.size + length s + 2 < 2 ^ 64
      → (c : Buffer) × (append_string junk b (s ++ 0 ∷ rest) ≡ some c) × Appended b c s
  unfolding append_string
  append_string-Appended s rest h small =
      let long : length s ≤ length (s ++ 0 ∷ rest) = omega (arith, length-append s (0 ∷ rest)) in
      let whole : take (length s) (s ++ 0 ∷ rest) ≡ s =
        take-append_le (length s) s (0 ∷ rest) (omega arith)
        ∙ take_of_length-le (length s) s (omega arith) in
      let (c, run, done) =
        append_string_n-Appended junk b v (s ++ 0 ∷ rest) (length s) long small in
      (c, rw (strlen_lem s rest h) run, rw whole at done)

  -- On a valid buffer whose size and 1026 do not wrap, `buffer_append_char` writes in bounds and
  -- appends the byte, and the buffer stays valid.
  pub append_char-Put :
      (ch : ℕ)
      → b.size + 1026 < 2 ^ 64
      → (c : Buffer) × (append_char junk b ch ≡ some c)
        × IsValid c
        × (c.used ≡ b.used + 1)
        × (contents c ≡ contents b ++ ch ∷ [])
  unfolding append_char
  append_char-Put ch small =
      let g = prepare_for-Grown junk b v 1024 1 (omega arith) (omega arith) in
      let start = prepare_for junk b 1024 1 in
      let (c, run, put) =
        put_char-Put start ch g.valid (omega (arith, g.room, g.same_used))
          (omega (arith, v.within, g.same_used)) in
      (
        c,
        run,
        put.valid,
        omega (arith, put.count, g.same_used),
        put.contains ∙ ap (λ t. t ++ ch ∷ []) g.same,
      )
