-- ===== src/Buffer/Append.antt =====
-- The appending functions of ape_buffer.c. `none` is a write or a read outside a block.
use zape.Base.{
  ℕ, ◌-◌, suc, ◌+◌, ◌%◌, ◌^◌, Option, none, some, List, [], ◌∷◌, ◌&&◌, leb, ◌==◌, if◌then◌else◌,
}
use zape.Base.Fault.{◌>>=◌, store, copy, slice}
use zape.Buffer.State.{Buffer, add_size, prepare, prepare_for}

-- `tolower` and `toupper` of the C locale
unfoldable pub tolower : ℕ → ℕ
tolower c = if leb b'A' c && leb c b'Z' then c + 32 else c

unfoldable pub toupper : ℕ → ℕ
toupper c = if leb b'a' c && leb c b'z' then c - 32 else c

-- `strlen`; a string that does not end inside its block is read past it
unfoldable pub strlen : List ℕ → Option ℕ
strlen [] = none
strlen (c ∷ cs) = let rest = strlen cs in if c == 0 then some 0 else (do n ← rest; some (suc n))

-- the `for` loop of `buffer_append_data_tolower`; `i` is an `unsigned`, and `cs` is `data[i..size)`
unfoldable pub lower_loop : List ℕ → (used i : ℕ) → List ℕ → Option (List ℕ)
lower_loop d used i [] = some d
lower_loop d used i (c ∷ cs) = do
  d' ← store d (add_size used i) (tolower c)
  lower_loop d' used ((i + 1) % 2 ^ 32) cs

-- `memcpy` of `n` bytes to `b->data + b->used`, the NUL behind them, and `b->used += n`
unfoldable pub put_bytes : Buffer → List ℕ → ℕ → Option Buffer
put_bytes b src n = do
  from ← slice src n
  d ← b.block
  d₁ ← copy d b.used from
  d₂ ← store d₁ (add_size b.used n) 0
  some (record b { block = some d₂; used = add_size b.used n })

-- the same with each byte put through `tolower`
unfoldable pub put_lower : Buffer → List ℕ → ℕ → Option Buffer
put_lower b src n = do
  from ← slice src n
  d ← b.block
  d₁ ← lower_loop d b.used 0 from
  d₂ ← store d₁ (add_size b.used n) 0
  some (record b { block = some d₂; used = add_size b.used n })

-- `b->data[b->used] = c; b->used++`
unfoldable pub put_char : Buffer → ℕ → Option Buffer
put_char b c = do
  d ← b.block
  d₁ ← store d b.used c
  some (record b { block = some d₁; used = add_size b.used 1 })

module _ (junk : ℕ → ℕ) where
  -- `buffer_append_data`
  unfoldable pub append_data : Buffer → List ℕ → ℕ → Option Buffer
  append_data b src size =
      if size == 0 then some b else put_bytes (prepare junk b (add_size size 1)) src size

  -- `buffer_append_data_tolower`
  unfoldable pub append_data_tolower : Buffer → List ℕ → ℕ → Option Buffer
  append_data_tolower b src size = put_lower (prepare junk b (add_size size 1)) src size

  -- `buffer_append_char`
  unfoldable pub append_char : Buffer → ℕ → Option Buffer
  append_char b c = put_char (prepare_for junk b 1024 1) c

  -- `buffer_append_string_n`; it adds to `used` before it writes the NUL there
  unfoldable pub append_string_n : Buffer → List ℕ → ℕ → Option Buffer
  append_string_n b string n = put_bytes (prepare junk b (add_size n 1)) string n

  -- `buffer_append_string`
  unfoldable pub append_string : Buffer → List ℕ → Option Buffer
  append_string b string = do n ← strlen string; append_string_n b string n
