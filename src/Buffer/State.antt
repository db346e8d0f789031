-- ===== src/Buffer/State.antt =====
-- The struct `buffer`, its creation, growth and release (ape_buffer.c).
-- `junk i` is what a fresh block holds at index `i`; `malloc` and `realloc` are taken to succeed.
use zape.Base.{
  ℕ, ◌+◌, ◌-◌, ◌%◌, ◌^◌, Option, none, some, List, [], ◌++◌, ltb, ◌==◌, if◌then◌else◌, length, take,
  tabulate,
}

-- `data` is `none` for a null pointer, or the bytes of the block that it points to
pub record Buffer : Type 0 where
  pub block : Option (List ℕ)
  pub size : ℕ
  pub used : ℕ
  pub pos : ℕ

-- `size_t` addition
abbrev pub add_size : ℕ → ℕ → ℕ
add_size a b = (a + b) % 2 ^ 64

-- the bytes behind `data`
abbrev pub bytes : Option (List ℕ) → List ℕ
bytes none = []
bytes (some d) = d

-- `buffer_init`
unfoldable pub init : Buffer
init = record { block = none; size = 0; used = 0; pos = 0 }

-- `buffer_data`: the block, and `used` as the 32-bit pattern of an `int`
unfoldable pub bytes_of : Buffer → Option (List ℕ) × ℕ
bytes_of b = (b.block, b.used % 2 ^ 32)

-- `buffer_delete`; its second test is of the zlib build
unfoldable pub delete : Buffer → Buffer
delete b = elim b.block [ none ↦ b | some d ↦ record b { block = none; used = 0; size = 0 } ]

module _ (junk : ℕ → ℕ) where
  abbrev pub malloc : ℕ → List ℕ
  malloc n = tabulate junk 0 n

  -- the first bytes are kept, the rest of a longer block is fresh
  abbrev pub realloc : Option (List ℕ) → ℕ → List ℕ
  realloc none n = malloc n
  realloc (some d) n = take n d ++ tabulate junk (length d) (n - length d)

  -- `buffer_new`
  unfoldable pub new : ℕ → Buffer
  unfolding init
  new size =
      if ltb 0 size
      then record init { size = size; block = some (malloc size) }
      else record init { size = 0 }

  -- `b->size += more; b->data = realloc(b->data, b->size)`
  unfoldable pub enlarge : Buffer → ℕ → Buffer
  enlarge b more =
      let total = add_size b.size more in
      record b { size = total; block = some (realloc b.block total) }

  -- `buffer_prepare_for`
  unfoldable pub prepare_for : Buffer → (size forsize : ℕ) → Buffer
  prepare_for b size forsize =
      if b.size == 0
      then record b { size = size; used = 0; block = some (malloc size) }
      else if ltb b.size (add_size b.used forsize)
      then enlarge b (if size == 0 then 1 else size)
      else b

  -- `buffer_prepare`
  unfoldable pub prepare : Buffer → ℕ → Buffer
  prepare b size =
      if b.size == 0
      then record b { size = size; used = 0; block = some (malloc size) }
      else if ltb b.size (add_size b.used size)
      then enlarge b (if size == 0 then 1 else size)
      else b
