-- ===== src/Hash/State.antt =====
-- The tables of ape_hash.c. The links `next` of a bucket and the links `lnext` and `lprev` through all
-- items are lists; `none` is a fault: a division by 0 or an access outside a block.
use zape.Base.{
  ℕ, zero, suc, ◌+◌, ◌*◌, ◌/◌, ◌%◌, ◌^◌, Bool, true, false, Option, none, some, List, [], ◌∷◌,
  get_elem?, ◌==◌, if◌then◌else◌,
}
use zape.Base.Fault.{◌>>=◌, store, slice}
use zape.Pool.State.{Ptr}
use zape.Hash.Murmur.{ape_hash_str}
use zape.Hash.Chain.{Item, find, assign, remove}

-- a call of the cleaner on an item with a content, `free` of an item, and, at the end of a table, of the
-- string of an item, of the buckets and of the table
pub data Event : Type 0 where
  cleaned : (content : ℕ) → Event
  freed key_freed : Ptr → Event
  table_freed htbl_freed : Event

-- `ape_htable_t`: the items are linked from `first` on; `has_cleaner` tells whether one is set
pub record Table (K : Type 0) : Type 0 where
  pub first : List Ptr
  pub table : List (List (Item K))
  pub has_cleaner : Bool
  pub size : ℕ
  pub log : List Event

-- `HACH_TABLE_MAX`
abbrev pub table_max : ℕ
table_max = 8209

-- what a pointer to nothing is read as
abbrev pub or_null : Option ℕ → ℕ
or_null none = 0
or_null (some v) = v

abbrev pub empty_chains : {K : Type 0} → ℕ → List (List (Item K))
empty_chains zero = []
empty_chains (suc n) = [] ∷ empty_chains n

-- the item is taken out of the list of all
unfoldable pub unlink : Ptr → List Ptr → List Ptr
unlink p [] = []
unlink p (q ∷ ps) = if p == q then ps else q ∷ unlink p ps

module _ {K : Type 0} where
  -- `hashtbl_init_with_size` and `hashtbl_init`
  unfoldable pub init_with_size : ℕ → Table K
  init_with_size n = record {
    first = [];
    table = empty_chains n;
    has_cleaner = false;
    size = n;
    log = [];
  }

  unfoldable pub init : Table K
  unfolding init_with_size
  init = init_with_size table_max

  -- `hashtbl_set_cleaner`
  unfoldable pub set_cleaner : Table K → Bool → Table K
  set_cleaner t cleaner = record t { has_cleaner = cleaner }

  -- `if (htbl->cleaner) htbl->cleaner(item)` and `free(item)`
  abbrev pub clean : Table K → ℕ → List Event
  clean t content = if t.has_cleaner then cleaned content ∷ t.log else t.log

  module _ (same : K → K → Bool) where
    -- The common end of the `append` functions, for bucket `h` and the key `k`. An item that has the key gets a content
    -- from its old one, and the new item is freed, after the cleaner if `cleans` says so.
    unfoldable pub insert :
        (h : ℕ) → K → Item K → (ℕ → ℕ) → (cleans : Bool) → Table K → Option (Table K)
    insert h k u f cleans t = do
      c ← get_elem? t.table h
      elim (assign same k f c) [
        | some c' ↦ do
          table ← store t.table h c'
          some (record t {
            table = table;
            log = freed u.at ∷ (if cleans then clean t u.content else t.log);
          })
        | none ↦ do
          table ← store t.table h (u ∷ c)
          some (record t { table = table; first = u.at ∷ t.first })
      ]

    -- the common end of the `erase` functions
    unfoldable pub erase : (h : ℕ) → K → Table K → Option (Table K)
    erase h k t = do
      c ← get_elem? t.table h
      elim (remove same k c) [
        | some (u, c') ↦ do
          table ← store t.table h c'
          some (record t {
            table = table;
            first = unlink u.at t.first;
            log = freed u.at ∷ clean t u.content;
          })
        | none ↦ some t
      ]

    -- the common end of the `seek` functions
    unfoldable pub seek_at : (h : ℕ) → K → Table K → Option ℕ
    seek_at h k t = do c ← get_elem? t.table h; some (or_null (find same k c))

-- `key % htbl->size`
unfoldable pub slot64 : ℕ → ℕ → Option ℕ
slot64 key size = if size == 0 then none else some (key % size)

-- `hashtbl_append64`; the new item is at `at`
unfoldable pub append64 : Table ℕ → (key addr : ℕ) → (at : Ptr) → Option (Table ℕ)
append64 t key addr at = do
  h ← slot64 key t.size
  insert ◌==◌ h key (record { at = at; key = key; content = addr }) (λ _. addr) true t

-- `hashtbl_erase64` and `hashtbl_seek64`
unfoldable pub erase64 : Table ℕ → ℕ → Option (Table ℕ)
erase64 t key = do h ← slot64 key t.size; erase ◌==◌ h key t

unfoldable pub seek64 : Table ℕ → ℕ → Option ℕ
seek64 t key = do h ← slot64 key t.size; seek_at ◌==◌ h key t

-- a `uint32_t` stored in the low half of the union
unfoldable pub set_scalar : (old val : ℕ) → ℕ
set_scalar old val = old / 2 ^ 32 * 2 ^ 32 + val % 2 ^ 32

-- The functions on strings, for a `_ape_seed` and `strcasecmp(a, b) == 0`. A key is the bytes from
-- its pointer on, or no pointer.
module _ (seed : ℕ) (same : List ℕ → List ℕ → Bool) where
  -- `hashtbl_append`
  unfoldable pub append :
      Table (List ℕ)
      → (key : Option (List ℕ)) → (key_len addr : ℕ) → (at : Ptr) → Option (Table (List ℕ))
  append t none key_len addr at = some t
  append t (some key) key_len addr at = do
    h ← ape_hash_str seed key key_len t.size
    str ← slice key (key_len + 1)
    insert same h key (record { at = at; key = str; content = addr }) (λ _. addr) true t

  -- `hashtbl_append_val32`; `junk` is what the union of the new item holds
  unfoldable pub append_val32 :
      Table (List ℕ)
      → (key : Option (List ℕ)) → (key_len val : ℕ) → (at : Ptr) → (junk : ℕ)
      → Option (Table (List ℕ))
  append_val32 t none key_len val at junk = some t
  append_val32 t (some key) key_len val at junk = do
    h ← ape_hash_str seed key key_len t.size
    str ← slice key (key_len + 1)
    insert same h key (record { at = at; key = str; content = set_scalar junk val })
        (λ old. set_scalar old val) false t

  -- `hashtbl_erase`
  unfoldable pub erase_str :
      Table (List ℕ) → (key : Option (List ℕ)) → (key_len : ℕ) → Option (Table (List ℕ))
  erase_str t none key_len = some t
  erase_str t (some key) key_len = do h ← ape_hash_str seed key key_len t.size; erase same h key t

  -- `hashtbl_seek` and `hashtbl_seek_val32`
  unfoldable pub seek : Table (List ℕ) → (key : Option (List ℕ)) → (key_len : ℕ) → Option ℕ
  seek t none key_len = some 0
  seek t (some key) key_len = do h ← ape_hash_str seed key key_len t.size; seek_at same h key t

  unfoldable pub seek_val32 : Table (List ℕ) → (key : Option (List ℕ)) → (key_len : ℕ) → Option ℕ
  seek_val32 t none key_len = some 0
  seek_val32 t (some key) key_len = do
    h ← ape_hash_str seed key key_len t.size
    v ← seek_at same h key t
    some (v % 2 ^ 32)
