-- ===== src/Pool/State.antt =====
-- The slots and lists of ape_pool.h, and the functions of ape_pool.c that build and relink them.
-- A pointer is a number, 0 the null pointer. `none` is an access through a pointer to no slot.
-- `item` is the union `ptr` with what a slot type that begins with an `ape_pool_t` adds behind it.
use zape.Base.{ℕ, zero, suc, ◌+◌, ◌*◌, ◌-◌, Option, none, some, ◌==◌, if◌then◌else◌}
use zape.Base.Fault.{◌>>=◌}

abbrev pub Ptr : Type 0
Ptr = ℕ

abbrev pub null : Ptr
null = 0

-- `APE_POOL_ALLOC`
abbrev pub pool_alloc : ℕ
pool_alloc = 1

-- `ape_pool_t`
pub record Slot (P : Type 0) : Type 0 where
  pub item : P
  pub next : Ptr
  pub prev : Ptr
  pub flags : ℕ

abbrev pub Mem : Type 0 → Type 0
Mem P = Ptr → Option (Slot P)

-- `ape_pool_list_t`, with the slots that it owns
pub record PoolList (P : Type 0) : Type 0 where
  pub head : Ptr
  pub queue : Ptr
  pub current : Ptr
  pub size : ℕ
  pub mem : Mem P

module _ {P : Type 0} where
  unfoldable pub write : Mem P → Ptr → Slot P → Mem P
  write m p s a = if a == p then some s else m a

  -- `p->next = q`, `p->prev = q`, `p->ptr = x`
  unfoldable pub set_next : Mem P → Ptr → Ptr → Option (Mem P)
  set_next m p q = do s ← m p; some (write m p (record s { next = q }))

  unfoldable pub set_prev : Mem P → Ptr → Ptr → Option (Mem P)
  set_prev m p q = do s ← m p; some (write m p (record s { prev = q }))

  unfoldable pub set_item : Mem P → Ptr → P → Option (Mem P)
  set_item m p x = do s ← m p; some (write m p (record s { item = x }))

  module _ (blank : P) where
    -- the loop of `ape_new_pool` from the slot at `p` on, with `left` slots to go; `before` is what
    -- the round before has stored in `prev`
    unfoldable pub fill : Mem P → (size : ℕ) → (p before : Ptr) → (flags left : ℕ) → Mem P
    fill m size p before flags zero = m
    fill m size p before flags (suc left) =
        let slot : Slot P = record {
          item = blank;
          next = if left == 0 then null else p + size;
          prev = before;
          flags = flags;
        } in
        fill (write m p slot) size (p + size) p 0 left

    -- `ape_new_pool`: `base` is what `malloc` returns for `n` slots of `size` bytes
    unfoldable pub new_pool : Mem P → (size n : ℕ) → (base : Ptr) → Mem P
    new_pool m size n base = fill m size base null pool_alloc n

    -- `ape_init_pool_list`, for a `size` that is not 0, as all callers give
    unfoldable pub init_pool_list : (size n : ℕ) → (base : Ptr) → PoolList P
    init_pool_list size n base = record {
      head = base;
      current = base;
      queue = base + (n - 1) * size;
      size = size;
      mem = new_pool (λ _. none) size n base;
    }

    -- `ape_new_pool_list`, which begins with `malloc` for the list itself
    unfoldable new_pool_list : (size n : ℕ) → (base : Ptr) → PoolList P
    new_pool_list size n base = init_pool_list size n base

    -- `ape_grow_pool`; the new slots begin at `base`
    unfoldable pub grow_pool : PoolList P → ℕ → (base : Ptr) → Option (PoolList P)
    grow_pool l n base = do
      m₁ ← set_next (new_pool l.mem l.size n base) l.queue base
      m₂ ← set_prev m₁ base l.queue
      some (record l { queue = base + (n - 1) * l.size; mem = m₂ })

    -- `ape_pool_push`, for a list pointer that is not null
    unfoldable pub push : PoolList P → P → (base : Ptr) → Option (PoolList P)
    push l x base = do
      c ← l.mem l.current
      l₁ ← if c.next == null then grow_pool l 8 base else some l
      m ← set_item l₁.mem l₁.current x
      c₁ ← m l₁.current
      some (record l₁ { current = c₁.next; mem = m })

  -- `ape_pool_head_to_queue`; it returns the new `head`
  unfoldable pub head_to_queue : PoolList P → Option (PoolList P)
  head_to_queue l = do
    h ← l.mem l.head
    m₁ ← set_next l.mem l.queue l.head
    m₂ ← set_next m₁ l.head null
    some (record l { head = h.next; queue = l.head; mem = m₂ })

  -- `ape_pool_head_to_current`; it returns the new `head`
  unfoldable pub head_to_current : PoolList P → Option (PoolList P)
  head_to_current l = if l.head == l.current then some l else (do
    h ← l.mem l.head
    c ← l.mem l.current
    m₁ ← set_next l.mem l.head c.next
    m₂ ← set_next m₁ l.current l.head
    h₁ ← m₂ l.head
    some (record l {
      head = h.next;
      current = l.head;
      queue = if h₁.next == null then l.head else l.queue;
      mem = m₂;
    }))

  -- `ape_pool_rewind`
  unfoldable pub rewind : PoolList P → PoolList P
  rewind l = record l { current = l.head }
