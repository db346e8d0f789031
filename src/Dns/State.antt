-- ===== src/Dns/State.antt =====
-- ape_dns.c: the table of the sockets that c-ares has opened, and the state of a question to it.
use Prim.Native.Nat.{bit_or}
use zape.Base.{
  ℕ, zero, suc, Bool, true, false, not, ◌&&◌, Option, none, some, List, [], ◌∷◌, get_elem?, ◌==◌,
  if◌then◌else◌,
}
use zape.Base.Fault.{◌>>=◌, store}
use zape.Events.Epoll.{event_read, event_write, event_level, has}

-- `struct _ares_sockets`; `fd` is 0 in a free entry, and `ready` tells whether `type`, `on_io` and
-- `data` have been set
pub record Entry : Type 0 where
  pub fd : ℕ
  pub ready : Bool

-- `events_add`, `events_mod` with a mask, `events_del` and `close`
pub data Event : Type 0 where
  added changed : (fd mask : ℕ) → Event
  deleted closed : (fd : ℕ) → Event

-- `dns.sockets`, with the calls, the last first; `size` is the length of the list
pub record Table : Type 0 where
  pub list : List Entry
  pub log : List Event

-- what the loop of `ares_socket_cb` ends with: the entry of the socket, or `f`
pub data Place : Type 0 where
  known spare : ℕ → Place

-- `read ? EVENT_READ : 0 | write ? EVENT_WRITE : 0`, where `|` binds tighter than `?`
unfoldable pub listen_for : (read write : Bool) → ℕ
listen_for read write = if read then event_read else if write then event_write else 0

-- the loop of `ares_socket_cb` from entry `i` on
unfoldable pub scan : (s f i : ℕ) → List Entry → Place
scan s f i [] = spare f
scan s f i (e ∷ es) =
    let takes = (f == 0) && (e.fd == 0) in
    let rest = scan s (if takes then i else f) (suc i) es in
    if not takes && (e.fd == s) then known i else rest

-- the entry of a socket that c-ares has closed
unfoldable pub drop_socket : Table → (s i : ℕ) → Option Table
drop_socket t s i = do
  e ← get_elem? t.list i
  list ← store t.list i (record e { fd = 0 })
  some (record t { list = list; log = closed s ∷ deleted s ∷ t.log })

-- the end of `ares_socket_cb`, for a socket that is new
unfoldable pub add_socket : Table → (s f listen : ℕ) → Option Table
add_socket t s f listen = do
  list ← store t.list f (record { fd = s; ready = true })
  some (record t { list = list; log = added s (bit_or listen event_level) ∷ t.log })

-- `ares_socket_cb`
unfoldable pub socket_cb : Table → (s : ℕ) → (read write : Bool) → Option Table
socket_cb t s read write =
    let listen = listen_for read write in
    elim (scan s 0 0 t.list) [
      | known i ↦
          if listen == 0
          then drop_socket t s i
          else some (record t { log = changed s (bit_or listen event_level) ∷ t.log })
      | spare f ↦ add_socket t s f listen
    ]

abbrev pub blank : Entry
blank = record { fd = 0; ready = false }

abbrev pub blanks : ℕ → List Entry
blanks zero = []
blanks (suc n) = blank ∷ blanks n

-- the sockets that `ape_dns_init` makes, where c-ares starts
unfoldable pub dns_init : Table
dns_init = record { list = blanks 32; log = [] }

-- what is passed to `ares_process_fd` to read and to write; `none` is `ARES_SOCKET_BAD`
unfoldable pub ares_io : (fd ev : ℕ) → Option ℕ × Option ℕ
ares_io fd ev =
    (if has ev event_read then some fd else none, if has ev event_write then some fd else none)
