-- ===== src/Socket/Read.antt =====
-- `ape_socket_read` and the datagrams. The answers of the system to the calls of `read` and of
-- `recvfrom` are a parameter, a list. `none` is an access outside a block, a use of freed memory or of
-- a variable that is not set, or a loop that the answers do not end.
use zape.Base.{
  ℕ, Bool, true, false, not, ◌&&◌, Option, none, some, List, [], ◌∷◌, length, take, ◌==◌,
  if◌then◌else◌,
}
use zape.Base.Fault.{◌>>=◌, copy, store}
use zape.Buffer.State.{Buffer, add_size, prepare}
use zape.Socket.Types.{World, is_online, is_shutdown, is_ssl}
use zape.Socket.Close.{state_of, read_end}

-- the result of one call of `read`: the bytes that it stores, none at the end of the stream, or an
-- error, `EAGAIN`, `EINTR` or another
pub data Answer : Type 0 where
  got : List ℕ → Answer
  again interrupted failed : Answer

-- `read` has stored bytes behind those in use, and `used` has grown
unfoldable pub take_in : Buffer → List ℕ → Option Buffer
take_in b bytes = elim b.block [
  | none ↦ none
  | some d ↦ do
    d' ← copy d b.used bytes
    some (record b { block = some d'; used = add_size b.used (length bytes) })
]

-- `on_read`, if it is set, gets the bytes, unless there are none or the socket is shut down
unfoldable pub deliver :
    (on_read : Option (List ℕ → World → Option World)) → World → Buffer → Option World
deliver on_read w b = if b.used == 0 then some w else elim on_read [
  | none ↦ some w
  | some f ↦ do s ← state_of w; d ← b.block; if is_shutdown s then some w else f (take b.used d) w
]

module _ (junk : ℕ → ℕ) where
  -- the `do` loop of `ape_socket_read`, with whether the stream has ended or failed; `fresh` tells
  -- that `buffer_prepare` comes before the call of `read`
  unfoldable pub read_loop : List Answer → (fresh : Bool) → Buffer → Option (Buffer × Bool)
  read_loop [] fresh b = none
  read_loop (interrupted ∷ answers) fresh b =
      read_loop answers false (if fresh then prepare junk b 2048 else b)
  read_loop (again ∷ answers) fresh b = some (if fresh then prepare junk b 2048 else b, false)
  read_loop (failed ∷ answers) fresh b = some (if fresh then prepare junk b 2048 else b, true)
  read_loop (got [] ∷ answers) fresh b = some (if fresh then prepare junk b 2048 else b, true)
  read_loop (got (x ∷ xs) ∷ answers) fresh b = do
    b' ← take_in (if fresh then prepare junk b 2048 else b) (x ∷ xs)
    read_loop answers true b'

  -- `ape_socket_read`, with `data_in` and whether it returns -1. Without TLS a secure socket has no
  -- answer to look at.
  unfoldable pub read :
      (on_read : Option (List ℕ → World → Option World))
      → List Answer
      → World
      → Buffer
      → Option (World × Buffer × Bool)
  read on_read answers w b = do
    s ← state_of w
    if not (is_online s) then some (w, b, false) else if is_ssl w.sock.proto then none else (do
      (b', ended) ← read_loop answers true b
      w₁ ← deliver on_read w b'
      s₁ ← state_of w₁
      w₂ ← read_end w₁ ended
      some (w₂, record b' { used = 0 }, ended && not (is_shutdown s₁)))

-- `MAX_PACKET_SIZE_UDP`
abbrev pub max_packet : ℕ
max_packet = 65535

-- the loop of `ape_socket_read_udp`: each datagram is stored in `buff`, with a NUL behind it, and handed to
-- `on_message`, if it is set; an answer without bytes, or an error, ends it
unfoldable pub read_datagrams :
    Option (List ℕ → World → Option World) → List Answer → (buff : List ℕ) → World → Option World
read_datagrams on_message [] buff w = none
read_datagrams on_message (again ∷ answers) buff w = some w
read_datagrams on_message (interrupted ∷ answers) buff w = some w
read_datagrams on_message (failed ∷ answers) buff w = some w
read_datagrams on_message (got [] ∷ answers) buff w = some w
read_datagrams on_message (got (x ∷ xs) ∷ answers) buff w = do
  buff₁ ← copy buff 0 (x ∷ xs)
  buff₂ ← store buff₁ (length (x ∷ xs)) 0
  w₁ ← elim on_message [ none ↦ some w | some f ↦ f (take (length (x ∷ xs)) buff₂) w ]
  read_datagrams on_message answers buff₂ w₁
