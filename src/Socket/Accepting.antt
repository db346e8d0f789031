-- ===== src/Socket/Accepting.antt =====
-- The clients that `ape_socket_accept` makes.
use zape.Base.{ℕ, ◌+◌, ◌≡◌, refl, Bool, true, false, Option, some, List, [], ◌∷◌, length, arith}
use zape.Base.Fault.{◌>>=◌}
use zape.Pool.State.{Ptr, init_pool_list}
use zape.Socket.Types.{Proto, no_job, client, online, World, watched}
use zape.Socket.Close.{set_state}
use zape.Socket.Lifecycle.{IsSound}
use zape.Socket.Open.{
  set_kind, blank_socket, new_socket, Arrival, arrived, interrupted, broken, client_of,
  call_connect, accept,
}

-- a sound world whose socket is still there
abbrev pub Alive : World → Type 0
Alive w = IsSound w × (w.freed ≡ false)

abbrev pub AllAlive : List World → Type 0
AllAlive [] = Unit {0}
AllAlive (w ∷ ws) = Alive w × AllAlive ws

-- the descriptors that `accept` gives before it fails, and whether it does
abbrev pub descriptors : List Arrival → List ℕ
descriptors [] = []
descriptors (arrived fd ∷ arrivals) = fd ∷ descriptors arrivals
descriptors (interrupted ∷ arrivals) = descriptors arrivals
descriptors (broken ∷ arrivals) = []

abbrev pub comes_to_end : List Arrival → Bool
comes_to_end [] = false
comes_to_end (arrived fd ∷ arrivals) = comes_to_end arrivals
comes_to_end (interrupted ∷ arrivals) = comes_to_end arrivals
comes_to_end (broken ∷ arrivals) = true

new_socket_run :
    (p : Proto) (from size base total : ℕ)
    → new_socket p from true true size base total ≡ some (blank_socket p size base total)
unfolding new_socket
new_socket_run p from size base total = ground arith

module _ (on_connect : Option (World → World → Option (World × World))) (size : ℕ)
    (base : ℕ → Ptr) where
  -- The client of a server: online, of the server's protocol and with its callbacks, with two job slots
  -- and nothing pending, and registered with the event loop.
  abbrev pub client_for : World → (fd : ℕ) → World
  client_for w fd = record {
    sock = record {
      state = online;
      proto = w.sock.proto;
      kind = client;
      would_block = false;
      has_disconnect = w.sock.has_disconnect;
      has_dns = false;
      jobs = init_pool_list no_job size 2 (base fd);
      max_mb = 0;
      buffered = 0;
    };
    total = w.total;
    timers = [];
    log = watched ∷ [];
    freed = false;
  }

  -- `on_connect` on the server and on a client for each descriptor, in their order
  abbrev pub welcomed : List ℕ → World → List World → Option (World × List World)
  welcomed [] w clients = some (w, clients)
  welcomed (fd ∷ fds) w clients =
      call_connect on_connect w (client_for w fd) >>= λ p. welcomed fds p.0 (p.1 ∷ clients)

  -- `on_connect`, if it is set, returns on a sound server with a client that has come to it, and leaves both sound
  -- and not freed.
  abbrev pub KeepsAlive : Type 0
  KeepsAlive =
      (w : World) (fd : ℕ)
      → Alive w
      → (w' c' : World) × (call_connect on_connect w (client_for w fd) ≡ some (w', c'))
        × Alive w'
        × Alive c'

  client_of_run :
      (w : World) (fd : ℕ) → client_of on_connect true true size base w fd ≡ some (client_for w fd)
  unfolding client_of set_state set_kind
  client_of_run w fd = simp (new_socket_run w.sock.proto fd size (base fd) w.total)

  -- When `socket` and `setnonblocking` succeed and `on_connect`, if it is set, returns on a sound server with a client
  -- that has come to it and leaves both sound and not freed, `ape_socket_accept` on a sound server that is not
  -- freed returns at the first error of `accept` that is not `EINTR`. It has done for each descriptor before, in
  -- their order, exactly this: it has made a client that is online, has the protocol and the callbacks of
  -- the server, and is registered with the event loop, and has called `on_connect` with both. The server and the clients
  -- are sound and not freed, and there is one new client for each descriptor.
  pub accept-Alive :
      KeepsAlive
      → (arrivals : List Arrival) (w : World) (clients : List World) → comes_to_end arrivals ≡ true
      → Alive w
      → AllAlive clients
      → (w' : World) × (clients' : List World) × (accept on_connect true true size base arrivals w
            clients
          ≡ some (w', clients'))
        × (welcomed (descriptors arrivals) w clients ≡ some (w', clients'))
        × Alive w'
        × AllAlive clients'
        × (length clients' ≡ length (descriptors arrivals) + length clients)
  unfolding accept
  accept-Alive keeps [] w clients end a all = absurd (cc)
  accept-Alive keeps (broken ∷ arrivals) w clients end a all =
      (w, clients, refl, refl, a, all, omega arith)
  accept-Alive keeps (interrupted ∷ arrivals) w clients end a all =
      accept-Alive keeps arrivals w clients end a all
  accept-Alive keeps (arrived fd ∷ arrivals) w clients end a all =
      let (w₁, c₁, run, a₁, b₁) = keeps w fd a in
      let (w', clients', rest, same, x, y, n) =
        accept-Alive keeps arrivals w₁ (c₁ ∷ clients) end a₁ (b₁, all) in
      (w', clients', simp (client_of_run w fd, run) rest, simp run same, x, y, omega (arith, n))
