-- ===== src/Socket/Open.antt =====
-- ape_socket.c: how a socket begins, by `APE_socket_new`, `APE_socket_listen`, `APE_socket_connect` and
-- `ape_socket_accept`. The answers of the system are parameters. `none` is an access to freed memory
-- or through the null pointer.
use zape.Base.{
  ℕ, zero, suc, ◌+◌, Bool, true, false, not, ◌||◌, ◌&&◌, Option, none, some, List, [], ◌∷◌, ◌==◌,
  if◌then◌else◌,
}
use zape.Base.Fault.{◌>>=◌}
use zape.Pool.State.{Ptr, init_pool_list}
use zape.Socket.Types.{
  Proto, tcp, ssl, unix, Kind, unknown, server, client, online, progress, pending, closed, watched,
  call_connected, no_job, World, emit, is_offline, is_udp,
}
use zape.Socket.Close.{state_of, set_state, defer, destroy}

abbrev pub is_unix : Proto → Bool
is_unix unix = true
is_unix _ = false

-- a protocol that listens: TCP or TLS
abbrev pub is_stream : Proto → Bool
is_stream tcp = true
is_stream ssl = true
is_stream _ = false

unfoldable pub set_kind : World → Kind → World
set_kind w t = let k = w.sock in record w { sock = record k { kind = t } }

unfoldable pub set_dns : World → Bool → World
set_dns w d = let k = w.sock in record w { sock = record k { has_dns = d } }

-- what `APE_socket_new` fills in, with the two job slots of `size` bytes from `base` on
abbrev pub blank_socket : Proto → (size : ℕ) → (base : Ptr) → (total : ℕ) → World
blank_socket p size base total = record {
  sock = record {
    state = pending;
    proto = p;
    kind = unknown;
    would_block = false;
    has_disconnect = false;
    has_dns = false;
    jobs = init_pool_list no_job size 2 base;
    max_mb = 0;
    buffered = 0;
  };
  total = total;
  timers = [];
  log = [];
  freed = false;
}

-- `APE_socket_new` for a descriptor, or for a new one if that is 0: whether `socket` makes one, and
-- whether `setnonblocking` succeeds; `none` is the null pointer
unfoldable pub new_socket :
    Proto
    → (from : ℕ) → (made nonblocking : Bool) → (size : ℕ) → (base : Ptr) → (total : ℕ)
    → Option World
new_socket p from made nonblocking size base total =
    if ((from == 0) && not made) || not nonblocking
    then none
    else some (blank_socket p size base total)

-- `APE_socket_listen`, with whether it returns 0; `bound` and `listening` are the answers of `bind` and
-- `listen`
unfoldable pub listen : (port : ℕ) → (bound listening : Bool) → World → Option (World × Bool)
listen port bound listening w = do
  s ← state_of w
  if port == 0
      then some (w, false)
      else if not bound || (is_stream w.sock.proto && not listening)
      then some (emit w closed, false)
      else some (emit (set_state (set_kind w server) online) watched, true)

-- the result of `connect`: 0, `EWOULDBLOCK` or `EINPROGRESS`, `EADDRNOTAVAIL`, another error
pub data Try : Type 0 where
  done under_way unavailable refused : Try

-- how the loop at `retry_connect` is left
pub data Outcome : Type 0 where
  opened unbound failed : Outcome

module _ (local_port : ℕ) (binds : ℕ → Bool) (connects : ℕ → Try) where
  -- the loop at `retry_connect`; `left` is 10 less `ntry`
  unfoldable pub attempt : (left ntry : ℕ) → Outcome
  attempt zero ntry = failed
  attempt (suc left) ntry =
      if not (local_port == 0) && not (binds ntry) then unbound else elim (connects ntry) [
        | done ↦ opened
        | under_way ↦ opened
        | unavailable ↦ attempt left (ntry + 1)
        | refused ↦ failed
      ]

  -- the end of `ape_socket_connect_ready_to_connect` for a connection that is made or under way
  unfoldable pub start_client : World → World
  start_client w =
      let u = is_udp w.sock.proto in
      let w₁ = emit (set_state (set_kind w client) (if u then online else progress)) watched in
      if u then defer w₁ call_connected else w₁

  -- `ape_socket_connect_ready_to_connect`, with whether it returns 0; `resolved` is whether the status is
  -- that of success
  unfoldable pub ready_to_connect : (resolved : Bool) → World → Option (World × Bool)
  ready_to_connect resolved w = do
    s ← state_of w
    if not resolved
        then (do w' ← destroy (set_dns w false); some (w', false))
        else elim (attempt 10 0) [
          | unbound ↦ some (set_dns w false, false)
          | failed ↦ do w' ← destroy (set_dns w false); some (w', false)
          | opened ↦ some (start_client (set_dns w false), true)
        ]

  -- `APE_socket_connect`, with whether it returns 0; `at_once` is the status of an answer that
  -- `ape_gethostbyname` gives within the call, if there is one
  unfoldable pub connect : (port : ℕ) → (at_once : Option Bool) → World → Option (World × Bool)
  connect port at_once w = do
    s ← state_of w
    if port == 0
        then (do w' ← destroy w; some (w', false))
        else if is_unix w.sock.proto
        then ready_to_connect true (set_dns w false)
        else elim at_once [
          | none ↦ some (set_dns w true, true)
          | some resolved ↦ do
            (w₁, r) ← ready_to_connect resolved w
            s₁ ← state_of w₁
            some (set_dns w₁ false, not (is_offline s₁))
        ]

-- the result of one call of `accept`: a descriptor, `EINTR`, or another error
pub data Arrival : Type 0 where
  arrived : (fd : ℕ) → Arrival
  interrupted broken : Arrival

-- `on_connect`, if it is set
abbrev pub call_connect :
    Option (World → World → Option (World × World)) → World → World → Option (World × World)
call_connect none w c = some (w, c)
call_connect (some f) w c = f w c

-- `ape_socket_accept`, with the sockets of the clients, the last first. A client has its job slots where
-- `base` says, and `on_connect`, if it is set, may act on the server and on the client.
module _ (on_connect : Option (World → World → Option (World × World))) (made nonblocking : Bool)
    (size : ℕ) (base : ℕ → Ptr) where
  -- the client as `on_connect` finds it, with the server's callbacks
  unfoldable pub client_of : World → (fd : ℕ) → Option World
  client_of w fd = do
    c ← new_socket w.sock.proto fd made nonblocking size (base fd) w.total
    let c₁ = set_state (set_kind c client) online
    let k = c₁.sock
    some (emit (record c₁ { sock = record k { has_disconnect = w.sock.has_disconnect } }) watched)

  unfoldable pub accept :
      List Arrival → World → (clients : List World) → Option (World × List World)
  accept [] w clients = none
  accept (interrupted ∷ arrivals) w clients = accept arrivals w clients
  accept (broken ∷ arrivals) w clients = some (w, clients)
  accept (arrived fd ∷ arrivals) w clients = do
    c ← client_of w fd
    (w₁, c₁) ← call_connect on_connect w c
    accept arrivals w₁ (c₁ ∷ clients)
