-- ===== src/Socket/Close.antt =====
-- The end of a socket: `ape_socket_close`, `ape_socket_destroy`, `ape_shutdown` and the functions
-- over them. `none` is an access to freed memory or through a pointer to no slot.
use zape.Base.{Bool, true, false, ◌||◌, ◌&&◌, not, Option, none, some, List, [], ◌∷◌, if◌then◌else◌}
use zape.Base.Fault.{◌>>=◌}
use zape.Pool.State.{Ptr}
use zape.Socket.Types.{
  State, offline, shutdown, disconnected, closed, unwatched, shut, ssl_shut, dns_invalidated,
  connected, Deferred, free_socket, destroy_socket, call_connected, Socket, World, emit, is_online,
  is_offline, is_shutdown, is_early, is_server, is_udp, is_ssl, job_active, job_shutdown, has,
}
use zape.Socket.Jobs.{get_slot}

-- the state of the socket, which may be read until it is freed
unfoldable pub state_of : World → Option State
state_of w = if w.freed then none else some w.sock.state

unfoldable pub set_state : World → State → World
set_state w s = let k = w.sock in record w { sock = record k { state = s } }

-- the body of `ape_socket_close` for a socket that is not offline
unfoldable pub close_open : World → World
unfolding set_state
close_open w =
    let w₁ = if w.sock.has_dns then emit w dns_invalidated else w in
    let w₂ = set_state w₁ offline in
    let w₃ = if w.sock.has_disconnect then emit w₂ disconnected else w₂ in
    emit (emit w₃ closed) unwatched

-- `ape_socket_close`, with whether it did close
unfoldable pub close : World → Option (World × Bool)
close w = do s ← state_of w; if is_offline s then some (w, false) else some (close_open w, true)

-- `timer_dispatch_async`
abbrev pub defer : World → Deferred → World
defer w d = record w { timers = d ∷ w.timers }

-- `ape_socket_destroy`
unfoldable pub destroy : World → Option World
destroy w = do (w', did) ← close w; if did then some (defer w' free_socket) else some w'

-- `_ape_socket_destroy`; `ape_socket_free` gives the memory back
unfoldable pub destroy_now : World → Option World
destroy_now w = do (w', did) ← close w; if did then some (record w' { freed = true }) else some w'

-- `ape_socket_destroy_async`
unfoldable pub destroy_async : World → Option World
destroy_async w = do s ← state_of w; if is_offline s then some w else some (defer w destroy_socket)

-- what `ape_shutdown` does to an online socket before it is destroyed
unfoldable pub shut_down : World → World
unfolding set_state
shut_down w =
    let w₁ = if is_ssl w.sock.proto then emit w ssl_shut else w in
    let w₂ = if is_udp w.sock.proto then w₁ else emit w₁ shut in set_state w₂ shutdown

-- `ape_shutdown`
unfoldable pub shutdown_online : World → Option World
shutdown_online w = do
  s ← state_of w
  if is_online s
      then (if is_server w.sock.kind then destroy (shut_down w) else destroy_async (shut_down w))
      else some w

-- `APE_socket_shutdown_now`
unfoldable pub shutdown_now : World → Option World
shutdown_now w = do
  s ← state_of w
  if is_shutdown s
      then some w
      else if is_early s
      then destroy w
      else if is_online s
      then shutdown_online w
      else some w

-- the shutdown is left to the jobs if the socket blocks or has a job
unfoldable pub queue_shutdown : World → (base : Ptr) → Option World
queue_shutdown w base = do
  (l, p) ← get_slot w.sock.jobs job_shutdown base
  let k = w.sock
  some (record w { sock = record k { jobs = l } })

unfoldable pub busy : Socket → Option Bool
busy k = do h ← k.jobs.mem k.jobs.head; some (k.would_block || has h.flags job_active)

-- `APE_socket_shutdown`; `base` is where two new job slots would begin
unfoldable pub shutdown_later : World → (base : Ptr) → Option World
shutdown_later w base = do
  s ← state_of w
  if is_shutdown s
      then some w
      else if is_early s
      then destroy w
      else if is_online s
      then (do b ← busy w.sock; if b then queue_shutdown w base else shutdown_online w)
      else some w

-- the end of `ape_socket_read`; `ended` is `nread == 0 || io_error`: the peer has closed the
-- connection or reading has failed
unfoldable pub read_end : World → (ended : Bool) → Option World
read_end w ended = do s ← state_of w; if ended && not (is_shutdown s) then destroy w else some w

-- `ape_socket_connected`, which reads the socket's callbacks
unfoldable pub call_back : World → Option World
call_back w = if w.freed then none else some (emit w connected)

-- one timer's callback
unfoldable pub fire : Deferred → World → Option World
fire free_socket w = if w.freed then none else some (record w { freed = true })
fire destroy_socket w = destroy_now w
fire call_connected w = call_back w

unfoldable pub fire_all : List Deferred → World → Option World
fire_all [] w = some w
fire_all (d ∷ ds) w = do w' ← fire d w; fire_all ds w'

-- The part of `ape_timers_process` that the socket's timers take: they are of 0 ms, so all are due,
-- and their callbacks return 0, so each is called once and destroyed, from the head of the list on.
unfoldable pub run_timers : World → Option World
run_timers w = fire_all w.timers (record w { timers = [] })
