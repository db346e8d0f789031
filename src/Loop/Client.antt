-- ===== src/Loop/Client.antt =====
-- The part of `APE_loop_run` for an event of a client's socket. The answers of the system and the
-- callbacks of the socket are parameters; on_connected leaves a mark in the log.
use zape.Base.{ℕ, Bool, true, false, not, ◌&&◌, Option, none, some, List, ◌==◌, if◌then◌else◌}
use zape.Base.Fault.{◌>>=◌}
use zape.Buffer.State.{Buffer}
use zape.Socket.Types.{State, progress, online, World, is_online, is_udp}
use zape.Socket.Close.{state_of, set_state, destroy, call_back}
use zape.Socket.Read
use zape.Socket.Read.{read_datagrams}
use zape.Socket.DoJobs
use zape.Socket.DoJobs.{Reply, jobs_done, lost, do_jobs}

-- the callbacks of a socket, if they are set
pub record Callbacks : Type 0 where
  pub on_read : Option (List ℕ → World → Option World)
  pub on_message : Option (List ℕ → World → Option World)
  pub on_drain : Option (World → Option World)

-- what the system answers: to `read`, to `recvfrom`, to `writev` and `sendfile`, and whether `getsockopt` tells no
-- error of the connection; with the variable that the datagrams are read into, and the bounds of `do_jobs`
pub record System : Type 0 where
  pub reads : List Read.Answer
  pub datagrams : List Read.Answer
  pub writes : List DoJobs.Answer
  pub is_connected : Bool
  pub buff : List ℕ
  pub iov_max : ℕ
  pub fuel : ℕ
  pub steps : ℕ

abbrev pub is_progress : State → Bool
is_progress progress = true
is_progress _ = false

-- `flags &= ~APE_SOCKET_WOULD_BLOCK`
unfoldable pub clear_block : World → World
clear_block w = let k = w.sock in record w { sock = record k { would_block = false } }

abbrev pub is_one : Reply → Bool
is_one (jobs_done n) = n == 1
is_one lost = false

module _ (junk : ℕ → ℕ) (calls : Callbacks) (system : System) where
  -- the reading half, with `data_in` and whether the event ends with it
  unfoldable pub read_side : (readable : Bool) → World → Buffer → Option (World × Buffer × Bool)
  read_side readable w b =
      if not readable
      then some (w, b, false)
      else if is_udp w.sock.proto
      then (do
        w' ← read_datagrams calls.on_message system.datagrams system.buff w
        some (w', b, false))
      else Read.read junk calls.on_read system.reads w b

  -- the jobs, and `on_drain` when one is done
  unfoldable pub drain : World → Option World
  drain w = do
    (w', reply) ← do_jobs system.writes system.iov_max system.fuel system.steps w
    if is_one reply then (elim calls.on_drain [ none ↦ some w' | some f ↦ f w' ]) else some w'

  -- a connection under way that is ready for writing
  unfoldable pub settle_connection : World → Option World
  settle_connection w = if system.is_connected then call_back (set_state w online) else destroy w

  -- the writing half
  unfoldable pub write_side : World → Option World
  write_side w = do
    s ← state_of w
    if is_online s && not w.sock.would_block
        then drain w
        else if is_progress s
        then settle_connection w
        else some w

  -- an event of a client's socket, with `data_in`
  unfoldable pub client_event :
      (readable writable : Bool) → World → Buffer → Option (World × Buffer)
  client_event readable writable w b = do
    _ ← state_of w
    (w₁, b₁, gone) ← read_side readable (if writable then clear_block w else w) b
    w₂ ← if writable && not gone then write_side w₁ else some w₁
    some (w₂, b₁)
