-- ===== src/Socket/Types.antt =====
-- The states, jobs and packets of ape_socket.h, and a socket with what its operations do to others.
use Prim.Native.Nat.{bit_and}
use zape.Base.{ℕ, Bool, true, false, not, Option, none, List, ◌∷◌, ◌==◌}
use zape.Pool.State.{PoolList}

-- `enum ape_socket_proto`
pub data Proto : Type 0 where
  tcp udp ssl unix : Proto

-- `enum ape_socket_type`
pub data Kind : Type 0 where
  unknown server client : Kind

-- `enum ape_socket_state`
pub data State : Type 0 where
  online progress pending offline shutdown : State

-- `ape_socket_data_autorelease`
pub data DataType : Type 0 where
  static global_static autorelease own copied : DataType

-- the bits of a job slot's `flags`
abbrev pub job_writev : ℕ
job_writev = 2

abbrev pub job_sendfile : ℕ
job_sendfile = 4

abbrev pub job_shutdown : ℕ
job_shutdown = 8

abbrev pub job_active : ℕ
job_active = 16

-- `flags & bit`, as a test
abbrev pub has : ℕ → ℕ → Bool
has flags bit = not (bit_and flags bit == 0)

-- what `ape_socket_packet_t` adds to a slot; `block` is what `ptr.data` points to
pub record Packet : Type 0 where
  pub block : Option (List ℕ)
  pub len : ℕ
  pub offset : ℕ
  pub data_type : DataType

abbrev pub no_packet : Packet
no_packet = record { block = none; len = 0; offset = 0; data_type = static }

-- the union `ptr` of a job slot
pub data JobData : Type 0 where
  nothing : JobData
  packets : PoolList Packet → JobData
  file : ℕ → JobData

-- what `ape_socket_jobs_t` adds to a slot
pub record Job : Type 0 where
  pub load : JobData
  pub offset : ℕ

abbrev pub no_job : Job
no_job = record { load = nothing; offset = 0 }

-- what a socket does to the rest of the program
pub data Event : Type 0 where
  -- `on_disconnect`, `close`, `events_del`, `shutdown`, `ape_ssl_shutdown`, `ape_dns_invalidate`
  disconnected closed unwatched shut ssl_shut dns_invalidated : Event
  -- `free` of data, and bytes that the system has taken for the peer
  released : Event
  transmitted : List ℕ → Event
  -- `close` of a file that has been sent
  file_closed : ℕ → Event
  -- `events_add`, and the call of `on_connected` by `ape_socket_connected`
  watched connected : Event

-- a timer of 0 ms that the socket has created for itself
pub data Deferred : Type 0 where
  -- `ape_socket_free`, `_ape_socket_destroy`, `ape_socket_connected`
  free_socket destroy_socket call_connected : Deferred

-- `struct _ape_socket`, as far as the functions here read or write it
pub record Socket : Type 0 where
  pub state : State
  pub proto : Proto
  pub kind : Kind
  pub would_block : Bool
  pub has_disconnect : Bool
  pub has_dns : Bool
  pub jobs : PoolList Job
  pub max_mb : ℕ
  pub buffered : ℕ

-- A socket, `total_memory_buffered` of its `ape_global`, the timers that it has created, the last one
-- first as in the timers' list, and what has happened, the last first. `freed` tells whether the
-- memory of the socket has been given back.
pub record World : Type 0 where
  pub sock : Socket
  pub total : ℕ
  pub timers : List Deferred
  pub log : List Event
  pub freed : Bool

abbrev pub emit : World → Event → World
emit w e = record w { log = e ∷ w.log }

abbrev pub is_online : State → Bool
is_online online = true
is_online _ = false

abbrev pub is_offline : State → Bool
is_offline offline = true
is_offline _ = false

abbrev pub is_shutdown : State → Bool
is_shutdown shutdown = true
is_shutdown _ = false

-- connecting, or not yet connecting
abbrev pub is_early : State → Bool
is_early progress = true
is_early pending = true
is_early _ = false

abbrev pub is_server : Kind → Bool
is_server server = true
is_server _ = false

abbrev pub is_udp : Proto → Bool
is_udp udp = true
is_udp _ = false

-- `APE_SOCKET_ISSECURE`
abbrev pub is_ssl : Proto → Bool
is_ssl ssl = true
is_ssl _ = false
