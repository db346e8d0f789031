-- ===== src/Loop/Tests.antt =====
-- Events of a concrete socket.
use zape.Base.{ℕ, ◌≡◌, refl, true, false, Option, none, some, List, [], ◌∷◌, arith}
use zape.Buffer.State.{Buffer, prepare}
use zape.Buffer.Growth.{IsValid}
use zape.Pool.State.{PoolList}
use zape.Socket.Types.{
  State, online, progress, tcp, client, World, emit, transmitted, connected, Job,
}
use zape.Socket.Close.{run_timers}
use zape.Socket.Lifecycle.{IsSound, is_over}
use zape.Socket.Release.{Released}
use zape.Socket.Read.{got}
use zape.Socket.Reading.{Fits}
use zape.Loop.Client.{Callbacks, System, clear_block, client_event}
use zape.Loop.Ended.{seen, client_event-Released, client_event-Settled}

abbrev no_jobs : PoolList Job
no_jobs = record { head = 0; queue = 0; current = 0; size = 40; mem = λ a. none }

abbrev socket_in : State → World
socket_in s = record {
  sock = record {
    state = s;
    proto = tcp;
    kind = client;
    would_block = true;
    has_disconnect = true;
    has_dns = false;
    jobs = no_jobs;
    max_mb = 0;
    buffered = 0;
  };
  total = 0;
  timers = [];
  log = [];
  freed = false;
}

abbrev empty : Buffer
empty = record { block = none; size = 0; used = 0; pos = 0 }

abbrev heard : List ℕ → World → Option World
heard cs w = some (emit w (transmitted cs))

abbrev calls : Callbacks
calls = record { on_read = some heard; on_message = none; on_drain = none }

-- two bytes and the end of the stream; a connection that is made
abbrev system : System
system = record {
  reads = got (104 ∷ 105 ∷ []) ∷ got [] ∷ [];
  datagrams = [];
  writes = [];
  is_connected = true;
  buff = [];
  iov_max = 1024;
  fuel = 0;
  steps = 0;
}

zeros : ℕ → ℕ
zeros n = 0

reads-Fits : Fits zeros system.reads true empty
unfolding prepare
reads-Fits = (omega arith, λ b' e. tt)

seen_alive : (emit (seen true (socket_in online)) (transmitted (104 ∷ 105 ∷ []))).freed ≡ false
unfolding clear_block
seen_alive = refl

seen-IsSound : IsSound (emit (seen true (socket_in online)) (transmitted (104 ∷ 105 ∷ [])))
unfolding clear_block
seen-IsSound = (refl, refl)

client_event-Released_example :
    (w₂ : World) × (b' : Buffer) × (client_event zeros calls system true true
        (socket_in online)
        empty
      ≡ some (w₂, b'))
    × IsValid b'
    × (b'.used ≡ 0)
    × (w₂.freed ≡ false)
    × (is_over w₂.sock.state ≡ true)
    × Released (run_timers w₂)
client_event-Released_example =
    client_event-Released zeros calls system true (socket_in online)
      (emit (seen true (socket_in online)) (transmitted (104 ∷ 105 ∷ []))) empty refl refl refl refl
      (record { sized = refl; within = omega arith }) refl (omega arith) reads-Fits refl refl
      seen_alive seen-IsSound

client_event-Settled_example :
    (w' : World) × (client_event zeros calls system true true (socket_in progress) empty
      ≡ some (w', empty))
    × (w' ≡ (
        let k = (socket_in progress).sock in
        record (socket_in progress) {
          sock = record k { state = online; would_block = false };
          log = connected ∷ [];
        }))
client_event-Settled_example =
    client_event-Settled zeros calls system true (socket_in progress) empty refl refl refl
      (refl, refl)
