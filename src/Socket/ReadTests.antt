-- ===== src/Socket/ReadTests.antt =====
-- Reading at concrete sockets.
use zape.Base.{
  ℕ, ◌≡◌, refl, true, false, Option, none, some, List, [], ◌∷◌, length, arith, tabulate,
  length-tabulate,
}
use zape.Buffer.State.{Buffer, prepare}
use zape.Buffer.Growth.{IsValid}
use zape.Pool.State.{PoolList}
use zape.Socket.Types.{online, tcp, udp, client, World, Proto, Job, emit, transmitted}
use zape.Socket.Close.{read_end}
use zape.Socket.Read.{Answer, got, again, read, read_datagrams, max_packet}
use zape.Socket.Reading.{Fits, read-received}
use zape.Socket.Datagrams.{read_datagrams-told_each}

abbrev no_jobs : PoolList Job
no_jobs = record { head = 0; queue = 0; current = 0; size = 0; mem = λ _. none }

abbrev world : Proto → World
world p = record {
  sock = record {
    state = online;
    proto = p;
    kind = client;
    would_block = false;
    has_disconnect = true;
    has_dns = false;
    jobs = no_jobs;
    max_mb = 0;
    buffered = 0;
  };
  total = 0;
  timers = [];
  log = [];
  freed = false;
}

abbrev empty : Buffer
empty = record { block = none; size = 0; used = 0; pos = 0 }

-- a callback that leaves a note of the bytes
abbrev heard : List ℕ → World → Option World
heard cs w = some (emit w (transmitted cs))

-- two bytes, and then the end of the stream
abbrev answers : List Answer
answers = got (104 ∷ 105 ∷ []) ∷ got [] ∷ []

zeros : ℕ → ℕ
zeros n = 0

answers-Fits : Fits zeros answers true empty
unfolding prepare
answers-Fits = (omega arith, λ b' e. tt)

read-received_example :
    (w₂ : World) × (b' : Buffer) × (read zeros (some heard) answers (world tcp) empty
      ≡ some (w₂, b', true))
    × (read_end (emit (world tcp) (transmitted (104 ∷ 105 ∷ []))) true ≡ some w₂)
    × IsValid b'
    × (b'.used ≡ 0)
read-received_example =
    read-received zeros (some heard) answers (world tcp)
      (emit (world tcp) (transmitted (104 ∷ 105 ∷ []))) empty refl refl refl
      (record { sized = refl; within = omega arith }) refl (omega arith) answers-Fits refl refl
      (refl, refl)

unfoldable large : List ℕ
large = tabulate zeros 0 max_packet

length-large : length large ≡ max_packet
unfolding large
length-large = length-tabulate zeros 0 max_packet

read_datagrams-told_each_example :
    read_datagrams (some heard) (got (1 ∷ 2 ∷ []) ∷ got (3 ∷ []) ∷ again ∷ []) large (world udp)
    ≡ some (emit (emit (world udp) (transmitted (1 ∷ 2 ∷ []))) (transmitted (3 ∷ [])))
read_datagrams-told_each_example =
    read_datagrams-told_each (some heard) (got (1 ∷ 2 ∷ []) ∷ got (3 ∷ []) ∷ again ∷ []) large
      (world udp) length-large (omega arith, (omega arith, tt))
