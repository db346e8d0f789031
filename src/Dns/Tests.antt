-- ===== src/Dns/Tests.antt =====
-- The sockets and the questions of c-ares at concrete states.
use Prim.Native.Nat.{bit_or}
use zape.Base.{ℕ, ◌≤◌, ◌<◌, ◌≡◌, refl, ◌⊎◌, inr, true, false, none, some, [], ◌∷◌, arith}
use zape.Base.Fault.{◌>>=◌, store}
use zape.Events.Epoll.{event_level}
use zape.Dns.State.{
  Entry, added, deleted, closed, Table, listen_for, scan, drop_socket, add_socket, socket_cb,
  ares_io,
}
use zape.Dns.Table.{count, IsTable}
use zape.Dns.Watch.{Watches, socket_cb-Watches, socket_cb_overwrites}
use zape.Dns.Request.{Request, asked, gethostbyname}
use zape.Dns.Life.{Reach, reply, act, end_of, Reach-act, Reach-end_of}

abbrev entry : ℕ → Entry
entry fd = record { fd = fd; ready = true }

-- two sockets, with a free entry between them
abbrev two : Table
two = record { list = entry 5 ∷ entry 0 ∷ entry 6 ∷ []; log = [] }

-- no entry is free
abbrev full : Table
full = record { list = entry 5 ∷ entry 6 ∷ []; log = [] }

two-IsTable : IsTable two.list
two-IsTable q nq = ground arith

full-IsTable : IsTable full.list
full-IsTable q nq = ground arith

-- socket 7 takes the free entry, and socket 5 leaves
socket_cb_test :
    (socket_cb two 7 true false >>= λ t. socket_cb t 5 false false)
    ≡ some (record {
      list = record { fd = 0; ready = true } ∷ entry 7 ∷ entry 6 ∷ [];
      log = closed 5 ∷ deleted 5 ∷ added 7 5 ∷ [];
    })
unfolding socket_cb scan add_socket drop_socket store listen_for
socket_cb_test = refl

-- a socket to be read and written is watched for reading only
listen_for_test : listen_for true true ≡ 1
unfolding listen_for
listen_for_test = refl

ares_io_test : ares_io 7 2 ≡ (none, some 7)
unfolding ares_io
ares_io_test = refl

socket_cb-Watches_example : Watches two 7 (listen_for true false) (socket_cb two 7 true false)
socket_cb-Watches_example =
    socket_cb-Watches two 7 true false (omega arith) two-IsTable (inr (omega arith))

socket_cb_overwrites_example :
    (t' : Table) × (socket_cb full 7 true false ≡ some t')
    × (count 7 t'.list ≡ 1)
    × (0 < count 5 full.list)
    × (count 5 t'.list ≡ 0)
    × (t'.log ≡ added 7 (bit_or (listen_for true false) event_level) ∷ [])
socket_cb_overwrites_example =
    socket_cb_overwrites full 7 true false (entry 5) (entry 6 ∷ []) refl (omega arith) full-IsTable
      refl refl

-- a question that waits for its answer
abbrev waiting : Request
waiting = record asked { held = true }

waiting-Reach : Reach waiting
unfolding gethostbyname
waiting-Reach = Reach.ask false false waiting refl

Reach-act_example :
    (r' : Request) × (act (reply false) waiting ≡ some r')
    × (r'.answers ≤ 1)
    × (waiting.closed ≡ true → r'.answers ≡ waiting.answers)
Reach-act_example = Reach-act waiting (reply false) waiting-Reach refl

Reach-end_of_example :
    (r' : Request) × (end_of waiting ≡ some r')
    × (r'.live ≡ false)
    × (r'.pending ≡ false)
    × (r'.timer ≡ false)
    × ((r'.answers ≡ 1) ⊎ (r'.closed ≡ true))
Reach-end_of_example = Reach-end_of waiting waiting-Reach
