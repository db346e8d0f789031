-- ===== src/Socket/Write.antt =====
-- `APE_socket_write` and `ape_socket_queue_data`. The answers of the system to the calls of `write`
-- are a parameter, a list. `none` is an access outside a block, a use of freed memory, or a loop
-- that the answers do not end.
use zape.Base.{
  ℕ, ◌-◌, ◌*◌, ◌+◌, ◌%◌, ◌^◌, Bool, true, false, not, ◌&&◌, ◌||◌, Option, none, some, List, [], ◌∷◌,
  ◌++◌, take, drop, ltb, ◌==◌, if◌then◌else◌,
}
use zape.Base.Fault.{◌>>=◌, slice}
use zape.Pool.State.{Ptr, null, PoolList, set_item, init_pool_list, grow_pool}
use zape.Socket.Types.{
  DataType, static, global_static, autorelease, own, copied, JobData, nothing, packets, file,
  Packet, no_packet, job_writev, Socket, World, emit, transmitted, released, is_online, is_ssl,
}
use zape.Socket.Jobs.{get_slot}
use zape.Socket.Close.{state_of, busy, shutdown_now}

-- the result of one call of `write`: a count, or an error, `EAGAIN` or another
pub data Answer : Type 0 where
  wrote : ℕ → Answer
  again failed : Answer

-- how the loop ends: all is sent, the socket blocks with `t_bytes` and `r_bytes`, or it is broken
pub data Outcome : Type 0 where
  sent broken : List ℕ → Outcome
  blocked : (t r : ℕ) → List ℕ → Outcome

-- what `APE_socket_write` returns: -1, 0, or a count
pub data Reply : Type 0 where
  refused done : Reply
  queued : ℕ → Reply

abbrev pub ape_min : ℕ → ℕ → ℕ
ape_min x y = if ltb y x then y else x

-- the `while` loop of `APE_socket_write`; each call of `write` reads `r` bytes from `data + t` on
unfoldable pub write_loop :
    List Answer → (payload : List ℕ) → (len t r : ℕ) → List ℕ → Option Outcome
write_loop [] payload len t r out = if ltb t len then none else some (sent out)
write_loop (wrote n ∷ answers) payload len t r out =
    if ltb t len
    then (do
      from ← slice (drop t payload) r
      write_loop answers payload len ((t + n) % 2 ^ 64) (r - ape_min n 0) (out ++ take n from))
    else some (sent out)
write_loop (again ∷ answers) payload len t r out =
    if ltb t len
    then (do from ← slice (drop t payload) r; some (if r == 0 then broken out else blocked t r out))
    else some (sent out)
write_loop (failed ∷ answers) payload len t r out =
    if ltb t len then (do from ← slice (drop t payload) r; some (broken out)) else some (sent out)

-- `ape_socket_release_data`
unfoldable pub release : World → DataType → World
release w autorelease = emit w released
release w copied = emit w released
release w static = w
release w global_static = w
release w own = w

-- `data_type == APE_DATA_COPY ? APE_DATA_OWN : data_type`
unfoldable pub caller_type : DataType → DataType
caller_type copied = own
caller_type t = t

-- `data_type == APE_DATA_STATIC ? APE_DATA_COPY : data_type`
unfoldable pub queue_type : DataType → DataType
queue_type static = copied
queue_type t = t

abbrev pub is_copied : DataType → Bool
is_copied copied = true
is_copied _ = false

-- where `malloc` puts two job slots, and eight packets: a new list of them or more for a list
pub record Places : Type 0 where
  pub jobs : Ptr
  pub list : Ptr
  pub more : Ptr
  -- `sizeof(ape_socket_packet_t)`
  pub stride : ℕ

-- the list of packets of a job, made if there is none; a file is no pointer
unfoldable pub packet_list : Places → JobData → Option (PoolList Packet)
packet_list m nothing = some (init_pool_list no_packet m.stride 8 m.list)
packet_list m (packets q) = some q
packet_list m (file fd) = none

-- a packet in the current slot; a slot behind it is kept spare
unfoldable pub add_packet : Places → PoolList Packet → Packet → Option (PoolList Packet)
add_packet m q p = do
  mem ← set_item q.mem q.current p
  c ← mem q.current
  q₁ ←
      if c.next == null
      then grow_pool no_packet (record q { mem = mem }) 8 m.more
      else some (record q { mem = mem })
  c₁ ← q₁.mem q₁.current
  some (record q₁ { current = c₁.next })

-- both counts of the bytes that wait
unfoldable pub account : World → ℕ → World
account w n =
    let k = w.sock in
    record w {
      sock = record k { buffered = (k.buffered + n) % 2 ^ 64 };
      total = (w.total + n) % 2 ^ 64;
    }

-- more bytes wait than the socket may keep
unfoldable pub exceeds : Socket → Bool
exceeds k = not (k.max_mb == 0) && ltb ((((k.max_mb * 1024) % 2 ^ 64) * 1024) % 2 ^ 64) k.buffered

-- the packet joins the jobs of the socket
unfoldable pub put_packet : Places → World → Packet → Option World
put_packet m w p = do
  (l, a) ← get_slot w.sock.jobs job_writev m.jobs
  s ← l.mem a
  q ← packet_list m s.item.load
  q₁ ← add_packet m q p
  let job = s.item
  mem ← set_item l.mem a (record job { load = packets q₁ })
  let k = w.sock
  some (record w { sock = record k { jobs = record l { mem = mem } } })

-- `ape_socket_queue_data`
unfoldable pub queue_data :
    Places → World → (payload : List ℕ) → (len offset : ℕ) → DataType → Option World
queue_data m w payload len offset t = do
  block ← if is_copied (queue_type t) then slice payload len else some payload
  w₁ ←
      put_packet m w
        (record { block = some block; len = len; offset = offset; data_type = queue_type t })
  let w₂ = account w₁ (len - offset)
  if exceeds w₂.sock then shutdown_now w₂ else some w₂

abbrev pub set_would_block : World → World
set_would_block w = let k = w.sock in record w { sock = record k { would_block = true } }

-- the code behind the loop, and that of a socket that blocks
unfoldable pub settle :
    Places → World → (payload : List ℕ) → (len : ℕ) → DataType → Outcome → Option (World × Reply)
settle m w payload len t (sent out) =
    some (release (emit w (transmitted out)) (caller_type t), done)
settle m w payload len t (broken out) = do
  w' ← shutdown_now (release (emit w (transmitted out)) (caller_type t))
  some (w', refused)
settle m w payload len t (blocked n r out) = do
  w' ← queue_data m (set_would_block (emit w (transmitted out))) payload len n t
  some (w', queued r)

-- `APE_socket_write`; without TLS a secure socket sends nothing
unfoldable pub write :
    Places
    → World
    → (payload : List ℕ) → (len : ℕ) → DataType
    → List Answer
    → Option (World × Reply)
write m w payload len t answers = do
  s ← state_of w
  if not (is_online s) || len == 0 then some (release w (caller_type t), refused) else (do
    b ← busy w.sock
    if b then (do w' ← queue_data m w payload len 0 t; some (w', queued len)) else (do
      o ← if is_ssl w.sock.proto then some (sent []) else write_loop answers payload len 0 len []
      settle m w payload len t o))
