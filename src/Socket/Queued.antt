-- ===== src/Socket/Queued.antt =====
-- `ape_socket_queue_data` on a socket whose current job slot may take packets, and what
-- `ape_socket_release_data` and `APE_socket_shutdown_now` do to an online socket, for `APE_socket_write`.
use Prim.Native.Nat.{bit_or}
use zape.Base.{
  ℕ, suc, ◌+◌, ◌-◌, ◌%◌, ◌^◌, ◌<◌, ◌≡◌, refl, ◌∙◌, true, false, Bool-cases, inl, inr, some, List,
  [], ◌∷◌, ◌++◌, length, if◌then◌else◌, arith,
}
use zape.Base.Fault.{slice}
use zape.Pool.State.{PoolList, Slot, Mem, set_item, pool_alloc}
use zape.Pool.Seg.{Cell, IsPool, Distinct}
use zape.Pool.ToCurrent.{slot_of}
use zape.Pool.ToItem.{holding, set_item-IsPool, IsPool-next}
use zape.Pool.Grow.{block}
use zape.Socket.Types.{
  DataType, autorelease, static, global_static, own, copied, World, Event, released, transmitted,
  online, free_socket, destroy_socket, is_server, Packet, no_packet, packets, Job, job_active,
  job_writev,
}
use zape.Socket.Jobs.{get_slot, reusable}
use zape.Socket.Slots.{marked, get_slot_kept}
use zape.Socket.Packets.{spare, add_packet-IsPool}
use zape.Socket.Close.{
  close_open, defer, shut_down, shutdown_now, shutdown_online, destroy, destroy_async,
}
use zape.Socket.Lifecycle.{state_of_alive, shut_down-fields, destroy_run}
use zape.Socket.Sent.{slice-length}
use zape.Socket.Write.{
  Places, packet_list, add_packet, put_packet, queue_data, queue_type, caller_type, release,
  account, exceeds, is_copied,
}

-- a block that waits whole
abbrev pub waiting_packet : List ℕ → ℕ → DataType → Packet
waiting_packet payload len t = record {
  block = some payload;
  len = len;
  offset = 0;
  data_type = queue_type t;
}

-- The current job slot `c` of the socket may take packets, its queue is `q`, and the current slot of
-- that is `d`; `malloc` puts new slots where there are none.
pub record Takes (m : Places) (w : World) (front back : List (Cell Job)) (c : Cell Job)
    (q : PoolList Packet) (before behind : List (Cell Packet)) (d : Cell Packet) : Type 0 where
  pub jobs : IsPool w.sock.jobs (front ++ c ∷ back)
  pub current : w.sock.jobs.current ≡ c.at
  pub fits : reusable c.flags job_writev ≡ true
  pub queue : packet_list m c.item.load ≡ some q
  pub sequence : IsPool q (before ++ d ∷ behind)
  pub last : q.current ≡ d.at
  pub somewhere : 0 < m.more
  pub apart : Distinct (before ++ d ∷ (behind ++ block no_packet q.size m.more pool_alloc 8))

-- the world with other jobs and `n` bytes more that wait
abbrev pub with_jobs : World → PoolList Job → ℕ → World
with_jobs w l n =
    let k = w.sock in
    record w {
      sock = record k { jobs = l; buffered = (k.buffered + n) % 2 ^ 64 };
      total = (w.total + n) % 2 ^ 64;
    }

-- In the jobs `l` the slot `c` is marked active and leads to the queue of before with the packet `p` in place of `d`.
abbrev pub Waits :
    Places
    → PoolList Job
    → (front back : List (Cell Job)) → Cell Job
    → PoolList Packet
    → (before behind : List (Cell Packet)) → Cell Packet
    → Packet
    → Type 0
Waits m l front back c q before behind d p =
    (q' : PoolList Packet) × IsPool l (
      front
      ++ holding (marked c (bit_or job_active job_writev))
          (record { load = packets q'; offset = c.item.offset })
        ∷ back)
    × IsPool q' (before ++ holding d p ∷ spare m q.size behind)

put_run :
    (m : Places) (w : World) (p : Packet) (l : PoolList Job) (a : ℕ) (s : Slot Job)
    (q q₁ : PoolList Packet) (mem : Mem Job)
    → get_slot w.sock.jobs job_writev m.jobs ≡ some (l, a)
    → l.mem a ≡ some s
    → packet_list m s.item.load ≡ some q
    → add_packet m q p ≡ some q₁
    → set_item l.mem a (record { load = packets q₁; offset = s.item.offset }) ≡ some mem
    → put_packet m w p
      ≡ some (let k = w.sock in record w { sock = record k { jobs = record l { mem = mem } } })
unfolding put_packet
put_run m w p l a s q q₁ mem e f g h i = simp (e, f, g, h, i)

pub put_packet-Waits :
    (m : Places) (w : World) (front back : List (Cell Job)) (c : Cell Job) (q : PoolList Packet)
    (before behind : List (Cell Packet)) (d : Cell Packet) (p : Packet)
    → Takes m w front back c q before behind d
    → (l : PoolList Job) × (put_packet m w p
        ≡ some (let k = w.sock in record w { sock = record k { jobs = l } }))
      × Waits m l front back c q before behind d p
put_packet-Waits m w front back c q before behind d p h =
    let (l, e, v, _) =
      get_slot_kept w.sock.jobs front back c job_writev m.jobs h.jobs h.current h.fits in
    let c' = marked c (bit_or job_active job_writev) in
    let (next, prev, f, _) = IsPool-next l front back c' v in
    let (q', _, _, g, vq, _, _) =
      add_packet-IsPool m q before behind d p h.sequence h.last h.somewhere h.apart in
    let (mem, i, v') =
      set_item-IsPool l front back c' (record { load = packets q'; offset = c.item.offset }) v in
    (
      record l { mem = mem },
      put_run m w p l c.at (slot_of c' next prev) q q' mem e f h.queue g i,
      (q', record { chain = v'.chain; apart = v'.apart; ends = v'.ends }, vq),
    )

-- the block of a packet has the bytes of the caller's, whether it is a copy or not
block_kept :
    (payload : List ℕ) (len : ℕ) (t : DataType)
    → len ≡ length payload
    → (if is_copied t then slice payload len else some payload) ≡ some payload
block_kept payload len copied whole = slice-length payload len whole
block_kept payload len static whole = refl
block_kept payload len global_static whole = refl
block_kept payload len autorelease whole = refl
block_kept payload len own whole = refl

-- `APE_socket_queue_data` of a whole block, where the socket may keep any number of bytes
pub queue_data-Waits :
    (m : Places) (w : World) (payload : List ℕ) (len : ℕ) (t : DataType)
    (front back : List (Cell Job)) (c : Cell Job) (q : PoolList Packet)
    (before behind : List (Cell Packet)) (d : Cell Packet)
    → len ≡ length payload
    → w.sock.max_mb ≡ 0
    → Takes m w front back c q before behind d
    → (l : PoolList Job) × (queue_data m w payload len 0 t ≡ some (with_jobs w l len))
      × Waits m l front back c q before behind d (waiting_packet payload len t)
unfolding queue_data account exceeds
queue_data-Waits m w payload len t front back c q before behind d whole any h =
    let (l, e, v) =
      put_packet-Waits m w front back c q before behind d (waiting_packet payload len t) h in
    let all : len - 0 ≡ len = omega arith in
    (l, simp (block_kept payload len (queue_type t) whole, e, any, all) refl, v)

-- the log once the block of a socket's caller has been released as its type says
abbrev pub given_up : DataType → List Event → List Event
given_up autorelease log = released ∷ log
given_up _ log = log

pub release-caller_type :
    (w : World) (t : DataType) → release w (caller_type t) ≡ record w { log = given_up t w.log }
unfolding release caller_type
release-caller_type w static = refl
release-caller_type w global_static = refl
release-caller_type w autorelease = refl
release-caller_type w own = refl
release-caller_type w copied = refl

-- how many blocks have been released
abbrev pub releases : List Event → ℕ
releases [] = 0
releases (released ∷ log) = suc (releases log)
releases (e ∷ log) = releases log

-- the bytes that the system has taken, the last block first
abbrev pub taken : List Event → List (List ℕ)
taken [] = []
taken (transmitted bs ∷ log) = bs ∷ taken log
taken (e ∷ log) = taken log

-- neither releases nor sends
abbrev pub IsQuiet : World → World → Type 0
IsQuiet w w' = (releases w'.log ≡ releases w.log) × (taken w'.log ≡ taken w.log)

close_open-IsQuiet : (w : World) → IsQuiet w (close_open w)
unfolding close_open
close_open-IsQuiet w = ground arith

shut_down-IsQuiet : (w : World) → IsQuiet w (shut_down w)
unfolding shut_down
shut_down-IsQuiet w = ground arith

shut_run :
    (w : World)
    → w.freed ≡ false
    → w.sock.state ≡ online
    → shutdown_now w
      ≡ (if is_server w.sock.kind then destroy (shut_down w) else destroy_async (shut_down w))
unfolding shutdown_now shutdown_online
shut_run w f e = simp (state_of_alive w f, e, if◌then◌else◌)

-- An online socket is shut down without a release of data or bytes sent.
pub shutdown_now-IsQuiet :
    (w : World)
    → w.freed ≡ false
    → w.sock.state ≡ online
    → (w' : World) × (shutdown_now w ≡ some w') × IsQuiet w w'
unfolding destroy_async
shutdown_now-IsQuiet w f e =
    let (s, f', t, n) = shut_down-fields w in
    let (r, b) = shut_down-IsQuiet w in
    elim (Bool-cases (is_server w.sock.kind)) [
      | inl k ↦
          let (r', b') = close_open-IsQuiet (shut_down w) in
          (
            defer (close_open (shut_down w)) free_socket,
            shut_run w f e
                ∙ simp (k, if◌then◌else◌) (destroy_run (shut_down w) (f' ∙ f) (simp s refl)),
            (r' ∙ r, b' ∙ b),
          )
      | inr k ↦ (
        defer (shut_down w) destroy_socket,
        shut_run w f e
            ∙ simp (k, if◌then◌else◌)
                (simp (state_of_alive (shut_down w) (f' ∙ f), s, if◌then◌else◌)),
        (r, b),
      )
    ]
