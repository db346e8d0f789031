-- ===== src/Socket/DoJobs.antt =====
-- `ape_socket_do_jobs`: the jobs of a socket that is writable again. The answers of the system to the
-- calls of `writev` and `sendfile` are a parameter, a list. `none` is an access outside a block or
-- through a pointer to no slot, the union of a job read as what it does not hold, or a run that the answers or the fuel do not end.
use Prim.Native.Nat.{bit_and}
use zape.Base.{
  ℕ, zero, suc, ◌+◌, ◌-◌, ◌%◌, ◌^◌, not, Option, none, some, List, [], ◌∷◌, ◌++◌, take, drop, ltb,
  ◌==◌, if◌then◌else◌,
}
use zape.Base.Fault.{◌>>=◌, slice}
use zape.Pool.State.{
  Ptr, null, pool_alloc, Mem, PoolList, write, set_item, head_to_queue, head_to_current,
}
use zape.Socket.Types.{
  nothing, packets, file, Job, Packet, job_writev, job_sendfile, job_shutdown, job_active, has,
  World, emit, transmitted, file_closed, is_ssl,
}
use zape.Socket.Close.{state_of, shutdown_now, shutdown_online}
use zape.Socket.Write.{release, set_would_block}

-- the result of one call of `writev` or `sendfile`: a count, or an error, `EAGAIN`, `EINTR` or another
pub data Answer : Type 0 where
  wrote : ℕ → Answer
  again interrupted failed : Answer

-- how a job ends: it is done, or `ape_socket_do_jobs` returns 0 or -1; `broken` shuts the socket down
-- before that, `shut` by `ape_shutdown`
pub data Outcome : Type 0 where
  finished blocked broken shut : Outcome

-- what `ape_socket_do_jobs` returns: the number of jobs done, or -1
pub data Reply : Type 0 where
  jobs_done : ℕ → Reply
  lost : Reply

-- the bytes that `chunks` points to, from the packet at `p` on, of `max` packets at most
unfoldable pub gather : (max : ℕ) → Mem Packet → Ptr → Option (List ℕ)
gather zero m p = some []
gather (suc max) m p = if p == null then some [] else (do
  s ← m p
  elim s.item.block [
    | none ↦ some []
    | some b ↦ do
      part ← slice (drop s.item.offset b) (s.item.len - s.item.offset)
      rest ← gather max m s.next
      some (part ++ rest)
  ])

-- both counts of the bytes that wait
unfoldable pub unaccount : World → ℕ → World
unaccount w n =
    let k = w.sock in
    record w {
      sock = record k { buffered = (k.buffered + (2 ^ 64 - n % 2 ^ 64)) % 2 ^ 64 };
      total = (w.total + (2 ^ 64 - n % 2 ^ 64)) % 2 ^ 64;
    }

-- the first packet has been sent: its data is released and it goes to the end
unfoldable pub retire : World → PoolList Packet → Packet → Option (World × PoolList Packet)
retire w q p = do
  mem ← set_item q.mem q.head (record p { block = none })
  q₁ ← head_to_queue (record q { mem = mem })
  some (release w p.data_type, q₁)

-- the loop over the packets after `n` bytes have been sent
unfoldable pub settle_packets :
    (fuel n : ℕ) → World → PoolList Packet → Option (World × PoolList Packet)
settle_packets zero n w q = none
settle_packets (suc k) n w q = if q.head == null then some (w, q) else (do
  s ← q.mem q.head
  let p = s.item
  elim p.block [
    | none ↦ some (w, q)
    | some b ↦
        if ltb n (p.len - p.offset)
        then (do
          mem ← set_item q.mem q.head (record p { offset = p.len - (p.len - p.offset - n) })
          some (w, record q { mem = mem }))
        else (do
          (w₁, q₁) ← retire w q p
          if n - (p.len - p.offset) == 0
              then some (w₁, q₁)
              else settle_packets k (n - (p.len - p.offset)) w₁ q₁)
  ])

-- the rounds of `writev`
unfoldable pub write_packets :
    List Answer
    → (max fuel : ℕ) → World
    → PoolList Packet
    → Option (Outcome × List Answer × World × PoolList Packet)
write_packets [] max k w q = none
write_packets (interrupted ∷ answers) max k w q = do
  _ ← gather max q.mem q.head
  write_packets answers max k w q
write_packets (again ∷ answers) max k w q = do
  _ ← gather max q.mem q.head
  some (blocked, answers, set_would_block w, q)
write_packets (failed ∷ answers) max k w q = do
  _ ← gather max q.mem q.head
  some (broken, answers, w, q)
write_packets (wrote n ∷ answers) max k w q = do
  bytes ← gather max q.mem q.head
  (w₁, q₁) ← settle_packets k n (emit (unaccount w n) (transmitted (take n bytes))) q
  s ← q₁.mem q₁.head
  elim s.item.block [
    | none ↦ some (finished, answers, w₁, q₁)
    | some b ↦ write_packets answers max k w₁ q₁
  ]

-- the calls of `sendfile`; an error but `EAGAIN` ends the job as the end of the file does
unfoldable pub send_file : List Answer → Option (Outcome × List Answer)
send_file [] = none
send_file (wrote n ∷ answers) = if n == 0 then some (finished, answers) else send_file answers
send_file (again ∷ answers) = some (blocked, answers)
send_file (interrupted ∷ answers) = some (finished, answers)
send_file (failed ∷ answers) = some (finished, answers)

-- `job->pool.ptr` and `job->offset`
unfoldable pub put_job : World → Ptr → Job → Option World
put_job w a j = do
  let k = w.sock
  let l = k.jobs
  mem ← set_item l.mem a j
  some (record w { sock = record k { jobs = record l { mem = mem } } })

-- the cases of the `switch` for the job at `a`
unfoldable pub run_writev :
    List Answer → (max fuel : ℕ) → World → Ptr → Job → Option (Outcome × List Answer × World)
run_writev answers max k w a j =
    if is_ssl w.sock.proto then some (finished, answers, w) else elim j.load [
      | packets q ↦ do
        (o, rest, w₁, q₁) ← write_packets answers max k w q
        w₂ ← put_job w₁ a (record j { load = packets q₁ })
        some (o, rest, w₂)
      | nothing ↦ none
      | file fd ↦ none
    ]

unfoldable pub run_sendfile :
    List Answer → World → Ptr → Job → Option (Outcome × List Answer × World)
run_sendfile answers w a j = elim j.load [
  | file fd ↦ do
    (o, rest) ← send_file answers
    elim o [
      | finished ↦ do
        w₁ ← put_job (emit w (file_closed fd)) a (record { load = nothing; offset = 0 })
        some (finished, rest, w₁)
      | blocked ↦ some (blocked, rest, set_would_block w)
      | broken ↦ none
      | shut ↦ none
    ]
  | nothing ↦ none
  | packets q ↦ none
]

-- `job->pool.flags & ~(APE_POOL_ALL_FLAGS | APE_SOCKET_JOB_ACTIVE)`
unfoldable pub kind_of : ℕ → ℕ
kind_of flags = flags - bit_and flags (pool_alloc + job_active)

unfoldable pub run_job :
    List Answer
    → (max fuel : ℕ) → World
    → Ptr
    → (flags : ℕ) → Job
    → Option (Outcome × List Answer × World)
run_job answers max k w a flags j =
    if kind_of flags == job_writev
    then run_writev answers max k w a j
    else if kind_of flags == job_sendfile
    then run_sendfile answers w a j
    else if kind_of flags == job_shutdown
    then some (shut, answers, w)
    else some (finished, answers, w)

-- the job at the head is inactive and goes behind the current one
unfoldable pub next_job : World → Option World
next_job w = do
  let k = w.sock
  let l = k.jobs
  s ← l.mem l.head
  let off = record s { flags = s.flags - bit_and s.flags job_active }
  l₁ ← head_to_current (record l { mem = write l.mem l.head off })
  some (record w { sock = record k { jobs = l₁ } })

-- the loop over the jobs, `njobs` of them done
unfoldable pub job_loop :
    List Answer → (max fuel : ℕ) → (steps njobs : ℕ) → World → Option (World × Reply)
job_loop answers max k zero njobs w = none
job_loop answers max k (suc steps) njobs w =
    let l = w.sock.jobs in
    if l.head == null then some (w, jobs_done njobs) else (do
      s ← l.mem l.head
      if not (has s.flags job_active) then some (w, jobs_done njobs) else (do
        (o, rest, w₁) ← run_job answers max k w l.head s.flags s.item
        elim o [
          | finished ↦ do w₂ ← next_job w₁; job_loop rest max k steps (suc njobs) w₂
          | blocked ↦ some (w₁, jobs_done 0)
          | broken ↦ do w₂ ← shutdown_now w₁; some (w₂, lost)
          | shut ↦ do w₂ ← shutdown_online w₁; some (w₂, lost)
        ]))

-- `ape_socket_do_jobs`
unfoldable pub do_jobs : List Answer → (max fuel steps : ℕ) → World → Option (World × Reply)
do_jobs answers max k steps w = do _ ← state_of w; job_loop answers max k steps 0 w
