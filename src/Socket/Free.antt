-- ===== src/Socket/Free.antt =====
-- ape_socket.c: `ape_socket_free` with the cleaners of the lists of jobs and packets. `none` is an access to
-- memory that has been given back, or a union read as what it does not hold.
use zape.Base.{
  ℕ, ◌+◌, ◌-◌, ◌%◌, ◌^◌, ◌<◌, ◌≡◌, refl, ap, ◌∙◌, true, Option, none, some, List, [], ◌∷◌, ◌==◌,
  length, if◌then◌else◌, arith,
}
use zape.Base.Fault.{◌>>=◌}
use zape.Pool.State.{Ptr, Slot, PoolList}
use zape.Pool.Seg.{Cell, IsPool}
use zape.Pool.Destroy.{Teardown, destroy_pool_with_cleaner, destroy_pool_list_with_cleaner}
use zape.Pool.Gather.{pushed, folded}
use zape.Pool.Teardown.{Separate, blocks_of}
use zape.Pool.Cleaned.{destroy_pool_with_cleaner-folded}
use zape.Socket.Types.{
  DataType, static, global_static, autorelease, own, copied, nothing, packets, file, Job, Packet,
  job_writev, job_sendfile, job_active, has, World, emit, file_closed,
}
use zape.Socket.Write.{release}
use zape.Socket.DoJobs.{kind_of}

-- `total_memory_buffered -= n`
unfoldable pub forget : World → ℕ → World
forget w n = record w { total = (w.total + (2 ^ 64 - n % 2 ^ 64)) % 2 ^ 64 }

-- the data of a packet with `n` bytes to send, if there is any, given up
unfoldable pub clean_data : Option (List ℕ) → (n : ℕ) → DataType → World → World
clean_data none n t w = w
clean_data (some b) n t w = release (forget w n) t

-- `ape_socket_packet_pool_cleaner`
abbrev pub packet_cleaner : Ptr → Slot Packet → World → Option World
packet_cleaner at s w = let p = s.item in some (clean_data p.block (p.len - p.offset) p.data_type w)

module _ (packet_bytes job_bytes : Ptr → ℕ) (fuel : ℕ) where
  -- `ape_socket_job_pool_cleaner`
  unfoldable pub job_cleaner : Ptr → Slot Job → World → Option World
  job_cleaner at s w =
      let j = s.item in
      if has s.flags job_active
      then (if kind_of s.flags == job_writev
          then elim j.load [
            | packets q ↦ do
              e ← destroy_pool_list_with_cleaner packet_bytes packet_cleaner fuel q w
              some e.context
            | nothing ↦ none
            | file fd ↦ none
          ]
          else if kind_of s.flags == job_sendfile
          then elim j.load [
            | file fd ↦ some (emit w (file_closed fd))
            | nothing ↦ none
            | packets q ↦ none
          ]
          else some w)
      else some w

  -- `ape_socket_free` of a socket without TLS, but for the memory of `data_in`
  unfoldable pub socket_free : World → Option World
  socket_free w = if w.freed then none else (do
    e ← destroy_pool_with_cleaner job_bytes job_cleaner fuel w.sock.jobs.head w.sock.jobs.mem w
    let c = e.context
    some (record c { freed = true }))

-- the bytes that the packets of some slots have yet to send
abbrev waiting_of : Option (List ℕ) → ℕ → ℕ
waiting_of none n = 0
waiting_of (some b) n = n

abbrev pub waiting : List (Cell Packet) → ℕ
waiting [] = 0
waiting (c ∷ cs) = let p = c.item in waiting_of p.block (p.len - p.offset) + waiting cs

abbrev pub cleaned : Cell Packet → World → World
cleaned c w = let p = c.item in clean_data p.block (p.len - p.offset) p.data_type w

release-total : (w : World) (t : DataType) → (release w t).total ≡ w.total
unfolding release
release-total w autorelease = refl
release-total w copied = refl
release-total w static = refl
release-total w global_static = refl
release-total w own = refl

forget-total : (w : World) (n t : ℕ) → w.total ≡ n + t → w.total < 2 ^ 64 → (forget w n).total ≡ t
unfolding forget
forget-total w n t e h = omega (arith, e, h)

clean_data-total :
    (o : Option (List ℕ)) (n : ℕ) (d : DataType) (w : World) (t : ℕ)
    → w.total ≡ waiting_of o n + t
    → w.total < 2 ^ 64
    → (clean_data o n d w).total ≡ t
unfolding clean_data
clean_data-total none n d w t e h = omega (arith, e)
clean_data-total (some b) n d w t e h = release-total (forget w n) d ∙ forget-total w n t e h

folded-total :
    (bytes : Ptr → ℕ) (cs : List (Cell Packet)) (w : World) (t : ℕ)
    → w.total ≡ waiting cs + t
    → w.total < 2 ^ 64
    → (folded packet_cleaner cleaned (λ c next before x. refl) bytes cs w).total ≡ t
folded-total bytes [] w t e h = omega (arith, e)
folded-total bytes (c ∷ cs) w t e h =
    let p = c.item in
    let step =
      clean_data-total p.block (p.len - p.offset) p.data_type w (waiting cs + t) (omega (arith, e))
        h in
    folded-total bytes cs (cleaned c w) t step (omega (arith, step, e, h))

module _ (bytes : Ptr → ℕ) where
  -- The list of packets of a job is destroyed without an access to memory that has been given back, if
  -- its slots are at places of their own, no block that is given back holds the beginning of one to come,
  -- and the fuel is more than the number of slots. Its blocks are then given back once each, and
  -- `total_memory_buffered` is less by exactly what its packets had yet to send, if that had been counted.
  pub packets-cleaned :
      (k : ℕ) (q : PoolList Packet) (cs : List (Cell Packet)) (w : World) (t : ℕ)
      → IsPool q cs
      → Separate bytes (pushed cs [])
      → length cs < k
      → w.total ≡ waiting cs + t
      → w.total < 2 ^ 64
      → (e : Teardown Packet World) × (destroy_pool_list_with_cleaner bytes packet_cleaner k q w
          ≡ some e)
        × (e.context.total ≡ t)
        × (e.freed ≡ blocks_of cs)
  unfolding destroy_pool_list_with_cleaner
  packets-cleaned k q cs w t v apart enough e h =
      let (r, run, context, freed, _) =
        destroy_pool_with_cleaner-folded bytes packet_cleaner cleaned (λ c next before x. refl) k cs
          q.mem q.head w v.chain v.apart apart enough in
      (r, run, ap (λ c. c.total) context ∙ folded-total bytes cs w t e h, freed)
