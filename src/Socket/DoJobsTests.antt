-- ===== src/Socket/DoJobsTests.antt =====
-- Runs of `ape_socket_do_jobs`, and the theorem on its packets at a concrete queue.
use zape.Base.{
  ℕ, ◌<◌, ◌≡◌, refl, ◌⊎◌, false, Option, none, some, List, [], ◌∷◌, ◌++◌, length, ◌==◌,
  if◌then◌else◌, arith,
}
use zape.Base.Fault.{slice}
use zape.Pool.State.{Slot, Mem, PoolList, write, set_next, set_item, head_to_queue, head_to_current}
use zape.Pool.Seg.{Cell, IsPool}
use zape.Socket.Types.{
  online, tcp, client, own, packets, Packet, no_packet, no_job, Event, transmitted, World,
}
use zape.Socket.Close.{state_of}
use zape.Socket.Write.{release}
use zape.Socket.DoJobs.{
  Answer, wrote, again, interrupted, Outcome, finished, blocked, Reply, jobs_done, gather,
  unaccount, retire, settle_packets, write_packets, put_job, run_writev, kind_of, run_job, next_job,
  job_loop, do_jobs,
}
use zape.Socket.Sending.{pending, bytes_of, AllFilled, AllEmpty}
use zape.Socket.Rounds.{write_packets-Sent}

abbrev slot : {P : Type 0} → P → (next prev flags : ℕ) → Slot P
slot x next prev flags = record { item = x; next = next; prev = prev; flags = flags }

abbrev two_slots : {P : Type 0} → Slot P → Slot P → Mem P
two_slots s t a = if a == 8 then some s else if a == 64 then some t else none

abbrev list_of : {P : Type 0} → Slot P → Slot P → PoolList P
list_of s t = record { head = 8; queue = 64; current = 8; size = 56; mem = two_slots s t }

-- three bytes, of which two are to be sent
abbrev packet : Packet
packet = record { block = some (1 ∷ 2 ∷ 3 ∷ []); len = 3; offset = 1; data_type = own }

abbrev queue : PoolList Packet
queue = list_of (slot packet 64 0 1) (slot no_packet 0 8 0)

abbrev full : Cell Packet
full = record { at = 8; flags = 1; item = packet }

abbrev last : Cell Packet
last = record { at = 64; flags = 0; item = no_packet }

queue-IsPool : IsPool queue (full ∷ last ∷ [])
queue-IsPool = record {
  chain = (refl, omega arith, 64, (0, refl), (refl, omega arith, 0, (8, refl), refl));
  apart = ((omega arith, tt), (tt, tt));
  ends = refl;
}

-- a socket with one job of the flags given
abbrev world : (flags : ℕ) → World
world flags = record {
  sock = record {
    state = online;
    proto = tcp;
    kind = client;
    would_block = false;
    has_disconnect = false;
    has_dns = false;
    jobs =
        list_of (slot (record { load = packets queue; offset = 0 }) 64 0 flags) (slot no_job 0 8 0);
    max_mb = 0;
    buffered = 2;
  };
  total = 5;
  timers = [];
  log = [];
  freed = false;
}

abbrev shown : Option (World × Reply) → Option (Reply × List Event × ℕ × ℕ)
shown none = none
shown (some (w, r)) = some (r, w.log, w.sock.buffered, w.total)

-- two calls of `writev` send the two bytes, and the job is done
do_jobs_test :
    shown (do_jobs (wrote 1 ∷ interrupted ∷ wrote 1 ∷ []) 1024 4 3 (world 19))
    ≡ some (jobs_done 1, transmitted (3 ∷ []) ∷ transmitted (2 ∷ []) ∷ [], 0, 3)
unfolding do_jobs job_loop run_job run_writev kind_of write_packets gather settle_packets retire
    unaccount put_job next_job set_item set_next write head_to_queue head_to_current release
    state_of slice
do_jobs_test = refl

-- a slot that has sent a file and is used again for packets: the job is passed over
do_jobs_mixed_test : shown (do_jobs [] 1024 4 3 (world 23)) ≡ some (jobs_done 1, [], 2, 5)
unfolding do_jobs job_loop run_job kind_of next_job write head_to_current state_of
do_jobs_mixed_test = refl

write_packets-Sent_example :
    (o : Outcome) × (answers : List Answer) × (w' : World) × (q' : PoolList Packet) × (full'
      spare' : List (Cell Packet))
    × (z' : Cell Packet) × (write_packets
          (wrote 1 ∷ interrupted ∷ again ∷ [])
          1024
          4
          (world 19)
          queue
        ≡ some (o, answers, w', q'))
    × IsPool q' (full' ++ (spare' ++ z' ∷ []))
    × AllFilled full'
    × AllEmpty (spare' ++ z' ∷ [])
    × (bytes_of w'.log ++ pending full' ≡ 2 ∷ 3 ∷ [])
    × (((o ≡ finished) × (full' ≡ [])) ⊎ ((o ≡ blocked) × (0 < length full')))
write_packets-Sent_example =
    write_packets-Sent 1024 4 (wrote 1 ∷ interrupted ∷ []) (world 19) queue full [] [] last
      queue-IsPool ((1 ∷ 2 ∷ 3 ∷ [], refl, omega arith, omega arith), tt) (refl, tt) (omega arith)
      (omega arith) refl (omega arith)
