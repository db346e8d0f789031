-- ===== src/Socket/FreeTests.antt =====
-- A file for a socket that blocks, and a list of packets at its end.
use zape.Base.{ℕ, ◌≡◌, refl, true, false, none, some, [], ◌∷◌, arith}
use zape.Pool.State.{Ptr, PoolList, Slot, write, pool_alloc}
use zape.Pool.Seg.{Cell, IsPool, write_self}
use zape.Pool.Destroy.{Teardown, destroy_pool_list_with_cleaner}
use zape.Socket.Types.{online, tcp, client, own, Packet, Job, no_job, job_sendfile, World}
use zape.Socket.Close.{busy}
use zape.Socket.Jobs.{reusable}
use zape.Socket.DoJobs.{wrote, again}
use zape.Socket.Files.{sendfile, Left, sendfile-Left}
use zape.Socket.Free.{packet_cleaner, packets-cleaned}

abbrev slot : Slot Job
slot = record { item = no_job; next = 0; prev = 0; flags = 1 }

abbrev cell : Cell Job
cell = record { at = 4096; flags = 1; item = no_job }

abbrev jobs : PoolList Job
jobs = record {
  head = 4096;
  queue = 4096;
  current = 4096;
  size = 40;
  mem = write (λ _. none) 4096 slot;
}

jobs-IsPool : IsPool jobs (cell ∷ [])
jobs-IsPool = record {
  chain = (refl, omega arith, 0, (0, write_self (λ _. none) 4096 slot), refl);
  apart = (tt, tt);
  ends = refl;
}

-- 7 bytes of all sockets wait
abbrev world : World
world = record {
  sock = record {
    state = online;
    proto = tcp;
    kind = client;
    would_block = false;
    has_disconnect = true;
    has_dns = false;
    jobs = jobs;
    max_mb = 0;
    buffered = 0;
  };
  total = 7;
  timers = [];
  log = [];
  freed = false;
}

idle : busy world.sock ≡ some false
unfolding busy write
idle = refl

free : reusable 1 job_sendfile ≡ true
unfolding reusable
free = refl

sendfile-Left_example :
    (w : World) × (sendfile (some 9) (wrote 4096 ∷ again ∷ []) 8192 world ≡ some (w, true))
    × Left world [] [] cell 9 8192 jobs-IsPool refl free false again w
sendfile-Left_example =
    sendfile-Left world [] [] cell 9 8192 jobs-IsPool refl free (4096 ∷ []) again [] false refl refl
      idle (omega arith, tt) refl

abbrev packet : Packet
packet = record { block = some (1 ∷ 2 ∷ 3 ∷ []); len = 3; offset = 1; data_type = own }

abbrev packet_slot : Slot Packet
packet_slot = record { item = packet; next = 0; prev = 0; flags = pool_alloc }

abbrev packet_cell : Cell Packet
packet_cell = record { at = 16384; flags = pool_alloc; item = packet }

abbrev queue : PoolList Packet
queue = record {
  head = 16384;
  queue = 16384;
  current = 16384;
  size = 56;
  mem = write (λ _. none) 16384 packet_slot;
}

queue-IsPool : IsPool queue (packet_cell ∷ [])
queue-IsPool = record {
  chain = (refl, omega arith, 0, (0, write_self (λ _. none) 16384 packet_slot), refl);
  apart = (tt, tt);
  ends = refl;
}

abbrev sizes : Ptr → ℕ
sizes p = 56

packets-cleaned_example :
    (e : Teardown Packet World) × (destroy_pool_list_with_cleaner sizes packet_cleaner 2 queue world
      ≡ some e)
    × (e.context.total ≡ 5)
    × (e.freed ≡ 16384 ∷ [])
packets-cleaned_example =
    packets-cleaned sizes 2 queue (packet_cell ∷ []) world 5 queue-IsPool (tt, tt) (omega arith)
      refl (omega arith)
