-- ===== src/Socket/WriteTests.antt =====
-- Writing on a concrete socket.
use zape.Base.{ℕ, ◌≡◌, refl, true, false, none, some, List, [], ◌∷◌, ◌==◌, if◌then◌else◌, arith}
use zape.Pool.State.{PoolList, Slot, Mem}
use zape.Pool.Seg.{Cell}
use zape.Socket.Types.{online, tcp, client, own, World, no_job, Job, packets, Packet, no_packet}
use zape.Socket.Close.{busy}
use zape.Socket.Write.{wrote, Places}
use zape.Socket.Write
use zape.Socket.Writing.{IsIdle, write_partial}

abbrev places : Places
places = record { jobs = 8192; list = 16384; more = 32768; stride = 56 }

abbrev slot : {P : Type 0} → P → (next prev : ℕ) → Slot P
slot x next prev = record { item = x; next = next; prev = prev; flags = 0 }

abbrev two_slots : {P : Type 0} → Slot P → Slot P → Mem P
two_slots s t a = if a == 8 then some s else if a == 64 then some t else none

-- two packet slots, the second current
abbrev waiting : Packet
waiting = record { block = some (9 ∷ []); len = 1; offset = 0; data_type = own }

abbrev queue : PoolList Packet
queue = record {
  head = 8;
  queue = 64;
  current = 64;
  size = 56;
  mem = two_slots (slot waiting 64 0) (slot no_packet 0 8);
}

abbrev full : Cell Packet
full = record { at = 8; flags = 0; item = waiting }

abbrev free_slot : Cell Packet
free_slot = record { at = 64; flags = 0; item = no_packet }

abbrev job : Job
job = record { load = packets queue; offset = 0 }

-- two job slots, the first current, with that queue
abbrev two_jobs : PoolList Job
two_jobs = record {
  head = 8;
  queue = 64;
  current = 8;
  size = 40;
  mem = two_slots (slot job 64 0) (slot no_job 0 8);
}

abbrev first : Cell Job
first = record { at = 8; flags = 0; item = job }

abbrev second : Cell Job
second = record { at = 64; flags = 0; item = no_job }

abbrev idle : World
idle = record {
  sock = record {
    state = online;
    proto = tcp;
    kind = client;
    would_block = false;
    has_disconnect = true;
    has_dns = false;
    jobs = two_jobs;
    max_mb = 0;
    buffered = 0;
  };
  total = 0;
  timers = [];
  log = [];
  freed = false;
}

idle-IsIdle : IsIdle idle
unfolding busy
idle-IsIdle = record { alive = refl; is_on = refl; plain = refl; free = refl }

abbrev three : List ℕ
three = 1 ∷ 2 ∷ 3 ∷ []

write_partial_example :
    Write.write places idle (1 ∷ 2 ∷ 3 ∷ []) 3 own (wrote 1 ∷ wrote 2 ∷ []) ≡ none
write_partial_example =
    write_partial places idle idle-IsIdle (1 ∷ 2 ∷ 3 ∷ []) 3 own refl (omega arith) (omega arith) 0
      1 (omega arith) (omega arith) (wrote 2) []
