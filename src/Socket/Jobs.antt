-- ===== src/Socket/Jobs.antt =====
-- `ape_socket_job_get_slot`: the job slots of a socket.
use Prim.Native.Nat.{bit_or}
use zape.Base.{ℕ, Bool, not, ◌&&◌, ◌||◌, Option, some, ◌==◌, if◌then◌else◌}
use zape.Base.Fault.{◌>>=◌}
use zape.Pool.State.{Ptr, PoolList, write, grow_pool}
use zape.Socket.Types.{Job, no_job, job_writev, job_active, has}

-- `p->flags |= bits`
unfoldable pub set_flags : PoolList Job → Ptr → ℕ → Option (PoolList Job)
set_flags l p bits = do
  s ← l.mem p
  some (record l { mem = write l.mem p (record s { flags = bit_or s.flags bits }) })

-- the test that keeps the current slot
unfoldable pub reusable : (flags type : ℕ) → Bool
reusable flags type = ((type == job_writev) && has flags job_writev) || not (has flags job_active)

-- the slot behind the current one, or the first of two new ones, which begin at `base`
unfoldable pub next_slot : PoolList Job → (next base : Ptr) → Option (PoolList Job × Ptr)
next_slot l next base =
    if l.current == l.queue
    then (do l' ← grow_pool no_job l 2 base; some (l', base))
    else some (l, next)

-- `ape_socket_job_get_slot`, with the slot that it returns
unfoldable pub get_slot : PoolList Job → (type : ℕ) → (base : Ptr) → Option (PoolList Job × Ptr)
get_slot l type base = do
  s ← l.mem l.current
  if reusable s.flags type
      then (do l₁ ← set_flags l l.current (bit_or job_active type); some (l₁, l.current))
      else (do
        (l₁, p) ← next_slot l s.next base
        l₂ ← set_flags (record l₁ { current = p }) p (bit_or job_active type)
        some (l₂, p))
