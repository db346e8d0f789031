-- ===== src/Events/Epoll.antt =====
-- ape_event_epoll.c: what the backend tells the kernel and what it reads from it.
use Prim.Native.Nat.{bit_and, bit_or}
use zape.Base.{ℕ, ◌^◌, Bool, not, Option, some, List, get_elem?, ◌==◌, if◌then◌else◌}
use zape.Base.Fault.{◌>>=◌}

-- the flags of ape_events.h, and those of <sys/epoll.h>
abbrev pub event_read : ℕ
event_read = 1

abbrev pub event_write : ℕ
event_write = 2

abbrev pub event_level : ℕ
event_level = 4

abbrev pub epollin : ℕ
epollin = 1

abbrev pub epollpri : ℕ
epollpri = 2

abbrev pub epollout : ℕ
epollout = 4

abbrev pub epollet : ℕ
epollet = 2 ^ 31

-- `flags & bit`, as a test
abbrev pub has : ℕ → ℕ → Bool
has flags bit = not (bit_and flags bit == 0)

-- `struct epoll_event`: the events, and the descriptor that `data.ptr` points to
pub record Ready : Type 0 where
  pub events : ℕ
  pub descriptor : ℕ

-- a call of `epoll_ctl`
pub data Ctl : Type 0 where
  ctl_add ctl_mod : (fd : ℕ) → Ready → Ctl

-- the `kev.events` of `event_epoll_add` and `event_epoll_mod`
unfoldable pub kev_events : ℕ → ℕ
kev_events bitadd =
    let start = bit_or (if has bitadd event_level then 0 else epollet) epollpri in
    let with_read = if has bitadd event_read then bit_or start epollin else start in
    if has bitadd event_write then bit_or with_read epollout else with_read

-- `event_epoll_add` and `event_epoll_mod`: the call that they make
unfoldable pub epoll_add : (fd descriptor bitadd : ℕ) → Ctl
epoll_add fd descriptor bitadd =
    ctl_add fd (record { events = kev_events bitadd; descriptor = descriptor })

unfoldable pub epoll_mod : (fd descriptor bitadd : ℕ) → Ctl
epoll_mod fd descriptor bitadd =
    ctl_mod fd (record { events = kev_events bitadd; descriptor = descriptor })

-- `event_epoll_revent` on the entry that it reads
unfoldable pub revent_of : Ready → ℕ
revent_of r =
    let first = if has r.events epollin then event_read else 0 in
    if has r.events epollout then bit_or first event_write else first

-- `event_epoll_get_evd` and `event_epoll_revent`, in a block of which the kernel has filled `ready`
unfoldable pub epoll_get_evd : List Ready → ℕ → Option ℕ
epoll_get_evd ready i = do r ← get_elem? ready i; some r.descriptor

unfoldable pub epoll_revent : List Ready → ℕ → Option ℕ
epoll_revent ready i = do r ← get_elem? ready i; some (revent_of r)
