-- ===== src/Events/State.antt =====
-- ape_events.c: the number of descriptors and the size of the block that `epoll_wait` fills.
use Prim.Native.Nat.{bit_or, max}
use zape.Base.{
  ℕ, ◌+◌, ◌-◌, ◌*◌, ◌/◌, ◌%◌, ◌^◌, Bool, Option, none, some, List, [], ◌∷◌, length, take, ltb, leb,
  ◌==◌, if◌then◌else◌,
}
use zape.Base.Fault.{◌>>=◌}
use zape.Events.Epoll.{Ready, Ctl, epoll_add, epoll_mod, epoll_get_evd, epoll_revent}

-- `APE_DEFAULT_EVENTS_SIZE`
abbrev pub default_size : ℕ
default_size = 32

-- `struct _fdevent`: `room` entries are allocated for `events`, of which the last poll has filled
-- `ready`; `calls` are those of `epoll_ctl`, the last first
pub record Table : Type 0 where
  pub basemem : ℕ
  pub nfd : ℕ
  pub room : ℕ
  pub ready : List Ready
  pub calls : List Ctl

-- `event_epoll_setsize`; `realloc` keeps the entries for which there is room
unfoldable pub epoll_setsize : Table → ℕ → Table
epoll_setsize ev size = record ev { room = size; ready = take size ev.ready }

-- `events_setsize`
unfoldable pub setsize : Table → ℕ → Table
unfolding epoll_setsize
setsize ev size = epoll_setsize (record ev { basemem = size }) size

-- `event_epoll_init`, where `epoll_create` succeeds
unfoldable pub epoll_init : Table → Table
epoll_init ev = record ev { room = ev.basemem }

-- `events_init` with the epoll backend
unfoldable pub events_init : Table
unfolding epoll_init
events_init =
    epoll_init (record { basemem = default_size; nfd = 0; room = 0; ready = []; calls = [] })

-- `basemem << 1` as an `int`; `none` where it overflows
unfoldable pub double : ℕ → Option ℕ
double n = if ltb (n * 2) (2 ^ 31) then some (n * 2) else none

-- `_nextpoweroftwo`, after its `v--`
unfoldable pub smear : ℕ → ℕ
smear v =
    let v₁ = bit_or v (v / 2 ^ 1) in
    let v₂ = bit_or v₁ (v₁ / 2 ^ 2) in
    let v₃ = bit_or v₂ (v₂ / 2 ^ 4) in let v₄ = bit_or v₃ (v₃ / 2 ^ 8) in bit_or v₄ (v₄ / 2 ^ 16)

unfoldable pub next_power_of_two : ℕ → ℕ
next_power_of_two v = (smear ((v + (2 ^ 32 - 1)) % 2 ^ 32) + 1) % 2 ^ 32

-- `events_shrink`
unfoldable pub events_shrink : Table → Table
events_shrink ev =
    if ev.basemem == default_size
    then ev
    else if leb (ev.basemem / 2) ev.nfd
    then ev
    else setsize ev (max default_size (next_power_of_two ev.nfd))

-- the answer of `epoll_ctl` to a call: whether it succeeds
module _ (ctl : Ctl → Bool) where
  -- `events_add`, with whether it returns 1
  unfoldable pub events_add : Table → (fd descriptor bitadd : ℕ) → Option (Table × Bool)
  events_add ev fd descriptor bitadd = do
    let counted = record ev { nfd = ev.nfd + 1 }
    ev₁ ←
        if ltb ev.basemem (ev.nfd + 1)
        then (do size ← double ev.basemem; some (setsize counted size))
        else some counted
    let call = epoll_add fd descriptor bitadd
    some (record ev₁ { calls = call ∷ ev.calls }, ctl call)

  -- `events_mod`
  unfoldable pub events_mod : Table → (fd descriptor bitadd : ℕ) → Table × Bool
  events_mod ev fd descriptor bitadd =
      let call = epoll_mod fd descriptor bitadd in (record ev { calls = call ∷ ev.calls }, ctl call)

-- `events_del`: the epoll backend has no `del`. A count below 0 is left out: it is `none`.
unfoldable pub events_del : Table → Option Table
events_del ev = if ev.nfd == 0 then none else some (record ev { nfd = ev.nfd - 1 })

-- `event_epoll_poll`: `wait` is what `epoll_wait` stores for a size; `none` is a store behind the block
unfoldable pub epoll_poll : (wait : ℕ → List Ready) → Table → Option (Table × ℕ)
epoll_poll wait ev =
    let stored = wait ev.basemem in
    if leb (length stored) ev.room then some (record ev { ready = stored }, length stored) else none

-- `events_poll`, `events_get_current_evd` and `events_revent`
unfoldable pub events_poll : (wait : ℕ → List Ready) → Table → Option (Table × ℕ)
unfolding epoll_poll
events_poll wait ev = epoll_poll wait ev

unfoldable pub events_get_current_evd : Table → ℕ → Option ℕ
unfolding epoll_get_evd
events_get_current_evd ev i = epoll_get_evd ev.ready i

unfoldable pub events_revent : Table → ℕ → Option ℕ
unfolding epoll_revent
events_revent ev i = epoll_revent ev.ready i
