-- ===== src/Timers/State.antt =====
-- The timers of ape_timers_next.c and the calls that create, find, clear and destroy them. The links
-- `next` and `prev` through the timers are a list, as are those of the asynchronous calls; `none` is
-- an access to memory that is not there, or a call of the null pointer.
use Prim.Native.Nat.{bit_and, bit_or}
use zape.Base.{
  ℕ, ◌+◌, ◌-◌, ◌*◌, ◌%◌, ◌^◌, Bool, not, ◌||◌, Option, none, some, List, [], ◌∷◌, ◌==◌,
  if◌then◌else◌, ltb,
}
use zape.Base.Fault.{◌>>=◌}
use zape.Pool.State.{Ptr, null}
use zape.Socket.Types.{has}

abbrev pub is_protected : ℕ
is_protected = 1

abbrev pub is_cleared : ℕ
is_cleared = 2

-- `stats` of a timer
pub record Stats : Type 0 where
  pub nexec : ℕ
  pub max : ℕ
  pub min : ℕ
  pub totaltime : ℕ

-- `struct _ape_timer_t`, less its field `nexec`, which nothing reads or writes; a function is its
-- address
pub record Timer : Type 0 where
  pub at : Ptr
  pub identifier : ℕ
  pub flags : ℕ
  pub ticks_needs : ℕ
  pub schedule : ℕ
  pub callback : ℕ
  pub clearfunc : ℕ
  pub arg : ℕ
  pub stats : Stats

-- `struct _ape_timer_async_t`
pub record Async : Type 0 where
  pub at : Ptr
  pub callback : ℕ
  pub clearfunc : ℕ
  pub arg : ℕ

-- the callback of a timer, the clear function of one, and `free`, in the order of the calls
pub data Event : Type 0 where
  ran cleared freed : Ptr → Event

-- `ape_timers`, the events, the last first, and the rest of the program
pub record World (S : Type 0) : Type 0 where
  pub timers : List Timer
  pub head_async : List Async
  pub last_identifier : ℕ
  pub low_resolution : Bool
  pub log : List Event
  pub rest : S

-- an `int` of 32 bits as a `uint64_t`
unfoldable pub extend : ℕ → ℕ
extend i = if ltb i (2 ^ 31) then i else i + (2 ^ 64 - 2 ^ 32)

-- the pointer to the first timer of a list
abbrev pub head : List Timer → Ptr
head [] = null
head (t ∷ ts) = t.at

-- a timer behind a pointer, `p->next`, a change of the timer, and the list without it
unfoldable pub get : Ptr → List Timer → Option Timer
get p [] = none
get p (t ∷ ts) = if p == t.at then some t else get p ts

unfoldable pub next_of : Ptr → List Timer → Ptr
next_of p [] = null
next_of p (t ∷ ts) = if p == t.at then head ts else next_of p ts

unfoldable pub modify : Ptr → (Timer → Timer) → List Timer → List Timer
modify p f [] = []
modify p f (t ∷ ts) = if p == t.at then f t ∷ ts else t ∷ modify p f ts

unfoldable pub unlink : Ptr → List Timer → List Timer
unlink p [] = []
unlink p (t ∷ ts) = if p == t.at then ts else t ∷ unlink p ts

-- the loop of `APE_timer_getbyid`
unfoldable pub find_id : ℕ → List Timer → Ptr
find_id i [] = null
find_id i (t ∷ ts) = if t.identifier == i then t.at else find_id i ts

-- the loop of `APE_timer_clearbyid`
unfoldable pub clear_id : ℕ → (force : Bool) → List Timer → List Timer
clear_id i force [] = []
clear_id i force (t ∷ ts) =
    if t.identifier == i
    then (if not (has t.flags is_protected) || force
        then record t { flags = bit_or t.flags is_cleared }
        else t)
      ∷ ts
    else t ∷ clear_id i force ts

-- the asynchronous call at a pointer, and the list without it
unfoldable pub take_async : Ptr → List Async → Option (Async × List Async)
take_async p [] = none
take_async p (a ∷ l) =
    if a.at == p then some (a, l) else (do (b, bs) ← take_async p l; some (b, a ∷ bs))

-- a change of the asynchronous call at a pointer
unfoldable pub set_async_clear : Ptr → ℕ → List Async → Option (List Async)
set_async_clear p f [] = none
set_async_clear p f (a ∷ l) =
    if a.at == p
    then some (record a { clearfunc = f } ∷ l)
    else (do l' ← set_async_clear p f l; some (a ∷ l'))

module _ {S : Type 0} where
  -- `APE_timer_getbyid`
  unfoldable pub timer_getbyid : World S → ℕ → Ptr
  timer_getbyid w i = find_id i w.timers

  -- `APE_timer_clearbyid`
  unfoldable pub timer_clearbyid : World S → ℕ → (force : Bool) → World S
  timer_clearbyid w i force = record w { timers = clear_id i force w.timers }

  -- `APE_timer_setflags`, `APE_timer_unprotect` and `APE_timer_setclearfunc`
  unfoldable pub timer_setflags : World S → Ptr → ℕ → Option (World S)
  timer_setflags w p flags = do
    _ ← get p w.timers
    some (record w { timers = modify p (λ t. record t { flags = flags }) w.timers })

  unfoldable pub timer_unprotect : World S → Ptr → Option (World S)
  timer_unprotect w p = do
    t ← get p w.timers
    timer_setflags w p (t.flags - bit_and t.flags is_protected)

  unfoldable pub timer_setclearfunc : World S → Ptr → ℕ → Option (World S)
  timer_setclearfunc w p f = do
    _ ← get p w.timers
    some (record w { timers = modify p (λ t. record t { clearfunc = f }) w.timers })

  -- `APE_async`; the new call is at `at`
  unfoldable pub async : World S → (f arg : ℕ) → (at : Ptr) → World S
  async w f arg at =
      let a : Async = record { at = at; callback = f; clearfunc = 0; arg = arg } in
      record w { head_async = a ∷ w.head_async }

  -- `APE_async_setclearfunc`
  unfoldable pub async_setclearfunc : World S → Ptr → ℕ → Option (World S)
  async_setclearfunc w p f = do
    l ← set_async_clear p f w.head_async
    some (record w { head_async = l })

  -- `APE_timer_setlowresolution`
  unfoldable pub timer_setlowresolution : World S → Bool → World S
  timer_setlowresolution w low = record w { low_resolution = low }

  -- What the rest of the program is for the timers: `mach_absolute_time`, and a call of the function
  -- at an address, not null, on an argument, which returns an `int`.
  module _ (now : S → ℕ × S) (call : (f arg : ℕ) → World S → Option (World S × ℕ)) where
    -- `APE_timer_create`: the new timer is at `at`
    unfoldable pub timer_create : World S → (ms f arg : ℕ) → (at : Ptr) → World S × Ptr
    unfolding extend
    timer_create w ms f arg at =
        if f == 0
        then (w, null)
        else let ticks = extend ms * 1000000 % 2 ^ 64 in
          let (time, s) = now w.rest in
          let id = (w.last_identifier + 1) % 2 ^ 64 in
          let none_run : Stats = record { nexec = 0; max = 0; min = 0; totaltime = 0 } in
          let t : Timer = record {
            at = at;
            identifier = id;
            flags = is_protected;
            ticks_needs = ticks;
            schedule = (time + ticks) % 2 ^ 64;
            callback = f;
            clearfunc = 0;
            arg = arg;
            stats = none_run;
          } in
          (record w { timers = t ∷ w.timers; last_identifier = id; rest = s }, at)

    -- `if (timer->clearfunc) timer->clearfunc(timer->arg)`
    unfoldable pub clear : (f arg : ℕ) → Ptr → World S → Option (World S)
    clear f arg p w =
        if f == 0
        then some w
        else (do (w₁, _) ← call f arg (record w { log = cleared p ∷ w.log }); some w₁)

    -- `ape_timer_destroy`: the pointer that it returns, and the world
    unfoldable pub timer_destroy : Ptr → World S → Option (Ptr × World S)
    timer_destroy p w = do
      t ← get p w.timers
      w₁ ← clear t.clearfunc t.arg p (record w { timers = unlink p w.timers })
      some (next_of p w.timers, record w₁ { log = freed p ∷ w₁.log })

    -- `APE_async_destroy`
    unfoldable pub async_destroy : World S → Ptr → Option (World S)
    async_destroy w p = if p == null then some w else elim (take_async p w.head_async) [
      | none ↦ some w
      | some (a, l) ↦ do
        w₁ ← clear a.clearfunc a.arg p (record w { head_async = l })
        some (record w₁ { log = freed p ∷ w₁.log })
    ]

    -- the loop of `del_async_all`, whose call of `clearfunc` is not guarded
    unfoldable pub del_asyncs : List Async → World S → Option (World S)
    del_asyncs [] w = some w
    del_asyncs (a ∷ l) w = if a.clearfunc == 0 then none else (do
      (w₁, _) ← call a.clearfunc a.arg (record w { log = cleared a.at ∷ w.log })
      del_asyncs l (record w₁ { log = freed a.at ∷ w₁.log }))

    unfoldable pub del_async_all : World S → Option (World S)
    del_async_all w = del_asyncs w.head_async (record w { head_async = [] })

    -- the loop of `process_async`
    unfoldable pub run_asyncs : List Async → World S → Option (World S)
    run_asyncs [] w = some w
    run_asyncs (a ∷ l) w = do
      (w₁, _) ← call a.callback a.arg (record w { log = ran a.at ∷ w.log })
      w₂ ← clear a.clearfunc a.arg a.at w₁
      run_asyncs l (record w₂ { log = freed a.at ∷ w₂.log })

    unfoldable pub process_async : World S → Option (World S)
    process_async w = run_asyncs w.head_async (record w { head_async = [] })
