-- ===== src/Timers/Run.antt =====
-- The runs over all timers: `ape_timers_process`, and the ends of the timers.
use zape.Base.{
  ℕ, zero, suc, ◌+◌, ◌-◌, ◌*◌, ◌/◌, ◌%◌, ◌^◌, Bool, true, false, not, ◌&&◌, ◌||◌, Option, none,
  some, ◌∷◌, ◌==◌, if◌then◌else◌, ltb, leb,
}
use zape.Base.Fault.{◌>>=◌}
use zape.Pool.State.{Ptr, null}
use zape.Socket.Types.{has}
use zape.Timers.State.{
  is_protected, is_cleared, Stats, Timer, ran, World, head, get, next_of, modify, extend,
  timer_destroy, del_async_all, process_async,
}

-- `APE_TIMER_RESOLUTION` and `UINT64_MAX`
abbrev pub resolution : ℕ
resolution = 8

abbrev pub max64 : ℕ
max64 = 2 ^ 64 - 1

-- the changes of a timer after a call of its callback
unfoldable pub again : (start : ℕ) → Timer → Timer
again start t = record t { schedule = (start + t.ticks_needs) % 2 ^ 64 }

unfoldable pub delay : (start ret : ℕ) → Timer → Timer
delay start ret t = again start (record t { ticks_needs = ret * 1000000 % 2 ^ 64 })

unfoldable pub measure : (start last : ℕ) → Timer → Timer
measure start last t =
    let ms = (last + 2 ^ 64 - start) % 2 ^ 32 / 1000000 in
    let s = t.stats in
    let s' : Stats = record {
      nexec = (s.nexec + 1) % 2 ^ 32;
      max = if ltb s.max ms then ms else s.max;
      min = if (s.min == 0) || ltb ms s.min then ms else s.min;
      totaltime = (s.totaltime + ms) % 2 ^ 32;
    } in
    record t { stats = s' }

-- `start >= cur->schedule - 150000`
unfoldable pub is_due : (start : ℕ) → Timer → Bool
is_due start t = leb ((t.schedule + (2 ^ 64 - 150000)) % 2 ^ 64) start

-- the milliseconds until `inums`, by the clock at `last`, as an `int`
unfoldable pub next_timeout : (low : Bool) → (inums last : ℕ) → ℕ
next_timeout low inums last =
    let least = if low then 100 else 1 in
    let ms = (inums + (2 ^ 64 - last) + 500000) % 2 ^ 64 / 1000000 % 2 ^ 32 in
    if ltb ms (2 ^ 31) && ltb least ms then ms else least

module _ {S : Type 0} where
  unfoldable pub change : Ptr → (Timer → Timer) → World S → World S
  change p f w = record w { timers = modify p f w.timers }

  module _ (now : S → ℕ × S) (call : (f arg : ℕ) → World S → Option (World S × ℕ)) where
    -- the end of a round: the next timer, `inums`, `lastsample` and the world
    unfoldable pub pass : Ptr → (inums last : ℕ) → World S → Option (Ptr × ℕ × ℕ × World S)
    pass p inums last w = do
      t ← get p w.timers
      some (next_of p w.timers, if ltb t.schedule inums then t.schedule else inums, last, w)

    -- the callback has returned, and the timer stays with a change
    unfoldable pub stay :
        Ptr → (start inums : ℕ) → (Timer → Timer) → World S → Option (Ptr × ℕ × ℕ × World S)
    stay p start inums f w =
        let (last, s) = now w.rest in
        pass p inums last (change p (λ t. measure start last (f t)) (record w { rest = s }))

    -- the callback has returned `ret`
    unfoldable pub answer :
        Ptr → (start inums last ret : ℕ) → World S → Option (Ptr × ℕ × ℕ × World S)
    answer p start inums last ret w =
        if ret == max64
        then stay p start inums (again start) w
        else if ret == 0
        then (do (q, w₁) ← timer_destroy now call p w; some (q, inums, last, w₁))
        else stay p start inums (delay start ret) w

    -- a round of the loop of `ape_timers_process`, for the timer at `p`
    unfoldable pub visit : Ptr → (inums last : ℕ) → World S → Option (Ptr × ℕ × ℕ × World S)
    visit p inums last w = do
      t ← get p w.timers
      if has t.flags is_cleared
          then (do (q, w₁) ← timer_destroy now call p w; some (q, inums, last, w₁))
          else (let (start, s) = now w.rest in
              if is_due start t
              then (do
                (w₁, r) ← call t.callback t.arg (record w { log = ran p ∷ w.log; rest = s })
                answer p start inums last (extend r) w₁)
              else pass p inums last (record w { rest = s }))

    -- the loop, on fuel
    unfoldable pub visit_all : ℕ → Ptr → (inums last : ℕ) → World S → Option (ℕ × ℕ × World S)
    visit_all zero p inums last w = none
    visit_all (suc n) p inums last w =
        if p == null
        then some (inums, last, w)
        else (do (q, inums₁, last₁, w₁) ← visit p inums last w; visit_all n q inums₁ last₁ w₁)

    -- `ape_timers_process`; the first timer is read before the asynchronous calls
    unfoldable pub timers_process : ℕ → World S → Option (ℕ × World S)
    timers_process n w = do
      w₁ ← process_async now call w
      (inums, last, w₂) ← visit_all n (head w.timers) max64 0 w₁
      w₃ ← process_async now call w₂
      if inums == max64
          then some (resolution, w₃)
          else (let (last₁, s) = (if last == 0 then now w₃.rest else (last, w₃.rest)) in
              some (next_timeout w₃.low_resolution inums last₁, record w₃ { rest = s }))

    -- the loop of `APE_timers_destroy_unprotected`, and, when `all` is set, that of
    -- `APE_timers_destroy_all`
    unfoldable pub destroy_each : (all : Bool) → ℕ → Ptr → World S → Option (World S)
    destroy_each all zero p w = none
    destroy_each all (suc n) p w = if p == null then some w else (do
      t ← get p w.timers
      (q, w₁) ←
          (if all || not (has t.flags is_protected)
            then timer_destroy now call p w
            else some (next_of p w.timers, w))
      destroy_each all n q w₁)

    -- `APE_timers_destroy_unprotected` and `APE_timers_destroy_all`
    unfoldable pub timers_destroy_unprotected : ℕ → World S → Option (World S)
    timers_destroy_unprotected n w = do
      w₁ ← destroy_each false n (head w.timers) w
      del_async_all now call w₁

    unfoldable pub timers_destroy_all : ℕ → World S → Option (World S)
    timers_destroy_all n w = do
      w₁ ← destroy_each true n (head w.timers) w
      del_async_all now call w₁
