-- ===== src/Timers/Tests.antt =====
-- Runs of the functions on timers, and the theorems at concrete timers.
use zape.Base.{
  ℕ, suc, ◌+◌, ◌-◌, ◌%◌, ◌^◌, ◌≡◌, refl, true, false, Option, none, some, List, [], ◌∷◌, ◌++◌, ◌==◌,
  if◌then◌else◌, arith, Bool-cases, inl, inr,
}
use zape.Pool.State.{Ptr}
use zape.Timers.State.{
  Stats, Timer, Async, Event, ran, cleared, freed, World, is_protected, extend, get, next_of,
  modify, unlink, find_id, clear_id, timer_getbyid, timer_clearbyid, timer_create, clear,
  timer_destroy, del_async_all, run_asyncs, process_async,
}
use zape.Timers.Links.{places, IsLinked}
use zape.Timers.Run.{
  again, delay, measure, is_due, next_timeout, change, pass, stay, answer, visit, visit_all,
  timers_process, destroy_each, max64,
}
use zape.Timers.Ends.{Calm, kept, ended, sum, IsLinked-cons, destroy_each_lem}
use zape.Timers.Asyncs.{runs_of, del_async_all_lem}
use zape.Timers.Visits.{earliest, Rounds}
use zape.Timers.Process.{next_timeout_lem, timeout, clock, timers_process-Rounds}

-- a clock that moves by 1 ms at each reading
abbrev now : ℕ → ℕ × ℕ
now s = (s, s + 1000000)

-- the function at 1 creates a timer of 5 ms and ends its own timer, any other asks for another run
abbrev call : (f arg : ℕ) → World ℕ → Option (World ℕ × ℕ)
call f arg w =
    if f == 1
    then some ((timer_create now (λ g x v. none) w 5 2 arg (suc (sum w.timers))).0, 0)
    else some (w, 2 ^ 32 - 1)

abbrev no_stats : Stats
no_stats = record { nexec = 0; max = 0; min = 0; totaltime = 0 }

-- the timer that `call` creates
abbrev made : World ℕ → ℕ → Timer
made w arg = record {
  at = suc (sum w.timers);
  identifier = (w.last_identifier + 1) % 2 ^ 64;
  flags = is_protected;
  ticks_needs = 5000000;
  schedule = (w.rest + 5000000) % 2 ^ 64;
  callback = 2;
  clearfunc = 0;
  arg = arg;
  stats = no_stats;
}

call-Calm : Calm call
unfolding timer_create extend
call-Calm f arg w linked = elim (Bool-cases (f == 1)) [
  | inl e ↦
      let w' = (timer_create now (λ g x v. none) w 5 2 arg (suc (sum w.timers))).0 in
      (
        w',
        0,
        made w arg ∷ [],
        simp e refl,
        refl,
        refl,
        IsLinked-cons (made w arg) w.timers (omega arith) linked,
      )
  | inr e ↦ (w, 2 ^ 32 - 1, [], simp e refl, refl, refl, linked)
]

abbrev timer : (at f flags clearfunc schedule : ℕ) → Timer
timer at f flags clearfunc schedule = record {
  at = at;
  identifier = at;
  flags = flags;
  ticks_needs = 3000000;
  schedule = schedule;
  callback = f;
  clearfunc = clearfunc;
  arg = 9;
  stats = no_stats;
}

-- a timer that ends, one that repeats, a cleared one and one that is not due
abbrev four : List Timer
four =
    timer 8 1 1 4 1000000
    ∷ timer 16 2 0 0 2000000
    ∷ timer 24 2 3 4 1000000
    ∷ timer 32 2 1 0 90000000
    ∷ []

abbrev with_async : List Async → World ℕ
with_async l = record {
  timers = four;
  head_async = l;
  last_identifier = 40;
  low_resolution = false;
  log = [];
  rest = 10000000;
}

four-IsLinked : IsLinked four
four-IsLinked p = ground arith

abbrev clearing : Async
clearing = record { at = 40; callback = 1; clearfunc = 4; arg = 6 }

abbrev bare : Async
bare = record { at = 48; callback = 5; clearfunc = 0; arg = 6 }

-- the flags of some timers
abbrev flags_of : List Timer → List ℕ
flags_of [] = []
flags_of (t ∷ ts) = t.flags ∷ flags_of ts

-- the log, the places and the timeout after a run
abbrev shown : Option (ℕ × World ℕ) → Option (ℕ × List Event × List Ptr)
shown none = none
shown (some (ms, w)) = some (ms, w.log, places w.timers)

timers_process_test :
    shown (timers_process now call 5 (with_async (clearing ∷ [])))
    ≡ some (
      2,
      freed 24
          ∷ cleared 24
          ∷ ran 16
          ∷ freed 8
          ∷ cleared 8
          ∷ ran 8
          ∷ freed 40
          ∷ cleared 40
          ∷ ran 40
          ∷ [],
      162 ∷ 81 ∷ 16 ∷ 32 ∷ [],
    )
unfolding timers_process visit_all visit answer stay pass change is_due measure delay again
    next_timeout process_async run_asyncs clear timer_destroy timer_create extend get next_of modify
    unlink
timers_process_test = refl

-- a timer is found by its number, and cleared by it unless it is protected
timer_getbyid_test : timer_getbyid (with_async []) 24 ≡ 24
unfolding timer_getbyid find_id
timer_getbyid_test = refl

timer_clearbyid_test :
    (flags_of (timer_clearbyid (with_async []) 8 false).timers ≡ 1 ∷ 0 ∷ 3 ∷ 1 ∷ [])
    × (flags_of (timer_clearbyid (with_async []) 8 true).timers ≡ 3 ∷ 0 ∷ 3 ∷ 1 ∷ [])
unfolding timer_clearbyid clear_id
timer_clearbyid_test = (refl, refl)

next_timeout_lem_example : next_timeout false 5000000 9000000 ≡ 1
next_timeout_lem_example =
    next_timeout_lem false 5000000 9000000 (omega arith) (omega arith) (omega arith) (omega arith)

abbrev world : World ℕ
world = with_async (clearing ∷ [])

timers_process-Rounds_example :
    (ms last : ℕ) × (w' : World ℕ) × (s₀ s₁ s₂ : ℕ) × (created ks : List Timer) × (later : List
      Async)
    × (log : List Event) × (timers_process now call 5 world ≡ some (ms, w'))
    × (w'.timers ≡ created ++ ks)
    × Rounds now call world.timers (runs_of world.head_async world.log) s₀ 0 ks log s₁ last
    × (w'.log ≡ runs_of later log)
    × (ms ≡ timeout now call call-Calm w'.low_resolution last s₂ (earliest max64 ks))
    × (w'.rest ≡ clock now call call-Calm last s₂ (earliest max64 ks))
    × IsLinked w'.timers
timers_process-Rounds_example =
    timers_process-Rounds now call call-Calm 5 world four-IsLinked (omega arith)

destroy_each_lem_example :
    (w' : World ℕ) × (created : List Timer) × (destroy_each now call false 5 8 world ≡ some w')
    × (w'.timers ≡ created ++ kept false four)
    × (w'.log ≡ ended false four [])
    × IsLinked w'.timers
destroy_each_lem_example =
    destroy_each_lem now call call-Calm false 5 [] four world refl four-IsLinked (omega arith)

del_async_all_lem_example : del_async_all now call (with_async (clearing ∷ bare ∷ [])) ≡ none
del_async_all_lem_example =
    del_async_all_lem now call call-Calm (with_async (clearing ∷ bare ∷ [])) four-IsLinked
