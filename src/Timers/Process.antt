-- ===== src/Timers/Process.antt =====
-- `ape_timers_process` as a whole, and the timeout that it returns.
use mathlib.Core.Path.{subst}
use zape.Base.{
  ℕ, ◌+◌, ◌-◌, ◌*◌, ◌/◌, ◌^◌, ◌<◌, ◌≡◌, refl, ap, ◌∙◌, Bool, true, false, Option, some, List, [],
  ◌++◌, length, ◌==◌, if◌then◌else◌, ltb, arith, append_assoc, Bool-cases, inl, inr,
}
use zape.Timers.State.{Timer, Async, Event, World, process_async}
use zape.Timers.Links.{IsLinked}
use zape.Timers.Run.{resolution, max64, next_timeout, timers_process}
use zape.Timers.Ends.{Calm}
use zape.Timers.Visits.{earliest, Rounds}
use zape.Timers.Loop.{visit_all_lem}
use zape.Timers.Asyncs.{runs_of, run_asyncs_lem}

-- For a clock and a next schedule in nanoseconds, both below 2^64, the schedule less than 2^31 ms ahead
-- and less than 2 * 10^15 ns behind, the timeout is the distance in milliseconds, rounded, and at least
-- 100 or 1 by the mode of low resolution; a schedule that has passed gives that least timeout, although
-- the subtraction in the code then wraps around 2^64.
pub next_timeout_lem :
    (low : Bool) (inums last : ℕ)
    → last < 2 ^ 64
    → inums < 2 ^ 64
    → inums + 500000 < last + 2 ^ 31 * 1000000
    → last < inums + 2000000000000000
    → next_timeout low inums last ≡ (
        let ms = (inums + 500000 - last) / 1000000 in
        let least = if low then 100 else 1 in if ltb least ms then ms else least)
unfolding next_timeout
next_timeout_lem low inums last b b' near far = ground arith

module _ {S : Type 0} (now : S → ℕ × S) (call : (f arg : ℕ) → World S → Option (World S × ℕ))
    (calm : Calm call) where
  -- the timeout and the clock at the end, by the last sample and the clock before
  abbrev pub timeout : (low : Bool) → (last : ℕ) → S → (inums : ℕ) → ℕ
  timeout low last s inums =
      if inums == max64
      then resolution
      else next_timeout low inums (if last == 0 then (now s).0 else last)

  abbrev pub clock : (last : ℕ) → S → (inums : ℕ) → S
  clock last s inums = if inums == max64 then s else if last == 0 then (now s).1 else s

  sample :
      (last : ℕ) (s : S) (b : Bool)
      → ((if b then now s else (last, s)).0 ≡ (if b then (now s).0 else last))
        × ((if b then now s else (last, s)).1 ≡ (if b then (now s).1 else s))
  sample last s true = (refl, refl)
  sample last s false = (refl, refl)

  -- If the functions called only create new timers in front of the others, then with fuel for one round
  -- per timer and a last one `timers_process` returns. It has run the asynchronous calls that were
  -- pending, in their order, then gone once through the timers that there were before, in their order,
  -- each at the time that the clock showed after the round before: it has freed the cleared timers and those
  -- whose callback returned 0, and given the others that were due the schedule and the statistics that follow from
  -- the clock before and after their callback. Timers created meanwhile stand in front and are not
  -- visited, and no two timers share a place. The result is 8 when none of the timers from before is left or their
  -- earliest schedule is 2^64 - 1, and else the timeout to that schedule, from the clock after the last callback of a
  -- timer that stayed, or, if there was none, from the clock after the asynchronous calls at the end.
  pub timers_process-Rounds :
      (n : ℕ) (w : World S)
      → IsLinked w.timers
      → length w.timers < n
      → (ms last : ℕ) × (w' : World S) × (s₀ s₁ s₂ : S) × (created ks : List Timer) × (later : List
          Async)
        × (log : List Event) × (timers_process now call n w ≡ some (ms, w'))
        × (w'.timers ≡ created ++ ks)
        × Rounds now call w.timers (runs_of w.head_async w.log) s₀ 0 ks log s₁ last
        × (w'.log ≡ runs_of later log)
        × (ms ≡ timeout w'.low_resolution last s₂ (earliest max64 ks))
        × (w'.rest ≡ clock last s₂ (earliest max64 ks))
        × IsLinked w'.timers
  unfolding timers_process process_async
  timers_process-Rounds n w linked enough =
      let (w₁, more, run₁, list₁, log₁, linked₁) =
        run_asyncs_lem now call calm w.head_async (record w { head_async = [] }) linked in
      let (inums, last, w₂, more₂, ks, run₂, list₂, rounds, least, linked₂) =
        visit_all_lem now call calm n more w.timers max64 0 w₁ list₁ linked₁ enough in
      let (w₃, more₃, run₃, list₃, log₃, linked₃) =
        run_asyncs_lem now call calm w₂.head_async (record w₂ { head_async = [] }) linked₂ in
      let created = more₃ ++ (more₂ ++ more) in
      let list : w₃.timers ≡ created ++ ks =
        list₃ ∙ ap (λ x. more₃ ++ x) list₂ ∙ simp append_assoc refl in
      let rounds' : Rounds now call w.timers (runs_of w.head_async w.log) w₁.rest 0 ks w₂.log
          w₂.rest last =
        subst (λ x. Rounds now call w.timers x w₁.rest 0 ks w₂.log w₂.rest last) log₁ rounds in
      elim (Bool-cases (inums == max64)) [
        | inl e ↦ (
          resolution,
          last,
          w₃,
          w₁.rest,
          w₂.rest,
          w₃.rest,
          created,
          ks,
          w₂.head_async,
          w₂.log,
          simp run₁ (simp run₂ (simp run₃ (simp e refl))),
          list,
          rounds',
          log₃,
          subst (λ i. resolution ≡ timeout w₃.low_resolution last w₃.rest i) least (simp e refl),
          subst (λ i. w₃.rest ≡ clock last w₃.rest i) least (simp e refl),
          linked₃,
        )
        | inr e ↦
            let p = (if last == 0 then now w₃.rest else (last, w₃.rest)) in
            let w' : World S = record w₃ { rest = p.1 } in
            let ms = next_timeout w₃.low_resolution inums p.0 in
            (
              ms,
              last,
              w',
              w₁.rest,
              w₂.rest,
              w₃.rest,
              created,
              ks,
              w₂.head_async,
              w₂.log,
              simp run₁ (simp run₂ (simp run₃ (simp e refl))),
              list,
              rounds',
              log₃,
              subst (λ i. ms ≡ timeout w₃.low_resolution last w₃.rest i) least
                  (simp e (
                    ap (next_timeout w₃.low_resolution inums) (sample last w₃.rest (last == 0)).0)),
              subst (λ i. p.1 ≡ clock last w₃.rest i) least
                  (simp e (sample last w₃.rest (last == 0)).1),
              linked₃,
            )
      ]
