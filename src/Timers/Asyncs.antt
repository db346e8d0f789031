-- ===== src/Timers/Asyncs.antt =====
-- The asynchronous calls: run by `process_async`, dropped by `del_async_all`.
use mathlib.Core.Path.{subst}
use zape.Base.{
  ℕ, ◌≡◌, refl, ap, ◌∙◌, Bool, false, ◌||◌, Option, none, some, List, [], ◌∷◌, ◌++◌, ◌==◌,
  if◌then◌else◌, append_assoc, Bool-cases, inl, inr,
}
use zape.Timers.State.{
  Timer, Async, Event, ran, cleared, freed, World, run_asyncs, del_asyncs, del_async_all,
}
use zape.Timers.Links.{IsLinked}
use zape.Timers.Ends.{Calm, clear_lem}

-- the events of the runs of some calls
abbrev pub runs_of : List Async → List Event → List Event
runs_of [] log = log
runs_of (a ∷ l) log =
    runs_of l
      (freed a.at ∷ (if a.clearfunc == 0 then ran a.at ∷ log else cleared a.at ∷ ran a.at ∷ log))

-- some call has no clear function
abbrev pub some_bare : List Async → Bool
some_bare [] = false
some_bare (a ∷ l) = (a.clearfunc == 0) || some_bare l

-- the events when all calls are dropped
abbrev pub drops_of : List Async → List Event → List Event
drops_of [] log = log
drops_of (a ∷ l) log = drops_of l (freed a.at ∷ cleared a.at ∷ log)

module _ {S : Type 0} (now : S → ℕ × S) (call : (f arg : ℕ) → World S → Option (World S × ℕ))
    (calm : Calm call) where
  pub run_asyncs_lem :
      (l : List Async) (w : World S)
      → IsLinked w.timers
      → (w' : World S) × (created : List Timer) × (run_asyncs now call l w ≡ some w')
        × (w'.timers ≡ created ++ w.timers)
        × (w'.log ≡ runs_of l w.log)
        × IsLinked w'.timers
  unfolding run_asyncs
  run_asyncs_lem [] w linked = (w, [], refl, refl, refl, linked)
  run_asyncs_lem (a ∷ l) w linked =
      let (w₁, r, more, run₁, list₁, log₁, linked₁) =
        calm a.callback a.arg (record w { log = ran a.at ∷ w.log }) linked in
      let (w₂, more₂, run₂, list₂, log₂, linked₂) =
        clear_lem now call calm a.clearfunc a.arg a.at w₁ linked₁ in
      let w₃ : World S = record w₂ { log = freed a.at ∷ w₂.log } in
      let (w', created, run, list, log, linked') = run_asyncs_lem l w₃ linked₂ in
      let logged : List Event → List Event =
        λ x. if a.clearfunc == 0 then x else cleared a.at ∷ x in
      (
        w',
        created ++ (more₂ ++ more),
        simp run₁ (simp run₂ run),
        list
            ∙ (ap (λ x. created ++ x) (list₂ ∙ ap (λ x. more₂ ++ x) list₁)
                ∙ simp append_assoc refl),
        log ∙ ap (λ x. runs_of l (freed a.at ∷ x)) (log₂ ∙ ap logged log₁),
        linked',
      )

  -- What comes of dropping all calls: an access through the null pointer if one of them has no clear
  -- function, and otherwise a call of each clear function.
  abbrev pub Dropped : List Async → List Event → Option (World S) → Type 0
  Dropped l log o =
      if some_bare l then o ≡ none else ((w' : World S) × (o ≡ some w') × (w'.log ≡ drops_of l log))

  pub del_asyncs_lem :
      (l : List Async) (w : World S) → IsLinked w.timers → Dropped l w.log (del_asyncs now call l w)
  unfolding del_asyncs
  del_asyncs_lem [] w linked = (w, refl, refl)
  del_asyncs_lem (a ∷ l) w linked = elim (Bool-cases (a.clearfunc == 0)) [
    | inl e ↦ simp e refl
    | inr e ↦
        let (w₁, r, more, run, list, log, linked₁) =
          calm a.clearfunc a.arg (record w { log = cleared a.at ∷ w.log }) linked in
        let w₂ : World S = record w₁ { log = freed a.at ∷ w₁.log } in
        let dropped : Dropped l (freed a.at ∷ cleared a.at ∷ w.log) (del_asyncs now call l w₂) =
          subst (λ x. Dropped l (freed a.at ∷ x) (del_asyncs now call l w₂)) log
            (del_asyncs_lem l w₂ linked₁) in
        simp e (simp run dropped)
  ]

  -- If the functions called only create new timers in front of the others, `del_async_all` calls the
  -- clear function of each pending call once, in their order, and frees it; if one of them has no clear
  -- function, it ends in a call of the null pointer.
  pub del_async_all_lem :
      (w : World S) → IsLinked w.timers → Dropped w.head_async w.log (del_async_all now call w)
  unfolding del_async_all
  del_async_all_lem w linked = del_asyncs_lem w.head_async (record w { head_async = [] }) linked
