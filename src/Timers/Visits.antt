-- ===== src/Timers/Visits.antt =====
-- What the loop of `ape_timers_process` does to each timer.
use mathlib.Core.Path.{subst⁻¹, subst}
use zape.Base.{
  ℕ, ◌≡◌, refl, ap, ◌∙◌, true, false, Option, some, List, [], ◌∷◌, ◌++◌, ◌==◌, if◌then◌else◌, ltb,
}
use zape.Pool.State.{Ptr}
use zape.Socket.Types.{has}
use zape.Timers.State.{is_cleared, Timer, Event, ran, World, head, get, next_of, modify, extend}
use zape.Timers.Links.{
  IsLinked, front_apart, IsLinked-modify, get-append, next_of-append, modify-append,
}
use zape.Timers.Run.{max64, again, delay, measure, is_due, change, pass, stay}
use zape.Timers.Ends.{ended_of}

-- the least `schedule` of some timers, and of `inums`
abbrev pub earliest : (inums : ℕ) → List Timer → ℕ
earliest inums [] = inums
earliest inums (t ∷ ts) = earliest (if ltb t.schedule inums then t.schedule else inums) ts

module _ {S : Type 0} (now : S → ℕ × S) (call : (f arg : ℕ) → World S → Option (World S × ℕ)) where
  -- the callback of a timer is called with the clock at `s`, leaves it at `s'`, and returns `r`, as a
  -- `uint64_t`
  abbrev pub Returns : Timer → (r : ℕ) → (s s' : S) → Type 0
  Returns u r s s' =
      (w w' : World S) × (i : ℕ) × (call u.callback u.arg w ≡ some (w', i))
      × (extend i ≡ r)
      × (w.rest ≡ s)
      × (w'.rest ≡ s')

  -- A timer at the round for it, after the events `log`, with the clock at `s` and `lastsample`. It ends as the
  -- timers and events that are left, with the clock and `lastsample` then. A clear function may
  -- move the clock to any state.
  pub data Round (u : Timer) (log : List Event) (s : S) (last : ℕ)
      : List Timer → List Event → S → ℕ → Type 0 where
    -- it has been cleared
    gone : (s' : S) → has u.flags is_cleared ≡ true → Round u log s last [] (ended_of u log) s' last
    -- it is not due
    waits :
        has u.flags is_cleared ≡ false
        → is_due (now s).0 u ≡ false
        → Round u log s last (u ∷ []) log (now s).1 last
    -- it is due, and its callback returns 0, -1 or another number
    stops :
        (t s' : S)
        → has u.flags is_cleared ≡ false
        → is_due (now s).0 u ≡ true
        → Returns u 0 (now s).1 t
        → Round u log s last [] (ended_of u (ran u.at ∷ log)) s' last
    repeats :
        (t : S)
        → has u.flags is_cleared ≡ false
        → is_due (now s).0 u ≡ true
        → Returns u max64 (now s).1 t
        → Round u log s last
            (measure (now s).0 (now t).0 (again (now s).0 u) ∷ [])
            (ran u.at ∷ log)
            (now t).1
            (now t).0
    delays :
        (t : S) (ret : ℕ)
        → has u.flags is_cleared ≡ false
        → is_due (now s).0 u ≡ true
        → Returns u ret (now s).1 t
        → (ret == 0) ≡ false
        → (ret == max64) ≡ false
        → Round u log s last
            (measure (now s).0 (now t).0 (delay (now s).0 ret u) ∷ [])
            (ran u.at ∷ log)
            (now t).1
            (now t).0

  -- a round for each timer, in their order, each with the clock and `lastsample` that the one before has left
  pub data Rounds : List Timer → List Event → S → ℕ → List Timer → List Event → S → ℕ → Type 0 where
    stop : (log : List Event) (s : S) (last : ℕ) → Rounds [] log s last [] log s last
    next :
        (u : Timer) (us ks kept : List Timer) (log log₁ log₂ : List Event) (s s₁ s₂ : S)
        (last last₁ last₂ : ℕ)
        → Round u log s last ks log₁ s₁ last₁
        → Rounds us log₁ s₁ last₁ kept log₂ s₂ last₂
        → Rounds (u ∷ us) log s last (ks ++ kept) log₂ s₂ last₂

  pub pass_lem :
      (us vs : List Timer) (u : Timer) (p : Ptr) (inums last : ℕ) (w : World S)
      → u.at ≡ p
      → w.timers ≡ us ++ u ∷ vs
      → IsLinked w.timers
      → pass now call p inums last w ≡ some (head vs, earliest inums (u ∷ []), last, w)
  unfolding pass
  pass_lem us vs u p inums last w at list linked =
      let apart = front_apart us vs u (subst IsLinked list linked) in
      let found : get u.at w.timers ≡ some u = ap (get u.at) list ∙ get-append vs u us apart in
      let after : next_of u.at w.timers ≡ head vs =
        ap (next_of u.at) list ∙ next_of-append vs u us apart in
      let run : pass now call u.at inums last w ≡ some (head vs, earliest inums (u ∷ []), last, w) =
        simp found (simp after refl) in
      subst (λ q. pass now call q inums last w ≡ some (head vs, earliest inums (u ∷ []), last, w))
        at run

  -- the timer stays with a change that keeps its place
  pub stay_lem :
      (us vs : List Timer) (u : Timer) (start inums : ℕ) (f : Timer → Timer)
      → ((last : ℕ) → (measure start last (f u)).at ≡ u.at)
      → (w : World S) → w.timers ≡ us ++ u ∷ vs
      → IsLinked w.timers
      → (w' : World S) × (stay now call u.at start inums f w
          ≡ some (
            head vs,
            earliest inums (measure start (now w.rest).0 (f u) ∷ []),
            (now w.rest).0,
            w',
          ))
        × (w'.timers ≡ us ++ measure start (now w.rest).0 (f u) ∷ vs)
        × (w'.log ≡ w.log)
        × (w'.rest ≡ (now w.rest).1)
        × IsLinked w'.timers
  unfolding stay change
  stay_lem us vs u start inums f keeps w list linked =
      let (last, s) = now w.rest in
      let g : Timer → Timer = λ t. measure start last (f t) in
      let before = subst IsLinked list linked in
      let list' : modify u.at g w.timers ≡ us ++ g u ∷ vs =
        ap (modify u.at g) list ∙ modify-append vs u g us (front_apart us vs u before) in
      let linked' = subst⁻¹ IsLinked list' (IsLinked-modify us vs u before (g u) (keeps last)) in
      let w' : World S = record w { timers = modify u.at g w.timers; rest = s } in
      (
        w',
        pass_lem us vs (g u) u.at inums last w' (keeps last) list' linked',
        list',
        refl,
        refl,
        linked',
      )
