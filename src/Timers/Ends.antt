-- ===== src/Timers/Ends.antt =====
-- The end of a timer, and of all of them, when the functions called behave.
use zape.Base.{
  ℕ, zero, suc, ◌+◌, ◌<◌, ◌≡◌, refl, sym, ap, ◌∙◌, Bool, not, ◌||◌, Option, some, List, [], ◌∷◌,
  ◌++◌, length, ◌==◌, if◌then◌else◌, arith, append_assoc, Bool-cases, inl, inr,
}
use mathlib.Core.Path.{subst⁻¹, subst}
use zape.Pool.State.{Ptr}
use zape.Socket.Types.{has}
use zape.Hash.Chain.{count}
use zape.Timers.State.{
  is_protected, Timer, Event, cleared, freed, World, head, get, next_of, unlink, clear,
  timer_destroy,
}
use zape.Timers.Links.{
  places, IsLinked, front_apart, not_null, IsLinked-unlink, get-append, next_of-append,
  unlink-append,
}
use zape.Timers.Run.{destroy_each}

-- The functions of a program that, as `APE_timer_create` does, put new timers in front of the others
-- and leave the others alone.
abbrev pub Calm : {S : Type 0} → ((f arg : ℕ) → World S → Option (World S × ℕ)) → Type 0
Calm {S} call =
    (f arg : ℕ) (w : World S)
    → IsLinked w.timers
    → (w' : World S) × (r : ℕ) × (created : List Timer) × (call f arg w ≡ some (w', r))
      × (w'.timers ≡ created ++ w.timers)
      × (w'.log ≡ w.log)
      × IsLinked w'.timers

-- the sum of the places of some timers
abbrev pub sum : List Timer → ℕ
sum [] = 0
sum (t ∷ ts) = t.at + sum ts

-- the events of the call of the clear function of a timer
abbrev pub cleared_of : Timer → List Event → List Event
cleared_of u log = if u.clearfunc == 0 then log else cleared u.at ∷ log

abbrev pub ended_of : Timer → List Event → List Event
ended_of u log = freed u.at ∷ cleared_of u log

-- the timers that a run over them keeps, and its events
abbrev pub kept : (all : Bool) → List Timer → List Timer
kept all [] = []
kept all (u ∷ us) = if all || not (has u.flags is_protected) then kept all us else u ∷ kept all us

abbrev pub ended : (all : Bool) → List Timer → List Event → List Event
ended all [] log = log
ended all (u ∷ us) log =
    ended all us (if all || not (has u.flags is_protected) then ended_of u log else log)

module _ {S : Type 0} (now : S → ℕ × S) (call : (f arg : ℕ) → World S → Option (World S × ℕ))
    (calm : Calm call) where
  pub clear_lem :
      (f arg : ℕ) (p : Ptr) (w : World S)
      → IsLinked w.timers
      → (w' : World S) × (created : List Timer) × (clear now call f arg p w ≡ some w')
        × (w'.timers ≡ created ++ w.timers)
        × (w'.log ≡ (if f == 0 then w.log else cleared p ∷ w.log))
        × IsLinked w'.timers
  unfolding clear
  clear_lem f arg p w linked = elim (Bool-cases (f == 0)) [
    | inl e ↦ (w, [], simp e refl, refl, simp e refl, linked)
    | inr e ↦
        let (w', r, created, run, list, log, linked') =
          calm f arg (record w { log = cleared p ∷ w.log }) linked in
        (w', created, simp e (simp run refl), list, simp e log, linked')
  ]

  pub timer_destroy_lem :
      (w : World S) (us vs : List Timer) (u : Timer)
      → w.timers ≡ us ++ u ∷ vs
      → IsLinked w.timers
      → (w' : World S) × (created : List Timer) × (timer_destroy now call u.at w
          ≡ some (head vs, w'))
        × (w'.timers ≡ created ++ (us ++ vs))
        × (w'.log ≡ ended_of u w.log)
        × IsLinked w'.timers
  unfolding timer_destroy
  timer_destroy_lem w us vs u list linked =
      let linked' = subst IsLinked list linked in
      let apart = front_apart us vs u linked' in
      let out = IsLinked-unlink us vs u linked' in
      let found : get u.at w.timers ≡ some u = ap (get u.at) list ∙ get-append vs u us apart in
      let next : next_of u.at w.timers ≡ head vs =
        ap (next_of u.at) list ∙ next_of-append vs u us apart in
      let rest : unlink u.at w.timers ≡ us ++ vs =
        ap (unlink u.at) list ∙ unlink-append vs u us apart in
      let (w₁, created, run, list₁, log₁, linked₁) =
        clear_lem u.clearfunc u.arg u.at (record w { timers = unlink u.at w.timers })
          (subst⁻¹ IsLinked rest out) in
      let w₂ : World S = record w₁ { log = freed u.at ∷ w₁.log } in
      (
        w₂,
        created,
        simp found (simp run (ap (λ q. some (q, w₂)) next)),
        list₁ ∙ ap (λ l. created ++ l) rest,
        ap (λ l. freed u.at ∷ l) log₁,
        linked₁,
      )

  -- If the functions called only create new timers in front of the others, the loop of
  -- `APE_timers_destroy_all` and of `APE_timers_destroy_unprotected`, from the first of some timers on
  -- and with fuel for a round per timer and a last one, ends. It has destroyed each of these timers, of
  -- the unprotected ones in the second case, once and in their order, calling its clear function if it
  -- has one and then freeing it; the others stand in their order, behind those created meanwhile.
  pub destroy_each_lem :
      (all : Bool) (n : ℕ) (us vs : List Timer) (w : World S)
      → w.timers ≡ us ++ vs
      → IsLinked w.timers
      → length vs < n
      → (w' : World S) × (created : List Timer) × (destroy_each now call all n (head vs) w
          ≡ some w')
        × (w'.timers ≡ created ++ (us ++ kept all vs))
        × (w'.log ≡ ended all vs w.log)
        × IsLinked w'.timers
  unfolding destroy_each
  destroy_each_lem all zero us vs w list linked enough = absurd (omega arith)
  destroy_each_lem all (suc n) us [] w list linked enough = (w, [], refl, list, refl, linked)
  destroy_each_lem all (suc n) us (u ∷ vs) w list linked enough =
      let linked' = subst IsLinked list linked in
      let ptr = not_null us vs u linked' in
      let apart = front_apart us vs u linked' in
      let found : get u.at w.timers ≡ some u = ap (get u.at) list ∙ get-append vs u us apart in
      elim (Bool-cases (all || not (has u.flags is_protected))) [
        | inl e ↦
            let (w₁, more, run, list₁, log₁, linked₁) = timer_destroy_lem w us vs u list linked in
            let (w', created, runs, list', log, linked₂) =
              destroy_each_lem all n (more ++ us) vs w₁ (list₁ ∙ sym (append_assoc more us vs))
                linked₁ (omega arith) in
            let stay : kept all (u ∷ vs) ≡ kept all vs = simp e refl in
            (
              w',
              created ++ more,
              simp ptr (simp found (simp e (simp run runs))),
              list' ∙ simp stay (simp append_assoc refl),
              log ∙ simp e (ap (ended all vs) log₁),
              linked₂,
            )
        | inr e ↦
            let next : next_of u.at w.timers ≡ head vs =
              ap (next_of u.at) list ∙ next_of-append vs u us apart in
            let shifted = append_assoc us (u ∷ []) vs in
            let (w', created, run, list', log, linked₁) =
              destroy_each_lem all n (us ++ u ∷ []) vs w (list ∙ sym shifted) linked
                (omega arith) in
            let stay : kept all (u ∷ vs) ≡ u ∷ kept all vs = simp e refl in
            (
              w',
              created,
              simp ptr (simp found (simp e (simp next run))),
              list' ∙ simp stay (simp append_assoc refl),
              log ∙ simp e refl,
              linked₁,
            )
      ]

-- a new timer at a place behind all others
pub fresh_apart : (p : Ptr) (ts : List Timer) → sum ts < p → count p (places ts) ≡ 0
fresh_apart p [] e = refl
fresh_apart p (t ∷ ts) e = ground (arith, fresh_apart p ts)

pub IsLinked-cons : (t : Timer) (ts : List Timer) → sum ts < t.at → IsLinked ts → IsLinked (t ∷ ts)
IsLinked-cons t ts e linked p = ground (arith, linked p, fresh_apart t.at ts e, fresh_apart p ts)
