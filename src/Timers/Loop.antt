-- ===== src/Timers/Loop.antt =====
-- The rounds of the loop of `ape_timers_process` one by one, and all of them.
use mathlib.Core.Path.{subst⁻¹, subst}
use zape.Base.{
  ℕ, zero, suc, ◌<◌, ◌≡◌, refl, sym, ap, ◌∙◌, true, false, Option, some, List, [], ◌∷◌, ◌++◌,
  length, ◌==◌, if◌then◌else◌, ltb, arith, append_assoc, ==→eq, Bool-cases, inl, inr,
}
use zape.Pool.State.{Ptr}
use zape.Socket.Types.{has}
use zape.Timers.State.{is_cleared, Timer, Event, ran, World, head, get, extend}
use zape.Timers.Links.{IsLinked, front_apart, not_null, get-append}
use zape.Timers.Run.{max64, again, delay, measure, is_due, answer, visit, visit_all}
use zape.Timers.Ends.{Calm, ended_of, timer_destroy_lem}
use zape.Timers.Visits.{earliest, Returns, Round, Rounds, pass_lem, stay_lem}

module _ {S : Type 0} (now : S → ℕ × S) (call : (f arg : ℕ) → World S → Option (World S × ℕ)) where
  -- What a round has come to: the result `o` of a run on the timers `us`, then `u`, then `vs`.
  abbrev pub Visited :
      (us vs : List Timer) (u : Timer) (inums last : ℕ) (log : List Event) (s : S)
      → Option (Ptr × ℕ × ℕ × World S)
      → Type 0
  Visited us vs u inums last log s o =
      (inums' last' : ℕ) × (w' : World S) × (created ks : List Timer) × (o
        ≡ some (head vs, inums', last', w'))
      × (w'.timers ≡ created ++ (us ++ (ks ++ vs)))
      × Round now call u log s last ks w'.log w'.rest last'
      × (inums' ≡ earliest inums ks)
      × IsLinked w'.timers

  module _ (calm : Calm call) (us vs : List Timer) (u : Timer) (inums last : ℕ) where
    pub answer_lem :
        (s : S) (log : List Event) (w : World S) (created : List Timer) (ret : ℕ)
        → has u.flags is_cleared ≡ false
        → is_due (now s).0 u ≡ true
        → Returns now call u ret (now s).1 w.rest
        → w.log ≡ ran u.at ∷ log
        → w.timers ≡ created ++ (us ++ u ∷ vs)
        → IsLinked w.timers
        → Visited us vs u inums last log s (answer now call u.at (now s).0 inums last ret w)
    unfolding answer measure again delay
    answer_lem s log w created ret clear due returns ran_log list linked =
        let start = (now s).0 in
        let front = created ++ us in
        let list' : w.timers ≡ front ++ u ∷ vs = list ∙ sym (append_assoc created us (u ∷ vs)) in
        let back : (ks : List Timer) → front ++ (ks ++ vs) ≡ created ++ (us ++ (ks ++ vs)) =
          λ ks. append_assoc created us (ks ++ vs) in
        elim (Bool-cases (ret == max64)) [
          | inl e ↦
              let (w', run, timers, log', rest', linked') =
                stay_lem now call front vs u start inums (again start) (λ l. refl) w list' linked in
              let last' = (now w.rest).0 in
              let k = measure start last' (again start u) in
              (
                _,
                last',
                w',
                created,
                k ∷ [],
                simp e run,
                timers ∙ back (k ∷ []),
                subst⁻¹ (λ l. Round now call u log s last (k ∷ []) l w'.rest last') (log' ∙ ran_log)
                    (subst⁻¹ (λ x. Round now call u log s last (k ∷ []) (ran u.at ∷ log) x last')
                      rest'
                      (Round.repeats w.rest clear due (
                        subst (λ r. Returns now call u r (now s).1 w.rest) (==→eq ret max64 e)
                          returns))),
                refl,
                linked',
              )
          | inr e ↦ elim (Bool-cases (ret == 0)) [
            | inl z ↦
                let (w', more, run, timers, log', linked') =
                  timer_destroy_lem now call calm w front vs u list' linked in
                (
                  inums,
                  last,
                  w',
                  more ++ created,
                  [],
                  simp e (simp z (simp run refl)),
                  timers ∙ simp append_assoc refl,
                  subst⁻¹ (λ l. Round now call u log s last [] l w'.rest last)
                      (log' ∙ ap (ended_of u) ran_log)
                      (Round.stops w.rest w'.rest clear due (
                        subst (λ r. Returns now call u r (now s).1 w.rest) (==→eq ret 0 z)
                          returns)),
                  refl,
                  linked',
                )
            | inr z ↦
                let (w', run, timers, log', rest', linked') =
                  stay_lem now call front vs u start inums (delay start ret) (λ l. refl) w list'
                    linked in
                let last' = (now w.rest).0 in
                let k = measure start last' (delay start ret u) in
                (
                  _,
                  last',
                  w',
                  created,
                  k ∷ [],
                  simp e (simp z run),
                  timers ∙ back (k ∷ []),
                  subst⁻¹ (λ l. Round now call u log s last (k ∷ []) l w'.rest last')
                      (log' ∙ ran_log)
                      (subst⁻¹ (λ x. Round now call u log s last (k ∷ []) (ran u.at ∷ log) x last')
                        rest' (Round.delays w.rest ret clear due returns z e)),
                  refl,
                  linked',
                )
          ]
        ]

    pub visit_lem :
        (w : World S)
        → w.timers ≡ us ++ u ∷ vs
        → IsLinked w.timers
        → Visited us vs u inums last w.log w.rest (visit now call u.at inums last w)
    unfolding visit
    visit_lem w list linked =
        let apart = front_apart us vs u (subst IsLinked list linked) in
        let found : get u.at w.timers ≡ some u = ap (get u.at) list ∙ get-append vs u us apart in
        elim (Bool-cases (has u.flags is_cleared)) [
          | inl e ↦
              let (w', more, run, timers, log', linked') =
                timer_destroy_lem now call calm w us vs u list linked in
              (
                inums,
                last,
                w',
                more,
                [],
                simp found (simp e (simp run refl)),
                timers,
                subst⁻¹ (λ l. Round now call u w.log w.rest last [] l w'.rest last) log'
                    (Round.gone w'.rest e),
                refl,
                linked',
              )
          | inr e ↦
              let (start, s) = now w.rest in
              elim (Bool-cases (is_due start u)) [
                | inl due ↦
                    let w₀ : World S = record w { log = ran u.at ∷ w.log; rest = s } in
                    let (w₁, r, created, run, timers, log₁, linked₁) =
                      calm u.callback u.arg w₀ linked in
                    let returns : Returns now call u (extend r) s w₁.rest =
                      (w₀, w₁, r, run, refl, refl, refl) in
                    let (i, l, w', more, ks, runs, list', round, least, linked₂) =
                      answer_lem w.rest w.log w₁ created (extend r) e due returns log₁
                        (timers ∙ ap (λ l. created ++ l) list) linked₁ in
                    (
                      i,
                      l,
                      w',
                      more,
                      ks,
                      simp found (simp e (simp due (simp run runs))),
                      list',
                      round,
                      least,
                      linked₂,
                    )
                | inr late ↦
                    let w₀ : World S = record w { rest = s } in
                    (
                      _,
                      last,
                      w₀,
                      [],
                      u ∷ [],
                      simp found (
                          simp e (
                            simp late
                              (pass_lem now call us vs u u.at inums last w₀ refl list linked))),
                      list,
                      Round.waits e late,
                      refl,
                      linked,
                    )
              ]
        ]

  pub earliest-append :
      (inums : ℕ) (ks ts : List Timer) → earliest inums (ks ++ ts) ≡ earliest (earliest inums ks) ts
  earliest-append inums [] ts = refl
  earliest-append inums (k ∷ ks) ts =
      earliest-append (if ltb k.schedule inums then k.schedule else inums) ks ts

  module _ (calm : Calm call) where
    pub visit_all_lem :
        (n : ℕ) (us vs : List Timer) (inums last : ℕ) (w : World S)
        → w.timers ≡ us ++ vs
        → IsLinked w.timers
        → length vs < n
        → (inums' last' : ℕ) × (w' : World S) × (created ks : List Timer) × (visit_all now call n
              (head vs)
              inums
              last
              w
            ≡ some (inums', last', w'))
          × (w'.timers ≡ created ++ (us ++ ks))
          × Rounds now call vs w.log w.rest last ks w'.log w'.rest last'
          × (inums' ≡ earliest inums ks)
          × IsLinked w'.timers
    unfolding visit_all
    visit_all_lem zero us vs inums last w list linked enough = absurd (omega arith)
    visit_all_lem (suc n) us [] inums last w list linked enough =
        (inums, last, w, [], [], refl, list, Rounds.stop w.log w.rest last, refl, linked)
    visit_all_lem (suc n) us (u ∷ vs) inums last w list linked enough =
        let ptr = not_null us vs u (subst IsLinked list linked) in
        let (i, l, w₁, more, ks, run, list₁, round, least, linked₁) =
          visit_lem calm us vs u inums last w list linked in
        let front = more ++ (us ++ ks) in
        let list₂ : w₁.timers ≡ front ++ vs = list₁ ∙ simp append_assoc refl in
        let (i', l', w', created, ts, runs, list', rounds, least', linked') =
          visit_all_lem n front vs i l w₁ list₂ linked₁ (omega arith) in
        (
          i',
          l',
          w',
          created ++ more,
          ks ++ ts,
          simp ptr (simp run runs),
          list' ∙ simp append_assoc refl,
          Rounds.next u vs ks ts w.log w₁.log w'.log w.rest w₁.rest w'.rest last l l' round rounds,
          least' ∙ (ap (λ x. earliest x ts) least ∙ sym (earliest-append inums ks ts)),
          linked',
        )
