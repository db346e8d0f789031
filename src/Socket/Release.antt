-- ===== src/Socket/Release.antt =====
-- The timers of a socket that has ended close it once and free it once.
use mathlib.Core.Path.{subst⁻¹}
use zape.Base.{
  Bool, suc, ◌≡◌, refl, ap, ◌∙◌, true, false, Option, none, some, [], ◌∷◌, if◌then◌else◌, arith,
}
use zape.Base.Fault.{◌>>=◌}
use zape.Socket.Types.{
  State, online, progress, pending, offline, shutdown, free_socket, destroy_socket, World,
  is_offline, is_server,
}
use zape.Socket.Close.{
  read_end, close_open, close, destroy, destroy_now, destroy_async, shut_down, defer, shutdown_now,
  state_of, fire, fire_all, run_timers,
}
use zape.Socket.Lifecycle.{
  Over, read_end-Over, closes, Phase, IsSound, is_over, close_run, close_open-fields,
  closes-close_open, stage_alive, shutdown_now-Over, shut_down-fields, shutdown_online_run,
  state_of_alive, destroy_run, phase,
}

-- the run ends, with the socket freed, closed once and without timers
abbrev pub Released : Option World → Type 0
Released r = (w : World) × (r ≡ some w) × (w.freed ≡ true) × (closes w.log ≡ 1) × (w.timers ≡ [])

fire_free : (w : World) → w.freed ≡ false → fire free_socket w ≡ some (record w { freed = true })
unfolding fire
fire_free w f = simp (f, if◌then◌else◌)

pub fire_destroy :
    (w : World)
    → w.freed ≡ false
    → is_offline w.sock.state ≡ false
    → fire destroy_socket w ≡ some (let c = close_open w in record c { freed = true })
unfolding fire destroy_now
fire_destroy w f o = simp (close_run w f o, if◌then◌else◌)

-- the world whose timers are due
abbrev due : World → World
due w = record w { timers = [] }

run_free :
    (w : World)
    → w.freed ≡ false
    → w.timers ≡ free_socket ∷ []
    → run_timers w ≡ some (let d = due w in record d { freed = true })
unfolding run_timers fire_all
run_free w f t = simp (t, fire_free (due w) f)

run_destroy :
    (w : World)
    → w.freed ≡ false
    → is_offline w.sock.state ≡ false
    → w.timers ≡ destroy_socket ∷ []
    → run_timers w ≡ some (let c = close_open (due w) in record c { freed = true })
unfolding run_timers fire_all
run_destroy w f o t = simp (t, fire_destroy (due w) f o)

run_timers_at :
    (w : World) (s : State)
    → w.sock.state ≡ s
    → w.freed ≡ false
    → is_over s ≡ true
    → Phase s false w.timers (closes w.log)
    → Released (run_timers w)
run_timers_at w offline e f _ (t, n) = (_, run_free w f t, refl, n, refl)
run_timers_at w shutdown e f _ (t, n) = (
  _,
  run_destroy w f (ap is_offline e) t,
  refl,
  closes-close_open (due w) ∙ ap suc n,
  (close_open-fields (due w)).2,
)
run_timers_at w online e f o h = absurd (ground arith)
run_timers_at w progress e f o h = absurd (ground arith)
run_timers_at w pending e f o h = absurd (ground arith)

-- the timers that are due end a socket that is over
pub Over-Released : (r : Option World) → Over r → Released (r >>= run_timers)
Over-Released r (w', e, h', f', o) =
    subst⁻¹ Released (ap (λ r. r >>= run_timers) e)
      (run_timers_at w' w'.sock.state refl f' o (stage_alive w' h' f'))

-- In a sound world whose socket is still there, `APE_socket_shutdown_now` and then the timers that
-- are due run without touching freed memory; the descriptor is then closed exactly once, the
-- socket is freed and no timer is left.
pub shutdown_now-Released :
    (w : World) → IsSound w → w.freed ≡ false → Released (shutdown_now w >>= run_timers)
shutdown_now-Released w h f = Over-Released _ (shutdown_now-Over w h f)

-- In a sound world whose socket is still there, the end of `ape_socket_read`, when the peer has
-- closed the connection or reading has failed, and then the timers that are due run without
-- touching freed memory; the descriptor is then closed exactly once, the socket is freed and no
-- timer is left.
pub read_end-Released :
    (w : World) → IsSound w → w.freed ≡ false → Released (read_end w true >>= run_timers)
read_end-Released w h f = Over-Released _ (read_end-Over w h f)

-- a timer that finds its socket freed
fire_freed : (w : World) → w.freed ≡ true → fire destroy_socket w ≡ none
unfolding fire destroy_now close state_of
fire_freed w f = simp (f, if◌then◌else◌)

run_both :
    (w : World)
    → w.freed ≡ false
    → w.timers ≡ free_socket ∷ destroy_socket ∷ []
    → run_timers w ≡ none
unfolding run_timers fire_all
run_both w f t =
    simp (t, fire_free (due w) f, fire_freed (let d = due w in record d { freed = true }) refl)

-- `ape_socket_destroy` on a socket whose destruction is already a timer
destroy_twice :
    (w : World)
    → w.freed ≡ false
    → w.sock.state ≡ shutdown
    → w.timers ≡ destroy_socket ∷ []
    → (destroy w >>= run_timers) ≡ none
destroy_twice w f e t =
    let (_, f', t') = close_open-fields w in
    ap (λ r. r >>= run_timers) (destroy_run w f (ap is_offline e))
    ∙ run_both (defer (close_open w) free_socket) (f' ∙ f) (ap (λ ts. free_socket ∷ ts) (t' ∙ t))

pub shutdown_online_client :
    (w : World)
    → w.sock.state ≡ online
    → w.freed ≡ false
    → is_server w.sock.kind ≡ false
    → shutdown_now w ≡ some (defer (shut_down w) destroy_socket)
unfolding shutdown_now destroy_async
shutdown_online_client w e f k =
    let (s, f', _, _) = shut_down-fields w in
    simp (
      state_of_alive w f,
      e,
      if◌then◌else◌,
      shutdown_online_run w e f,
      k,
      state_of_alive (shut_down w) (f' ∙ f),
      s,
    )

-- After `APE_socket_shutdown_now` on an online socket that is no server and has nothing pending,
-- `ape_socket_destroy`, which looks at the offline state only, makes a second timer, and the timers
-- that are due touch the memory of the socket after it has been freed.
pub shutdown_now-destroy_fault :
    (w : World)
    → w.freed ≡ false
    → w.sock.state ≡ online
    → is_server w.sock.kind ≡ false
    → w.timers ≡ []
    → (do w₁ ← shutdown_now w; w₂ ← destroy w₁; run_timers w₂) ≡ none
shutdown_now-destroy_fault w f e k t =
    let (s, f', t', _) = shut_down-fields w in
    ap (λ r. r >>= λ w₁. destroy w₁ >>= run_timers) (shutdown_online_client w e f k)
    ∙ destroy_twice (defer (shut_down w) destroy_socket) (f' ∙ f) s
        (ap (λ ts. destroy_socket ∷ ts) (t' ∙ t))

-- the timers that find nothing to do
run_none : (w : World) → w.timers ≡ [] → run_timers w ≡ some (due w)
unfolding run_timers fire_all
run_none w t = simp t refl

-- The timers that are due leave a sound world.
abbrev Settled : World → Type 0
Settled w = (w' : World) × (run_timers w ≡ some w') × IsSound w'

Settled-Phase :
    (w : World) (s : State) (f : Bool)
    → w.sock.state ≡ s
    → w.freed ≡ f
    → Phase s f w.timers (closes w.log)
    → Settled w
Settled-Phase w online false e f (t, n) = (due w, run_none w t, phase e f refl refl (refl, n))
Settled-Phase w progress false e f (t, n) = (due w, run_none w t, phase e f refl refl (refl, n))
Settled-Phase w pending false e f (t, n) = (due w, run_none w t, phase e f refl refl (refl, n))
Settled-Phase w offline true e f (t, n) = (due w, run_none w t, phase e f refl refl (refl, n))
Settled-Phase w offline false e f (t, n) =
    (_, run_free w f t, phase {s' = offline} {f' = true} e refl refl refl (refl, n))
Settled-Phase w shutdown false e f (t, n) =
    let (s, f', t') = close_open-fields (due w) in
    (
      _,
      run_destroy w f (ap is_offline e) t,
      phase {s' = offline} {f' = true} s refl t' (closes-close_open (due w) ∙ ap suc n)
          (refl, refl),
    )
Settled-Phase w online true e f h = elim h [ ]
Settled-Phase w progress true e f h = elim h [ ]
Settled-Phase w pending true e f h = elim h [ ]
Settled-Phase w shutdown true e f h = elim h [ ]

pub run_timers-IsSound :
    (w : World) → IsSound w → (w' : World) × (run_timers w ≡ some w') × IsSound w'
run_timers-IsSound w h = Settled-Phase w w.sock.state w.freed refl refl h
