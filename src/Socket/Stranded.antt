-- ===== src/Socket/Stranded.antt =====
-- What `APE_socket_listen` and `APE_socket_connect` leave to the calls that follow them.
use zape.Base.{
  ℕ, suc, ◌≡◌, refl, ap, ◌∙◌, Bool, true, false, not, ◌||◌, ◌&&◌, none, some, [], ◌∷◌, ◌==◌,
  if◌then◌else◌,
}
use zape.Base.Fault.{◌>>=◌}
use zape.Socket.Types.{
  online, server, client, call_connected, destroy_socket, World, emit, closed, watched, is_offline,
  is_udp, is_server,
}
use zape.Socket.Close.{
  set_state, destroy, close_open, defer, shut_down, shutdown_now, run_timers, fire_all, fire,
  call_back,
}
use zape.Socket.Lifecycle.{
  IsSound, closes, phase, state_of_alive, destroy_run, closes-close_open, shut_down-fields,
}
use zape.Socket.Release.{Released, shutdown_now-Released, fire_destroy, shutdown_online_client}
use zape.Socket.Open.{
  is_unix, is_stream, set_kind, set_dns, listen, opened, Try, start_client, connect,
}
use zape.Socket.Opening.{Fresh, set_dns-Fresh, ready_opened, ready_unbound, outcome, start}
use zape.Socket.Attempts.{Unbindable, attempt-Unbindable}
use zape.Socket.Connecting.{connect_at_once}

-- whether `bind` or `listen` has refused
abbrev pub is_refused : World → (bound listening : Bool) → Bool
is_refused w bound listening = not bound || (is_stream w.sock.proto && not listening)

module _ (port : ℕ) (bound listening : Bool) (w : World) (h : Fresh w) where
  abbrev served : World
  served = emit (set_state (set_kind w server) online) watched

  listen_refused :
      port == 0 ≡ false
      → is_refused w bound listening ≡ true
      → listen port bound listening w ≡ some (emit w closed, false)
  unfolding listen
  listen_refused e r = simp (state_of_alive w h.there, e, r, if◌then◌else◌)

  listen_granted :
      port == 0 ≡ false
      → is_refused w bound listening ≡ false
      → listen port bound listening w ≡ some (served, true)
  unfolding listen
  listen_granted e r = simp (state_of_alive w h.there, e, r, if◌then◌else◌)

  served-IsSound : IsSound served × (served.freed ≡ false)
  unfolding set_state set_kind
  served-IsSound = (phase {s = online} refl h.there h.idle h.untouched (refl, refl), h.there)

  -- When `bind` and, for TCP and TLS, `listen` succeed, a socket that has not begun listens, and
  -- `APE_socket_shutdown_now` with the timers that are due then ends it: the descriptor is closed exactly
  -- once, the socket is freed and no timer is left.
  pub listen-Released :
      port == 0 ≡ false
      → is_refused w bound listening ≡ false
      → (w' : World) × (listen port bound listening w ≡ some (w', true))
        × Released (shutdown_now w' >>= run_timers)
  listen-Released e r =
      let (sound, there) = served-IsSound in
      (served, listen_granted e r, shutdown_now-Released served sound there)

  -- On a socket that has not begun, `APE_socket_listen` with a port that is not 0 and that `bind` or `listen` refuses
  -- closes the descriptor and leaves the socket to be destroyed, and `ape_socket_destroy`
  -- then closes the descriptor again.
  pub listen-destroy_twice :
      port == 0 ≡ false
      → is_refused w bound listening ≡ true
      → (w' : World) × ((listen port bound listening w >>= λ p. destroy p.0) ≡ some w')
        × (closes w'.log ≡ 2)
  listen-destroy_twice e r = (
    _,
    ap (λ o. o >>= λ p. destroy p.0) (listen_refused e r)
        ∙ destroy_run (emit w closed) h.there (ap is_offline h.at_rest),
    closes-close_open (emit w closed) ∙ ap (λ n. suc (suc n)) h.untouched,
  )

fire_late : (w : World) → w.freed ≡ true → fire call_connected w ≡ none
unfolding fire call_back
fire_late w f = simp (f, if◌then◌else◌)

-- the timer of `ape_socket_connected` behind the one that frees the socket
run_late :
    (w : World)
    → w.freed ≡ false
    → is_offline w.sock.state ≡ false
    → w.timers ≡ destroy_socket ∷ call_connected ∷ []
    → run_timers w ≡ none
unfolding run_timers fire_all
run_late w f o t = simp (
  t,
  fire_destroy (record w { timers = [] }) f o,
  fire_late (let c = close_open (record w { timers = [] }) in record c { freed = true }) refl,
)

closing :
    (w : World)
    → w.sock.state ≡ online
    → w.freed ≡ false
    → is_server w.sock.kind ≡ false
    → w.timers ≡ call_connected ∷ []
    → (shutdown_now w >>= run_timers) ≡ none
closing w e f k t =
    let (s, f', t', _) = shut_down-fields w in
    ap (λ r. r >>= run_timers) (shutdown_online_client w e f k)
    ∙ run_late (defer (shut_down w) destroy_socket) (f' ∙ f) (ap is_offline s)
        (ap (λ ts. destroy_socket ∷ ts) (t' ∙ t))

module _ (local_port : ℕ) (binds : ℕ → Bool) (connects : ℕ → Try) (port : ℕ) (w : World)
    (h : Fresh w) (some_port : port == 0 ≡ false) (named : is_unix w.sock.proto ≡ false) where
  -- If `bind` fails on a local port in one of the first ten tries, after tries in which it succeeded and `connect`
  -- ended with `EADDRNOTAVAIL`, and the address is known at once, `APE_socket_connect` with a port that is
  -- not 0, on a socket that has not begun and has no path of Unix, returns 0, and the socket is as
  -- before, without a question: it is not connecting, not destroyed, and not handed to the event loop.
  pub connect_unbound :
      Unbindable local_port binds connects
      → (connect local_port binds connects port (some true) w ≡ some (set_dns w false, true))
        × Fresh (set_dns w false)
        × ((set_dns w false).log ≡ w.log)
        × ((set_dns w false).sock.kind ≡ w.sock.kind)
  unfolding set_dns
  connect_unbound taken =
      let o = attempt-Unbindable local_port binds connects taken in
      let run =
        connect_at_once local_port binds connects port w h true false (set_dns w false) some_port
          named (ready_unbound local_port binds connects w h.there o) h.there in
      (
        run ∙ ap (λ s. some (set_dns w false, not (is_offline s))) h.at_rest,
        set_dns-Fresh w false h,
        refl,
        refl,
      )

  abbrev joined : World
  joined = record (emit (set_state (set_kind (set_dns w false) client) online) watched) {
    timers = call_connected ∷ w.timers;
  }

  start_udp :
      is_udp w.sock.proto ≡ true → start local_port binds connects (set_dns w false) ≡ joined
  unfolding start_client set_dns set_state set_kind
  start_udp u = simp (u, if◌then◌else◌)

  joined-fields :
      ((set_dns joined false).sock.state ≡ online)
      × (joined.freed ≡ false)
      × ((set_dns joined false).freed ≡ false)
      × (is_server (set_dns joined false).sock.kind ≡ false)
      × ((set_dns joined false).timers ≡ call_connected ∷ [])
  unfolding set_dns set_state set_kind
  joined-fields = (refl, h.there, h.there, refl, ap (λ ts. call_connected ∷ ts) h.idle)

  -- When a socket of UDP that has not begun has been connected to a port that is not 0 at an address that is known at once, which
  -- makes a timer for `ape_socket_connected`, and `APE_socket_shutdown_now` comes before the timers
  -- run, the socket is freed first, and then `ape_socket_connected` touches its memory.
  pub connect-shutdown_now_fault :
      is_udp w.sock.proto ≡ true
      → outcome local_port binds connects ≡ opened
      → (do
        (w₁, r) ← connect local_port binds connects port (some true) w
        w₂ ← shutdown_now w₁
        run_timers w₂)
        ≡ none
  connect-shutdown_now_fault u o =
      let (e, f₀, f, k, t) = joined-fields in
      ap (λ x. x >>= λ p. shutdown_now p.0 >>= run_timers)
        (connect_at_once local_port binds connects port w h true true joined some_port named
          (ready_opened local_port binds connects w h.there o
            ∙ ap (λ v. some (v, true)) (start_udp u))
          f₀)
      ∙ closing (set_dns joined false) e f k t
