-- ===== src/Socket/Lifecycle.antt =====
-- A socket is closed once and freed once, whatever ends it.
use zape.Base.{
  ℕ, suc, ◌≡◌, refl, sym, ap, ◌∙◌, ◌||◌, Bool, true, false, Option, some, List, [], ◌∷◌, arith,
  if◌then◌else◌,
}
use mathlib.Core.Path.{transport⁻¹, subst⁻¹}
use zape.Socket.Types.{
  State, online, progress, pending, offline, shutdown, Event, closed, Deferred, free_socket,
  destroy_socket, World, is_offline, is_shutdown, is_server,
}
use zape.Socket.Close.{
  read_end, state_of, close_open, close, shut_down, defer, destroy, destroy_async, shutdown_online,
  shutdown_now,
}

-- how often the descriptor has been closed
abbrev pub closes : List Event → ℕ
closes [] = 0
closes (closed ∷ log) = suc (closes log)
closes (e ∷ log) = closes log

-- what a socket in a state, freed or not, has pending, and how often it has been closed
abbrev pub Phase : State → Bool → List Deferred → ℕ → Type 0
Phase offline true ts n = (ts ≡ []) × (n ≡ 1)
Phase offline false ts n = (ts ≡ free_socket ∷ []) × (n ≡ 1)
Phase shutdown false ts n = (ts ≡ destroy_socket ∷ []) × (n ≡ 0)
Phase _ false ts n = (ts ≡ []) × (n ≡ 0)
Phase _ true ts n = ⊥

abbrev pub IsSound : World → Type 0
IsSound w = Phase w.sock.state w.freed w.timers (closes w.log)

-- a phase is one of values, wherever they come from
pub phase :
    {s s' : State} {f f' : Bool} {ts ts' : List Deferred} {n n' : ℕ}
    → s ≡ s'
    → f ≡ f'
    → ts ≡ ts'
    → n ≡ n'
    → Phase s' f' ts' n'
    → Phase s f ts n
phase p q r t = transport⁻¹ λ i. Phase (p i) (q i) (r i) (t i)

pub closes-close_open : (w : World) → closes (close_open w).log ≡ suc (closes w.log)
unfolding close_open
closes-close_open w = ground arith

pub close_open-fields :
    (w : World)
    → ((close_open w).sock.state ≡ offline)
      × ((close_open w).freed ≡ w.freed)
      × ((close_open w).timers ≡ w.timers)
unfolding close_open
close_open-fields w = ground arith

pub shut_down-fields :
    (w : World)
    → ((shut_down w).sock.state ≡ shutdown)
      × ((shut_down w).freed ≡ w.freed)
      × ((shut_down w).timers ≡ w.timers)
      × (closes (shut_down w).log ≡ closes w.log)
unfolding shut_down
shut_down-fields w = ground arith

-- offline or shut down
abbrev pub is_over : State → Bool
is_over s = is_offline s || is_shutdown s

-- the run ends, in a sound world whose socket is still there, offline or shut down
abbrev pub Over : Option World → Type 0
Over r = (w : World) × (r ≡ some w) × IsSound w × (w.freed ≡ false) × (is_over w.sock.state ≡ true)

pub state_of_alive : (w : World) → w.freed ≡ false → state_of w ≡ some w.sock.state
unfolding state_of
state_of_alive w e = simp (e, if◌then◌else◌)

pub close_run :
    (w : World)
    → w.freed ≡ false
    → is_offline w.sock.state ≡ false
    → close w ≡ some (close_open w, true)
unfolding close
close_run w e o = simp (state_of_alive w e, o, if◌then◌else◌)

pub destroy_run :
    (w : World)
    → w.freed ≡ false
    → is_offline w.sock.state ≡ false
    → destroy w ≡ some (defer (close_open w) free_socket)
unfolding destroy
destroy_run w f o = simp (close_run w f o, if◌then◌else◌)

pub destroyed-IsSound :
    (w : World)
    → w.freed ≡ false
    → w.timers ≡ []
    → closes w.log ≡ 0
    → IsSound (defer (close_open w) free_socket)
destroyed-IsSound w f t n =
    let (s, f', t') = close_open-fields w in
    phase s (f' ∙ f) (ap (λ ts. free_socket ∷ ts) (t' ∙ t)) (closes-close_open w ∙ ap suc n)
      (refl, refl)

pub destroy-Over :
    (w : World)
    → w.freed ≡ false
    → w.timers ≡ []
    → closes w.log ≡ 0
    → is_offline w.sock.state ≡ false
    → Over (destroy w)
destroy-Over w f t n o =
    let (s, f', t') = close_open-fields w in
    (
      defer (close_open w) free_socket,
      destroy_run w f o,
      destroyed-IsSound w f t n,
      f' ∙ f,
      ap is_over s,
    )

destroy_async-Over :
    (w : World)
    → w.sock.state ≡ shutdown
    → w.freed ≡ false
    → w.timers ≡ []
    → closes w.log ≡ 0
    → Over (destroy_async w)
unfolding destroy_async
destroy_async-Over w e f t n = (
  defer w destroy_socket,
  simp (state_of_alive w f, e, if◌then◌else◌),
  phase e f (ap (λ ts. destroy_socket ∷ ts) t) n (refl, refl),
  f,
  ap is_over e,
)

if-Over : (b : Bool) (x y : Option World) → Over x → Over y → Over (if b then x else y)
if-Over true x y h k = h
if-Over false x y h k = k

-- an online socket's `ape_shutdown` is the end for its kind
pub shutdown_online_run :
    (w : World)
    → w.sock.state ≡ online
    → w.freed ≡ false
    → shutdown_online w
      ≡ (if is_server w.sock.kind then destroy (shut_down w) else destroy_async (shut_down w))
unfolding shutdown_online
shutdown_online_run w e f = simp (state_of_alive w f, e, if◌then◌else◌)

shutdown_online-Over :
    (w : World)
    → w.sock.state ≡ online
    → w.freed ≡ false
    → w.timers ≡ []
    → closes w.log ≡ 0
    → Over (shutdown_online w)
shutdown_online-Over w e f t n =
    let (s, f', t', n') = shut_down-fields w in
    subst⁻¹ Over (shutdown_online_run w e f) (
      if-Over (is_server w.sock.kind) _ _
        (destroy-Over (shut_down w) (f' ∙ f) (t' ∙ t) (n' ∙ n) (ap is_offline s))
        (destroy_async-Over (shut_down w) s (f' ∙ f) (t' ∙ t) (n' ∙ n)))

shutdown_now_at :
    (w : World) (s : State)
    → w.sock.state ≡ s
    → w.freed ≡ false
    → Phase s false w.timers (closes w.log)
    → Over (shutdown_now w)
unfolding shutdown_now
shutdown_now_at w online e f (t, n) =
    subst⁻¹ Over (simp (state_of_alive w f, e, if◌then◌else◌)) (shutdown_online-Over w e f t n)
shutdown_now_at w progress e f (t, n) =
    subst⁻¹ Over (simp (state_of_alive w f, e, if◌then◌else◌))
      (destroy-Over w f t n (ap is_offline e))
shutdown_now_at w pending e f (t, n) =
    subst⁻¹ Over (simp (state_of_alive w f, e, if◌then◌else◌))
      (destroy-Over w f t n (ap is_offline e))
shutdown_now_at w offline e f h =
    subst⁻¹ Over (simp (state_of_alive w f, e, if◌then◌else◌))
      (w, refl, phase e f refl refl h, f, ap is_over e)
shutdown_now_at w shutdown e f h =
    subst⁻¹ Over (simp (state_of_alive w f, e, if◌then◌else◌))
      (w, refl, phase e f refl refl h, f, ap is_over e)

-- the phase of a socket that is still there
pub stage_alive :
    (w : World) → IsSound w → w.freed ≡ false → Phase w.sock.state false w.timers (closes w.log)
stage_alive w h f = phase refl (sym f) refl refl h

-- In a sound world whose socket is still there, `APE_socket_shutdown_now` runs without touching
-- freed memory and leaves such a world, in which the socket is offline or shut down.
pub shutdown_now-Over : (w : World) → IsSound w → w.freed ≡ false → Over (shutdown_now w)
shutdown_now-Over w h f = shutdown_now_at w w.sock.state refl f (stage_alive w h f)

destroy_offline :
    (w : World) → w.freed ≡ false → is_offline w.sock.state ≡ true → destroy w ≡ some w
unfolding destroy close
destroy_offline w f e = simp (state_of_alive w f, e, if◌then◌else◌)

read_end_at :
    (w : World) (s : State)
    → w.sock.state ≡ s
    → w.freed ≡ false
    → Phase s false w.timers (closes w.log)
    → Over (read_end w true)
unfolding read_end
read_end_at w online e f (t, n) =
    subst⁻¹ Over (simp (state_of_alive w f, e, if◌then◌else◌))
      (destroy-Over w f t n (ap is_offline e))
read_end_at w progress e f (t, n) =
    subst⁻¹ Over (simp (state_of_alive w f, e, if◌then◌else◌))
      (destroy-Over w f t n (ap is_offline e))
read_end_at w pending e f (t, n) =
    subst⁻¹ Over (simp (state_of_alive w f, e, if◌then◌else◌))
      (destroy-Over w f t n (ap is_offline e))
read_end_at w offline e f h =
    subst⁻¹ Over
      (simp (state_of_alive w f, e, if◌then◌else◌, destroy_offline w f (ap is_offline e)))
      (w, refl, phase e f refl refl h, f, ap is_over e)
read_end_at w shutdown e f h =
    subst⁻¹ Over (simp (state_of_alive w f, e, if◌then◌else◌))
      (w, refl, phase e f refl refl h, f, ap is_over e)

-- In a sound world whose socket is still there, the end of `ape_socket_read`, when the peer has
-- closed the connection or reading has failed, runs without touching freed memory and leaves
-- such a world, in which the socket is offline or shut down.
pub read_end-Over : (w : World) → IsSound w → w.freed ≡ false → Over (read_end w true)
read_end-Over w h f = read_end_at w w.sock.state refl f (stage_alive w h f)
