-- ===== src/Socket/Opening.antt =====
-- `ape_socket_connect_ready_to_connect` against the life of a socket.
use mathlib.Core.Path.{subst⁻¹}
use zape.Base.{
  ℕ, ◌≡◌, refl, ap, ◌∙◌, ◌⊎◌, inl, inr, Bool, true, false, Option, some, [], ◌∷◌, arith,
  if◌then◌else◌,
}
use zape.Socket.Types.{
  progress, pending, offline, client, free_socket, World, emit, watched, is_offline, is_udp,
}
use zape.Socket.Close.{set_state, destroy, close_open, defer}
use zape.Socket.Lifecycle.{
  IsSound, closes, phase, state_of_alive, destroy_run, destroyed-IsSound, close_open-fields,
}
use zape.Socket.Open.{
  set_kind, set_dns, Outcome, opened, unbound, failed, Try, attempt, start_client, ready_to_connect,
}
use zape.Socket.Attempts.{Means, GetsThrough, Unbindable, Rejected, attempt_lem}

-- a sound world whose socket is still there and has not begun
pub record Fresh (w : World) : Type 0 where
  pub at_rest : w.sock.state ≡ pending
  pub there : w.freed ≡ false
  pub idle : w.timers ≡ []
  pub untouched : closes w.log ≡ 0

pub Fresh-IsSound : (w : World) → Fresh w → IsSound w
Fresh-IsSound w h = phase h.at_rest h.there h.idle h.untouched (refl, refl)

pub set_dns-Fresh : (w : World) (d : Bool) → Fresh w → Fresh (set_dns w d)
unfolding set_dns
set_dns-Fresh w d h = record {
  at_rest = h.at_rest;
  there = h.there;
  idle = h.idle;
  untouched = h.untouched;
}

pub set_dns-proto : (w : World) (d : Bool) → (set_dns w d).sock.proto ≡ w.sock.proto
unfolding set_dns
set_dns-proto w d = refl

pub set_dns-has_dns : (w : World) (d : Bool) → (set_dns w d).sock.has_dns ≡ d
unfolding set_dns
set_dns-has_dns w d = refl

pub set_dns-kind : (w : World) (d : Bool) → (set_dns w d).sock.kind ≡ w.sock.kind
unfolding set_dns
set_dns-kind w d = refl

pub set_dns-set_dns : (w : World) (d e : Bool) → set_dns (set_dns w d) e ≡ set_dns w e
unfolding set_dns
set_dns-set_dns w d e = refl

-- the socket has been destroyed, in a sound world
abbrev pub Ended : World → Type 0
Ended w = (w.sock.state ≡ offline) × IsSound w × (w.freed ≡ false)

close_open-kind : (w : World) → (close_open w).sock.kind ≡ w.sock.kind
unfolding close_open
close_open-kind w = ground arith

pub destroy-Ended :
    (w : World)
    → Fresh w
    → (w' : World) × (destroy w ≡ some w') × Ended w' × (w'.sock.kind ≡ w.sock.kind)
destroy-Ended w h =
    let (s, f, t) = close_open-fields w in
    (
      defer (close_open w) free_socket,
      destroy_run w h.there (ap is_offline h.at_rest),
      (s, destroyed-IsSound w h.there h.idle h.untouched, f ∙ h.there),
      close_open-kind w,
    )

module _ (local_port : ℕ) (binds : ℕ → Bool) (connects : ℕ → Try) where
  abbrev pub ready : Bool → World → Option (World × Bool)
  ready = ready_to_connect local_port binds connects

  abbrev pub outcome : Outcome
  outcome = attempt local_port binds connects 10 0

  abbrev pub start : World → World
  start = start_client local_port binds connects

  -- From `w` the socket has become a client under way, registered with the event loop, in a sound world.
  abbrev pub Started : (w w' : World) → Type 0
  Started w w' =
      (w'.sock.state ≡ progress)
      × (w'.sock.kind ≡ client)
      × (w'.log ≡ watched ∷ w.log)
      × (w'.sock.jobs ≡ w.sock.jobs)
      × IsSound w'
      × (w'.freed ≡ false)

  abbrev under_way_world : World → World
  under_way_world w = emit (set_state (set_kind (set_dns w false) client) progress) watched

  start_run :
      (w : World) → is_udp w.sock.proto ≡ false → start (set_dns w false) ≡ under_way_world w
  unfolding start_client set_dns
  start_run w u = simp (u, if◌then◌else◌)

  under_way-Started : (w : World) → Fresh w → Started w (under_way_world w)
  unfolding set_state set_kind set_dns
  under_way-Started w h = (
    refl,
    refl,
    refl,
    refl,
    phase {s = progress} refl h.there h.idle h.untouched (refl, refl),
    h.there,
  )

  start-Started :
      (w : World) → Fresh w → is_udp w.sock.proto ≡ false → Started w (start (set_dns w false))
  start-Started w h u = subst⁻¹ (Started w) (start_run w u) (under_way-Started w h)

  -- how `ape_socket_connect_ready_to_connect` leaves a socket that is not of UDP
  abbrev pub Tried : (w : World) → (resolved : Bool) → (w' : World) → Bool → Type 0
  Tried w resolved w' r =
      (Started w w' × (r ≡ true) × (resolved ≡ true) × GetsThrough local_port binds connects)
      ⊎ ((w' ≡ set_dns w false)
          × (r ≡ false)
          × (resolved ≡ true)
          × Unbindable local_port binds connects)
      ⊎ (Ended w'
          × (w'.sock.kind ≡ w.sock.kind)
          × (r ≡ false)
          × ((resolved ≡ false) ⊎ Rejected local_port binds connects))

  ready_unresolved :
      (w w' : World)
      → w.freed ≡ false
      → destroy (set_dns w false) ≡ some w'
      → ready false w ≡ some (w', false)
  unfolding ready_to_connect
  ready_unresolved w w' f run = simp (state_of_alive w f, run, if◌then◌else◌)

  pub ready_opened :
      (w : World)
      → w.freed ≡ false
      → outcome ≡ opened
      → ready true w ≡ some (start (set_dns w false), true)
  unfolding ready_to_connect
  ready_opened w f o = simp (state_of_alive w f, o, if◌then◌else◌)

  pub ready_unbound :
      (w : World)
      → w.freed ≡ false
      → outcome ≡ unbound
      → ready true w ≡ some (set_dns w false, false)
  unfolding ready_to_connect
  ready_unbound w f o = simp (state_of_alive w f, o, if◌then◌else◌)

  ready_failed :
      (w w' : World)
      → w.freed ≡ false
      → outcome ≡ failed
      → destroy (set_dns w false) ≡ some w'
      → ready true w ≡ some (w', false)
  unfolding ready_to_connect
  ready_failed w w' f o run = rw (state_of_alive w f, o, run) refl

  ready_meant :
      (w : World)
      → Fresh w
      → is_udp w.sock.proto ≡ false
      → (o : Outcome) → outcome ≡ o
      → Means local_port binds connects o
      → (w' : World) × (r : Bool) × (ready true w ≡ some (w', r)) × Tried w true w' r
  ready_meant w h u opened o m = (
    start (set_dns w false),
    true,
    ready_opened w h.there o,
    inl (start-Started w h u, refl, refl, m),
  )
  ready_meant w h u unbound o m =
      (set_dns w false, false, ready_unbound w h.there o, inr (inl (refl, refl, refl, m)))
  ready_meant w h u failed o m =
      let (w', run, ended, kind) = destroy-Ended (set_dns w false) (set_dns-Fresh w false h) in
      (
        w',
        false,
        ready_failed w w' h.there o run,
        inr (inr (ended, kind ∙ set_dns-kind w false, refl, inr m)),
      )

  pub ready-Tried :
      (resolved : Bool) (w : World)
      → Fresh w
      → is_udp w.sock.proto ≡ false
      → (w' : World) × (r : Bool) × (ready resolved w ≡ some (w', r)) × Tried w resolved w' r
  ready-Tried false w h u =
      let (w', run, ended, kind) = destroy-Ended (set_dns w false) (set_dns-Fresh w false h) in
      (
        w',
        false,
        ready_unresolved w w' h.there run,
        inr (inr (ended, kind ∙ set_dns-kind w false, refl, inl refl)),
      )
  ready-Tried true w h u =
      let (o, run, means) = attempt_lem local_port binds connects in ready_meant w h u o run means
