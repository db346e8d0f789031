-- ===== src/Socket/Connecting.antt =====
-- `APE_socket_connect` and `APE_socket_listen` against the life of a socket.
use zape.Base.{
  ℕ, ◌≡◌, refl, ap, ◌∙◌, ◌⊎◌, inl, inr, Bool, true, false, not, Option, none, some, ◌==◌,
  if◌then◌else◌, Bool-cases,
}
use zape.Socket.Types.{World, is_offline, is_udp}
use zape.Socket.Close.{destroy}
use zape.Socket.Lifecycle.{state_of_alive}
use zape.Socket.Open.{is_unix, set_dns, Try, connect}
use zape.Socket.Opening.{
  Fresh, set_dns-Fresh, set_dns-proto, set_dns-kind, set_dns-set_dns, Ended, destroy-Ended, ready,
  Started, Tried, ready-Tried,
}
use zape.Socket.Attempts.{GetsThrough, Unbindable, Rejected}

module _ (local_port : ℕ) (binds : ℕ → Bool) (connects : ℕ → Try) where
  -- the address is that of a path, or it is known within the call
  abbrev pub Answered : World → (at_once : Option Bool) → Type 0
  Answered w at_once = (is_unix w.sock.proto ≡ true) ⊎ (at_once ≡ some true)

  -- How `APE_socket_connect` leaves a socket that is not of UDP, and why: under way; waiting for its address;
  -- as it was, without a local address; or destroyed.
  abbrev pub Connected :
      (port : ℕ) → (w : World) → (at_once : Option Bool) → (w' : World) → Bool → Type 0
  Connected port w at_once w' r =
      (Started local_port binds connects w w'
        × (r ≡ true)
        × (port == 0 ≡ false)
        × Answered w at_once
        × GetsThrough local_port binds connects)
      ⊎ ((w' ≡ set_dns w true)
          × (r ≡ true)
          × (port == 0 ≡ false)
          × (is_unix w.sock.proto ≡ false)
          × (at_once ≡ none))
      ⊎ ((w' ≡ set_dns w false)
          × (port == 0 ≡ false)
          × Answered w at_once
          × Unbindable local_port binds connects)
      ⊎ (Ended w'
          × (w'.sock.kind ≡ w.sock.kind)
          × (r ≡ false)
          × ((port == 0 ≡ true)
              ⊎ (at_once ≡ some false)
              ⊎ (Answered w at_once × Rejected local_port binds connects)))

  module _ (port : ℕ) (w : World) (h : Fresh w) where
    connect_no_port :
        (at_once : Option Bool) (w' : World)
        → port == 0 ≡ true
        → destroy w ≡ some w'
        → connect local_port binds connects port at_once w ≡ some (w', false)
    unfolding connect
    connect_no_port at_once w' e run = simp (state_of_alive w h.there, e, run, if◌then◌else◌)

    connect_unix :
        (at_once : Option Bool)
        → port == 0 ≡ false
        → is_unix w.sock.proto ≡ true
        → connect local_port binds connects port at_once w
          ≡ ready local_port binds connects true (set_dns w false)
    unfolding connect
    connect_unix at_once e u = simp (state_of_alive w h.there, e, u, if◌then◌else◌)

    connect_waiting :
        port == 0 ≡ false
        → is_unix w.sock.proto ≡ false
        → connect local_port binds connects port none w ≡ some (set_dns w true, true)
    unfolding connect
    connect_waiting e u = simp (state_of_alive w h.there, e, u, if◌then◌else◌)

    pub connect_at_once :
        (resolved r : Bool) (w' : World)
        → port == 0 ≡ false
        → is_unix w.sock.proto ≡ false
        → ready local_port binds connects resolved w ≡ some (w', r)
        → w'.freed ≡ false
        → connect local_port binds connects port (some resolved) w
          ≡ some (set_dns w' false, not (is_offline w'.sock.state))
    unfolding connect
    connect_at_once resolved r w' e u run f =
        rw (state_of_alive w h.there, e, u, run, state_of_alive w' f) refl

  set_dns-Started :
      (w w' : World)
      → Started local_port binds connects w w'
      → Started local_port binds connects w (set_dns w' false)
  unfolding set_dns
  set_dns-Started w w' g = g

  from_dns-Started :
      (w w' : World)
      → Started local_port binds connects (set_dns w false) w'
      → Started local_port binds connects w w'
  unfolding set_dns
  from_dns-Started w w' g = g

  set_dns-Ended : (w : World) → Ended w → Ended (set_dns w false)
  unfolding set_dns
  set_dns-Ended w g = g

  Tried-there :
      (w w' : World) (resolved r : Bool)
      → Fresh w
      → Tried local_port binds connects w resolved w' r
      → w'.freed ≡ false
  Tried-there w w' resolved r h (inl (g, e, o, m)) = g.5
  Tried-there w w' resolved r h (inr (inl (g, e, o, m))) =
      ap (λ v. v.freed) g ∙ (set_dns-Fresh w false h).there
  Tried-there w w' resolved r h (inr (inr (g, k, e, m))) = g.2

  -- after an answer within the call
  at_once-Connected :
      (port : ℕ) (w w' : World) (resolved r : Bool)
      → Fresh w
      → port == 0 ≡ false
      → Tried local_port binds connects w resolved w' r
      → Connected port w (some resolved) (set_dns w' false) (not (is_offline w'.sock.state))
  at_once-Connected port w w' resolved r h p (inl (g, e, o, m)) =
      inl (set_dns-Started w w' g, ap (λ s. not (is_offline s)) g.0, p, inr (ap some o), m)
  at_once-Connected port w w' resolved r h p (inr (inl (g, e, o, m))) = inr (
      inr
        (inl (ap (λ v. set_dns v false) g ∙ set_dns-set_dns w false false, p, inr (ap some o), m)))
  at_once-Connected port w w' false r h p (inr (inr (g, k, e, m))) = inr (
      inr (
        inr (
          set_dns-Ended w' g,
          set_dns-kind w' false ∙ k,
          ap (λ s. not (is_offline s)) g.0,
          inr (inl refl),
        )))
  at_once-Connected port w w' true r h p (inr (inr (g, k, e, inl never))) = absurd (cc)
  at_once-Connected port w w' true r h p (inr (inr (g, k, e, inr m))) = inr (
      inr (
        inr (
          set_dns-Ended w' g,
          set_dns-kind w' false ∙ k,
          ap (λ s. not (is_offline s)) g.0,
          inr (inr (inr refl, m)),
        )))

  unix-Connected :
      (port : ℕ) (w w' : World) (at_once : Option Bool) (r : Bool)
      → port == 0 ≡ false
      → is_unix w.sock.proto ≡ true
      → Tried local_port binds connects (set_dns w false) true w' r
      → Connected port w at_once w' r
  unix-Connected port w w' at_once r p x (inl (g, e, o, m)) =
      inl (from_dns-Started w w' g, e, p, inl x, m)
  unix-Connected port w w' at_once r p x (inr (inl (g, e, o, m))) =
      inr (inr (inl (g ∙ set_dns-set_dns w false false, p, inl x, m)))
  unix-Connected port w w' at_once r p x (inr (inr (g, k, e, inl never))) = absurd (cc)
  unix-Connected port w w' at_once r p x (inr (inr (g, k, e, inr m))) =
      inr (inr (inr (g, k ∙ set_dns-kind w false, e, inr (inr (inl x, m)))))

  named :
      (port : ℕ) (at_once : Option Bool) (w : World)
      → Fresh w
      → is_udp w.sock.proto ≡ false
      → port == 0 ≡ false
      → is_unix w.sock.proto ≡ false
      → (w' : World) × (r : Bool) × (connect local_port binds connects port at_once w
          ≡ some (w', r))
        × Connected port w at_once w' r
  named port none w h u e x =
      (set_dns w true, true, connect_waiting port w h e x, inr (inl (refl, refl, e, x, refl)))
  named port (some resolved) w h u e x =
      let (w', r, run, t) = ready-Tried local_port binds connects resolved w h u in
      (
        set_dns w' false,
        not (is_offline w'.sock.state),
        connect_at_once port w h resolved r w' e x run (Tried-there w w' resolved r h t),
        at_once-Connected port w w' resolved r h e t,
      )

  -- On a socket that has not begun and is not of UDP, `APE_socket_connect` runs without touching freed
  -- memory, whatever the system and c-ares answer, and it ends in one of four ways. If the port is not 0,
  -- the address is known and one of at most ten tries gets through, the socket is a client under way,
  -- registered with the event loop once, in a sound world. If c-ares has not answered, the socket is as before
  -- and holds the question. If the address is known and `bind` fails on the local port after tries that ended
  -- with `EADDRNOTAVAIL`, the socket is as before, with no question. And if the port is 0, the name is not
  -- found, or `connect` is refused or ends with `EADDRNOTAVAIL` ten times, the socket
  -- has been destroyed, in a sound world, and the call returns -1; its type is as before.
  pub connect-Connected :
      (port : ℕ) (at_once : Option Bool) (w : World)
      → Fresh w
      → is_udp w.sock.proto ≡ false
      → (w' : World) × (r : Bool) × (connect local_port binds connects port at_once w
          ≡ some (w', r))
        × Connected port w at_once w' r
  connect-Connected port at_once w h u = elim (Bool-cases (port == 0)) [
    | inl e ↦
        let (w', run, ended, kind) = destroy-Ended w h in
        (
          w',
          false,
          connect_no_port port w h at_once w' e run,
          inr (inr (inr (ended, kind, refl, inl e))),
        )
    | inr e ↦ elim (Bool-cases (is_unix w.sock.proto)) [
      | inl x ↦
          let (w', r, run, t) =
            ready-Tried local_port binds connects true (set_dns w false) (set_dns-Fresh w false h)
              (ap is_udp (set_dns-proto w false) ∙ u) in
          (w', r, connect_unix port w h at_once e x ∙ run, unix-Connected port w w' at_once r e x t)
      | inr x ↦ named port at_once w h u e x
    ]
  ]
