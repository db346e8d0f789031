-- ===== src/Loop/Ended.antt =====
-- An event of a client's socket whose stream ends, and one of a connection under way.
use mathlib.Core.Path.{subst}
use zape.Base.{
  ℕ, ◌+◌, ◌*◌, ◌^◌, ◌<◌, ◌≡◌, refl, sym, ap, ◌∙◌, Bool, true, false, not, ◌&&◌, Option, some, ◌∷◌,
  length, if◌then◌else◌,
}
use zape.Buffer.State.{Buffer}
use zape.Buffer.Growth.{IsValid}
use zape.Socket.Types.{
  State, online, offline, shutdown, progress, pending, World, connected, is_online, is_offline,
  is_ssl, is_udp,
}
use zape.Socket.Close.{read_end, set_state, call_back, run_timers}
use zape.Socket.Lifecycle.{
  IsSound, Phase, closes, is_over, stage_alive, state_of_alive, destroy-Over, read_end-Over,
}
use zape.Socket.Release.{Released, Over-Released}
use zape.Socket.Read
use zape.Socket.Handing.{handed}
use zape.Socket.Reading.{received, stream_over, Fits, read-received}
use zape.Loop.Client.{
  Callbacks, System, is_progress, clear_block, read_side, settle_connection, write_side,
  client_event,
}

-- the socket as the reading half finds it
abbrev pub seen : (writable : Bool) → World → World
seen true w = clear_block w
seen false w = w

seen-fields :
    (writable : Bool) (w : World)
    → ((seen writable w).freed ≡ w.freed)
      × ((seen writable w).sock.state ≡ w.sock.state)
      × ((seen writable w).sock.proto ≡ w.sock.proto)
unfolding clear_block
seen-fields true w = (refl, refl, refl)
seen-fields false w = (refl, refl, refl)

seen_lem : (writable : Bool) (w : World) → (if writable then clear_block w else w) ≡ seen writable w
seen_lem true w = refl
seen_lem false w = refl

over_state : (s : State) → is_over s ≡ true → (is_online s ≡ false) × (is_progress s ≡ false)
over_state offline h = (refl, refl)
over_state shutdown h = (refl, refl)
over_state online h = absurd cc
over_state progress h = absurd cc
over_state pending h = absurd cc

module _ (junk : ℕ → ℕ) (calls : Callbacks) (system : System) where
  event_run :
      (readable writable : Bool) (w w₁ w₂ : World) (b b₁ : Buffer) (gone : Bool)
      → w.freed ≡ false
      → read_side junk calls system readable (seen writable w) b ≡ some (w₁, b₁, gone)
      → (if writable && not gone then write_side junk calls system w₁ else some w₁) ≡ some w₂
      → client_event junk calls system readable writable w b ≡ some (w₂, b₁)
  unfolding client_event
  event_run readable writable w w₁ w₂ b b₁ gone f e g =
      simp (state_of_alive w f, seen_lem writable w, e, g)

  write_side_over :
      (w : World)
      → w.freed ≡ false
      → is_over w.sock.state ≡ true
      → write_side junk calls system w ≡ some w
  unfolding write_side
  write_side_over w f o =
      let (on, going) = over_state w.sock.state o in
      simp (state_of_alive w f, on, going, if◌then◌else◌)

  write_side_progress :
      (w : World)
      → w.freed ≡ false
      → w.sock.state ≡ progress
      → write_side junk calls system w ≡ settle_connection junk calls system w
  unfolding write_side
  write_side_progress w f e = rw (state_of_alive w f ∙ ap some e) refl

  either :
      (c : Bool) (r : Option World) (w : World) → r ≡ some w → (if c then r else some w) ≡ some w
  either true r w e = e
  either false r w e = refl

  read_side_run :
      (v : World) (b : Buffer) (r : World × Buffer × Bool)
      → is_udp v.sock.proto ≡ false
      → Read.read junk calls.on_read system.reads v b ≡ some r
      → read_side junk calls system true v b ≡ some r
  unfolding read_side
  read_side_run v b r u e = simp (u, if◌then◌else◌) e

  -- An event of an online TCP client without TLS that is not freed, readable and perhaps writable, when the
  -- answers to `read` lead to the end of the stream or an error, and `data_in` is valid, empty, has room for each answer
  -- and keeps its size in a machine word: if `on_read`, which gets the bytes of all answers in one call once the
  -- socket has been unblocked for writing, returns and leaves a sound socket that is not freed, then
  -- the event runs, whatever `writev` answers, leaves `data_in` valid and empty and the socket in
  -- memory, offline or shut down, and the timers that are due close the descriptor, if that has not been done, so
  -- that it has been closed exactly once, and free the socket.
  pub client_event-Released :
      (writable : Bool) (w w₁ : World) (b : Buffer)
      → w.freed ≡ false
      → w.sock.state ≡ online
      → is_ssl w.sock.proto ≡ false
      → is_udp w.sock.proto ≡ false
      → IsValid b
      → b.used ≡ 0
      → b.size + 2049 * length system.reads < 2 ^ 64
      → Fits junk system.reads true b
      → stream_over system.reads ≡ true
      → handed calls.on_read (received system.reads) (seen writable w) ≡ some w₁
      → w₁.freed ≡ false
      → IsSound w₁
      → (w₂ : World) × (b' : Buffer) × (client_event junk calls system true writable w b
          ≡ some (w₂, b'))
        × IsValid b'
        × (b'.used ≡ 0)
        × (w₂.freed ≡ false)
        × (is_over w₂.sock.state ≡ true)
        × Released (run_timers w₂)
  client_event-Released writable w w₁ b f o p u v z small fits over call f₁ sound =
      let (vf, vo, vp) = seen-fields writable w in
      let (w₂, b', run, fin, v', z') =
        read-received junk calls.on_read system.reads (seen writable w) w₁ b (vf ∙ f) (vo ∙ o)
          (ap is_ssl vp ∙ p) v z small fits call f₁ sound in
      let (w₃, e, sound', f', o') = read_end-Over w₁ sound f₁ in
      let same : w₃ ≡ w₂ =
        let q : read_end w₁ true ≡ some w₂ = ap (λ t. read_end w₁ t) (sym over) ∙ fin in cc in
      let f₂ : w₂.freed ≡ false = ap (λ t. t.freed) (sym same) ∙ f' in
      let o₂ : is_over w₂.sock.state ≡ true = ap (λ t. is_over t.sock.state) (sym same) ∙ o' in
      (
        w₂,
        b',
        event_run true writable w w₂ w₂ b b' _ f
            (read_side_run (seen writable w) b _ (ap is_udp vp ∙ u) run)
            (either _ _ w₂ (write_side_over w₂ f₂ o₂)),
        v',
        z',
        f₂,
        o₂,
        Over-Released (some w₂) (w₂, refl, subst IsSound same sound', f₂, o₂),
      )

  read_waits :
      (readable : Bool) (v : World) (b : Buffer)
      → v.freed ≡ false
      → v.sock.state ≡ progress
      → is_udp v.sock.proto ≡ false
      → read_side junk calls system readable v b ≡ some (v, b, false)
  unfolding read_side Read.read
  read_waits false v b f e u = refl
  read_waits true v b f e u = simp (u, state_of_alive v f, e, if◌then◌else◌)

  -- how an attempt to connect ends
  abbrev pub Settled : (is_connected : Bool) → World → World → Type 0
  Settled true w w' = w' ≡ (
      let k = w.sock in
      record w { sock = record k { state = online; would_block = false }; log = connected ∷ w.log })
  Settled false w w' = (is_over w'.sock.state ≡ true) × Released (run_timers w')

  settle-Settled :
      (t : Bool) (w : World)
      → t ≡ system.is_connected
      → w.freed ≡ false
      → w.sock.state ≡ progress
      → IsSound w
      → (w' : World) × (settle_connection junk calls system (clear_block w) ≡ some w')
        × Settled t w w'
  unfolding settle_connection clear_block set_state call_back
  settle-Settled true w t f e h = (_, simp (sym t, f), refl)
  settle-Settled false w t f e h =
      let (ts, n) = subst (λ s. Phase s false w.timers (closes w.log)) e (stage_alive w h f) in
      let v = clear_block w in
      let (w', run, h', f', o) = destroy-Over v f ts n (ap is_offline e) in
      (w', simp (sym t) run, (o, Over-Released (some w') (w', refl, h', f', o)))

  -- An event of a sound client whose connection is under way, not of UDP, that is ready for writing and perhaps for
  -- reading: nothing is read, `data_in` is as before, and if `getsockopt` tells no error the socket is
  -- online, unblocked and `on_connected` is called once, with nothing else changed; otherwise it is offline
  -- or shut down, and the timers that are due leave it closed exactly once and freed.
  pub client_event-Settled :
      (readable : Bool) (w : World) (b : Buffer)
      → w.freed ≡ false
      → w.sock.state ≡ progress
      → is_udp w.sock.proto ≡ false
      → IsSound w
      → (w' : World) × (client_event junk calls system readable true w b ≡ some (w', b))
        × Settled system.is_connected w w'
  unfolding clear_block
  client_event-Settled readable w b f e u h =
      let (w', run, fin) = settle-Settled system.is_connected w refl f e h in
      (
        w',
        event_run readable true w (clear_block w) w' b b false f
            (read_waits readable (clear_block w) b f e u)
            (write_side_progress (clear_block w) f e ∙ run),
        fin,
      )
