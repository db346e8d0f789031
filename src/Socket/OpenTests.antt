-- ===== src/Socket/OpenTests.antt =====
-- Sockets at their beginning.
use mathlib.Core.Path.{subst⁻¹}
use zape.Base.{
  arith, inr, ℕ, ◌≡◌, ◌==◌, refl, Bool, true, false, Option, none, some, List, [], ◌∷◌, length,
  if◌then◌else◌,
}
use zape.Base.Fault.{◌>>=◌}
use zape.Socket.Types.{unknown, Proto, tcp, udp, server, online, World, emit, connected}
use zape.Socket.Close.{destroy, run_timers, shutdown_now}
use zape.Socket.Lifecycle.{closes}
use zape.Socket.Open.{
  set_dns, Arrival, blank_socket, listen, attempt, opened, Try, done, under_way, unavailable,
  connect, arrived, interrupted, broken, accept,
}
use zape.Socket.Attempts.{Bound, Retried, Unbindable}
use zape.Socket.Opening.{Fresh}
use zape.Socket.Connecting.{Connected, connect-Connected}
use zape.Socket.Stranded.{listen-destroy_twice, connect_unbound, connect-shutdown_now_fault}
use zape.Socket.Accepting.{Alive, AllAlive, KeepsAlive, client_for, welcomed, accept-Alive}

abbrev fresh : Proto → World
fresh p = blank_socket p 40 4096 0

fresh-Fresh : (p : Proto) → Fresh (fresh p)
fresh-Fresh p = record { at_rest = refl; there = refl; idle = refl; untouched = refl }

-- only the first `bind` succeeds
abbrev once : ℕ → Bool
once n = n == 0

-- the second `connect` gets through
abbrev second : ℕ → Try
second n = if n == 0 then unavailable else under_way

connect-Connected_example :
    (w : World) × (r : Bool) × (connect 0 once second 80 (some true) (fresh tcp) ≡ some (w, r))
    × Connected 0 once second 80 (fresh tcp) (some true) w r
connect-Connected_example =
    connect-Connected 0 once second 80 (some true) (fresh tcp) (fresh-Fresh tcp) refl

listen-destroy_twice_example :
    (w : World) × ((listen 80 false true (fresh tcp) >>= λ p. destroy p.0) ≡ some w)
    × (closes w.log ≡ 2)
listen-destroy_twice_example =
    listen-destroy_twice 80 false true (fresh tcp) (fresh-Fresh tcp) refl refl

-- With a local port the second try binds again.
rebound : Unbindable 5000 once second
rebound = (1, omega arith, tried, refl, refl)
  where
    tried : Retried 5000 once second 1
    tried j h =
        let first : j ≡ 0 = omega arith in
        subst⁻¹ (λ j. Bound 5000 once second j × (second j ≡ unavailable)) first (inr refl, refl)

connect_unbound_example :
    (connect 5000 once second 80 (some true) (fresh tcp) ≡ some (set_dns (fresh tcp) false, true))
    × Fresh (set_dns (fresh tcp) false)
    × ((set_dns (fresh tcp) false).log ≡ [])
    × ((set_dns (fresh tcp) false).sock.kind ≡ unknown)
connect_unbound_example =
    connect_unbound 5000 once second 80 (fresh tcp) (fresh-Fresh tcp) refl refl rebound

at_once : attempt 0 once (λ n. done) 10 0 ≡ opened
unfolding attempt
at_once = refl

connect-shutdown_now_fault_example :
    (do
      (w₁, r) ← connect 0 once (λ n. done) 80 (some true) (fresh udp)
      w₂ ← shutdown_now w₁
      run_timers w₂)
    ≡ none
connect-shutdown_now_fault_example =
    connect-shutdown_now_fault 0 once (λ n. done) 80 (fresh udp) (fresh-Fresh udp) refl refl refl
      at_once

-- a server, and a callback that leaves a note with the client
abbrev listener : World
listener =
    let w = fresh tcp in
    let k = w.sock in record w { sock = record k { kind = server; state = online } }

abbrev greet : World → World → Option (World × World)
greet w c = some (w, emit c connected)

greeted : KeepsAlive (some greet) 40 (λ n. n)
greeted w fd a =
    (w, emit (client_for (some greet) 40 (λ n. n) w fd) connected, refl, a, ((refl, refl), refl))

abbrev arrivals : List Arrival
arrivals = arrived 7 ∷ interrupted ∷ arrived 8 ∷ broken ∷ []

accept-Alive_example :
    (w : World) × (clients : List World) × (accept
        (some greet)
        true
        true
        40
        (λ n. n)
        arrivals
        listener
        []
      ≡ some (w, clients))
    × (welcomed (some greet) 40 (λ n. n) (7 ∷ 8 ∷ []) listener [] ≡ some (w, clients))
    × Alive w
    × AllAlive clients
    × (length clients ≡ 2)
accept-Alive_example =
    accept-Alive (some greet) 40 (λ n. n) greeted arrivals listener [] refl ((refl, refl), refl) tt
