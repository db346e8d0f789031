-- ===== src/Socket/Tests.antt =====
-- The end of a socket at concrete sockets.
use zape.Base.{◌≡◌, refl, true, false, none, []}
use zape.Base.Fault.{◌>>=◌}
use zape.Pool.State.{PoolList}
use zape.Socket.Types.{online, tcp, ssl, client, World, Kind, Proto, State, Job}
use zape.Socket.Close.{destroy, shutdown_now, run_timers}
use zape.Socket.Release.{Released, shutdown_now-Released, shutdown_now-destroy_fault}

abbrev no_jobs : PoolList Job
no_jobs = record { head = 0; queue = 0; current = 0; size = 0; mem = λ _. none }

abbrev world : State → Proto → Kind → World
world s p k = record {
  sock = record {
    state = s;
    proto = p;
    kind = k;
    would_block = false;
    has_disconnect = true;
    has_dns = false;
    jobs = no_jobs;
    max_mb = 0;
    buffered = 0;
  };
  total = 0;
  timers = [];
  log = [];
  freed = false;
}

shutdown_now-Released_example : Released (shutdown_now (world online ssl client) >>= run_timers)
shutdown_now-Released_example = shutdown_now-Released (world online ssl client) (refl, refl) refl

shutdown_now-destroy_fault_example :
    (do w₁ ← shutdown_now (world online tcp client); w₂ ← destroy w₁; run_timers w₂) ≡ none
shutdown_now-destroy_fault_example =
    shutdown_now-destroy_fault (world online tcp client) refl refl refl refl
