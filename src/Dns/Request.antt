-- ===== src/Dns/Request.antt =====
-- A question to c-ares by ape_gethostbyname, with the socket that asks. `none` is an access to the
-- record of the question after it has been freed, or a second `free`.
use zape.Base.{ℕ, ◌+◌, Bool, true, false, not, ◌||◌, Option, none, some, if◌then◌else◌}
use zape.Base.Fault.{◌>>=◌}

-- `ape_dns_state`, whether it is allocated, whether c-ares will answer, the pending timer of
-- `params_free`, and the calls of `callback`; `held` tells whether `dns_state` of the socket
-- points to it, and `closed` whether the socket has been closed
pub record Request : Type 0 where
  pub live : Bool
  pub done : Bool
  pub invalidate : Bool
  pub pending : Bool
  pub timer : Bool
  pub held : Bool
  pub closed : Bool
  pub answers : ℕ

-- `ares_gethostbyname_cb`. The callback is that of a socket that connects: it resets `dns_state`, and it
-- may close the socket.
unfoldable pub answer : (closes : Bool) → Request → Option Request
answer closes r =
    if not r.live
    then none
    else if r.invalidate
    then some (record r { done = true; pending = false; live = false })
    else some (record r {
      done = true;
      pending = false;
      timer = true;
      held = false;
      closed = r.closed || closes;
      answers = r.answers + 1;
    })

-- `ape_dns_invalidate` of `dns_state`, by `ape_socket_close`
unfoldable pub close : Request → Option Request
close r =
    if not r.held
    then some (record r { closed = true })
    else if r.live
    then some (record r { invalidate = true; closed = true })
    else none

-- `params_free`
unfoldable pub params_free : Request → Option Request
params_free r = if r.live then some (record r { live = false; timer = false }) else none

-- a question that c-ares has, before it answers
abbrev pub asked : Request
asked = record {
  live = true;
  done = false;
  invalidate = false;
  pending = true;
  timer = false;
  held = false;
  closed = false;
  answers = 0;
}

-- `ape_gethostbyname` of a name that is no address, with the assignment to `dns_state`; `at_once` tells
-- whether c-ares answers within the call, and `closes` what the callback then does
unfoldable pub gethostbyname : (at_once closes : Bool) → Option Request
gethostbyname at_once closes = do
  r ← if at_once then answer closes asked else some asked
  if not r.live then none else some (record r { held = not r.done })
