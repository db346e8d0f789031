-- ===== src/Dns/Life.antt =====
-- What can happen to a question to c-ares, in any order.
use zape.Base.{
  ◌+◌, ◌≤◌, ◌≡◌, refl, ◌∙◌, Bool, true, false, not, ◌&&◌, ◌||◌, Option, some, if◌then◌else◌, arith,
  Bool-cases, ◌⊎◌, inl, inr,
}
use zape.Base.Fault.{◌>>=◌}
use zape.Dns.Request.{Request, answer, close, params_free, gethostbyname}

-- what can happen to a question
pub data Act : Type 0 where
  reply : (closes : Bool) → Act
  leave expire : Act

abbrev pub is_enabled : Act → Request → Bool
is_enabled (reply closes) r = r.pending
is_enabled leave r = not r.closed
is_enabled expire r = r.timer

unfoldable pub act : Act → Request → Option Request
act (reply closes) r = answer closes r
act leave r = close r
act expire r = params_free r

-- the questions that come up
pub data Reach : Request → Type 0 where
  ask : (at_once closes : Bool) (r : Request) → gethostbyname at_once closes ≡ some r → Reach r
  next : (a : Act) (r r' : Request) → Reach r → is_enabled a r ≡ true → act a r ≡ some r' → Reach r'

-- what holds of a question at any time
pub record IsSound (r : Request) : Type 0 where
  pub pending_live : r.pending ≡ true → r.live ≡ true
  pub timer_live : r.timer ≡ true → r.live ≡ true
  pub live_owned : r.live ≡ true → (r.pending || r.timer) ≡ true
  pub either : (r.pending && r.timer) ≡ false
  pub held_live : r.held ≡ true → r.closed ≡ false → r.live ≡ true
  pub held_asked : r.held ≡ true → r.answers ≡ 0
  pub waits : r.pending ≡ true → (r.answers ≡ 0) × ((r.held || r.closed) ≡ true)
  pub closed_invalid : r.pending ≡ true → r.closed ≡ r.invalidate
  pub timer_dropped : r.timer ≡ true → r.held ≡ false
  pub answered : r.timer ≡ true → r.answers ≡ 1
  pub once : r.answers ≤ 1
  pub lost : r.live ≡ false → (r.answers ≡ 0 → r.closed ≡ true)

gethostbyname-IsSound :
    (at_once closes : Bool) (r : Request) → gethostbyname at_once closes ≡ some r → IsSound r
unfolding gethostbyname answer
gethostbyname-IsSound true true r h = ground arith
gethostbyname-IsSound true false r h = ground arith
gethostbyname-IsSound false closes r h = ground arith

act-IsSound :
    (a : Act) (r r' : Request) → is_enabled a r ≡ true → act a r ≡ some r' → IsSound r → IsSound r'
unfolding act answer close params_free
act-IsSound (reply closes) r r' e h v = ground arith
act-IsSound leave r r' e h v = ground arith
act-IsSound expire r r' e h v = ground arith

Reach-IsSound : (r : Request) → Reach r → IsSound r
Reach-IsSound r (ask at_once closes _ h) = gethostbyname-IsSound at_once closes r h
Reach-IsSound r (next a r₀ _ reach e h) = act-IsSound a r₀ r e h (Reach-IsSound r₀ reach)

abbrev dropped : Request → Request
dropped r = record r { done = true; pending = false; live = false }

abbrev called : Bool → Request → Request
called closes r = record r {
  done = true;
  pending = false;
  timer = true;
  held = false;
  closed = r.closed || closes;
  answers = r.answers + 1;
}

abbrev expired : Request → Request
expired r = record r { live = false; timer = false }

-- Whatever happens to a question, in any order: the next thing that can happen accesses no memory that
-- has been freed and frees nothing twice, the callback is called once at most, and not once the socket has
-- been closed.
pub Reach-act :
    (r : Request) (a : Act)
    → Reach r
    → is_enabled a r ≡ true
    → (r' : Request) × (act a r ≡ some r')
      × (r'.answers ≤ 1)
      × (r.closed ≡ true → r'.answers ≡ r.answers)
unfolding act answer close params_free
Reach-act r (reply closes) reach e =
    let v = Reach-IsSound r reach in
    let alive = v.pending_live e in
    let fresh = (v.waits e).0 in
    elim (Bool-cases r.invalidate) [
      | inl gone ↦ (dropped r, simp alive (simp gone refl), v.once, λ c. refl)
      | inr open_yet ↦ (
        called closes r,
        simp alive (simp open_yet refl),
        ground (arith, fresh),
        λ c. let same = v.closed_invalid e in absurd (ground (arith, c, same, open_yet)),
      )
    ]
Reach-act r leave reach e =
    let v = Reach-IsSound r reach in
    elim (Bool-cases r.held) [
      | inl held ↦
          let alive = v.held_live held (ground (arith, e)) in
          (
            record r { invalidate = true; closed = true },
            simp held (simp alive refl),
            v.once,
            λ c. refl,
          )
      | inr free ↦ (record r { closed = true }, simp free refl, v.once, λ c. refl)
    ]
Reach-act r expire reach e =
    let v = Reach-IsSound r reach in
    let alive = v.timer_live e in (expired r, simp alive refl, v.once, λ c. refl)

-- the answer, if it is missing, and then the timer
unfoldable pub end_of : Request → Option Request
end_of r = do
  r₁ ← if r.pending then answer false r else some r
  if r₁.timer then params_free r₁ else some r₁

-- Whatever has happened to a question, when c-ares has answered and its timer has run, the record of the
-- question has been freed, and the callback has been called or the socket has been closed.
pub Reach-end_of :
    (r : Request)
    → Reach r
    → (r' : Request) × (end_of r ≡ some r')
      × (r'.live ≡ false)
      × (r'.pending ≡ false)
      × (r'.timer ≡ false)
      × ((r'.answers ≡ 1) ⊎ (r'.closed ≡ true))
unfolding end_of answer params_free
Reach-end_of r reach =
    let v = Reach-IsSound r reach in
    elim (Bool-cases r.pending) [
      | inl due ↦
          let alive = v.pending_live due in
          let early : r.timer ≡ false = ground (arith, v.either) in
          elim (Bool-cases r.invalidate) [
            | inl gone ↦ (
              dropped r,
              simp due (simp alive (simp gone (simp early refl))),
              refl,
              refl,
              early,
              inr (v.closed_invalid due ∙ gone),
            )
            | inr open_yet ↦ (
              expired (called false r),
              simp due (simp alive (simp open_yet refl)),
              refl,
              refl,
              refl,
              inl (ground (arith, (v.waits due).0)),
            )
          ]
      | inr no_more ↦ elim (Bool-cases r.timer) [
        | inl waits ↦
            let alive = v.timer_live waits in
            (
              expired r,
              simp no_more (simp waits (simp alive refl)),
              refl,
              no_more,
              refl,
              inl (v.answered waits),
            )
        | inr none_left ↦
            let dead : r.live ≡ false = ground (arith, v.live_owned) in
            (
              r,
              simp no_more (simp none_left refl),
              dead,
              no_more,
              none_left,
              ground (arith, v.lost dead, v.once),
            )
      ]
    ]
