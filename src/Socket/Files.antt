-- ===== src/Socket/Files.antt =====
-- ape_socket.c: `APE_sendfile`. The answers of the system are parameters. `none` is an access to freed
-- memory or through a pointer to no slot, or answers that do not end the loop.
use Prim.Native.Nat.{bit_or}
use zape.Base.{
  ℕ, ◌≡◌, ◌<◌, refl, ap, ◌∙◌, Bool, true, false, not, Option, none, some, List, [], ◌∷◌, ◌++◌, ◌==◌,
  arith, if◌then◌else◌,
}
use zape.Base.Fault.{◌>>=◌}
use zape.Pool.State.{Ptr, set_item}
use zape.Pool.Seg.{Cell, IsPool}
use zape.Pool.ToItem.{holding, set_item-IsPool, IsPool-next}
use zape.Socket.Types.{
  Job, file, job_sendfile, job_active, online, is_online, World, emit, file_closed,
}
use zape.Socket.Close.{state_of, busy}
use zape.Socket.Jobs.{reusable, get_slot}
use zape.Socket.Lifecycle.{state_of_alive}
use zape.Socket.Slots.{marked, get_slot_kept}
use zape.Socket.Write.{set_would_block}
use zape.Socket.DoJobs.{
  Answer, wrote, again, interrupted, failed, Outcome, finished, blocked, broken, shut, send_file,
}

-- a job of the socket holds the file; two new job slots would begin at `base`. The `offset` of the job, 0
-- here and read on other systems only, is left.
unfoldable pub keep_file : World → (fd : ℕ) → (base : Ptr) → Option World
keep_file w fd base = do
  (l, a) ← get_slot w.sock.jobs job_sendfile base
  s ← l.mem a
  let j = s.item
  m ← set_item l.mem a (record j { load = file fd })
  let k = w.sock
  some (record w { sock = record k { jobs = record l { mem = m } } })

-- after the loop of `sendfile`
unfoldable pub leave_file : World → (fd : ℕ) → (base : Ptr) → Outcome → Option World
leave_file w fd base blocked = keep_file (set_would_block w) fd base
leave_file w fd base finished = some (emit w (file_closed fd))
leave_file w fd base broken = some (emit w (file_closed fd))
leave_file w fd base shut = some (emit w (file_closed fd))

-- `APE_sendfile`, with what it returns; `opened` is the answer of `open`
unfoldable pub sendfile :
    (opened : Option ℕ) → List Answer → (base : Ptr) → World → Option (World × Bool)
sendfile opened answers base w = do
  s ← state_of w
  if not (is_online s) then some (w, false) else elim opened [
    | none ↦ some (w, false)
    | some fd ↦ do
      b ← busy w.sock
      (o, rest) ← if b then some (blocked, answers) else send_file answers
      w' ← leave_file w fd base o
      some (w', true)
  ]

-- the counts that `sendfile` returns, before other answers
abbrev pub counts : List ℕ → List Answer → List Answer
counts [] answers = answers
counts (n ∷ ns) answers = wrote n ∷ counts ns answers

abbrev pub AllPositive : List ℕ → Type 0
AllPositive [] = Unit {0}
AllPositive (n ∷ ns) = (0 < n) × AllPositive ns

-- the end of the file, or an error
abbrev pub is_end : Answer → Bool
is_end (wrote n) = n == 0
is_end again = true
is_end interrupted = true
is_end failed = true

send_file-counts :
    (ns : List ℕ)
    → AllPositive ns
    → (a : Answer) (rest : List Answer) (o : Outcome) → send_file (a ∷ rest) ≡ some (o, rest)
    → send_file (counts ns (a ∷ rest)) ≡ some (o, rest)
unfolding send_file
send_file-counts [] pos a rest o run = run
send_file-counts (n ∷ ns) (p, pos) a rest o run =
    let more : n == 0 ≡ false = ground arith in
    simp (more, if◌then◌else◌) (send_file-counts ns pos a rest o run)

module _ (w : World) (front back : List (Cell Job)) (c : Cell Job) (fd : ℕ) (base : Ptr)
    (jobs : IsPool w.sock.jobs (front ++ c ∷ back)) (here : w.sock.jobs.current ≡ c.at)
    (free : reusable c.flags job_sendfile ≡ true) where
  -- the slot with the file
  abbrev pub slot_with : Cell Job
  slot_with =
      let j = c.item in
      holding (marked c (bit_or job_active job_sendfile)) (record j { load = file fd })

  -- the current slot holds the file, the other slots are as before, and the socket waits until it is writable
  abbrev pub Held : World → Type 0
  Held w' =
      IsPool w'.sock.jobs (front ++ slot_with ∷ back)
      × (w'.sock.would_block ≡ true)
      × (w'.log ≡ w.log)
      × (w'.total ≡ w.total)

  keep_file-Held : (w' : World) × (keep_file (set_would_block w) fd base ≡ some w') × Held w'
  unfolding keep_file
  keep_file-Held =
      let (l, run, v, same) =
        get_slot_kept w.sock.jobs front back c job_sendfile base jobs here free in
      let d = marked c (bit_or job_active job_sendfile) in
      let (next, before, e, _) = IsPool-next l front back d v in
      let j = c.item in
      let (m, set, v') = set_item-IsPool l front back d (record j { load = file fd }) v in
      let k = w.sock in
      (
        record w { sock = record k { would_block = true; jobs = record l { mem = m } } },
        simp run (simp (e, set) refl),
        (v', refl, refl, refl),
      )

  -- what is left, by whether the socket is busy and the answer that ends the loop
  abbrev pub Left : (is_busy : Bool) → Answer → World → Type 0
  Left true a w' = Held w'
  Left false again w' = Held w'
  Left false _ w' = w' ≡ emit w (file_closed fd)

  sent_run :
      (ns : List ℕ) (a : Answer) (rest : List Answer) (o : Outcome) (w' : World)
      → w.freed ≡ false
      → w.sock.state ≡ online
      → busy w.sock ≡ some false
      → send_file (counts ns (a ∷ rest)) ≡ some (o, rest)
      → leave_file w fd base o ≡ some w'
      → sendfile (some fd) (counts ns (a ∷ rest)) base w ≡ some (w', true)
  unfolding sendfile
  sent_run ns a rest o w' f e u run left = rw (state_of_alive w f ∙ ap some e, u, run, left) refl

  busy_run :
      (answers : List Answer) (w' : World)
      → w.freed ≡ false
      → w.sock.state ≡ online
      → busy w.sock ≡ some true
      → keep_file (set_would_block w) fd base ≡ some w'
      → sendfile (some fd) answers base w ≡ some (w', true)
  unfolding sendfile leave_file
  busy_run answers w' f e u left = rw (state_of_alive w f ∙ ap some e, u, left) refl

  -- On an online socket that is not freed, with a valid list of jobs whose current slot is free, `APE_sendfile` of
  -- a file that could be opened returns 1, for answers of `sendfile` that are any number of positive counts
  -- and then 0 or an error. If the socket is busy, or if the error is `EAGAIN`, the current slot holds the
  -- file and has become active, the other slots are as before, and the socket would block. Else the
  -- file is closed and nothing else has changed.
  pub sendfile-Left :
      (ns : List ℕ) (a : Answer) (rest : List Answer) (b : Bool)
      → w.freed ≡ false
      → w.sock.state ≡ online
      → busy w.sock ≡ some b
      → AllPositive ns
      → is_end a ≡ true
      → (w' : World) × (sendfile (some fd) (counts ns (a ∷ rest)) base w ≡ some (w', true))
        × Left b a w'
  unfolding leave_file send_file
  sendfile-Left ns a rest true f e u pos ends =
      let (w', left, held) = keep_file-Held in
      (w', busy_run (counts ns (a ∷ rest)) w' f e u left, held)
  sendfile-Left ns again rest false f e u pos ends =
      let (w', left, held) = keep_file-Held in
      (
        w',
        sent_run ns again rest blocked w' f e u (send_file-counts ns pos again rest blocked refl)
            left,
        held,
      )
  sendfile-Left ns (wrote n) rest false f e u pos ends = (
    emit w (file_closed fd),
    sent_run ns (wrote n) rest finished (emit w (file_closed fd)) f e u
        (send_file-counts ns pos (wrote n) rest finished (simp ends refl)) refl,
    refl,
  )
  sendfile-Left ns interrupted rest false f e u pos ends = (
    emit w (file_closed fd),
    sent_run ns interrupted rest finished (emit w (file_closed fd)) f e u
        (send_file-counts ns pos interrupted rest finished refl) refl,
    refl,
  )
  sendfile-Left ns failed rest false f e u pos ends = (
    emit w (file_closed fd),
    sent_run ns failed rest finished (emit w (file_closed fd)) f e u
        (send_file-counts ns pos failed rest finished refl) refl,
    refl,
  )
