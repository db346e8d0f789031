-- ===== src/Dns/Watch.antt =====
-- What `ares_socket_cb` does to the sockets that are watched.
use Prim.Native.Nat.{bit_or}
use mathlib.Core.Path.{subst, subst⁻¹}
use zape.Base.{
  ℕ, ◌≤◌, ◌<◌, ◌≡◌, ◌≢◌, refl, sym, ap, ◌∙◌, ◌⊎◌, inl, inr, Bool, true, false, ◌||◌, Option, some,
  List, ◌∷◌, ◌==◌, if◌then◌else◌, arith, Bool-cases, not,
}
use zape.Base.Fault.{store}
use zape.Events.Epoll.{event_level}
use zape.Dns.State.{
  Entry, Event, added, changed, deleted, closed, Table, Place, known, spare, listen_for, scan,
  drop_socket, add_socket, socket_cb,
}
use zape.Dns.Table.{count, IsTable, Chosen, Chosen-scan}

-- the calls that the socket gives rise to
abbrev pub calls : (s listen : ℕ) → (is_new : Bool) → List Event → List Event
calls s listen is_new log =
    if is_new
    then added s (bit_or listen event_level) ∷ log
    else if listen == 0
    then closed s ∷ deleted s ∷ log
    else changed s (bit_or listen event_level) ∷ log

-- the entries of `q` afterwards
abbrev pub watched : (s listen : ℕ) → (is_new : Bool) → (q old : ℕ) → ℕ
watched s listen is_new q old =
    if q == s then (if is_new || not (listen == 0) then 1 else 0) else old

abbrev pub Watches : Table → (s listen : ℕ) → Option Table → Type 0
Watches t s listen o =
    (t' : Table) × (o ≡ some t')
    × IsTable t'.list
    × (t'.log ≡ calls s listen (count s t.list == 0) t.log)
    × ((q : ℕ)
        → q ≢ 0
        → count q t'.list ≡ watched s listen (count s t.list == 0) q (count q t.list))

-- the callback, by the place that the loop has found
abbrev placed : Table → (s listen : ℕ) → Place → Option Table
placed t s listen p = elim p [
  | known i ↦
      if listen == 0
      then drop_socket t s i
      else some (record t { log = changed s (bit_or listen event_level) ∷ t.log })
  | spare f ↦ add_socket t s f listen
]

Watches-placed :
    (t : Table) (s listen : ℕ) (p : Place)
    → s ≢ 0
    → IsTable t.list
    → (0 < count s t.list) ⊎ (0 < count 0 t.list)
    → Chosen s t.list p
    → Watches t s listen (placed t s listen p)
unfolding drop_socket add_socket
Watches-placed t s listen (known i) nz v room here =
    let (_, (e, there, for, _, _)) = here (record { fd = 0; ready = true }) in
    let freed : Entry = record e { fd = 0 } in
    let (es, (_, _, _, run, counts)) = here freed in
    let old : (count s t.list == 0) ≡ false = ground (arith, counts s) in
    elim (Bool-cases (listen == 0)) [
      | inl stop ↦
          let t' : Table = record t { list = es; log = closed s ∷ deleted s ∷ t.log } in
          (
            t',
            simp stop (simp there (simp run refl)),
            λ q nq. ground (arith, counts q, v q nq),
            simp old (simp stop refl),
            λ q nq. ground (arith, counts q, v q nq, old, stop),
          )
      | inr go ↦
          let t' : Table = record t { log = changed s (bit_or listen event_level) ∷ t.log } in
          (
            t',
            simp go refl,
            v,
            simp old (simp go refl),
            λ q nq. ground (arith, counts s, v q nq, v s nz, old, go),
          )
    ]
Watches-placed t s listen (spare j) nz v room (gone, inl here) =
    let (es, (e, there, for, run, counts)) = here (record { fd = s; ready = true }) in
    let t' : Table = record t { list = es; log = added s (bit_or listen event_level) ∷ t.log } in
    (
      t',
      simp run refl,
      λ q nq. ground (arith, counts q, v q nq, gone),
      ground (arith, gone),
      λ q nq. ground (arith, counts q, gone),
    )
Watches-placed t s listen (spare j) nz v room (gone, inr (first, full)) = absurd (ground arith)

-- For a socket that is not 0, if no socket has two entries and the socket has one or an entry is free,
-- `ares_socket_cb` succeeds and no socket has two entries afterwards. The socket is watched, unless it was
-- before and c-ares waits for nothing; every other socket is watched as before. A new socket is added
-- to the events; one that was watched is deleted and closed if c-ares waits for nothing, and else changed.
pub socket_cb-Watches :
    (t : Table) (s : ℕ) (read write : Bool)
    → s ≢ 0
    → IsTable t.list
    → (0 < count s t.list) ⊎ (0 < count 0 t.list)
    → Watches t s (listen_for read write) (socket_cb t s read write)
unfolding socket_cb
socket_cb-Watches t s read write nz v room =
    Watches-placed t s (listen_for read write) (scan s 0 0 t.list) nz v room
      (Chosen-scan s t.list nz)

overwrites_at :
    (t : Table) (s listen : ℕ) (p : Place) (d : Entry) (es : List Entry)
    → t.list ≡ d ∷ es
    → count s t.list ≡ 0
    → count 0 t.list ≡ 0
    → s ≢ 0
    → Chosen s t.list p
    → placed t s listen p
      ≡ some (record {
        list = record { fd = s; ready = true } ∷ es;
        log = added s (bit_or listen event_level) ∷ t.log;
      })
unfolding add_socket store
overwrites_at t s listen (known i) d es list new full nz here =
    let (_, (_, _, _, _, counts)) = here (record { fd = 0; ready = true }) in
    absurd (ground (arith, counts s))
overwrites_at t s listen (spare j) d es list new full nz (gone, inl here) =
    let (_, (_, _, _, _, counts)) = here (record { fd = s; ready = true }) in
    absurd (ground (arith, counts 0))
overwrites_at t s listen (spare j) d es list new full nz (gone, inr (first, _)) =
    let stored : store t.list j (record { fd = s; ready = true })
        ≡ some (record { fd = s; ready = true } ∷ es) =
      ap (λ k. store t.list k (record { fd = s; ready = true })) first
      ∙ ap (λ l. store l 0 (record { fd = s; ready = true })) list in
    simp stored refl

-- When every entry is taken, a new socket takes the first entry, and the socket that was there is no longer
-- in the table, although it is neither deleted from the events nor closed.
pub socket_cb_overwrites :
    (t : Table) (s : ℕ) (read write : Bool) (d : Entry) (es : List Entry)
    → t.list ≡ d ∷ es
    → s ≢ 0
    → IsTable t.list
    → count s t.list ≡ 0
    → count 0 t.list ≡ 0
    → (t' : Table) × (socket_cb t s read write ≡ some t')
      × (count s t'.list ≡ 1)
      × (0 < count d.fd t.list)
      × (count d.fd t'.list ≡ 0)
      × (t'.log ≡ added s (bit_or (listen_for read write) event_level) ∷ t.log)
unfolding socket_cb
socket_cb_overwrites t s read write d es list nz v new full =
    let run =
      overwrites_at t s (listen_for read write) (scan s 0 0 t.list) d es list new full nz
        (Chosen-scan s t.list nz) in
    let new' : count s (d ∷ es) ≡ 0 = ap (count s) (sym list) ∙ new in
    let full' : count 0 (d ∷ es) ≡ 0 = ap (count 0) (sym list) ∙ full in
    let was : 0 < count d.fd (d ∷ es) = ground arith in
    let once : count d.fd (d ∷ es) ≤ 1 =
      subst (λ l. count d.fd l ≤ 1) list (v d.fd (ground (arith, full'))) in
    (
      _,
      run,
      ground (arith, new'),
      subst⁻¹ (λ l. 0 < count d.fd l) list was,
      ground (arith, once, new'),
      refl,
    )
