-- ===== src/Events/Table.antt =====
-- The block for the events has the room that `epoll_wait` is told, and follows the descriptors.
use Prim.Native.Nat.{max}
use native.Mathlib.Nat.{pow-suc}
use zape.Base.{
  ℕ, zero, suc, ◌+◌, ◌*◌, ◌/◌, ◌^◌, ◌<◌, ◌≤◌, ◌≡◌, ◌⊎◌, inl, inr, refl, Bool, true, some, List, ◌∷◌,
  length, length-take, take_of_length-le, ltb, leb, lt→ltb, le→leb, ltb→lt, ltb→ge, Bool-cases,
  ◌==◌, if◌then◌else◌, arith, get_elem?, get_elem?_of_lt,
}
use zape.Events.Epoll.{revent_of, Ready, Ctl, epoll_add}
use zape.Events.State.{
  events_revent, Table, default_size, setsize, double, next_power_of_two, events_init, events_add,
  events_shrink, events_poll, events_get_current_evd, smear,
}
use zape.Events.PowerOfTwo.{IsPower, next_power_of_two_lem}

pub record IsTable (ev : Table) : Type 0 where
  pub told : ev.room ≡ ev.basemem
  pub power : IsPower ev.basemem
  pub large : default_size ≤ ev.basemem
  pub small : ev.basemem < 2 ^ 31
  pub counted : ev.nfd ≤ ev.basemem
  pub filled : length ev.ready ≤ ev.room

pub events_init-IsTable : IsTable events_init
unfolding events_init
events_init-IsTable = record {
  told = refl;
  power = (5, refl);
  large = omega arith;
  small = omega arith;
  counted = omega arith;
  filled = omega arith;
}

-- a block of another size
setsize-IsTable :
    (ev : Table) (size : ℕ)
    → IsPower size
    → default_size ≤ size
    → size < 2 ^ 31
    → ev.nfd ≤ size
    → IsTable (setsize ev size)
unfolding setsize
setsize-IsTable ev size power large small counted = record {
  told = refl;
  power = power;
  large = large;
  small = small;
  counted = counted;
  filled = omega (arith, length-take size ev.ready);
}

-- the table with its descriptor counted, before the call of the backend
abbrev counted : Table → Table
counted ev = record ev { nfd = ev.nfd + 1 }

-- the table with the call of the backend
abbrev called : Table → Table → Ctl → Table
called ev₁ ev call = record ev₁ { calls = call ∷ ev.calls }

double_lem : (n : ℕ) → n * 2 < 2 ^ 31 → double n ≡ some (n * 2)
unfolding double
double_lem n h = rw (lt→ltb (n * 2) (2 ^ 31) h) refl

-- `events_add` keeps the table well-formed, with the entries of the last poll as they were, and
-- counts the descriptor, whether the kernel takes it or not; there are fewer than 2^30 of them.
pub events_add-IsTable :
    (ctl : Ctl → Bool) (ev : Table) (fd descriptor bitadd : ℕ)
    → IsTable ev
    → ev.nfd < 2 ^ 30
    → (ev' : Table) × (events_add ctl ev fd descriptor bitadd
        ≡ some (ev', ctl (epoll_add fd descriptor bitadd)))
      × IsTable ev'
      × (ev'.nfd ≡ ev.nfd + 1)
      × (ev'.ready ≡ ev.ready)
unfolding events_add setsize
events_add-IsTable ctl ev fd descriptor bitadd v few =
    elim (Bool-cases (ltb ev.basemem (ev.nfd + 1))) [
      | inl full ↦
          let e : ev.basemem ≡ ev.nfd =
            omega (arith, v.counted, ltb→lt ev.basemem (ev.nfd + 1) full) in
          let room : ev.basemem * 2 < 2 ^ 31 = omega (arith, e) in
          let (k, p) = v.power in
          let w =
            setsize-IsTable (counted ev) (ev.basemem * 2) (suc k, omega (arith, pow-suc 2 k, p))
              (omega (arith, v.large)) room (omega (arith, v.large, e)) in
          (
            called (setsize (counted ev) (ev.basemem * 2)) ev (epoll_add fd descriptor bitadd),
            simp (full, double_lem ev.basemem room, if◌then◌else◌),
            record {
              told = w.told;
              power = w.power;
              large = w.large;
              small = w.small;
              counted = w.counted;
              filled = w.filled;
            },
            refl,
            take_of_length-le (ev.basemem * 2) ev.ready (omega (arith, v.filled, v.told)),
          )
      | inr less ↦ (
        called (counted ev) ev (epoll_add fd descriptor bitadd),
        simp (less, if◌then◌else◌),
        record {
          told = v.told;
          power = v.power;
          large = v.large;
          small = v.small;
          counted = omega (arith, ltb→ge ev.basemem (ev.nfd + 1) less);
          filled = v.filled;
        },
        refl,
        refl,
      )
    ]

none_left : next_power_of_two 0 ≡ 0
unfolding next_power_of_two smear
none_left = refl

max-IsPower : (n : ℕ) → IsPower n → IsPower (max default_size n)
max-IsPower n (k, e) = elim (Bool-cases (leb n default_size)) [
  | inl low ↦ (5, ground arith)
  | inr high ↦ (k, ground arith)
]

-- the size that `events_shrink` chooses
new_size :
    (nfd basemem : ℕ)
    → nfd < basemem / 2
    → default_size ≤ basemem
    → basemem < 2 ^ 31
    → IsPower (max default_size (next_power_of_two nfd))
      × (nfd ≤ max default_size (next_power_of_two nfd))
      × (max default_size (next_power_of_two nfd) ≤ basemem)
      × (max default_size (next_power_of_two nfd) ≤ max default_size (2 * nfd))
new_size zero basemem less large small =
    rw none_left ((5, refl), omega arith, omega arith, omega arith)
new_size (suc n) basemem less large small =
    let (power, above, below) = next_power_of_two_lem (suc n) (omega arith) (omega arith) in
    (
      max-IsPower (next_power_of_two (suc n)) power,
      omega (arith, above),
      omega (arith, below),
      omega (arith, below),
    )

-- `events_shrink` keeps the table well-formed with its descriptors. The block does not grow, and it
-- keeps its size or is then of the default size or of at most twice the descriptors.
pub events_shrink-IsTable :
    (ev : Table)
    → IsTable ev
    → IsTable (events_shrink ev)
      × ((events_shrink ev).nfd ≡ ev.nfd)
      × ((events_shrink ev).basemem ≤ ev.basemem)
      × ((events_shrink ev ≡ ev) ⊎ ((events_shrink ev).basemem ≤ max default_size (2 * ev.nfd)))
unfolding events_shrink setsize
events_shrink-IsTable ev v = elim (Bool-cases (ev.basemem == default_size)) [
  | inl least ↦ rw (least, if◌then◌else◌) (v, refl, omega arith, inl refl)
  | inr more ↦ elim (Bool-cases (leb (ev.basemem / 2) ev.nfd)) [
    | inl used ↦ rw (more, used, if◌then◌else◌) (v, refl, omega arith, inl refl)
    | inr free ↦
        let half : ev.nfd < ev.basemem / 2 = ground arith in
        let (power, fits, less, tight) = new_size ev.nfd ev.basemem half v.large v.small in
        rw (more, free, if◌then◌else◌)
          (
            setsize-IsTable ev (max default_size (next_power_of_two ev.nfd)) power (omega arith)
                (omega (arith, less, v.small)) fits,
            refl,
            less,
            inr tight,
          )
  ]
]

-- In a well-formed table, where the kernel stores no more entries than it is told there is room for,
-- `events_poll` stays inside the block and keeps the table well-formed, and it counts the entries stored:
-- for each number below the count, `events_get_current_evd` and `events_revent` read
-- the descriptor and the flags of the entry that the kernel has stored there.
pub events_poll_in_bounds :
    (wait : ℕ → List Ready) (ev : Table)
    → IsTable ev
    → length (wait ev.basemem) ≤ ev.basemem
    → (ev' : Table) × (n : ℕ) × (events_poll wait ev ≡ some (ev', n))
      × IsTable ev'
      × (n ≡ length (wait ev.basemem))
      × ((i : ℕ)
          → i < n
          → (r : Ready) × (get_elem? (wait ev.basemem) i ≡ some r)
            × (events_get_current_evd ev' i ≡ some r.descriptor)
            × (events_revent ev' i ≡ some (revent_of r)))
unfolding events_poll events_get_current_evd events_revent
events_poll_in_bounds wait ev v fits =
    let room : leb (length (wait ev.basemem)) ev.room ≡ true = le→leb _ _ (omega (arith, v.told)) in
    (
      record ev { ready = wait ev.basemem },
      length (wait ev.basemem),
      simp (room, if◌then◌else◌),
      record {
        told = v.told;
        power = v.power;
        large = v.large;
        small = v.small;
        counted = v.counted;
        filled = omega (arith, v.told);
      },
      refl,
      λ i h. let (r, e) = get_elem?_of_lt (wait ev.basemem) i h in (r, e, simp e, simp e),
    )
