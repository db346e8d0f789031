-- ===== src/Events/Tests.antt =====
-- The table of descriptors at concrete sizes.
use zape.Base.{get_elem?, ℕ, ◌≡◌, ◌<◌, ◌≤◌, refl, some, List, [], ◌∷◌, arith, not, ◌*◌}
use Prim.Native.Nat.{bit_and, bit_or}
use zape.Events.Epoll.{
  Ready, revent_of, kev_events, has, epollet, event_level, event_read, event_write,
}
use zape.Events.State.{
  Table, next_power_of_two, smear, events_poll, events_get_current_evd, events_revent,
}
use zape.Events.PowerOfTwo.{IsPower, next_power_of_two_lem}
use zape.Events.Table.{IsTable, events_poll_in_bounds}
use zape.Events.Masks.{all_ready, revent_of-kev_events}

next_power_of_two_test : next_power_of_two 33 ≡ 64
unfolding next_power_of_two smear
next_power_of_two_test = refl

next_power_of_two_lem_example :
    IsPower (next_power_of_two 33) × (33 ≤ next_power_of_two 33) × (next_power_of_two 33 < 2 * 33)
next_power_of_two_lem_example = next_power_of_two_lem 33 (omega arith) (omega arith)

-- a block of 128 entries, full or with 33 descriptors
abbrev sized : ℕ → Table
sized n = record { basemem = 128; nfd = n; room = 128; ready = []; calls = [] }

sized-IsTable : (n : ℕ) → n ≤ 128 → IsTable (sized n)
sized-IsTable n h = record {
  told = refl;
  power = (7, refl);
  large = omega arith;
  small = omega arith;
  counted = h;
  filled = omega arith;
}

abbrev one_ready : ℕ → List Ready
one_ready n = record { events = 1; descriptor = 70 } ∷ []

events_poll_in_bounds_example :
    (ev : Table) × (n : ℕ) × (events_poll one_ready (sized 33) ≡ some (ev, n))
    × IsTable ev
    × (n ≡ 1)
    × ((i : ℕ)
        → i < n
        → (r : Ready) × (get_elem? (one_ready 128) i ≡ some r)
          × (events_get_current_evd ev i ≡ some r.descriptor)
          × (events_revent ev i ≡ some (revent_of r)))
events_poll_in_bounds_example =
    events_poll_in_bounds one_ready (sized 33) (sized-IsTable 33 (omega arith)) (omega arith)

revent_of-kev_events_example :
    (revent_of (all_ready 7 70) ≡ bit_and 7 (bit_or event_read event_write))
    × (has (kev_events 7) epollet ≡ not (has 7 event_level))
revent_of-kev_events_example = revent_of-kev_events 7 70 (omega arith)
