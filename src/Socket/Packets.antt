-- ===== src/Socket/Packets.antt =====
-- The queue of packets of a job in `ape_socket_queue_data`.
use zape.Base.{
  ℕ, ◌<◌, ◌≡◌, refl, ap, ◌∙◌, true, false, some, List, [], ◌∷◌, ◌++◌, ◌==◌, if◌then◌else◌, arith,
}
use zape.Pool.State.{Ptr, null, pool_alloc, PoolList, Slot, Mem, set_item, grow_pool}
use zape.Pool.Seg.{Cell, Distinct, IsPool}
use zape.Pool.ToItem.{holding, set_item-IsPool, IsPool-slot, Distinct-altered}
use zape.Pool.Grow.{block, grow_pool-IsPool}
use zape.Socket.Types.{Packet, no_packet}
use zape.Socket.Write.{Places, add_packet}

-- a list with another current slot
abbrev at_slot : PoolList Packet → Ptr → PoolList Packet
at_slot l p = record l { current = p }

at_slot-IsPool :
    (l : PoolList Packet) (p : Ptr) (cs : List (Cell Packet))
    → IsPool l cs
    → IsPool (at_slot l p) cs
at_slot-IsPool l p cs v = record { chain = v.chain; apart = v.apart; ends = v.ends }

-- the slots behind the current one once a packet is stored there: those that were, or eight new ones
abbrev pub spare : Places → (size : ℕ) → List (Cell Packet) → List (Cell Packet)
spare m size [] = block no_packet size m.more pool_alloc 8
spare m size (d ∷ ds) = d ∷ ds

-- the run, for the slot that `set_item` leaves and the list that has a spare slot
add_packet_run :
    (m : Places) (q : PoolList Packet) (p : Packet) (mem : Mem Packet) (s : Slot Packet)
    (q₁ : PoolList Packet) (s₁ : Slot Packet)
    → set_item q.mem q.current p ≡ some mem
    → mem q.current ≡ some s
    → (if s.next == null
        then grow_pool no_packet (record q { mem = mem }) 8 m.more
        else some (record q { mem = mem }))
      ≡ some q₁
    → q₁.mem q₁.current ≡ some s₁
    → add_packet m q p ≡ some (at_slot q₁ s₁.next)
unfolding add_packet
add_packet_run m q p mem s q₁ s₁ e f g h = simp (e, f, g, h)

-- A packet goes into the current slot of the queue, after those before it, and the slot behind it is
-- current then: one that was there, or the first of eight new ones. The hypotheses on `more` are
-- those of `malloc`: a place that is not null, with slots that are none of the queue's.
pub add_packet-IsPool :
    (m : Places) (q : PoolList Packet) (front back : List (Cell Packet)) (c : Cell Packet)
    (p : Packet)
    → IsPool q (front ++ c ∷ back)
    → q.current ≡ c.at
    → 0 < m.more
    → Distinct (front ++ c ∷ (back ++ block no_packet q.size m.more pool_alloc 8))
    → (q' : PoolList Packet) × (d : Cell Packet) × (ds : List (Cell Packet)) × (add_packet m q p
        ≡ some q')
      × IsPool q' (front ++ holding c p ∷ spare m q.size back)
      × (spare m q.size back ≡ d ∷ ds)
      × (q'.current ≡ d.at)
add_packet-IsPool m q front (d ∷ ds) c p v here pos apart =
    let (mem, e, v₁) = set_item-IsPool q front (d ∷ ds) c p v in
    let (s, f, g) = IsPool-slot (record q { mem = mem }) front (d ∷ ds) (holding c p) v₁ in
    let there : mem q.current ≡ some s = ap mem here ∙ f in
    let keeps : (s.next == null) ≡ false = ground (arith, g.0, g.1) in
    (
      at_slot (record q { mem = mem }) s.next,
      d,
      ds,
      add_packet_run m q p mem s (record q { mem = mem }) s (ap (λ a. set_item q.mem a p) here ∙ e)
          there (simp (keeps, if◌then◌else◌)) there,
      at_slot-IsPool (record q { mem = mem }) s.next _ v₁,
      refl,
      g.0,
    )
add_packet-IsPool m q front [] c p v here pos apart =
    let (mem, e, v₁) = set_item-IsPool q front [] c p v in
    let (s, f, g) = IsPool-slot (record q { mem = mem }) front [] (holding c p) v₁ in
    let (q₁, run, v₂, same) =
      grow_pool-IsPool no_packet q.size (record q { mem = mem }) front (holding c p) 7 m.more v₁
        refl pos (Distinct-altered front c p c.flags _ apart) in
    let (s₁, f₁, g₁) =
      IsPool-slot q₁ front (block no_packet q.size m.more pool_alloc 8) (holding c p) v₂ in
    let grows : (s.next == null) ≡ true = ground (arith, g) in
    (
      at_slot q₁ s₁.next,
      record { at = m.more; flags = pool_alloc; item = no_packet },
      _,
      add_packet_run m q p mem s q₁ s₁ (ap (λ a. set_item q.mem a p) here ∙ e) (ap mem here ∙ f)
          ((simp (grows, if◌then◌else◌)) ∙ run) (ap q₁.mem (same ∙ here) ∙ f₁),
      at_slot-IsPool q₁ s₁.next _ v₂,
      refl,
      g₁.0,
    )
