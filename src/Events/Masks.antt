-- ===== src/Events/Masks.antt =====
-- What the kernel is told of a descriptor, and what an event says of it.
use Prim.Native.Nat.{bit_and, bit_or}
use zape.Base.{
  ℕ, ◌<◌, ◌≡◌, refl, sym, ◌==◌, ==→eq, Bool, true, false, not, table, entry, if◌then◌else◌,
}
use zape.Events.Epoll.{
  Ready, epollet, event_read, event_write, event_level, has, kev_events, revent_of,
}

abbrev same : Bool → Bool → Bool
same a b = if a then b else not b

same→eq : (a b : Bool) → same a b ≡ true → a ≡ b
same→eq true b h = sym h
same→eq false true h = cc
same→eq false false h = refl

-- a kernel that reports all that it was told, for a descriptor that is ready
abbrev pub all_ready : (bitadd descriptor : ℕ) → Ready
all_ready bitadd descriptor = record { events = kev_events bitadd; descriptor = descriptor }

-- Of flags below 16, `event_epoll_revent` gives back the reading and writing that
-- `event_epoll_add` asks for, and the trigger is by edge unless the flags say by level.
pub revent_of-kev_events :
    (bitadd descriptor : ℕ)
    → bitadd < 16
    → (revent_of (all_ready bitadd descriptor) ≡ bit_and bitadd (bit_or event_read event_write))
      × (has (kev_events bitadd) epollet ≡ not (has bitadd event_level))
unfolding revent_of kev_events table
revent_of-kev_events bitadd descriptor small = (
  ==→eq _ _ (entry (λ b. revent_of (all_ready b 0) == bit_and b 3) 16 bitadd refl small),
  same→eq _ _ (
      entry (λ b. same (has (kev_events b) epollet) (not (has b event_level))) 16 bitadd refl
        small),
)
