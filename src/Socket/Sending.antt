-- ===== src/Socket/Sending.antt =====
-- The packets of a job after a call of `writev`: which are sent, and what is left of them.
use zape.Base.{
  ℕ, suc, ◌+◌, ◌-◌, ◌≤◌, ◌<◌, ◌≡◌, refl, sym, ap, ◌∙◌, true, false, Option, none, some, List, [],
  ◌∷◌, ◌++◌, take, drop, length, length-take, length-drop, drop-take, drop-drop, ltb, ◌==◌,
  if◌then◌else◌, arith,
}
use zape.Pool.State.{Ptr, null, PoolList, set_item}
use zape.Pool.Seg.{Cell, IsPool}
use zape.Pool.ToItem.{holding, set_item-IsPool, IsPool-next}
use zape.Pool.ToCurrent.{slot_of}
use zape.Pool.ToQueue.{head_to_queue-IsPool}
use zape.Socket.Types.{
  DataType, static, global_static, autorelease, own, copied, Event, transmitted, Packet, World,
}
use zape.Socket.Write.{release}
use zape.Socket.DoJobs.{retire, settle_packets}

-- the bytes of a packet that are to be sent
abbrev pub within : Option (List ℕ) → (len offset : ℕ) → List ℕ
within none len offset = []
within (some b) len offset = take (len - offset) (drop offset b)

abbrev pub part : Packet → List ℕ
part p = within p.block p.len p.offset

abbrev pub pending : List (Cell Packet) → List ℕ
pending [] = []
pending (c ∷ cs) = part c.item ++ pending cs

-- what the system has taken, the last event first in the log
abbrev pub bytes_of : List Event → List ℕ
bytes_of [] = []
bytes_of (transmitted bytes ∷ log) = bytes_of log ++ bytes
bytes_of (_ ∷ log) = bytes_of log

pub bytes_of-release : (w : World) (t : DataType) → bytes_of (release w t).log ≡ bytes_of w.log
unfolding release
bytes_of-release w static = refl
bytes_of-release w global_static = refl
bytes_of-release w autorelease = refl
bytes_of-release w own = refl
bytes_of-release w copied = refl

-- a packet with data, in its bounds
abbrev pub IsFilled : Packet → Type 0
IsFilled p = (b : List ℕ) × (p.block ≡ some b) × (p.offset ≤ p.len) × (p.len ≤ length b)

abbrev pub AllFilled : List (Cell Packet) → Type 0
AllFilled [] = Unit {0}
AllFilled (c ∷ cs) = IsFilled c.item × AllFilled cs

abbrev pub AllEmpty : List (Cell Packet) → Type 0
AllEmpty [] = Unit {0}
AllEmpty (c ∷ cs) = (c.item.block ≡ none) × AllEmpty cs

pub part-length : (p : Packet) → IsFilled p → length (part p) ≡ p.len - p.offset
part-length p (b, e, le, fits) =
    ap (λ x. length (within x p.len p.offset)) e
    ∙ omega (arith, length-take (p.len - p.offset) (drop p.offset b), length-drop p.offset b)

-- the packet after `n` of its bytes
abbrev pub advanced : ℕ → Packet → Packet
advanced n p = record p { offset = p.len - (p.len - p.offset - n) }

pub part-advanced :
    (n : ℕ) (p : Packet) → IsFilled p → n < p.len - p.offset → part (advanced n p) ≡ drop n (part p)
part-advanced n p (b, e, le, fits) short =
    let at : p.len - (p.len - p.offset - n) ≡ p.offset + n = omega arith in
    let more : p.len - (p.offset + n) ≡ p.len - p.offset - n = omega arith in
    let left : take (p.len - (p.offset + n)) (drop (p.offset + n) b)
        ≡ drop n (take (p.len - p.offset) (drop p.offset b)) =
      ap (λ k. take k (drop (p.offset + n) b)) more
      ∙ ap (take (p.len - p.offset - n)) (sym (drop-drop n p.offset b))
      ∙ sym (drop-take n (p.len - p.offset) (drop p.offset b)) in
    ap (λ x. within x p.len (p.len - (p.len - p.offset - n))) e
    ∙ ap (λ o. take (p.len - o) (drop o b)) at
    ∙ left
    ∙ ap (λ x. drop n (within x p.len p.offset)) (sym e)

-- the slot of the first cell of a list
pub head_slot :
    (q : PoolList Packet) (c : Cell Packet) (cs : List (Cell Packet))
    → IsPool q (c ∷ cs)
    → (next before : Ptr) × (q.mem q.head ≡ some (slot_of c next before))
      × ((q.head == null) ≡ false)
      × (q.head ≡ c.at)
head_slot q c cs v =
    let (next, before, e, g) = IsPool-next q [] cs c v in
    (next, before, ap q.mem v.chain.0 ∙ e, ground (arith, v.chain.0, v.chain.1), v.chain.0)

-- a packet that has been sent
abbrev pub emptied : Cell Packet → Cell Packet
emptied c = holding c (let p = c.item in record p { block = none })

-- the loop at an empty packet
pub settle_empty :
    (k n : ℕ) (w : World) (q : PoolList Packet) (c : Cell Packet) (cs : List (Cell Packet))
    → IsPool q (c ∷ cs)
    → c.item.block ≡ none
    → settle_packets (suc k) n w q ≡ some (w, q)
unfolding settle_packets
settle_empty k n w q c cs v none_left =
    let (next, before, found, ptr, at) = head_slot q c cs v in ground (arith, found, ptr, none_left)

pub settle_part :
    (k n : ℕ) (w : World) (q : PoolList Packet) (c : Cell Packet) (cs back : List (Cell Packet))
    → IsPool q (c ∷ (cs ++ back))
    → IsFilled c.item
    → ltb n (c.item.len - c.item.offset) ≡ true
    → (q' : PoolList Packet) × (settle_packets (suc k) n w q ≡ some (w, q'))
      × IsPool q' (holding c (advanced n c.item) ∷ (cs ++ back))
unfolding settle_packets
settle_part k n w q c cs back v (b, e, le, fits) short =
    let (next, before, found, ptr, at) = head_slot q c (cs ++ back) v in
    let (mem, run, v') = set_item-IsPool q [] (cs ++ back) c (advanced n c.item) v in
    let run' : set_item q.mem q.head (advanced n c.item) ≡ some mem =
      ap (λ a. set_item q.mem a (advanced n c.item)) at ∙ run in
    (record q { mem = mem }, ground (arith, found, ptr, e, short, run'), v')

pub settle_whole :
    (k n : ℕ) (w : World) (q : PoolList Packet) (c : Cell Packet) (mid : List (Cell Packet))
    (z : Cell Packet)
    → IsPool q (c ∷ (mid ++ z ∷ []))
    → IsFilled c.item
    → ltb n (c.item.len - c.item.offset) ≡ false
    → (q' : PoolList Packet) × (settle_packets (suc k) n w q ≡ (
        let left = n - (c.item.len - c.item.offset) in
        let w₁ = release w c.item.data_type in
        if left == 0 then some (w₁, q') else settle_packets k left w₁ q'))
      × IsPool q' (mid ++ z ∷ emptied c ∷ [])
unfolding settle_packets retire
settle_whole k n w q c mid z v (b, e, le, fits) long =
    let (next, before, found, ptr, at) = head_slot q c (mid ++ z ∷ []) v in
    let gone : Packet = let p = c.item in record p { block = none } in
    let (mem, run, v') = set_item-IsPool q [] (mid ++ z ∷ []) c gone v in
    let run' : set_item q.mem q.head gone ≡ some mem = ap (λ a. set_item q.mem a gone) at ∙ run in
    let (q', moved, v₁, here) =
      head_to_queue-IsPool (record q { mem = mem }) (emptied c) z mid v' in
    (q', ground (arith, found, ptr, e, long, run', moved), v₁)
