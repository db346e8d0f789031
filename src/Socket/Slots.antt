-- ===== src/Socket/Slots.antt =====
-- `ape_socket_job_get_slot` on the sequence of the job slots.
use Prim.Native.Nat.{bit_or}
use mathlib.Core.Path.{subst⁻¹}
use zape.Base.{
  ℕ, ◌<◌, ◌≡◌, ◌≢◌, refl, sym, ap, ◌∙◌, true, false, some, List, [], ◌∷◌, ◌++◌, ◌==◌, if◌then◌else◌,
  arith, eq→==, append_assoc,
}
use zape.Pool.State.{Ptr, null, pool_alloc, PoolList, Slot}
use zape.Pool.Seg.{Cell, Distinct, IsPool, Ends, Seg, Distinct-split, Ends-of_append}
use zape.Pool.ToCurrent.{slot_of}
use zape.Pool.ToItem.{altered, write-IsPool, IsPool-next, Ends-NotIn}
use zape.Pool.Grow.{block, grow_pool-IsPool}
use zape.Socket.Types.{Job, no_job, job_active}
use zape.Socket.Jobs.{set_flags, reusable, next_slot, get_slot}

-- `p->flags |= bits`
abbrev pub marked : Cell Job → ℕ → Cell Job
marked c bits = altered c c.item (bit_or c.flags bits)

set_flags-IsPool :
    (l : PoolList Job) (front back : List (Cell Job)) (c : Cell Job) (bits : ℕ)
    → IsPool l (front ++ c ∷ back)
    → (l' : PoolList Job) × (set_flags l c.at bits ≡ some l')
      × IsPool l' (front ++ marked c bits ∷ back)
      × (l'.current ≡ l.current)
unfolding set_flags
set_flags-IsPool l front back c bits v =
    let (next, before, e, w) = write-IsPool l front back c c.item (bit_or c.flags bits) v in
    (_, simp e, w, refl)

kept_run :
    (l l' : PoolList Job) (type : ℕ) (base : Ptr) (s : Slot Job)
    → l.mem l.current ≡ some s
    → reusable s.flags type ≡ true
    → set_flags l l.current (bit_or job_active type) ≡ some l'
    → get_slot l type base ≡ some (l', l.current)
unfolding get_slot
kept_run l l' type base s e keep f = simp (e, f) (simp (keep, if◌then◌else◌))

other_run :
    (l l₁ l₂ : PoolList Job) (type : ℕ) (base p : Ptr) (s : Slot Job)
    → l.mem l.current ≡ some s
    → reusable s.flags type ≡ false
    → next_slot l s.next base ≡ some (l₁, p)
    → set_flags (record l₁ { current = p }) p (bit_or job_active type) ≡ some l₂
    → get_slot l type base ≡ some (l₂, p)
unfolding get_slot
other_run l l₁ l₂ type base p s e keep f g = simp e (simp (keep, f, g, if◌then◌else◌))

-- A current slot that is inactive, or that collects data to write when such a slot is asked for,
-- is kept and marked active with its type.
pub get_slot_kept :
    (l : PoolList Job) (front back : List (Cell Job)) (c : Cell Job) (type : ℕ) (base : Ptr)
    → IsPool l (front ++ c ∷ back)
    → l.current ≡ c.at
    → reusable c.flags type ≡ true
    → (l' : PoolList Job) × (get_slot l type base ≡ some (l', c.at))
      × IsPool l' (front ++ marked c (bit_or job_active type) ∷ back)
      × (l'.current ≡ c.at)
get_slot_kept l front back c type base v here keep =
    let (next, before, e, _) = IsPool-next l front back c v in
    let (l', f, w, same) = set_flags-IsPool l front back c (bit_or job_active type) v in
    (
      l',
      kept_run l l' type base (slot_of c next before) (ap l.mem here ∙ e) keep
            (ap (λ p. set_flags l p (bit_or job_active type)) here ∙ f)
          ∙ ap (λ p. some (l', p)) here,
      w,
      same ∙ here,
    )

-- the slots behind the current one when another is asked for: those that are, or two new ones
abbrev pub more : (size : ℕ) → (base : Ptr) → List (Cell Job) → List (Cell Job)
more size base [] = block no_job size base pool_alloc 2
more size base (d ∷ ds) = d ∷ ds

next_slot-IsPool :
    (l : PoolList Job) (front back : List (Cell Job)) (c : Cell Job) (next base : Ptr)
    → IsPool l (front ++ c ∷ back)
    → l.current ≡ c.at
    → Seg l.mem next back null
    → 0 < base
    → Distinct (front ++ c ∷ (back ++ block no_job l.size base pool_alloc 2))
    → (l' : PoolList Job) × (d : Cell Job) × (ds : List (Cell Job)) × (more l.size base back
        ≡ d ∷ ds)
      × (next_slot l next base ≡ some (l', d.at))
      × IsPool l' (front ++ c ∷ d ∷ ds)
unfolding next_slot
next_slot-IsPool l front [] c next base v here g pos apart =
    let (l', run, w, _) = grow_pool-IsPool no_job l.size l front c 1 base v refl pos apart in
    let last : (l.current == l.queue) ≡ true =
      eq→== l.current l.queue (here ∙ sym (Ends-of_append l.queue front c [] v.ends)) in
    (l', _, _, refl, simp (last, run, if◌then◌else◌), w)
next_slot-IsPool l front (d ∷ ds) c next base v here g pos apart =
    let out = Distinct-split front c (d ∷ ds) v.apart in
    let ends : Ends l.queue (d ∷ ds) = Ends-of_append l.queue front c (d ∷ ds) v.ends in
    let ne : c.at ≢ l.queue = Ends-NotIn l.queue c.at (d ∷ ds) ends out.1 in
    let not_last : (l.current == l.queue) ≡ false = ground (arith, here, ne) in
    (l, d, ds, refl, simp (not_last, g.0, if◌then◌else◌), v)

-- When the current slot cannot be kept, the slot behind it, which is one that was there or the first
-- of two new ones, is marked active with the type asked for, and it is current then. The
-- hypotheses on `base` are those of `malloc`.
pub get_slot_other :
    (l : PoolList Job) (front back : List (Cell Job)) (c : Cell Job) (type : ℕ) (base : Ptr)
    → IsPool l (front ++ c ∷ back)
    → l.current ≡ c.at
    → reusable c.flags type ≡ false
    → 0 < base
    → Distinct (front ++ c ∷ (back ++ block no_job l.size base pool_alloc 2))
    → (l' : PoolList Job) × (d : Cell Job) × (ds : List (Cell Job)) × (more l.size base back
        ≡ d ∷ ds)
      × (get_slot l type base ≡ some (l', d.at))
      × IsPool l' ((front ++ c ∷ []) ++ marked d (bit_or job_active type) ∷ ds)
      × (l'.current ≡ d.at)
get_slot_other l front back c type base v here keep pos apart =
    let (next, before, e, g) = IsPool-next l front back c v in
    let (l₁, d, ds, shape, f, w) = next_slot-IsPool l front back c next base v here g pos apart in
    let regroup : (front ++ c ∷ []) ++ d ∷ ds ≡ front ++ c ∷ d ∷ ds = rw append_assoc refl in
    let u : IsPool l₁ ((front ++ c ∷ []) ++ d ∷ ds) = subst⁻¹ (IsPool l₁) regroup w in
    let at_d : IsPool (record l₁ { current = d.at }) ((front ++ c ∷ []) ++ d ∷ ds) = record {
      chain = u.chain;
      apart = u.apart;
      ends = u.ends;
    } in
    let (l₂, h, z, same) =
      set_flags-IsPool (record l₁ { current = d.at }) (front ++ c ∷ []) ds d
        (bit_or job_active type) at_d in
    (
      l₂,
      d,
      ds,
      shape,
      other_run l l₁ l₂ type base d.at (slot_of c next before) (ap l.mem here ∙ e) keep f h,
      z,
      same,
    )
