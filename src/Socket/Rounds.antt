-- ===== src/Socket/Rounds.antt =====
-- The rounds of `writev` for the packets of a job.
use mathlib.Core.Path.{subst}
use zape.Base.{
  ℕ, zero, suc, ◌+◌, ◌-◌, ◌≤◌, ◌<◌, ◌≡◌, refl, sym, ap, ◌∙◌, ◌⊎◌, inl, inr, Bool, true, false,
  Option, none, some, List, [], ◌∷◌, ◌++◌, take, drop, length, length-drop, ◌==◌, arith,
  append_assoc,
}
use zape.Base.Fault.{slice, slice-take, take-drop}
use zape.Pool.State.{Ptr, null, Mem, PoolList}
use zape.Pool.Seg.{Cell, Seg, IsPool}
use zape.Pool.ToCurrent.{slot_of}
use zape.Socket.Types.{Packet, World, emit, transmitted}
use zape.Socket.Write.{set_would_block}
use zape.Socket.DoJobs.{
  Answer, wrote, again, interrupted, failed, Outcome, finished, blocked, gather, unaccount,
  write_packets,
}
use zape.Socket.Sending.{within, part, pending, bytes_of, AllFilled, AllEmpty, head_slot}
use zape.Socket.Settling.{settle_packets-Settled}

gather_lem :
    (max : ℕ) (m : Mem Packet) (p : Ptr) (full : List (Cell Packet)) (s : Cell Packet)
    (spare : List (Cell Packet))
    → Seg m p (full ++ s ∷ spare) null
    → AllFilled full
    → s.item.block ≡ none
    → length full ≤ max
    → gather max m p ≡ some (pending full)
unfolding gather
gather_lem zero m p [] s spare g fs e enough = refl
gather_lem zero m p (c ∷ cs) s spare g fs e enough = absurd (omega arith)
gather_lem (suc max) m p [] s spare (at, ptr, next, (before, found), g) fs e enough =
    let here : m p ≡ some (slot_of s next before) = ap m at ∙ found in
    let no : (p == null) ≡ false = ground (arith, at, ptr) in ground (arith, here, no, e)
gather_lem (suc max) m p (c ∷ cs) s spare (at, ptr, next, (before, found), g) (f, fs) e enough =
    let here : m p ≡ some (slot_of c next before) = ap m at ∙ found in
    let no : (p == null) ≡ false = ground (arith, at, ptr) in
    let (b, filled, le, fits) = f in
    let k = c.item in
    let read : slice (drop k.offset b) (k.len - k.offset)
        ≡ some (take (k.len - k.offset) (drop k.offset b)) =
      slice-take (drop k.offset b) (k.len - k.offset) (omega (arith, length-drop k.offset b)) in
    let rest = gather_lem max m next cs s spare g fs e (omega arith) in
    let whole : part k ≡ take (k.len - k.offset) (drop k.offset b) =
      ap (λ x. within x k.len k.offset) filled in
    ground (arith, here, no, filled, read, rest, whole)

-- calls that succeed or are interrupted, and the bytes that they take
abbrev pub goes : List Answer → Bool
goes [] = true
goes (wrote n ∷ answers) = goes answers
goes (interrupted ∷ answers) = goes answers
goes (_ ∷ answers) = false

abbrev pub taken : List Answer → ℕ
taken [] = 0
taken (wrote n ∷ answers) = n + taken answers
taken (_ ∷ answers) = taken answers

first_of :
    (spare : List (Cell Packet)) (z : Cell Packet)
    → (s : Cell Packet) × (rest : List (Cell Packet)) × (spare ++ z ∷ [] ≡ s ∷ rest)
first_of [] z = (z, [], refl)
first_of (s ∷ spare) z = (s, spare ++ z ∷ [], refl)

List-cases :
    (l : List (Cell Packet))
    → (l ≡ []) ⊎ ((c : Cell Packet) × (cs : List (Cell Packet)) × (l ≡ c ∷ cs))
List-cases [] = inl refl
List-cases (c ∷ cs) = inr (c, cs, refl)

AllEmpty-first :
    (cs : List (Cell Packet)) (s : Cell Packet) (rest : List (Cell Packet))
    → cs ≡ s ∷ rest
    → AllEmpty cs
    → s.item.block ≡ none
AllEmpty-first cs s rest e es = (subst AllEmpty e es).0

-- What the rounds come to: all is sent, or the socket blocks and packets are left.
abbrev pub Sent :
    World → List (Cell Packet) → Option (Outcome × List Answer × World × PoolList Packet) → Type 0
Sent w full r =
    (o : Outcome) × (answers : List Answer) × (w' : World) × (q' : PoolList Packet) × (full'
      spare' : List (Cell Packet))
    × (z' : Cell Packet) × (r ≡ some (o, answers, w', q'))
    × IsPool q' (full' ++ (spare' ++ z' ∷ []))
    × AllFilled full'
    × AllEmpty (spare' ++ z' ∷ [])
    × (bytes_of w'.log ++ pending full' ≡ bytes_of w.log ++ pending full)
    × (((o ≡ finished) × (full' ≡ [])) ⊎ ((o ≡ blocked) × (0 < length full')))

module _ (max k : ℕ) where
  gather_all :
      (q : PoolList Packet) (full spare : List (Cell Packet)) (z : Cell Packet)
      → IsPool q (full ++ (spare ++ z ∷ []))
      → AllFilled full
      → AllEmpty (spare ++ z ∷ [])
      → length full ≤ max
      → gather max q.mem q.head ≡ some (pending full)
  gather_all q full spare z v fs es enough =
      let (s, rest, e) = first_of spare z in
      let v' = subst (λ x. IsPool q (full ++ x)) e v in
      gather_lem max q.mem q.head full s rest v'.chain fs
        (AllEmpty-first (spare ++ z ∷ []) s rest e es) enough

  -- For packets with data in their bounds, at least one and at most `max` and fewer than the fuel, before
  -- empty slots, and for answers to `writev` that take no more bytes than wait, some of them interrupted,
  -- and then EAGAIN: `write_packets` ends, the bytes that the system has taken followed by those that
  -- wait are the same as before, in order, and the queue again holds packets with data in their bounds
  -- before empty slots, none of them if the job is done, and some if the socket blocks.
  pub write_packets-Sent :
      (answers : List Answer) (w : World) (q : PoolList Packet) (c : Cell Packet)
      (cs spare : List (Cell Packet)) (z : Cell Packet)
      → IsPool q (c ∷ (cs ++ (spare ++ z ∷ [])))
      → AllFilled (c ∷ cs)
      → AllEmpty (spare ++ z ∷ [])
      → length (c ∷ cs) ≤ max
      → length (c ∷ cs) < k
      → goes answers ≡ true
      → taken answers ≤ length (pending (c ∷ cs))
      → Sent w (c ∷ cs) (write_packets (answers ++ again ∷ []) max k w q)
  unfolding write_packets unaccount
  write_packets-Sent [] w q c cs spare z v fs es fit fuel ok bytes =
      let got = gather_all q (c ∷ cs) spare z v fs es fit in
      (
        blocked,
        [],
        set_would_block w,
        q,
        c ∷ cs,
        spare,
        z,
        simp got refl,
        v,
        fs,
        es,
        refl,
        inr (refl, omega arith),
      )
  write_packets-Sent (interrupted ∷ answers) w q c cs spare z v fs es fit fuel ok bytes =
      let got = gather_all q (c ∷ cs) spare z v fs es fit in
      let (o, more, w', q', full', spare', z', run, v', fs', es', same, done) =
        write_packets-Sent answers w q c cs spare z v fs es fit fuel ok bytes in
      (o, more, w', q', full', spare', z', simp got run, v', fs', es', same, done)
  write_packets-Sent (again ∷ answers) w q c cs spare z v fs es fit fuel ok bytes = cc
  write_packets-Sent (failed ∷ answers) w q c cs spare z v fs es fit fuel ok bytes = cc
  write_packets-Sent (wrote n ∷ answers) w q c cs spare z v fs es fit fuel ok bytes =
      let full = c ∷ cs in
      let got = gather_all q full spare z v fs es fit in
      let w₀ = emit (unaccount w n) (transmitted (take n (pending full))) in
      let (w₁, q₁, full₁, spare₁, z₁, run₁, v₁, left, fs₁, es₁, kept, shorter) =
        settle_packets-Settled k n w₀ q full spare z v fs es fuel (omega arith) in
      let same : bytes_of w₁.log ++ pending full₁ ≡ bytes_of w.log ++ pending full =
        ap (λ x. x ++ pending full₁) kept
        ∙ append_assoc (bytes_of w.log) (take n (pending full)) (pending full₁)
        ∙ ap (λ x. bytes_of w.log ++ (take n (pending full) ++ x)) left
        ∙ ap (λ x. bytes_of w.log ++ x) (take-drop n (pending full)) in
      elim (List-cases full₁) [
        | inl e ↦
            let (s, rest, f) = first_of spare₁ z₁ in
            let first = AllEmpty-first (spare₁ ++ z₁ ∷ []) s rest f es₁ in
            let v₂ = subst (λ x. IsPool q₁ (x ++ (spare₁ ++ z₁ ∷ []))) e v₁ in
            let (next, before, found, ptr, at) = head_slot q₁ s rest (subst (IsPool q₁) f v₂) in
            (
              finished,
              answers ++ again ∷ [],
              w₁,
              q₁,
              full₁,
              spare₁,
              z₁,
              ground (arith, got, run₁, found, first),
              v₁,
              fs₁,
              es₁,
              same,
              inl (refl, e),
            )
        | inr (d, ds, e) ↦
            let v₂ = subst (λ x. IsPool q₁ (x ++ (spare₁ ++ z₁ ∷ []))) e v₁ in
            let fs₂ = subst AllFilled e fs₁ in
            let (b, filled, le, fits) = fs₂.0 in
            let (next, before, found, ptr, at) = head_slot q₁ d (ds ++ (spare₁ ++ z₁ ∷ [])) v₂ in
            let fewer = subst (λ x. length x ≤ length full) e shorter in
            let rest : pending (d ∷ ds) ≡ drop n (pending full) = ap pending (sym e) ∙ left in
            let count = ap length rest ∙ length-drop n (pending full) in
            let (o, more, w', q', full', spare', z', run, v', fs', es', all, done) =
              write_packets-Sent answers w₁ q₁ d ds spare₁ z₁ v₂ fs₂ es₁ (omega arith) (omega arith)
                ok (omega arith) in
            (
              o,
              more,
              w',
              q',
              full',
              spare',
              z',
              ground (arith, got, run₁, found, filled, run),
              v',
              fs',
              es',
              all ∙ ap (λ x. bytes_of w₁.log ++ pending x) (sym e) ∙ same,
              done,
            )
      ]
