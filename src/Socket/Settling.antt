-- ===== src/Socket/Settling.antt =====
-- The loop over the packets of a job after a call of `writev`, as a whole.
use mathlib.Core.Path.{subst, subst⁻¹}
use zape.Base.{
  ℕ, zero, suc, ◌-◌, ◌≤◌, ◌<◌, ◌≡◌, refl, sym, ap, ◌∙◌, Option, none, some, List, [], ◌∷◌, ◌++◌,
  drop, length, length-append, drop-append_le, drop-append_ge, ltb, ◌==◌, arith, append_assoc,
  ==→eq, Bool-cases, inl, inr,
}
use zape.Pool.State.{PoolList}
use zape.Pool.Seg.{Cell, IsPool}
use zape.Pool.ToItem.{holding}
use zape.Socket.Types.{Packet, World}
use zape.Socket.Write.{release}
use zape.Socket.DoJobs.{settle_packets}
use zape.Socket.Sending.{
  part, pending, bytes_of, bytes_of-release, AllFilled, AllEmpty, part-length, advanced,
  part-advanced, emptied, settle_empty, settle_part, settle_whole,
}

-- What settling `n` bytes comes to: `full` filled packets, then empty ones, the last of them `z`.
abbrev pub Settled :
    World → (n : ℕ) (full : List (Cell Packet)) → Option (World × PoolList Packet) → Type 0
Settled w n full o =
    (w' : World) × (q' : PoolList Packet) × (full' spare' : List (Cell Packet)) × (z' : Cell Packet)
    × (o ≡ some (w', q'))
    × IsPool q' (full' ++ (spare' ++ z' ∷ []))
    × (pending full' ≡ drop n (pending full))
    × AllFilled full'
    × AllEmpty (spare' ++ z' ∷ [])
    × (bytes_of w'.log ≡ bytes_of w.log)
    × (length full' ≤ length full)

AllEmpty-append :
    (cs : List (Cell Packet)) (c : Cell Packet)
    → AllEmpty cs
    → c.item.block ≡ none
    → AllEmpty (cs ++ c ∷ [])
AllEmpty-append [] c es e = (e, tt)
AllEmpty-append (d ∷ cs) c (e₁, es) e = (e₁, AllEmpty-append cs c es e)

none_left : (n : ℕ) → pending [] ≡ drop n (pending [])
none_left zero = refl
none_left (suc n) = refl

pub settle_packets-Settled :
    (k n : ℕ) (w : World) (q : PoolList Packet) (full spare : List (Cell Packet)) (z : Cell Packet)
    → IsPool q (full ++ (spare ++ z ∷ []))
    → AllFilled full
    → AllEmpty (spare ++ z ∷ [])
    → length full < k
    → n ≤ length (pending full)
    → Settled w n full (settle_packets k n w q)
settle_packets-Settled zero n w q full spare z v fs es enough fits = absurd (omega arith)
settle_packets-Settled (suc k) n w q [] [] z v fs es enough fits =
    (w, q, [], [], z, settle_empty k n w q z [] v es.0, v, none_left n, tt, es, refl, omega arith)
settle_packets-Settled (suc k) n w q [] (s ∷ spare) z v fs es enough fits = (
  w,
  q,
  [],
  s ∷ spare,
  z,
  settle_empty k n w q s (spare ++ z ∷ []) v es.0,
  v,
  none_left n,
  tt,
  es,
  refl,
  omega arith,
)
settle_packets-Settled (suc k) n w q (c ∷ cs) spare z v (f, fs) es enough fits =
    let p = c.item in
    let left = p.len - p.offset in
    let measured = part-length p f in
    elim (Bool-cases (ltb n left)) [
      | inl short ↦
          let (q', run, v') = settle_part k n w q c cs (spare ++ z ∷ []) v f short in
          let less : n < left = ground (arith, short) in
          let rest : part (advanced n p) ++ pending cs ≡ drop n (part p ++ pending cs) =
            ap (λ x. x ++ pending cs) (part-advanced n p f less)
            ∙ sym (drop-append_le n (part p) (pending cs) (omega arith)) in
          (
            w,
            q',
            holding c (advanced n p) ∷ cs,
            spare,
            z,
            run,
            v',
            rest,
            ((f.0, f.1, omega arith, f.3), fs),
            es,
            refl,
            omega arith,
          )
      | inr long ↦
          let mid = cs ++ spare in
          let joined = append_assoc cs spare (z ∷ []) in
          let (q', run, v') =
            settle_whole k n w q c mid z (subst⁻¹ (λ x. IsPool q (c ∷ x)) joined v) f long in
          let last = emptied c in
          let shape : mid ++ z ∷ last ∷ [] ≡ cs ++ ((spare ++ z ∷ []) ++ last ∷ []) =
            append_assoc cs spare (z ∷ last ∷ [])
            ∙ ap (λ x. cs ++ x) (sym (append_assoc spare (z ∷ []) (last ∷ []))) in
          let v₁ = subst (IsPool q') shape v' in
          let es' = AllEmpty-append (spare ++ z ∷ []) last es refl in
          let w₁ = release w p.data_type in
          let at_least : left ≤ n = ground (arith, long) in
          let rest : drop n (part p ++ pending cs) ≡ drop (n - left) (pending cs) =
            drop-append_ge n (part p) (pending cs) (omega arith)
            ∙ ap (λ x. drop (n - x) (pending cs)) measured in
          elim (Bool-cases (n - left == 0)) [
            | inl stop ↦ (
              w₁,
              q',
              cs,
              spare ++ z ∷ [],
              last,
              run ∙ simp stop refl,
              v₁,
              sym (rest ∙ ap (λ x. drop x (pending cs)) (==→eq (n - left) 0 stop)),
              fs,
              es',
              bytes_of-release w p.data_type,
              omega arith,
            )
            | inr more ↦
                let (w', q₂, full', spare', z', run', v₂, bytes, fs', es₂, kept, shorter) =
                  settle_packets-Settled k (n - left) w₁ q' cs (spare ++ z ∷ []) last v₁ fs es'
                    (omega arith) (omega (arith, length-append (part p) (pending cs))) in
                (
                  w',
                  q₂,
                  full',
                  spare',
                  z',
                  run ∙ simp more run',
                  v₂,
                  bytes ∙ sym rest,
                  fs',
                  es₂,
                  kept ∙ bytes_of-release w p.data_type,
                  omega arith,
                )
          ]
    ]
