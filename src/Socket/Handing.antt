-- ===== src/Socket/Handing.antt =====
-- What `ape_socket_read` hands to `on_read`, and its end.
use zape.Base.{
  ℕ, ◌≤◌, ◌<◌, ◌≡◌, refl, sym, ap, ◌∙◌, Bool, true, false, Option, none, some, List, [], ◌∷◌,
  length, take, ◌==◌, if◌then◌else◌, arith, Bool-cases, inl, inr, length-take, ==→eq,
}
use zape.Buffer.State.{Buffer, bytes}
use zape.Buffer.Growth.{IsValid, contents}
use zape.Buffer.Tail.{block_of}
use zape.Socket.Types.{online, World, is_shutdown}
use zape.Socket.Close.{read_end}
use zape.Socket.Lifecycle.{IsSound, read_end-Over, state_of_alive}
use zape.Socket.Read.{deliver}

-- `on_read` on the bytes, if it is set and there are any
abbrev pub handed : Option (List ℕ → World → Option World) → List ℕ → World → Option World
handed none cs w = some w
handed (some f) [] w = some w
handed (some f) (c ∷ cs) w = f (c ∷ cs) w

pub handed_empty :
    (on_read : Option (List ℕ → World → Option World)) (w : World) → handed on_read [] w ≡ some w
handed_empty none w = refl
handed_empty (some f) w = refl

pub handed_call :
    (f : List ℕ → World → Option World) (cs : List ℕ) (w : World)
    → 0 < length cs
    → handed (some f) cs w ≡ f cs w
handed_call f [] w h = absurd (omega arith)
handed_call f (c ∷ cs) w h = refl

deliver-some :
    (on_read : Option (List ℕ → World → Option World)) (w : World) (c : Buffer) (d : List ℕ)
    → c.block ≡ some d
    → c.used ≤ length d
    → c.used == 0 ≡ false
    → w.freed ≡ false
    → w.sock.state ≡ online
    → deliver on_read w c ≡ handed on_read (take c.used d) w
unfolding deliver
deliver-some none w c d e h u f o = simp (u, if◌then◌else◌)
deliver-some (some g) w c d e h u f o =
    rw (u, state_of_alive w f ∙ ap some o, e, if◌then◌else◌, is_shutdown)
      (sym (handed_call g (take c.used d) w (ground (arith, length-take c.used d))))

deliver-none :
    (on_read : Option (List ℕ → World → Option World)) (w : World) (c : Buffer)
    → c.used == 0 ≡ true
    → deliver on_read w c ≡ some w
unfolding deliver
deliver-none on_read w c u = simp (u, if◌then◌else◌)

read_end_open : (w : World) → w.freed ≡ false → read_end w false ≡ some w
unfolding read_end
read_end_open w f = simp (state_of_alive w f, if◌then◌else◌)

-- `on_read` gets what is in use of the buffer.
pub deliver-handed :
    (on_read : Option (List ℕ → World → Option World)) (w : World) (c : Buffer)
    → IsValid c
    → w.freed ≡ false
    → w.sock.state ≡ online
    → deliver on_read w c ≡ handed on_read (contents c) w
deliver-handed on_read w c v f o = elim (Bool-cases (c.used == 0)) [
  | inl u ↦
      deliver-none on_read w c u
      ∙ sym (handed_empty on_read w)
      ∙ ap (λ n. handed on_read (take n (bytes c.block)) w) (sym (==→eq c.used 0 u))
  | inr u ↦
      let (d, e) = block_of c.block (ground (arith, v.sized, v.within)) in
      let held : length d ≡ c.size = ap (λ o. length (bytes o)) (sym e) ∙ v.sized in
      deliver-some on_read w c d e (omega (arith, held, v.within)) u f o
      ∙ ap (λ x. handed on_read (take c.used (bytes x)) w) (sym e)
]

pub read_end_run :
    (w : World) (ended : Bool)
    → IsSound w
    → w.freed ≡ false
    → (w' : World) × (read_end w ended ≡ some w')
read_end_run w true h f = let (w', run, h', f', o) = read_end-Over w h f in (w', run)
read_end_run w false h f = (w, read_end_open w f)
