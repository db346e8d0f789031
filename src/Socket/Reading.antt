-- ===== src/Socket/Reading.antt =====
-- The bytes that `ape_socket_read` takes in, against the answers of the system.
use zape.Base.{
  ℕ, ◌+◌, ◌*◌, ◌^◌, ◌≤◌, ◌<◌, ◌≡◌, refl, sym, ap, ◌∙◌, Bool, true, false, not, ◌&&◌, Option, some,
  List, [], ◌∷◌, ◌++◌, length, take, drop, if◌then◌else◌, arith, append_assoc, append-nil,
  length-append, length-take, length-drop, take-append_le, take-length,
}
use zape.Base.Fault.{copy, copy-drop}
use zape.Buffer.State.{Buffer, bytes, add_size, enlarge, prepare}
use zape.Buffer.Growth.{IsValid, contents, prepare-Grown}
use zape.Buffer.Tail.{block_of}
use zape.Socket.Types.{online, World, is_shutdown, is_ssl}
use zape.Socket.Close.{read_end}
use zape.Socket.Lifecycle.{IsSound, state_of_alive}
use zape.Socket.Read.{Answer, got, again, interrupted, failed, take_in, read_loop, deliver, read}
use zape.Socket.Handing.{handed, deliver-handed, read_end_run}

-- the bytes given up to the answer that ends the loop, and whether that is an end or an error
abbrev pub received : List Answer → List ℕ
received (got (x ∷ xs) ∷ answers) = (x ∷ xs) ++ received answers
received (interrupted ∷ answers) = received answers
received _ = []

abbrev pub stream_over : List Answer → Bool
stream_over [] = false
stream_over (got (x ∷ xs) ∷ answers) = stream_over answers
stream_over (got [] ∷ answers) = true
stream_over (interrupted ∷ answers) = stream_over answers
stream_over (again ∷ answers) = false
stream_over (failed ∷ answers) = true

take_in_run :
    (c : Buffer) (xs d d' : List ℕ)
    → c.block ≡ some d
    → copy d c.used xs ≡ some d'
    → take_in c xs ≡ some (record c { block = some d'; used = add_size c.used (length xs) })
unfolding take_in
take_in_run c xs d d' e run = rw (e, run) refl

take_in_lem :
    (c : Buffer) (xs : List ℕ)
    → IsValid c
    → 0 < length xs
    → c.used + length xs ≤ c.size
    → c.size < 2 ^ 64
    → (b' : Buffer) × (take_in c xs ≡ some b')
      × IsValid b'
      × (contents b' ≡ contents c ++ xs)
      × (b'.size ≡ c.size)
take_in_lem c xs v pos fits small =
    let (d, e) = block_of c.block (omega (arith, v.sized)) in
    let sized : length d ≡ c.size = ap (λ o. length (bytes o)) (sym e) ∙ v.sized in
    let front = take c.used d ++ xs in
    let rest = drop (length xs) (drop c.used d) in
    let d' = take c.used d ++ (xs ++ rest) in
    let run : copy d c.used xs ≡ some d' = copy-drop d c.used xs (omega (arith, sized)) in
    let total : add_size c.used (length xs) ≡ c.used + length xs = omega arith in
    let long : length front ≡ c.used + length xs =
      omega (arith, length-append (take c.used d) xs, length-take c.used d, sized, v.within) in
    let b' : Buffer = record c { block = some d'; used = add_size c.used (length xs) } in
    let size' : length d' ≡ c.size = omega (
      arith,
      length-append (take c.used d) (xs ++ rest),
      length-append xs rest,
      length-take c.used d,
      length-drop (length xs) (drop c.used d),
      length-drop c.used d,
      sized,
      v.within,
    ) in
    let kept : take (add_size c.used (length xs)) d' ≡ front =
      ap (λ n. take n d') (total ∙ sym long)
      ∙ ap (take (length front)) (sym (append_assoc (take c.used d) xs rest))
      ∙ take-append_le (length front) front rest (omega arith)
      ∙ take-length front in
    let same : front ≡ contents c ++ xs = ap (λ o. take c.used (bytes o) ++ xs) (sym e) in
    (
      b',
      take_in_run c xs d d' e run,
      record { sized = size'; within = omega arith },
      kept ∙ same,
      refl,
    )

-- the loop's result: a valid buffer with the bytes of the answers behind those of before
abbrev pub Filled : Option (Buffer × Bool) → Buffer → List Answer → Type 0
Filled r b answers =
    (b' : Buffer) × (r ≡ some (b', stream_over answers))
    × IsValid b'
    × (contents b' ≡ contents b ++ received answers)

module _ (junk : ℕ → ℕ) where
  -- the buffer before a call of `read`
  abbrev prepared : Bool → Buffer → Buffer
  prepared fresh b = if fresh then prepare junk b 2048 else b

  -- An answer has no more bytes than there is room for, and one ends the loop.
  abbrev pub Fits : List Answer → (fresh : Bool) → Buffer → Type 0
  Fits [] fresh b = ⊥
  Fits (interrupted ∷ answers) fresh b = Fits answers false (prepared fresh b)
  Fits (got (x ∷ xs) ∷ answers) fresh b =
      ((prepared fresh b).used + length (x ∷ xs) ≤ (prepared fresh b).size)
      × ((b' : Buffer) → take_in (prepared fresh b) (x ∷ xs) ≡ some b' → Fits answers true b')
  Fits _ fresh b = Unit

  prepare_size : (b : Buffer) → (prepare junk b 2048).size ≤ b.size + 2048
  unfolding prepare enlarge
  prepare_size b = ground arith

  prepared_lem :
      (fresh : Bool) (b : Buffer)
      → IsValid b
      → b.size + 2049 < 2 ^ 64
      → IsValid (prepared fresh b)
        × (contents (prepared fresh b) ≡ contents b)
        × ((prepared fresh b).size ≤ b.size + 2048)
  prepared_lem false b v h = (v, refl, omega arith)
  prepared_lem true b v h =
      let g = prepare-Grown junk b v 2048 (omega arith) in (g.valid, g.same, prepare_size b)

  pub read_loop-Filled :
      (answers : List Answer) (fresh : Bool) (b : Buffer)
      → IsValid b
      → b.size + 2049 * length answers < 2 ^ 64
      → Fits answers fresh b
      → Filled (read_loop junk answers fresh b) b answers
  unfolding read_loop
  read_loop-Filled [] fresh b v h fits = absurd fits
  read_loop-Filled (interrupted ∷ answers) fresh b v h fits =
      let (v', same, n) = prepared_lem fresh b v (omega arith) in
      let (b', e, w, k) = read_loop-Filled answers false (prepared fresh b) v' (omega arith) fits in
      (b', e, w, k ∙ ap (λ cs. cs ++ received answers) same)
  read_loop-Filled (again ∷ answers) fresh b v h fits =
      let (v', same, n) = prepared_lem fresh b v (omega arith) in
      (prepared fresh b, refl, v', same ∙ sym (append-nil (contents b)))
  read_loop-Filled (failed ∷ answers) fresh b v h fits =
      let (v', same, n) = prepared_lem fresh b v (omega arith) in
      (prepared fresh b, refl, v', same ∙ sym (append-nil (contents b)))
  read_loop-Filled (got [] ∷ answers) fresh b v h fits =
      let (v', same, n) = prepared_lem fresh b v (omega arith) in
      (prepared fresh b, refl, v', same ∙ sym (append-nil (contents b)))
  read_loop-Filled (got (x ∷ xs) ∷ answers) fresh b v h (room, next) =
      let (v', same, n) = prepared_lem fresh b v (omega arith) in
      let (c, run, vc, cs, size) =
        take_in_lem (prepared fresh b) (x ∷ xs) v' (omega arith) room (omega arith) in
      let (b', e, w, k) = read_loop-Filled answers true c vc (omega arith) (next c run) in
      (
        b',
        simp run e,
        w,
        k
            ∙ ap (λ t. t ++ received answers) (cs ∙ ap (λ t. t ++ x ∷ xs) same)
            ∙ append_assoc (contents b) (x ∷ xs) (received answers),
      )

  module _ (on_read : Option (List ℕ → World → Option World)) where
    read_run :
        (answers : List Answer) (w w₁ w₂ : World) (b c : Buffer) (ended : Bool)
        → w.freed ≡ false
        → w.sock.state ≡ online
        → is_ssl w.sock.proto ≡ false
        → read_loop junk answers true b ≡ some (c, ended)
        → deliver on_read w c ≡ some w₁
        → w₁.freed ≡ false
        → read_end w₁ ended ≡ some w₂
        → read junk on_read answers w b
          ≡ some (w₂, record c { used = 0 }, ended && not (is_shutdown w₁.sock.state))
    unfolding read
    read_run answers w w₁ w₂ b c ended f o p loop call f₁ fin =
        rw (state_of_alive w f ∙ ap some o, p, loop, call, state_of_alive w₁ f₁, fin, if◌then◌else◌)
          refl

    -- An online socket without TLS that is not freed, with a valid and empty buffer that has room for each answer
    -- and whose size stays in a machine word, hands the bytes of all answers, in their order, to
    -- `on_read` in one call, or calls nothing if there are none; this is to return and to leave a sound
    -- socket that is not freed. If the stream has then ended or failed, the call does to the socket what the
    -- end of `ape_socket_read` does, and it returns -1 unless the socket is shut down. The
    -- buffer is left valid and empty.
    pub read-received :
        (answers : List Answer) (w w₁ : World) (b : Buffer)
        → w.freed ≡ false
        → w.sock.state ≡ online
        → is_ssl w.sock.proto ≡ false
        → IsValid b
        → b.used ≡ 0
        → b.size + 2049 * length answers < 2 ^ 64
        → Fits answers true b
        → handed on_read (received answers) w ≡ some w₁
        → w₁.freed ≡ false
        → IsSound w₁
        → (w₂ : World) × (b' : Buffer) × (read junk on_read answers w b
            ≡ some (w₂, b', stream_over answers && not (is_shutdown w₁.sock.state)))
          × (read_end w₁ (stream_over answers) ≡ some w₂)
          × IsValid b'
          × (b'.used ≡ 0)
    read-received answers w w₁ b f o p v u h fits run f₁ sound =
        let (c, loop, vc, cs) = read_loop-Filled answers true b v h fits in
        let bytes_in : contents c ≡ received answers =
          cs ∙ ap (λ n. take n (bytes b.block) ++ received answers) u in
        let (w₂, end_run) = read_end_run w₁ (stream_over answers) sound f₁ in
        let call : deliver on_read w c ≡ some w₁ =
          deliver-handed on_read w c vc f o ∙ ap (λ t. handed on_read t w) bytes_in ∙ run in
        (
          w₂,
          record c { used = 0 },
          read_run answers w w₁ w₂ b c (stream_over answers) f o p loop call f₁ end_run,
          end_run,
          record { sized = vc.sized; within = omega arith },
          refl,
        )
