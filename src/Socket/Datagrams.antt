-- ===== src/Socket/Datagrams.antt =====
-- The datagrams of `ape_socket_read_udp` as calls of `on_message`.
use zape.Base.{
  ℕ, suc, ◌-◌, ◌<◌, ◌≡◌, refl, sym, ap, ◌∙◌, Option, none, some, List, [], ◌∷◌, ◌++◌, length, take,
  drop, arith, length-append, length-drop, take-append_le, take-length,
}
use zape.Base.Fault.{◌>>=◌, copy, store, copy-drop, store-append, bind_assoc}
use zape.Buffer.Tail.{drop-suc}
use zape.Socket.Types.{World}
use zape.Socket.Read.{Answer, got, again, interrupted, failed, read_datagrams, max_packet}

-- each datagram is shorter than the buffer
abbrev pub Short : List Answer → Type 0
Short [] = Unit
Short (got xs ∷ answers) = (length xs < max_packet) × Short answers
Short (a ∷ answers) = Short answers

bind_ext :
    {A B : Type 0} (m : Option A) (f g : A → Option B)
    → ((a : A) → f a ≡ g a)
    → (m >>= f) ≡ (m >>= g)
bind_ext none f g h = refl
bind_ext (some a) f g h = h a

module _ (on_message : Option (List ℕ → World → Option World)) where
  -- one datagram for `on_message`, if it is set
  abbrev pub told : List ℕ → World → Option World
  told xs w = elim on_message [ none ↦ some w | some f ↦ f xs w ]

  -- the datagrams one by one, up to an answer that ends the loop
  abbrev pub told_each : List Answer → World → Option World
  told_each [] w = none
  told_each (got (x ∷ xs) ∷ answers) w = told (x ∷ xs) w >>= λ w'. told_each answers w'
  told_each (a ∷ answers) w = some w

  stored :
      (buff xs : List ℕ)
      → length xs < length buff
      → (y : List ℕ) × ((copy buff 0 xs >>= λ b. store b (length xs) 0) ≡ some (xs ++ y))
        × (length (xs ++ y) ≡ length buff)
  stored buff xs h =
      let (x, split) = drop-suc (length xs) buff h in
      let rest = drop (suc (length xs)) buff in
      let n : length (x ∷ rest) ≡ length buff - length xs =
        ap length (sym split) ∙ length-drop (length xs) buff in
      (
        0 ∷ rest,
        rw (copy-drop buff 0 xs (omega arith), split) (store-append xs x rest (length xs) 0 refl),
        omega (arith, n, length-append xs (0 ∷ rest)),
      )

  -- `ape_socket_read_udp` with a buffer of 65535 bytes, which datagrams shorter than that leave, calls `on_message`, if
  -- it is set, once for each datagram, in their order, with its bytes and no others, until an answer
  -- that is empty or an error.
  pub read_datagrams-told_each :
      (answers : List Answer) (buff : List ℕ) (w : World)
      → length buff ≡ max_packet
      → Short answers
      → read_datagrams on_message answers buff w ≡ told_each answers w
  unfolding read_datagrams
  read_datagrams-told_each [] buff w e h = refl
  read_datagrams-told_each (again ∷ answers) buff w e h = refl
  read_datagrams-told_each (interrupted ∷ answers) buff w e h = refl
  read_datagrams-told_each (failed ∷ answers) buff w e h = refl
  read_datagrams-told_each (got [] ∷ answers) buff w e h = refl
  read_datagrams-told_each (got (x ∷ xs) ∷ answers) buff w e (short, h) =
      let (y, run, n) = stored buff (x ∷ xs) (omega arith) in
      let next : List ℕ → World → Option World = λ b w'. read_datagrams on_message answers b w' in
      sym (
        bind_assoc (copy buff 0 (x ∷ xs)) (λ b. store b (length (x ∷ xs)) 0)
          (λ b. told (take (length (x ∷ xs)) b) w >>= next b))
      ∙ rw (run, take-append_le (length (x ∷ xs)) (x ∷ xs) y (omega arith) ∙ take-length (x ∷ xs))
          (bind_ext (told (x ∷ xs) w) (next ((x ∷ xs) ++ y)) (told_each answers)
            (λ w'. read_datagrams-told_each answers ((x ∷ xs) ++ y) w' (n ∙ e) h))
