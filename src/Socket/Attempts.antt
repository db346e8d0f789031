-- ===== src/Socket/Attempts.antt =====
-- The tries of `connect` in `ape_socket_connect_ready_to_connect`, by the answers of the system.
use mathlib.Core.Path.{subst⁻¹}
use zape.Base.{
  ℕ, zero, suc, ◌+◌, ◌<◌, ◌≡◌, refl, sym, ap, ◌∙◌, ◌⊎◌, inl, inr, Bool, true, false, ◌==◌, arith,
  Bool-cases, ==→eq,
}
use zape.Socket.Open.{
  Outcome, opened, unbound, failed, Try, done, under_way, unavailable, refused, attempt,
}

module _ (local_port : ℕ) (binds : ℕ → Bool) (connects : ℕ → Try) where
  -- no local port is asked for, or `bind` succeeds on it
  abbrev pub Bound : ℕ → Type 0
  Bound j = (local_port == 0 ≡ true) ⊎ (binds j ≡ true)

  -- each try before has ended with `EADDRNOTAVAIL`
  abbrev pub Retried : ℕ → Type 0
  Retried n = (j : ℕ) → j < n → Bound j × (connects j ≡ unavailable)

  -- one of the ten tries gets through, finds its local port taken, or is refused; or none gets through
  abbrev pub GetsThrough : Type 0
  GetsThrough =
      (n : ℕ) × (n < 10) × Retried n × Bound n × ((connects n ≡ done) ⊎ (connects n ≡ under_way))

  abbrev pub Unbindable : Type 0
  Unbindable = (n : ℕ) × (n < 10) × Retried n × (local_port == 0 ≡ false) × (binds n ≡ false)

  abbrev pub Rejected : Type 0
  Rejected = ((n : ℕ) × (n < 10) × Retried n × Bound n × (connects n ≡ refused)) ⊎ Retried 10

  abbrev pub Means : Outcome → Type 0
  Means opened = GetsThrough
  Means unbound = Unbindable
  Means failed = Rejected

  -- what a try that is bound comes to
  abbrev next : Try → (left n : ℕ) → Outcome
  next done left n = opened
  next under_way left n = opened
  next unavailable left n = attempt local_port binds connects left (n + 1)
  next refused left n = failed

  attempt-Bound :
      (left n : ℕ) (c : Try)
      → Bound n
      → connects n ≡ c
      → attempt local_port binds connects (suc left) n ≡ next c left n
  unfolding attempt
  attempt-Bound left n done (inl b) e = rw (b, e) refl
  attempt-Bound left n done (inr b) e = ground (arith, b, e)
  attempt-Bound left n under_way (inl b) e = rw (b, e) refl
  attempt-Bound left n under_way (inr b) e = ground (arith, b, e)
  attempt-Bound left n refused (inl b) e = rw (b, e) refl
  attempt-Bound left n refused (inr b) e = ground (arith, b, e)
  attempt-Bound left n unavailable (inl b) e = rw (b, e) refl
  attempt-Bound left n unavailable (inr b) e = ground (arith, b, e)

  attempt_unbound :
      (left n : ℕ)
      → local_port == 0 ≡ false
      → binds n ≡ false
      → attempt local_port binds connects (suc left) n ≡ unbound
  unfolding attempt
  attempt_unbound left n p b = rw (p, b) refl

  Bound-cases : (n : ℕ) → Bound n ⊎ ((local_port == 0 ≡ false) × (binds n ≡ false))
  Bound-cases n = elim (Bool-cases (local_port == 0)) [
    | inl p ↦ inl (inl p)
    | inr p ↦ elim (Bool-cases (binds n)) [ inl b ↦ inl (inr b) | inr b ↦ inr (p, b) ]
  ]

  Retried-suc : (n : ℕ) → Retried n → Bound n → connects n ≡ unavailable → Retried (n + 1)
  Retried-suc n before b e j h = elim (Bool-cases (j == n)) [
    | inl same ↦ subst⁻¹ (λ k. Bound k × (connects k ≡ unavailable)) (==→eq j n same) (b, e)
    | inr other ↦ before j (ground arith)
  ]

  -- what is left of the tries, and what they come to
  abbrev pub Attempted : (left n : ℕ) → Type 0
  Attempted left n = (o : Outcome) × (attempt local_port binds connects left n ≡ o) × Means o

  attempted :
      (left n : ℕ)
      → n + suc left ≡ 10
      → Retried n
      → ((n + 1) + left ≡ 10 → Retried (n + 1) → Attempted left (n + 1))
      → (c : Try) → connects n ≡ c
      → Bound n
      → Attempted (suc left) n
  attempted left n total before rest done e b =
      (opened, attempt-Bound left n done b e, (n, omega arith, before, b, inl e))
  attempted left n total before rest under_way e b =
      (opened, attempt-Bound left n under_way b e, (n, omega arith, before, b, inr e))
  attempted left n total before rest refused e b =
      (failed, attempt-Bound left n refused b e, inl (n, omega arith, before, b, e))
  attempted left n total before rest unavailable e b =
      let (o, run, means) = rest (omega arith) (Retried-suc n before b e) in
      (o, attempt-Bound left n unavailable b e ∙ run, means)

  attempt-Attempted : (left n : ℕ) → n + left ≡ 10 → Retried n → Attempted left n
  unfolding attempt
  attempt-Attempted zero n total before =
      let ten : n ≡ 10 = omega arith in (failed, refl, inr (λ j h. before j (omega arith)))
  attempt-Attempted (suc left) n total before = elim (Bound-cases n) [
    | inl b ↦
        attempted left n total before (λ t r. attempt-Attempted left (n + 1) t r) (connects n) refl
          b
    | inr (p, b) ↦ (unbound, attempt_unbound left n p b, (n, omega arith, before, p, b))
  ]

  -- the ten tries
  pub attempt_lem : Attempted 10 0
  attempt_lem = attempt-Attempted 10 0 refl (λ j h. absurd (omega arith))

  unbound_from :
      (k left n : ℕ)
      → k < left
      → Retried (n + k)
      → local_port == 0 ≡ false
      → binds (n + k) ≡ false
      → attempt local_port binds connects left n ≡ unbound
  unbound_from k zero n h before p b = absurd (omega arith)
  unbound_from zero (suc left) n h before p b =
      let here : n + 0 ≡ n = omega arith in attempt_unbound left n p (ap binds (sym here) ∙ b)
  unbound_from (suc k) (suc left) n h before p b =
      let (bound, e) = before n (omega arith) in
      let shift : (n + 1) + k ≡ n + suc k = omega arith in
      attempt-Bound left n unavailable bound e
      ∙ unbound_from k left (n + 1) (omega arith) (subst⁻¹ Retried shift before) p
          (ap binds shift ∙ b)

  pub attempt-Unbindable : Unbindable → attempt local_port binds connects 10 0 ≡ unbound
  attempt-Unbindable (n, h, before, p, b) =
      let start : 0 + n ≡ n = omega arith in
      unbound_from n 10 0 h (subst⁻¹ Retried start before) p (ap binds start ∙ b)
