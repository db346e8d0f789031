-- ===== src/Dns/Table.antt =====
-- Which sockets the table of ape_dns.c watches.
use mathlib.Core.Path.{subst⁻¹}
use zape.Base.{
  ℕ, suc, ◌+◌, ◌≤◌, ◌<◌, ◌≡◌, ◌≢◌, refl, ◌⊎◌, inl, inr, false, ◌&&◌, some, List, [], ◌∷◌, get_elem?,
  ◌==◌, if◌then◌else◌, arith, Bool-cases, ==→eq,
}
use zape.Base.Fault.{store}
use zape.Dns.State.{Entry, Place, known, spare, scan}

-- how many entries are for a socket
abbrev pub count : ℕ → List Entry → ℕ
count q [] = 0
count q (e ∷ es) = (if e.fd == q then 1 else 0) + count q es

-- a socket has one entry at most
abbrev pub IsTable : List Entry → Type 0
IsTable es = (q : ℕ) → q ≢ 0 → count q es ≤ 1

-- entry `i` is for `s`, and `es'` is `es` with another there
abbrev pub At : (i s : ℕ) → (e' : Entry) → (es es' : List Entry) → Type 0
At i s e' es es' =
    (e : Entry) × (get_elem? es i ≡ some e)
    × (e.fd ≡ s)
    × (store es i e' ≡ some es')
    × ((q : ℕ)
        → count q es' + (if s == q then 1 else 0) ≡ count q es + (if e'.fd == q then 1 else 0))

store_first : (e : Entry) (es : List Entry) (e' : Entry) → store (e ∷ es) 0 e' ≡ some (e' ∷ es)
unfolding store
store_first e es e' = refl

At-cons :
    (i s : ℕ) (e' d : Entry) (es : List Entry) {es' : List Entry}
    → At i s e' es es'
    → At (suc i) s e' (d ∷ es) (d ∷ es')
unfolding store
At-cons i s e' d es (e, there, for, run, counts) =
    (e, there, for, simp run refl, λ q. omega (arith, counts q))

-- What the loop ends with, from entry `i` on: the first entry of the socket, or the entry found free before or
-- behind, or else `f`, and then the socket has no entry.
abbrev Found : (s f i : ℕ) → List Entry → Place → Type 0
Found s f i es (known j) =
    (k : ℕ) × (j ≡ i + k) × ((e' : Entry) → (es' : List Entry) × At k s e' es es')
Found s f i es (spare j) =
    (count s es ≡ 0)
    × (((k : ℕ) × (j ≡ i + k) × (f ≡ 0) × ((e' : Entry) → (es' : List Entry) × At k 0 e' es es'))
        ⊎ ((j ≡ f) × (f ≡ 0 → count 0 es ≡ 0)))

Found-take :
    (s f i : ℕ) (e : Entry) (es : List Entry) (p : Place)
    → s ≢ 0
    → 0 < i
    → f ≡ 0
    → e.fd ≡ 0
    → Found s i (suc i) es p
    → Found s f i (e ∷ es) p
Found-take s f i e es (known j) nz pos f0 free (k, at, here) =
    (suc k, omega arith, λ e'. let (es', found) = here e' in (e ∷ es', At-cons k s e' e es found))
Found-take s f i e es (spare j) nz pos f0 free (gone, inl (k, at, zero_i, here)) =
    absurd (omega arith)
Found-take s f i e es (spare j) nz pos f0 free (gone, inr (at, g)) = (
  ground arith,
  inl (
    0,
    omega arith,
    f0,
    λ e'. (e' ∷ es, (e, refl, free, store_first e es e', λ q. ground arith)),
  ),
)

Found-skip :
    (s f i : ℕ) (e : Entry) (es : List Entry) (p : Place)
    → (f ≡ 0 → e.fd ≢ 0)
    → e.fd ≢ s
    → Found s f (suc i) es p
    → Found s f i (e ∷ es) p
Found-skip s f i e es (known j) busy other (k, at, here) =
    (suc k, omega arith, λ e'. let (es', found) = here e' in (e ∷ es', At-cons k s e' e es found))
Found-skip s f i e es (spare j) busy other (gone, inl (k, at, f0, here)) = (
  ground arith,
  inl (
    suc k,
    omega arith,
    f0,
    λ e'. let (es', found) = here e' in (e ∷ es', At-cons k 0 e' e es found),
  ),
)
Found-skip s f i e es (spare j) busy other (gone, inr (at, g)) =
    (ground arith, inr (at, λ f0. let b = busy f0 in let c = g f0 in ground arith))

scan_lem : (s f i : ℕ) (es : List Entry) → s ≢ 0 → 0 < i → Found s f i es (scan s f i es)
unfolding scan
scan_lem s f i [] nz pos = (refl, inr (refl, λ f0. refl))
scan_lem s f i (e ∷ es) nz pos = elim (Bool-cases ((f == 0) && (e.fd == 0))) [
  | inl t ↦
      let run : scan s f i (e ∷ es) ≡ scan s i (suc i) es = simp t refl in
      subst⁻¹ (Found s f i (e ∷ es)) run (
        Found-take s f i e es (scan s i (suc i) es) nz pos (ground (arith, t)) (ground (arith, t))
          (scan_lem s i (suc i) es nz (omega arith)))
  | inr n ↦ elim (Bool-cases (e.fd == s)) [
    | inl here ↦
        let run : scan s f i (e ∷ es) ≡ known i = simp n (simp here refl) in
        subst⁻¹ (Found s f i (e ∷ es)) run (
          0,
          omega arith,
          λ e'. (e' ∷ es, (e, refl, ==→eq e.fd s here, store_first e es e', λ q. ground arith)),
        )
    | inr other ↦
        let run : scan s f i (e ∷ es) ≡ scan s f (suc i) es = simp n (simp other refl) in
        subst⁻¹ (Found s f i (e ∷ es)) run (
          Found-skip s f i e es (scan s f (suc i) es) (λ f0. ground (arith, n))
            (ground (arith, other)) (scan_lem s f (suc i) es nz (omega arith)))
  ]
]

-- the place that the loop finds over the whole table
abbrev pub Chosen : (s : ℕ) → List Entry → Place → Type 0
Chosen s es (known j) = (e' : Entry) → (es' : List Entry) × At j s e' es es'
Chosen s es (spare j) =
    (count s es ≡ 0)
    × (((e' : Entry) → (es' : List Entry) × At j 0 e' es es') ⊎ ((j ≡ 0) × (count 0 es ≡ 0)))

-- a place found behind the first entry
behind :
    (j k s : ℕ) (d : Entry) (es : List Entry)
    → j ≡ suc k
    → ((e' : Entry) → (es' : List Entry) × At k s e' es es')
    → (e' : Entry) → (es' : List Entry) × At j s e' (d ∷ es) es'
behind j k s d es at here e' =
    let (es', found) = here e' in
    (d ∷ es', subst⁻¹ (λ i. At i s e' (d ∷ es) (d ∷ es')) at (At-cons k s e' d es found))

-- the first entry, if it is for `s`
first_entry :
    (s : ℕ) (d : Entry) (es : List Entry)
    → d.fd ≡ s
    → (e' : Entry) → (es' : List Entry) × At 0 s e' (d ∷ es) es'
first_entry s d es for e' = (e' ∷ es, (d, refl, for, store_first d es e', λ q. ground arith))

Chosen-cons :
    (s : ℕ) (d : Entry) (es : List Entry) (p : Place)
    → d.fd ≢ s
    → Found s 0 1 es p
    → Chosen s (d ∷ es) p
Chosen-cons s d es (known j) other (k, at, here) = behind j k s d es (omega arith) here
Chosen-cons s d es (spare j) other (gone, inl (k, at, f0, here)) =
    (ground arith, inl (behind j k 0 d es (omega arith) here))
Chosen-cons s d es (spare j) other (gone, inr (at, g)) = elim (Bool-cases (d.fd == 0)) [
  | inl free ↦ (
    ground arith,
    inl (
        subst⁻¹ (λ i. (e' : Entry) → (es' : List Entry) × At i 0 e' (d ∷ es) es') at
          (first_entry 0 d es (==→eq d.fd 0 free))),
  )
  | inr busy ↦ let c = g refl in (ground arith, inr (at, ground (arith, busy)))
]

pub Chosen-scan : (s : ℕ) (es : List Entry) → s ≢ 0 → Chosen s es (scan s 0 0 es)
unfolding scan
Chosen-scan s [] nz = (refl, inr (refl, refl))
Chosen-scan s (d ∷ es) nz = elim (Bool-cases (d.fd == s)) [
  | inl here ↦
      let busy : (d.fd == 0) ≡ false = ground (arith, here) in
      let run : scan s 0 0 (d ∷ es) ≡ known 0 = simp busy (simp here refl) in
      subst⁻¹ (Chosen s (d ∷ es)) run (first_entry s d es (==→eq d.fd s here))
  | inr other ↦
      let run : scan s 0 0 (d ∷ es) ≡ scan s 0 1 es = ground (arith, other) in
      subst⁻¹ (Chosen s (d ∷ es)) run (
        Chosen-cons s d es (scan s 0 1 es) (ground (arith, other))
          (scan_lem s 0 1 es nz (omega arith)))
]
