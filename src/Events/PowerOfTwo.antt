-- ===== src/Events/PowerOfTwo.antt =====
-- The bit trick of `_nextpoweroftwo` rounds up to a power of two.
use Prim.Native.Nat.{bit_or, max}
use native.Mathlib.Nat.{pow-suc, div-div-eq-div-mul, mul_comm}
use zape.Base.{
  ℕ, zero, suc, ◌+◌, ◌-◌, ◌*◌, ◌/◌, ◌%◌, ◌^◌, ◌<◌, ◌≤◌, ◌≡◌, refl, sym, ap, ◌∙◌, ◌==◌,
  if◌then◌else◌, arith,
}
use zape.Base.Bits.{bit_or_half, bit_or_parity}
use zape.Events.State.{smear, next_power_of_two}

-- `v |= v >> k`
abbrev spread : ℕ → ℕ → ℕ
spread k v = bit_or v (v / k)

-- `|` goes with division by `k`
abbrev Splits : ℕ → Type 0
Splits k = (a b : ℕ) → bit_or a b / k ≡ bit_or (a / k) (b / k)

Splits-square : (k m : ℕ) → ((n : ℕ) → n / k / k ≡ n / m) → Splits k → Splits m
Splits-square k m twice h a b =
    sym (twice (bit_or a b)) ∙ ap (λ t. t / k) (h a b) ∙ h (a / k) (b / k) ∙ λ i.
    bit_or (twice a i) (twice b i)

by_four : Splits 4
by_four = Splits-square 2 4 (λ n. omega arith) bit_or_half

by_sixteen : Splits 16
by_sixteen = Splits-square 4 16 (λ n. omega arith) by_four

by_byte : Splits 256
by_byte = Splits-square 16 256 (λ n. omega arith) by_sixteen

-- a function that goes with division by `m` still does after a round by `k`
spread-div :
    (f : ℕ → ℕ) (k m : ℕ)
    → ((n : ℕ) → n / k / m ≡ n / m / k)
    → Splits m
    → ((n : ℕ) → f n / m ≡ f (n / m))
    → (n : ℕ) → spread k (f n) / m ≡ spread k (f (n / m))
spread-div f k m swap splits h n =
    splits (f n) (f n / k) ∙ λ i. bit_or (h n i) ((swap (f n) ∙ ap (λ t. t / k) (h n)) i)

abbrev one : ℕ → ℕ
one v = spread 2 v

abbrev two : ℕ → ℕ
two v = spread 4 (one v)

abbrev three : ℕ → ℕ
three v = spread 16 (two v)

abbrev four : ℕ → ℕ
four v = spread 256 (three v)

module _ (m : ℕ) (splits : Splits m) (swap : (k n : ℕ) → n / k / m ≡ n / m / k) where
  one-div : (n : ℕ) → one n / m ≡ one (n / m)
  one-div = spread-div (λ n. n) 2 m (swap 2) splits (λ n. refl)

  two-div : (n : ℕ) → two n / m ≡ two (n / m)
  two-div = spread-div one 4 m (swap 4) splits one-div

  three-div : (n : ℕ) → three n / m ≡ three (n / m)
  three-div = spread-div two 16 m (swap 16) splits two-div

  four-div : (n : ℕ) → four n / m ≡ four (n / m)
  four-div = spread-div three 256 m (swap 256) splits three-div

-- whether a number is not 0
abbrev some_bit : ℕ → ℕ
some_bit n = if n == 0 then 0 else 1

-- one more round: the lowest digit tells of twice as many digits
module _ (k m : ℕ) (f : ℕ → ℕ) (f-div : (n : ℕ) → f n / k ≡ f (n / k))
    (parity : (n : ℕ) → f n % 2 ≡ some_bit (n % k))
    (join : (n : ℕ) → max (some_bit (n % k)) (some_bit (n / k % k)) ≡ some_bit (n % m)) where
  next_parity : (n : ℕ) → spread k (f n) % 2 ≡ some_bit (n % m)
  next_parity n =
      bit_or_parity (f n) (f n / k)
      ∙ (λ i. max (parity n i) ((ap (λ t. t % 2) (f-div n) ∙ parity (n / k)) i))
      ∙ join n

one_parity : (n : ℕ) → one n % 2 ≡ some_bit (n % 4)
one_parity n = ground (arith, bit_or_parity n (n / 2))

swap : (m k n : ℕ) → n / k / m ≡ n / m / k
swap m k n =
    div-div-eq-div-mul n k m ∙ ap (λ t. n / t) (mul_comm k m) ∙ sym (div-div-eq-div-mul n m k)

two_parity : (n : ℕ) → two n % 2 ≡ some_bit (n % 16)
two_parity = next_parity 4 16 one (one-div 4 by_four (swap 4)) one_parity (λ n. ground arith)

three_parity : (n : ℕ) → three n % 2 ≡ some_bit (n % 256)
three_parity =
    next_parity 16 256 two (two-div 16 by_sixteen (swap 16)) two_parity (λ n. ground arith)

four_parity : (n : ℕ) → four n % 2 ≡ some_bit (n % 65536)
four_parity =
    next_parity 256 65536 three (three-div 256 by_byte (swap 256)) three_parity (λ n. ground arith)

by_word : Splits 65536
by_word = Splits-square 256 65536 (λ n. omega arith) by_byte

smear_parity : (n : ℕ) → smear n % 2 ≡ some_bit (n % 2 ^ 32)
unfolding smear
smear_parity =
    next_parity 65536 (2 ^ 32) four (four-div 65536 by_word (swap 65536)) four_parity
      (λ n. ground arith)

smear_half : (n : ℕ) → smear n / 2 ≡ smear (n / 2)
unfolding smear
smear_half = spread-div four 65536 2 (swap 2 65536) bit_or_half (four-div 2 bit_or_half (swap 2))

-- the number behind a word is 2 to the number of its digits
smear_step : (n : ℕ) → 0 < n → n < 2 ^ 32 → smear n + 1 ≡ 2 * (smear (n / 2) + 1)
smear_step n pos small =
    let odd : smear n % 2 ≡ 1 = smear_parity n ∙ ground arith in omega (arith, odd, smear_half n)

-- a power of two
abbrev pub IsPower : ℕ → Type 0
IsPower n = (k : ℕ) × (n ≡ 2 ^ k)

smear_fuel :
    (fuel n : ℕ)
    → n < fuel
    → n < 2 ^ 32
    → IsPower (smear n + 1) × (n < smear n + 1) × (smear n + 1 ≤ max 1 (2 * n))
unfolding smear
smear_fuel zero n h small = absurd (omega arith)
smear_fuel (suc fuel) zero h small = ((0, refl), omega arith, omega arith)
smear_fuel (suc fuel) (suc n) h small =
    let ((k, e), above, below) = smear_fuel fuel (suc n / 2) (omega arith) (omega arith) in
    let step = smear_step (suc n) (omega arith) small in
    (
      (suc k, omega (arith, step, e, pow-suc 2 k)),
      omega (arith, step, above),
      omega (arith, step, below),
    )

-- For 1 to 2^31, `_nextpoweroftwo` gives a power of two that is no less than the number and less
-- than twice the number.
pub next_power_of_two_lem :
    (v : ℕ)
    → 0 < v
    → v ≤ 2 ^ 31
    → IsPower (next_power_of_two v) × (v ≤ next_power_of_two v) × (next_power_of_two v < 2 * v)
unfolding next_power_of_two
next_power_of_two_lem v pos small =
    let before : (v + (2 ^ 32 - 1)) % 2 ^ 32 ≡ v - 1 = omega arith in
    let (power, above, below) = smear_fuel v (v - 1) (omega arith) (omega arith) in
    let fits : (smear (v - 1) + 1) % 2 ^ 32 ≡ smear (v - 1) + 1 = omega (arith, above, below) in
    rw (before, fits) (power, omega (arith, above), omega (arith, below))
