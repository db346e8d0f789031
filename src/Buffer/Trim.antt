-- ===== src/Buffer/Trim.antt =====
-- The end of the two recoding functions: the NUL, and the block cut to the bytes in use.
use zape.Base.{
  ℕ, ◌+◌, ◌-◌, ◌^◌, ◌≤◌, ◌<◌, ◌≡◌, refl, sym, ap, ◌∙◌, some, List, [], ◌∷◌, ◌++◌, length, take,
  arith, ltb, if◌then◌else◌, Bool-cases, inl, inr, get_elem?, length-tabulate, lt→ltb, ltb→ge,
  take-append_le, length-take, length-append, take_of_length-le, append-nil,
}
use zape.Buffer.State.{Buffer, bytes, add_size, new, realloc}
use zape.Buffer.Growth.{IsValid, contents}
use zape.Buffer.Puts.{char_block, char_block_lem, char_store}
use zape.Buffer.Tail.{block_of, get_elem?-append}
use zape.Buffer.Utf8.{trim}

-- A fresh buffer holds exactly `cs`: it is valid, has one byte more than `cs`, and there a NUL.
pub record Recoded (c : Buffer) (cs : List ℕ) : Type 0 where
  pub valid : IsValid c
  pub used : c.used ≡ length cs
  pub fits : c.size ≡ length cs + 1
  pub holds : contents c ≡ cs
  pub terminated : get_elem? (bytes c.block) c.used ≡ some 0

module _ (junk : ℕ → ℕ) where
  pub new-IsValid :
      (n : ℕ) → 0 < n → IsValid (new junk n) × ((new junk n).used ≡ 0) × ((new junk n).size ≡ n)
  unfolding new
  new-IsValid n h =
      rw (lt→ltb 0 n h, if◌then◌else◌)
        (record { sized = length-tabulate junk 0 n; within = omega arith }, refl, refl)

  cut : (d : List ℕ) (n : ℕ) → n ≤ length d → realloc junk (some d) n ≡ take n d
  cut d n h = let none_left : n - length d ≡ 0 = omega arith in rw (none_left, append-nil)

  trim_run :
      (c : Buffer) (d : List ℕ)
      → c.block ≡ some d
      → length d ≡ c.size
      → c.used < c.size
      → c.size < 2 ^ 64
      → trim junk c ≡ some (record c { size = c.used + 1; block = some (take c.used d ++ 0 ∷ []) })
  unfolding trim
  trim_run c d e held h small =
      let one : add_size c.used 1 ≡ c.used + 1 = omega arith in
      let (len, front) = char_block_lem c d 0 (omega (arith, held)) in
      rw (e, char_store c d 0 (omega (arith, held)), one)
        (elim (Bool-cases (ltb (c.used + 1) c.size)) [
          | inl more ↦
              rw
                (
                  more,
                  if◌then◌else◌,
                  cut (char_block c d 0) (c.used + 1) (omega (arith, len, held)),
                )
                (ap (λ t. some (record c { size = c.used + 1; block = some t })) front)
          | inr exact ↦
              let all : char_block c d 0 ≡ take c.used d ++ 0 ∷ [] =
                sym (
                  take_of_length-le (c.used + 1) (char_block c d 0)
                    (omega (arith, len, held, ltb→ge (c.used + 1) c.size exact)))
                ∙ front in
              let size : c.size ≡ c.used + 1 = omega (arith, ltb→ge (c.used + 1) c.size exact) in
              rw (exact, if◌then◌else◌)
                (λ i. some (record c { size = size i; block = some (all i) }))
        ])

  pub trim-Recoded :
      (c : Buffer)
      → IsValid c
      → c.used < c.size
      → c.size < 2 ^ 64
      → (r : Buffer) × (trim junk c ≡ some r) × Recoded r (contents c)
  trim-Recoded c v h small =
      let (d, e) = block_of c.block (omega (arith, v.sized)) in
      let held = ap (λ o. length (bytes o)) (sym e) ∙ v.sized in
      let old : take c.used d ≡ contents c = ap (λ o. take c.used (bytes o)) (sym e) in
      let len : length (contents c) ≡ c.used =
        omega (arith, length-take c.used (bytes c.block), v.sized) in
      let total = length-append (contents c) (0 ∷ []) in
      (
        record c { size = c.used + 1; block = some (contents c ++ 0 ∷ []) },
        rw (← old) (trim_run c d e held h small),
        record {
          valid = record { sized = omega (arith, total, len); within = omega arith };
          used = sym len;
          fits = omega (arith, len);
          holds =
              take-append_le c.used (contents c) (0 ∷ []) (omega (arith, len))
              ∙ take_of_length-le c.used (contents c) (omega (arith, len));
          terminated = get_elem?-append (contents c) (0 ∷ []) c.used (sym len);
        },
      )
