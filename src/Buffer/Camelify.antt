-- ===== src/Buffer/Camelify.antt =====
-- `buffer_camelify` of ape_buffer.c against a description by words: it puts the first letter of
-- each word between dashes in upper case. `none` is a read past the block.
use zape.Base.{
  ℕ, ◌≡◌, refl, sym, ap, ◌∙◌, Option, none, some, List, [], ◌∷◌, ◌++◌, map, Bool, true, false,
  arith, ◌==◌, if◌then◌else◌, Bool-cases, inl, inr, ==→eq,
}
use zape.Base.Fault.{◌>>=◌}
use zape.Buffer.State.{Buffer}
use zape.Buffer.Append.{toupper}
use zape.Buffer.Appended.{NoNul}

-- `*pSource` in upper case after a dash
unfoldable pub upper_after : ℕ → ℕ → ℕ
upper_after p c = if p == b'-' then toupper c else c

-- the loop from the pointer on, with `pchar` the byte before
unfoldable pub camel_loop : List ℕ → ℕ → Option (List ℕ)
camel_loop [] p = none
camel_loop (c ∷ s) p =
    let rest = camel_loop s (upper_after p c) in
    if c == 0 then some (c ∷ s) else (do r ← rest; some (upper_after p c ∷ r))

-- `buffer_camelify`
unfoldable pub camelify : Buffer → Option Buffer
camelify b = do d ← b.block; d' ← camel_loop d b'-'; some (record b { block = some d' })

push : ℕ → List (List ℕ) → List (List ℕ)
push c [] = (c ∷ []) ∷ []
push c (w ∷ ws) = (c ∷ w) ∷ ws

-- the words between the dashes
unfoldable pub split : List ℕ → List (List ℕ)
unfolding push
split [] = [] ∷ []
split (c ∷ s) = if c == b'-' then [] ∷ split s else push c (split s)

unfoldable pub join : List (List ℕ) → List ℕ
join [] = []
join (w ∷ []) = w
join (w ∷ v ∷ ws) = w ++ b'-' ∷ join (v ∷ ws)

unfoldable pub capital : List ℕ → List ℕ
capital [] = []
capital (c ∷ w) = toupper c ∷ w

-- all words, or all but the first
caps : Bool → List (List ℕ) → List (List ℕ)
caps true ws = map capital ws
caps false [] = []
caps false (w ∷ ws) = w ∷ map capital ws

split-cons : (s : List ℕ) → (w : List ℕ) × (ws : List (List ℕ)) × (split s ≡ w ∷ ws)
unfolding split
split-cons [] = ([], [], refl)
split-cons (c ∷ s) = elim (Bool-cases (c == b'-')) [
  | inl e ↦ rw (e, if◌then◌else◌) ([], split s, refl)
  | inr e ↦ let (w, ws, is) = split-cons s in rw (e, if◌then◌else◌, is) (c ∷ w, ws, refl)
]

join-cons : (c : ℕ) (w : List ℕ) (ws : List (List ℕ)) → join ((c ∷ w) ∷ ws) ≡ c ∷ join (w ∷ ws)
unfolding join
join-cons c w [] = refl
join-cons c w (v ∷ ws) = refl

upper_dash : (p c : ℕ) → c ≡ b'-' → upper_after p c ≡ b'-'
unfolding upper_after toupper
upper_dash p c e = ground arith

upper_other : (p c : ℕ) → (c == b'-') ≡ false → (upper_after p c == b'-') ≡ false
unfolding upper_after toupper
upper_other p c e = ground arith

caps-cons :
    (p c : ℕ) (w : List ℕ) (ws : List (List ℕ))
    → join (caps (p == b'-') ((c ∷ w) ∷ ws)) ≡ upper_after p c ∷ join (w ∷ map capital ws)
unfolding caps upper_after capital
caps-cons p c w ws = elim (Bool-cases (p == b'-')) [
  | inl e ↦ rw (e, if◌then◌else◌) (join-cons (toupper c) w (map capital ws))
  | inr e ↦ rw (e, if◌then◌else◌) (join-cons c w (map capital ws))
]

caps-dash :
    (p : ℕ) (w : List ℕ) (ws : List (List ℕ))
    → join (caps (p == b'-') ([] ∷ w ∷ ws)) ≡ b'-' ∷ join (map capital (w ∷ ws))
unfolding caps capital join
caps-dash p w ws = elim (Bool-cases (p == b'-')) [ inl e ↦ rw e refl | inr e ↦ rw e refl ]

caps-nil : (p : ℕ) → join (caps (p == b'-') (split [])) ≡ []
unfolding caps capital join split
caps-nil p = elim (Bool-cases (p == b'-')) [ inl e ↦ rw e refl | inr e ↦ rw e refl ]

split_dash : (c : ℕ) (s : List ℕ) → (c == b'-') ≡ true → split (c ∷ s) ≡ [] ∷ split s
unfolding split
split_dash c s e = rw (e, if◌then◌else◌)

split_other : (c : ℕ) (s : List ℕ) → (c == b'-') ≡ false → split (c ∷ s) ≡ push c (split s)
unfolding split
split_other c s e = rw (e, if◌then◌else◌)

camel_loop_lem :
    (s rest : List ℕ) (p : ℕ)
    → NoNul s
    → camel_loop (s ++ 0 ∷ rest) p ≡ some (join (caps (p == b'-') (split s)) ++ 0 ∷ rest)
unfolding camel_loop caps push
camel_loop_lem [] rest p h = ap (λ t. some (t ++ 0 ∷ rest)) (sym (caps-nil p))
camel_loop_lem (c ∷ s) rest p h =
    let nz : (c == 0) ≡ false = ground (arith, h.0) in
    let (w, ws, is) = split-cons s in
    elim (Bool-cases (c == b'-')) [
      | inl e ↦
          let spec : join (caps (p == b'-') (split (c ∷ s))) ≡ b'-' ∷ join (map capital (split s)) =
            ap (λ t. join (caps (p == b'-') t)) (split_dash c s e ∙ ap (λ t. [] ∷ t) is)
            ∙ caps-dash p w ws
            ∙ ap (λ t. b'-' ∷ join (map capital t)) (sym is) in
          rw (nz, if◌then◌else◌, upper_dash p c (==→eq c b'-' e), camel_loop_lem s rest b'-' h.1)
            (ap (λ t. some (t ++ 0 ∷ rest)) (sym spec))
      | inr e ↦
          let spec : join (caps (p == b'-') (split (c ∷ s)))
              ≡ upper_after p c ∷ join (caps false (split s)) =
            ap (λ t. join (caps (p == b'-') t)) (split_other c s e ∙ ap (push c) is)
            ∙ caps-cons p c w ws
            ∙ ap (λ t. upper_after p c ∷ join (caps false t)) (sym is) in
          rw (nz, if◌then◌else◌, camel_loop_lem s rest (upper_after p c) h.1, upper_other p c e)
            (ap (λ t. some (t ++ 0 ∷ rest)) (sym spec))
    ]

-- On a buffer whose block holds a text and its NUL, `buffer_camelify` reads no byte past the NUL,
-- and puts the first letter of the text and of each word behind a dash in upper case. All else stays.
pub camelify_lem :
    (b : Buffer) (s rest : List ℕ)
    → NoNul s
    → b.block ≡ some (s ++ 0 ∷ rest)
    → camelify b ≡ some (record b { block = some (join (map capital (split s)) ++ 0 ∷ rest) })
unfolding camelify caps
camelify_lem b s rest h e = simp (e, camel_loop_lem s rest b'-' h)
