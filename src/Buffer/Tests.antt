-- ===== src/Buffer/Tests.antt =====
-- The buffer functions at concrete inputs.
use zape.Base.{ℕ, ◌≤◌, ◌≡◌, ◌≢◌, refl, some, List, [], ◌∷◌, ◌++◌, map, length, arith}
use zape.Buffer.State.{Buffer}
use zape.Buffer.Growth.{IsValid, contents}
use zape.Buffer.Append.{toupper, append_data}
use zape.Buffer.Appended.{append_data-Appended}
use zape.Buffer.Tail.{Appended}
use zape.Buffer.Camelify.{camelify, camelify_lem, camel_loop, upper_after, split, join, capital}
use zape.Buffer.Recode.{utf8, utf8_char}
use zape.Buffer.Trim.{Recoded}
use zape.Buffer.ToUtf8.{to_utf8-Recoded}
use zape.Buffer.FromUtf8.{from_utf8_in_bounds, from_utf8-to_utf8}
use zape.Buffer.Utf8.{to_utf8, from_utf8}

abbrev junk : ℕ → ℕ
junk i = 170

-- `a` and `é` in use, two bytes to spare
abbrev two : Buffer
two = record { block = some (97 ∷ 233 ∷ 7 ∷ 7 ∷ []); size = 4; used = 2; pos = 0 }

two-IsValid : IsValid two
two-IsValid = omega arith

-- a lone head of a three-byte sequence at the end
abbrev torn : Buffer
torn = record { block = some (97 ∷ 0xe2 ∷ []); size = 2; used = 2; pos = 0 }

-- "a-b", its NUL and a byte behind
abbrev dashed : Buffer
dashed = record { block = some (97 ∷ b'-' ∷ 98 ∷ 0 ∷ 9 ∷ []); size = 5; used = 3; pos = 0 }

from_utf8-to_utf8_example :
    (r : Buffer) × (c : Buffer) × (to_utf8 junk two ≡ some r)
    × (from_utf8 junk r ≡ some c)
    × (contents c ≡ 97 ∷ 233 ∷ [])
from_utf8-to_utf8_example = from_utf8-to_utf8 junk two two-IsValid (omega arith) (omega arith)

from_utf8_in_bounds_example :
    (out : List ℕ) × (r : Buffer) × (from_utf8 junk torn ≡ some r)
    × Recoded r out
    × (length out ≤ 2)
from_utf8_in_bounds_example = from_utf8_in_bounds junk torn (omega arith) (omega arith)

to_utf8-Recoded_example :
    (r : Buffer) × (to_utf8 junk two ≡ some r) × Recoded r (utf8 (97 ∷ 233 ∷ []))
to_utf8-Recoded_example = to_utf8-Recoded junk two two-IsValid (omega arith) (omega arith)

utf8_test : utf8 (97 ∷ 233 ∷ []) ≡ 97 ∷ 0xc3 ∷ 0xa9 ∷ []
unfolding utf8 utf8_char
utf8_test = refl

append_data-Appended_example :
    (◌≡◌ {A = ℕ} 3 0 → append_data junk two (1 ∷ 2 ∷ 3 ∷ []) 3 ≡ some two)
    × (◌≢◌ {A = ℕ} 3 0
        → (c : Buffer) × (append_data junk two (1 ∷ 2 ∷ 3 ∷ []) 3 ≡ some c)
          × Appended two c (1 ∷ 2 ∷ 3 ∷ []))
append_data-Appended_example =
    append_data-Appended junk two two-IsValid (1 ∷ 2 ∷ 3 ∷ []) 3 (omega arith) (omega arith)

camelify_lem_example :
    camelify dashed
    ≡ some (record dashed {
      block = some (join (map capital (split (97 ∷ b'-' ∷ 98 ∷ []))) ++ 0 ∷ 9 ∷ []);
    })
camelify_lem_example = camelify_lem dashed (97 ∷ b'-' ∷ 98 ∷ []) (9 ∷ []) (omega arith) refl

camelify_test :
    camelify dashed ≡ some (record dashed { block = some (65 ∷ b'-' ∷ 66 ∷ 0 ∷ 9 ∷ []) })
unfolding camelify camel_loop upper_after toupper
camelify_test = refl
