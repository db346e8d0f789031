-- ===== src/Hash/Tests.antt =====
-- The tables and hashes at concrete keys, with a comparison that ignores the case.
use mathlib.Core.Path.{subst}
use zape.Base.{
  ℕ, zero, suc, get_elem?, ◌^◌, ◌<◌, ◌≡◌, refl, ap, Bool, true, false, none, ◌&&◌, ◌||◌, some, List,
  [], ◌∷◌, length, ◌==◌, if◌then◌else◌, arith,
}
use zape.Buffer.Append.{tolower}
use zape.Hash.Murmur.{murmur_hash2}
use zape.Hash.Bytes.{reference_hash, murmur_hash2_lem}
use zape.Hash.Chain.{Item, IsEquiv, Distinct, find}
use zape.Hash.State.{
  Table, freed, cleaned, init_with_size, append64, seek64, append, erase_str, seek, key_freed,
  table_freed, htbl_freed,
}
use zape.Hash.Table.{IsTable, found}
use zape.Hash.Ints.{append64-seek64, append64_cleans_new}
use zape.Hash.Strings.{c_str, is_key, append-seek, erase-seek}
use zape.Hash.Init.{init_with_size-IsTable}
use zape.Hash.Free.{Heap, free_table}
use zape.Hash.Freed.{AllLinked, free_table_lem}

-- the published hash of "abcde" for seed 1 reads five bytes
murmur_hash2_lem_example :
    (murmur_hash2 (97 ∷ 98 ∷ 99 ∷ 100 ∷ 101 ∷ 0 ∷ []) 5 1
      ≡ some (reference_hash (97 ∷ 98 ∷ 99 ∷ 100 ∷ 101 ∷ []) 1))
    × (reference_hash (97 ∷ 98 ∷ 99 ∷ 100 ∷ 101 ∷ []) 1 < 2 ^ 32)
murmur_hash2_lem_example = murmur_hash2_lem (97 ∷ 98 ∷ 99 ∷ 100 ∷ 101 ∷ []) (0 ∷ []) 1

-- the lower case of a C string
abbrev canon : List ℕ → List ℕ
canon [] = []
canon (c ∷ cs) = if c == 0 then [] else tolower c ∷ canon cs

abbrev list_beq : List ℕ → List ℕ → Bool
list_beq [] [] = true
list_beq (a ∷ us) (b ∷ vs) = (a == b) && list_beq us vs
list_beq us vs = false

list_beq→eq : (us vs : List ℕ) → list_beq us vs ≡ true → us ≡ vs
list_beq→eq [] [] h = refl
list_beq→eq [] (b ∷ vs) h = cc
list_beq→eq (a ∷ us) [] h = cc
list_beq→eq (a ∷ us) (b ∷ vs) h = ground (arith, list_beq→eq us vs)

list_beq_refl : (us : List ℕ) → list_beq us us ≡ true
list_beq_refl [] = refl
list_beq_refl (a ∷ us) = ground (arith, list_beq_refl us)

abbrev same_text : List ℕ → List ℕ → Bool
same_text a b = list_beq (canon a) (canon b)

same_text-IsEquiv : IsEquiv same_text
same_text-IsEquiv = record {
  reflexive = λ a. list_beq_refl (canon a);
  congr_left = λ a b c h. ap (λ t. list_beq t (canon c)) (list_beq→eq (canon a) (canon b) h);
  congr_right = λ a b c h. ap (list_beq (canon c)) (list_beq→eq (canon a) (canon b) h);
}

unfoldable small : Table ℕ
small = init_with_size 3

small-IsTable : IsTable ◌==◌ small
unfolding small
small-IsTable = init_with_size-IsTable ◌==◌ 3 (omega arith)

append64-seek64_example :
    (t : Table ℕ) × (append64 small 7 70 4096 ≡ some t)
    × IsTable ◌==◌ t
    × ((q : ℕ) → seek64 t q ≡ (if 7 == q then some 70 else seek64 small q))
append64-seek64_example = append64-seek64 small 7 70 4096 small-IsTable

-- keys 7 and 4 in one chain, with a cleaner
abbrev pair : List (Item ℕ)
pair =
    record { at = 8192; key = 4; content = 40 } ∷ record { at = 4096; key = 7; content = 70 } ∷ []

abbrev two : Table ℕ
two = record {
  first = 8192 ∷ 4096 ∷ [];
  table = [] ∷ pair ∷ [] ∷ [];
  has_cleaner = true;
  size = 3;
  log = [];
}

two-Distinct : (i : ℕ) (c : List (Item ℕ)) → get_elem? two.table i ≡ some c → Distinct ◌==◌ c
unfolding find
two-Distinct zero c e = let q : ◌≡◌ {A = List (Item ℕ)} [] c = cc in subst (Distinct ◌==◌) q tt
two-Distinct (suc zero) c e = let q : pair ≡ c = cc in subst (Distinct ◌==◌) q (refl, (refl, tt))
two-Distinct (suc (suc zero)) c e =
    let q : ◌≡◌ {A = List (Item ℕ)} [] c = cc in subst (Distinct ◌==◌) q tt
two-Distinct (suc (suc (suc i))) c e = cc

two-IsTable : IsTable ◌==◌ two
two-IsTable = record {
  sized = refl;
  roomy = omega arith;
  distinct = two-Distinct;
  linked = λ p. omega arith;
}

two_seven : found ◌==◌ two 1 7 ≡ some 70
unfolding find
two_seven = refl

append64_cleans_new_example :
    (t : Table ℕ) × (append64 two 7 71 12288 ≡ some t)
    × (t.log ≡ freed 12288 ∷ cleaned 71 ∷ [])
    × (seek64 t 7 ≡ some 71)
append64_cleans_new_example = append64_cleans_new two 7 71 70 12288 two-IsTable refl two_seven

-- two items in the second of three buckets, the second at 8192
abbrev items : Heap
items a =
    if a == 4096
    then some (record { next = 8192; content = 70 })
    else if a == 8192
    then some (record { next = 0; content = 40 })
    else if a == 12288
    then some (record { next = 0; content = 9 })
    else none

abbrev buckets : List (List (Item ℕ))
buckets =
    []
    ∷ (record { at = 4096; key = 7; content = 70 }
        ∷ record { at = 8192; key = 4; content = 40 }
        ∷ [])
    ∷ (record { at = 12288; key = 5; content = 9 } ∷ [])
    ∷ []

buckets-Linked : AllLinked items (0 ∷ 4096 ∷ 12288 ∷ []) buckets
buckets-Linked = (
  refl,
  ((refl, refl, 8192, refl, (refl, refl, 0, refl, refl)), ((refl, refl, 0, refl, refl), tt)),
)

free_table_lem_example :
    (m' : Heap) × (free_table true true 3 (0 ∷ 4096 ∷ 12288 ∷ []) items []
      ≡ some (
        m',
        htbl_freed
            ∷ table_freed
            ∷ freed 12288
            ∷ key_freed 12288
            ∷ cleaned 9
            ∷ freed 8192
            ∷ key_freed 8192
            ∷ cleaned 40
            ∷ freed 4096
            ∷ key_freed 4096
            ∷ cleaned 70
            ∷ [],
      ))
    × ((a : ℕ)
        → m' a
          ≡ (if (a == 4096) || ((a == 8192) || ((a == 12288) || false)) then none else items a))
free_table_lem_example =
    free_table_lem true true 3 (0 ∷ 4096 ∷ 12288 ∷ []) buckets items [] buckets-Linked
      ((omega arith, (omega arith, tt)), ((omega arith, tt), (tt, tt)))
      (omega arith, (omega arith, (omega arith, tt)))

unfoldable words : Table (List ℕ)
words = init_with_size 5

words-IsTable : IsTable same_text words
unfolding words
words-IsTable = init_with_size-IsTable same_text 5 (omega arith)

-- "Ab"
abbrev text : List ℕ
text = 65 ∷ 98 ∷ []

text_stops : (q : List ℕ) → same_text (c_str text []) q ≡ same_text (c_str text (99 ∷ [])) q
unfolding tolower
text_stops q = refl

append-seek_example :
    (t : Table (List ℕ)) × (append 1 same_text words (some (c_str text (99 ∷ []))) 2 70 4096
      ≡ some t)
    × IsTable same_text t
    × ((other rest : List ℕ)
        → seek 1 same_text t (some (c_str other rest)) (length other) ≡ (
            if is_key 1 same_text same_text-IsEquiv words text (99 ∷ []) other rest
            then some 70
            else seek 1 same_text words (some (c_str other rest)) (length other)))
append-seek_example =
    append-seek 1 same_text same_text-IsEquiv words text (99 ∷ []) words-IsTable text_stops 70 4096

erase-seek_example :
    (t : Table (List ℕ)) × (erase_str 1 same_text words (some (c_str text [])) 2 ≡ some t)
    × IsTable same_text t
    × ((other rest : List ℕ)
        → seek 1 same_text t (some (c_str other rest)) (length other) ≡ (
            if is_key 1 same_text same_text-IsEquiv words text [] other rest
            then some 0
            else seek 1 same_text words (some (c_str other rest)) (length other)))
erase-seek_example = erase-seek 1 same_text same_text-IsEquiv words text [] words-IsTable
