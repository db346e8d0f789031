-- ===== src/Hash/Strings.antt =====
-- The tables with strings for keys.
use mathlib.Core.Option
use zape.Base.{
  ℕ, ◌+◌, ◌%◌, ◌^◌, ◌<◌, ◌≡◌, refl, sym, ap, ◌∙◌, Bool, true, false, ◌&&◌, Option, none, some, List,
  [], ◌∷◌, ◌++◌, append_assoc, length, length-append, ◌==◌, if◌then◌else◌, arith,
}
use zape.Base.Fault.{◌>>=◌, slice, slice-append}
use zape.Pool.State.{Ptr}
use zape.Hash.Murmur.{ape_hash_str}
use zape.Hash.Bytes.{bucket_of, ape_hash_str_lem}
use zape.Hash.Chain.{Item, IsEquiv}
use zape.Hash.State.{
  Table, or_null, insert, erase, seek_at, append, erase_str, seek, append_val32, seek_val32,
  set_scalar,
}
use zape.Hash.Table.{IsTable, found}
use zape.Hash.Insert.{insert_lem}
use zape.Hash.Erase.{erase_lem}
use zape.Hash.Ints.{seek_at_lem, read_if, map_id}

-- the bytes of a C string and of what stands behind it
abbrev pub c_str : (text more : List ℕ) → List ℕ
c_str text more = text ++ 0 ∷ more

slice_key : (text more : List ℕ) → slice (c_str text more) (length text + 1) ≡ some (c_str text [])
slice_key text more =
    let regroup : (text ++ 0 ∷ []) ++ more ≡ c_str text more = append_assoc text (0 ∷ []) more in
    ap (λ b. slice b (length text + 1)) (sym regroup)
    ∙ slice-append (text ++ 0 ∷ []) more (length text + 1)
        (omega (arith, length-append text (0 ∷ [])))

-- the `uint32_t` of the union
abbrev low : ℕ → ℕ
low v = v % 2 ^ 32

low_set : (val x : ℕ) → low (set_scalar x val) ≡ val % 2 ^ 32
unfolding set_scalar
low_set val x = omega arith

low_null : (o : Option ℕ) → low (or_null o) ≡ or_null (Option.map low o)
low_null none = refl
low_null (some v) = refl

module _ (seed : ℕ) (same : List ℕ → List ℕ → Bool) (eq : IsEquiv same) where
  -- the bucket of a string
  abbrev pub bucket : Table (List ℕ) → List ℕ → ℕ
  bucket t text = bucket_of seed text t.size

  hashed :
      (t : Table (List ℕ)) (text more : List ℕ)
      → IsTable same t
      → (ape_hash_str seed (c_str text more) (length text) t.size ≡ some (bucket t text))
        × (bucket t text < t.size)
  hashed t text more w = ape_hash_str_lem seed text (0 ∷ more) t.size w.roomy

  seek-found :
      (t : Table (List ℕ)) (text more : List ℕ)
      → IsTable same t
      → seek seed same t (some (c_str text more)) (length text)
        ≡ some (or_null (found same t (bucket t text) (c_str text more)))
  unfolding seek
  seek-found t text more w =
      let (e, small) = hashed t text more w in
      ap (λ o. o >>= λ h. seek_at same h (c_str text more) t) e
      ∙ seek_at_lem same t (bucket t text) (c_str text more) w small

  seek_val32-found :
      (t : Table (List ℕ)) (text more : List ℕ)
      → IsTable same t
      → seek_val32 seed same t (some (c_str text more)) (length text)
        ≡ some (or_null (Option.map low (found same t (bucket t text) (c_str text more))))
  unfolding seek_val32
  seek_val32-found t text more w =
      let (e, small) = hashed t text more w in
      (λ j. e j >>= λ h. seek_at same h (c_str text more) t >>= λ v. some (low v))
      ∙ ap (λ o. o >>= λ v. some (low v))
          (seek_at_lem same t (bucket t text) (c_str text more) w small)
      ∙ ap some (low_null (found same t (bucket t text) (c_str text more)))

  -- the two strings are in one bucket and the comparison takes them for the same
  abbrev pub is_key : Table (List ℕ) → (text more other rest : List ℕ) → Bool
  is_key t text more other rest =
      (bucket t other == bucket t text) && same (c_str text more) (c_str other rest)

  read_changed :
      (t t' : Table (List ℕ)) (text more other rest : List ℕ) (x : Option ℕ)
      → IsTable same t
      → IsTable same t'
      → t'.size ≡ t.size
      → found same t' (bucket t other) (c_str other rest) ≡ (
          if is_key t text more other rest
          then x
          else found same t (bucket t other) (c_str other rest))
      → seek seed same t' (some (c_str other rest)) (length other) ≡ (
          if is_key t text more other rest
          then some (or_null x)
          else seek seed same t (some (c_str other rest)) (length other))
  read_changed t t' text more other rest x w w' size law =
      seek-found t' other rest w'
      ∙ ap (λ n. some (or_null (found same t' (bucket_of seed other n) (c_str other rest)))) size
      ∙ ap (λ o. some (or_null o)) law
      ∙ read_if (is_key t text more other rest) x (found same t (bucket t other) (c_str other rest))
          (seek seed same t (some (c_str other rest)) (length other)) (seek-found t other rest w)

  module _ (t : Table (List ℕ)) (text more : List ℕ) (w : IsTable same t)
      (stops : (q : List ℕ) → same (c_str text []) q ≡ same (c_str text more) q) where
    -- In a well-formed table `hashtbl_append` of a string, with its length, succeeds and leaves a
    -- well-formed table. `hashtbl_seek` then gives the content for the strings that the comparison takes
    -- for the key and that have its bucket, and for all others what it gave before. The comparison
    -- is an equivalence, and takes the copy of the key, which ends with the NUL, for the key.
    pub append-seek :
        (addr : ℕ) (at : Ptr)
        → (t' : Table (List ℕ)) × (append seed same t (some (c_str text more)) (length text) addr at
            ≡ some t')
          × IsTable same t'
          × ((other rest : List ℕ)
              → seek seed same t' (some (c_str other rest)) (length other) ≡ (
                  if is_key t text more other rest
                  then some addr
                  else seek seed same t (some (c_str other rest)) (length other)))
    unfolding append
    append-seek addr at =
        let (e, small) = hashed t text more w in
        let u : Item (List ℕ) = record { at = at; key = c_str text []; content = addr } in
        let (t', run, w', size, law) =
          insert_lem same eq (bucket t text) (c_str text more) u (λ _. addr) (λ x. x) addr stops
            (λ x. refl) refl true t w small in
        (
          t',
          (λ j. e j >>= λ h. slice_key text more j >>= λ str.
                insert same h (c_str text more) (record { at = at; key = str; content = addr })
                  (λ _. addr) true t)
              ∙ run,
          w',
          λ other rest. read_changed t t' text more other rest (some addr) w w' size (
              sym (map_id (found same t' (bucket t other) (c_str other rest)))
              ∙ law (bucket t other) (c_str other rest)
              ∙ λ j.
                  if is_key t text more other rest
                  then some addr
                  else map_id (found same t (bucket t other) (c_str other rest)) j),
        )

    -- The same of `hashtbl_append_val32` and `hashtbl_seek_val32`, which keep and give 32 bits, whatever
    -- the union held before.
    pub append_val32-seek_val32 :
        (val : ℕ) (at : Ptr) (junk : ℕ)
        → (t' : Table (List ℕ)) × (append_val32 seed same t
              (some (c_str text more))
              (length text)
              val
              at
              junk
            ≡ some t')
          × IsTable same t'
          × ((other rest : List ℕ)
              → seek_val32 seed same t' (some (c_str other rest)) (length other) ≡ (
                  if is_key t text more other rest
                  then some (val % 2 ^ 32)
                  else seek_val32 seed same t (some (c_str other rest)) (length other)))
    unfolding append_val32
    append_val32-seek_val32 val at junk =
        let (e, small) = hashed t text more w in
        let u : Item (List ℕ) = record {
          at = at;
          key = c_str text [];
          content = set_scalar junk val;
        } in
        let (t', run, w', size, law) =
          insert_lem same eq (bucket t text) (c_str text more) u (λ old. set_scalar old val) low
            (val % 2 ^ 32) stops (low_set val) (low_set val junk) false t w small in
        (
          t',
          (λ j. e j >>= λ h. slice_key text more j >>= λ str.
                insert same h (c_str text more)
                  (record { at = at; key = str; content = set_scalar junk val })
                  (λ old. set_scalar old val) false t)
              ∙ run,
          w',
          λ other rest.
              seek_val32-found t' other rest w'
              ∙ ap
                  (λ n. some (
                    or_null
                      (Option.map low (found same t' (bucket_of seed other n) (c_str other rest)))))
                  size
              ∙ ap (λ o. some (or_null o)) (law (bucket t other) (c_str other rest))
              ∙ read_if (is_key t text more other rest) (some (val % 2 ^ 32))
                  (Option.map low (found same t (bucket t other) (c_str other rest)))
                  (seek_val32 seed same t (some (c_str other rest)) (length other))
                  (seek_val32-found t other rest w),
        )

  -- In a well-formed table `hashtbl_erase` of a string, with its length, succeeds and leaves a
  -- well-formed table. `hashtbl_seek` then gives nothing for the strings that the comparison takes for
  -- the key and that have its bucket, and for all others what it gave before. The comparison is an
  -- equivalence.
  pub erase-seek :
      (t : Table (List ℕ)) (text more : List ℕ)
      → IsTable same t
      → (t' : Table (List ℕ)) × (erase_str seed same t (some (c_str text more)) (length text)
          ≡ some t')
        × IsTable same t'
        × ((other rest : List ℕ)
            → seek seed same t' (some (c_str other rest)) (length other) ≡ (
                if is_key t text more other rest
                then some 0
                else seek seed same t (some (c_str other rest)) (length other)))
  unfolding erase_str
  erase-seek t text more w =
      let (e, small) = hashed t text more w in
      let (t', run, w', size, law) =
        erase_lem same eq (bucket t text) (c_str text more) t w small in
      (
        t',
        ap (λ o. o >>= λ h. erase same h (c_str text more) t) e ∙ run,
        w',
        λ other rest.
            read_changed t t' text more other rest none w w' size
              (law (bucket t other) (c_str other rest)),
      )
