-- ===== src/Hash/Ints.antt =====
-- The tables with numbers for keys.
use mathlib.Core.Option
use zape.Base.{
  ℕ, ◌%◌, ◌<◌, ◌≡◌, refl, sym, ap, ◌∙◌, Bool, true, false, ◌&&◌, Option, none, some, List, ◌∷◌,
  get_elem?_of_lt, ◌==◌, ==→eq, eq→==, ==_refl, if◌then◌else◌, arith, Option-cases, Bool-cases, inl,
  inr,
}
use zape.Base.Fault.{◌>>=◌}
use zape.Pool.State.{Ptr}
use zape.Hash.Chain.{Item, IsEquiv, find, assign}
use zape.Hash.Laws.{find-eq-none}
use zape.Hash.State.{
  Table, freed, cleaned, or_null, insert, erase, seek_at, slot64, append64, erase64, seek64,
}
use zape.Hash.Table.{IsTable, found, insert_found, store_in}
use zape.Hash.Insert.{insert_lem}
use zape.Hash.Erase.{erase_lem}

pub nat_equiv : IsEquiv ◌==◌
nat_equiv = record {
  reflexive = ==_refl;
  congr_left = λ a b c h. ap (λ t. t == c) (==→eq a b h);
  congr_right = λ a b c h. ap (λ t. c == t) (==→eq a b h);
}

-- the `seek` functions read what is found
pub seek_at_lem :
    {K : Type 0} (same : K → K → Bool) (t : Table K) (h : ℕ) (q : K)
    → IsTable same t
    → h < t.size
    → seek_at same h q t ≡ some (or_null (found same t h q))
unfolding seek_at
seek_at_lem same t h q w small =
    let (c, e) = get_elem?_of_lt t.table h (omega (arith, w.sized)) in simp e

-- the value that is read, under a condition
pub read_if :
    (b : Bool) (x o : Option ℕ) (r : Option ℕ)
    → r ≡ some (or_null o)
    → some (or_null (if b then x else o)) ≡ (if b then some (or_null x) else r)
read_if true x o r e = refl
read_if false x o r e = sym e

pub map_id : (o : Option ℕ) → Option.map (λ x. x) o ≡ o
map_id none = refl
map_id (some v) = refl

slot64_lem : (key size : ℕ) → 0 < size → slot64 key size ≡ some (key % size)
unfolding slot64
slot64_lem key size pos = let some_room : (size == 0) ≡ false = ground arith in rw some_room refl

seek64-found :
    (t : Table ℕ) (q : ℕ)
    → IsTable ◌==◌ t
    → seek64 t q ≡ some (or_null (found ◌==◌ t (q % t.size) q))
unfolding seek64
seek64-found t q w =
    ap (λ o. o >>= λ h. seek_at ◌==◌ h q t) (slot64_lem q t.size w.roomy)
    ∙ seek_at_lem ◌==◌ t (q % t.size) q w (ground (arith, w.roomy))

-- equal keys are in one bucket
same_slot : (k q n : ℕ) → ((q % n == k % n) && (k == q)) ≡ (k == q)
same_slot k q n = elim (Bool-cases (k == q)) [
  | inl y ↦ rw (y, eq→== (q % n) (k % n) (ap (λ t. t % n) (sym (==→eq k q y)))) refl
  | inr m ↦ ground arith
]

-- what is read from a table in which the content under one key has changed
read_changed :
    (t t' : Table ℕ) (k q : ℕ) (x : Option ℕ)
    → IsTable ◌==◌ t
    → IsTable ◌==◌ t'
    → t'.size ≡ t.size
    → found ◌==◌ t' (q % t.size) q
      ≡ (if (q % t.size == k % t.size) && (k == q) then x else found ◌==◌ t (q % t.size) q)
    → seek64 t' q ≡ (if k == q then some (or_null x) else seek64 t q)
read_changed t t' k q x w w' size law =
    seek64-found t' q w'
    ∙ ap (λ n. some (or_null (found ◌==◌ t' (q % n) q))) size
    ∙ ap (λ o. some (or_null o)) law
    ∙ (λ j. some (or_null (if same_slot k q t.size j then x else found ◌==◌ t (q % t.size) q)))
    ∙ read_if (k == q) x (found ◌==◌ t (q % t.size) q) (seek64 t q) (seek64-found t q w)

same_result : {A : Type 0} {m : Option A} {x y : A} → m ≡ some x → m ≡ some y → x ≡ y
same_result p q = cc

-- a key that has a content has an item to change
assign-some :
    (k addr : ℕ) (c : List (Item ℕ)) (old : ℕ)
    → find ◌==◌ k c ≡ some old
    → (c' : List (Item ℕ)) × (assign ◌==◌ k (λ _. addr) c ≡ some c')
assign-some k addr c old e = elim (Option-cases (assign ◌==◌ k (λ _. addr) c)) [
  | inl a ↦ absurd (cc (find-eq-none ◌==◌ nat_equiv k k (λ _. addr) c a))
  | inr r ↦ r
]

-- In a well-formed table `hashtbl_append64` succeeds and leaves a well-formed table, in which the
-- key has the new content and every other key the content that it had.
pub append64-seek64 :
    (t : Table ℕ) (key addr : ℕ) (at : Ptr)
    → IsTable ◌==◌ t
    → (t' : Table ℕ) × (append64 t key addr at ≡ some t')
      × IsTable ◌==◌ t'
      × ((q : ℕ) → seek64 t' q ≡ (if key == q then some addr else seek64 t q))
unfolding append64
append64-seek64 t key addr at w =
    let u : Item ℕ = record { at = at; key = key; content = addr } in
    let (t', run, w', size, law) =
      insert_lem ◌==◌ nat_equiv (key % t.size) key u (λ _. addr) (λ x. x) addr (λ q. refl)
        (λ x. refl) refl true t w (ground (arith, w.roomy)) in
    (
      t',
      ap (λ o. o >>= λ h. insert ◌==◌ h key u (λ _. addr) true t) (slot64_lem key t.size w.roomy)
          ∙ run,
      w',
      λ q. read_changed t t' key q (some addr) w w' size (
          sym (map_id (found ◌==◌ t' (q % t.size) q)) ∙ law (q % t.size) q ∙ λ j.
          if (q % t.size == key % t.size) && (key == q)
          then some addr
          else map_id (found ◌==◌ t (q % t.size) q) j),
    )

-- In a well-formed table `hashtbl_erase64` succeeds and leaves a well-formed table, in which the key
-- has no content and every other key the content that it had.
pub erase64-seek64 :
    (t : Table ℕ) (key : ℕ)
    → IsTable ◌==◌ t
    → (t' : Table ℕ) × (erase64 t key ≡ some t')
      × IsTable ◌==◌ t'
      × ((q : ℕ) → seek64 t' q ≡ (if key == q then some 0 else seek64 t q))
unfolding erase64
erase64-seek64 t key w =
    let (t', run, w', size, law) =
      erase_lem ◌==◌ nat_equiv (key % t.size) key t w (ground (arith, w.roomy)) in
    (
      t',
      ap (λ o. o >>= λ h. erase ◌==◌ h key t) (slot64_lem key t.size w.roomy) ∙ run,
      w',
      λ q. read_changed t t' key q none w w' size (law (q % t.size) q),
    )

-- When a cleaner is set and the key has a content, `hashtbl_append64` calls the cleaner on the new
-- content, not on the old one, and it is the new content that the table then gives.
pub append64_cleans_new :
    (t : Table ℕ) (key addr old : ℕ) (at : Ptr)
    → IsTable ◌==◌ t
    → t.has_cleaner ≡ true
    → found ◌==◌ t (key % t.size) key ≡ some old
    → (t' : Table ℕ) × (append64 t key addr at ≡ some t')
      × (t'.log ≡ freed at ∷ cleaned addr ∷ t.log)
      × (seek64 t' key ≡ some addr)
unfolding append64
append64_cleans_new t key addr old at w cleaner known =
    let u : Item ℕ = record { at = at; key = key; content = addr } in
    let h = key % t.size in
    let small : h < t.size = ground (arith, w.roomy) in
    let (c, e) = get_elem?_of_lt t.table h (omega (arith, w.sized)) in
    let here : find ◌==◌ key c ≡ some old = sym (ap (λ o. o >>= find ◌==◌ key) e) ∙ known in
    let (c', a) = assign-some key addr c old here in
    let (ds, run) = store_in t.table h c' (omega (arith, w.sized)) in
    let done =
      ap (λ o. o >>= λ h. insert ◌==◌ h key u (λ _. addr) true t) (slot64_lem key t.size w.roomy)
      ∙ insert_found ◌==◌ nat_equiv h key u (λ _. addr) true t c c' ds e a run in
    let (t', same_run, _, law) = append64-seek64 t key addr at w in
    (
      t',
      same_run,
      ap (λ r. r.log) (same_result same_run done)
          ∙ (λ i. freed at ∷ (if cleaner i then cleaned addr ∷ t.log else t.log)),
      law key ∙ (λ i. if ==_refl key i then some addr else seek64 t key),
    )
