-- ===== src/Base/Keys.antt =====
-- Keys of a table: distinct row ids, and how many rows a query selects.
use Prim.Native.Nat.{ℕ, ◌+◌, ◌≤◌}
use mathlib.Core.Path.{◌≡◌, refl, ap}
use mathlib.Core.Logic.{inl, inr}
use mathlib.Core.Bool.{Bool, true, false}
use mathlib.Core.List.{List, [], ◌∷◌, ◌++◌, map}
use mathlib.Core.Option
use mathlib.Core.Option.{Option, none, some}
use native.Mathlib.Omega.{arith}
use costcrew.Base.Tests.{if◌then◌else◌, Bool-cases, ◌==◌, ==_iff}
use costcrew.Base.Lists.{find, select, length}
use costcrew.Base.Tables.{update, delete, insert}

abbrev pub mem_id : ℕ → List ℕ → Bool
mem_id x [] = false
mem_id x (y ∷ l) = let rest = mem_id x l in if y == x then true else rest

abbrev pub Distinct : List ℕ → Type 0
Distinct [] = Unit
Distinct (x ∷ l) = (mem_id x l ≡ false) × Distinct l

mem_id-insert :
    (x y : ℕ) (l : List ℕ)
    → mem_id x l ≡ false
    → mem_id y (x ∷ []) ≡ false
    → mem_id x (l ++ y ∷ []) ≡ false
mem_id-insert x y [] h k = grind arith
mem_id-insert x y (z ∷ l) h k = ground (arith, mem_id-insert x y l)

-- An id that is not in use can be added.
pub Distinct-insert : (y : ℕ) (l : List ℕ) → mem_id y l ≡ false → Distinct l → Distinct (insert y l)
Distinct-insert y [] h d = (refl, tt)
Distinct-insert y (x ∷ l) h d =
    (mem_id-insert x y l d.0 (ground arith), Distinct-insert y l (ground arith) d.1)

module _ {A : Type 0} where
  pub map-update :
      (key : A → ℕ) (q : A → Bool) (f : A → A)
      → ((x : A) → key (f x) ≡ key x)
      → (xs : List A) → map key (update q f xs) ≡ map key xs
  map-update key q f same [] = refl
  map-update key q f same (x ∷ xs) = elim (Bool-cases (q x)) [
    | inl hit ↦ rw (hit, same x, map-update key q f same xs) refl
    | inr miss ↦ rw (miss, map-update key q f same xs) refl
  ]

  pub map-insert :
      (key : A → ℕ) (y : A) (xs : List A) → map key (insert y xs) ≡ insert (key y) (map key xs)
  map-insert key y [] = refl
  map-insert key y (x ∷ xs) = rw (map-insert key y xs) refl

module _ {ℓ} {A : Type ℓ} where
  -- Where a query finds nothing, it selects no row.
  pub find-select-none : (q : A → Bool) (xs : List A) → find q xs ≡ none → length (select q xs) ≡ 0
  find-select-none q [] h = refl
  find-select-none q (x ∷ xs) h = ground (arith, find-select-none q xs)

  pub length-select-insert :
      (q : A → Bool) (y : A) (xs : List A)
      → length (select q (insert y xs)) ≡ length (select q xs) + (if q y then 1 else 0)
  length-select-insert q y [] = ground arith
  length-select-insert q y (x ∷ xs) = ground (arith, length-select-insert q y xs)

  pub length-select-update :
      (q p : A → Bool) (f : A → A)
      → ((x : A) → q (f x) ≡ q x)
      → (xs : List A) → length (select q (update p f xs)) ≡ length (select q xs)
  length-select-update q p f same [] = refl
  length-select-update q p f same (x ∷ xs) =
      ground (arith, length-select-update q p f same xs, same x)

  -- A query that selects at most one row still does after an insertion that it was asked about.
  pub select-insert_once :
      (q : A → Bool) (y : A) (xs : List A)
      → (q y ≡ true → find q xs ≡ none)
      → length (select q xs) ≤ 1
      → length (select q (insert y xs)) ≤ 1
  select-insert_once q y xs new h = elim (Bool-cases (q y)) [
    | inl selected ↦
        rw (length-select-insert q y xs, selected, find-select-none q xs (new selected))
          (omega arith)
    | inr passed ↦ rw (length-select-insert q y xs, passed) (omega arith)
  ]

  pub length-select-delete :
      (q p : A → Bool) (xs : List A) → length (select q (delete p xs)) ≤ length (select q xs)
  length-select-delete q p [] = omega arith
  length-select-delete q p (x ∷ xs) = ground (arith, length-select-delete q p xs)

  -- DELETE takes from a query no more rows than it deletes.
  pub select-delete_few :
      (q p : A → Bool) (xs : List A)
      → length (select q xs) ≤ length (select q (delete p xs)) + length (select p xs)
  select-delete_few q p [] = omega arith
  select-delete_few q p (x ∷ xs) = ground (arith, select-delete_few q p xs)

  -- UPDATE takes from a query no more rows than it changes.
  pub select-update_few :
      (q p : A → Bool) (f : A → A) (xs : List A)
      → length (select q xs) ≤ length (select q (update p f xs)) + length (select p xs)
  select-update_few q p f [] = omega arith
  select-update_few q p f (x ∷ xs) = ground (arith, select-update_few q p f xs)

  pub find-select-some :
      (q : A → Bool) (xs : List A) {y : A} → find q xs ≡ some y → 1 ≤ length (select q xs)
  find-select-some q [] h = cc
  find-select-some q (x ∷ xs) {y} h = ground (arith, find-select-some q xs {y = y})

  pub select-found :
      (p q : A → Bool) (xs : List A) {y : A}
      → find p xs ≡ some y
      → q y ≡ true
      → 1 ≤ length (select q xs)
  select-found p q [] h e = cc
  select-found p q (x ∷ xs) {y} h e = ground (arith, select-found p q xs {y = y})

  -- DELETE of one row, which a query does not ask for, leaves what the query selects.
  pub select-delete_found :
      (p q : A → Bool) (xs : List A) {y : A}
      → length (select p xs) ≤ 1
      → find p xs ≡ some y
      → q y ≡ false
      → length (select q xs) ≤ length (select q (delete p xs))
  select-delete_found p q [] once h e = cc
  select-delete_found p q (x ∷ xs) {y} once h e =
      ground (arith, select-delete_found p q xs {y = y}, select-delete_few q p xs)

  -- DELETE of rows that a query does not ask for leaves the row that it finds.
  pub find-delete_other :
      (q p : A → Bool)
      → ((x : A) → q x ≡ true → p x ≡ false)
      → (xs : List A) → find q (delete p xs) ≡ find q xs
  find-delete_other q p apart [] = refl
  find-delete_other q p apart (x ∷ xs) = elim (Bool-cases (q x)) [
    | inl hit ↦ rw (hit, apart x hit, hit) refl
    | inr miss ↦ ground (arith, find-delete_other q p apart xs)
  ]

  pub find-delete_same : (p : A → Bool) (xs : List A) → find p (delete p xs) ≡ none
  find-delete_same p [] = refl
  find-delete_same p (x ∷ xs) = ground (arith, find-delete_same p xs)

  -- What one query finds fails the test of another that finds nothing.
  pub find-find-none :
      (p q : A → Bool) (xs : List A) {y : A} → find p xs ≡ none → find q xs ≡ some y → p y ≡ false
  find-find-none p q [] h k = cc
  find-find-none p q (x ∷ xs) {y} h k = ground (arith, find-find-none p q xs {y = y})

module _ {A : Type 0} where
  -- A row that is found by its id has its id in use.
  pub find-mem_id :
      (key : A → ℕ) (id : ℕ) (xs : List A) {y : A}
      → find (λ x. key x == id) xs ≡ some y
      → mem_id id (map key xs) ≡ true
  find-mem_id key id [] h = cc
  find-mem_id key id (x ∷ xs) {y} h = ground (arith, find-mem_id key id xs {y = y})

  -- UPDATE ... WHERE id=? changes the row with that id, and no other.
  pub find-update_key :
      (key : A → ℕ) (id : ℕ) (f : A → A)
      → ((x : A) → key (f x) ≡ key x)
      → (xs : List A)
      → find (λ x. key x == id) (update (λ x. key x == id) f xs)
        ≡ Option.map f (find (λ x. key x == id) xs)
  find-update_key key id f same [] = refl
  find-update_key key id f same (x ∷ xs) = elim (Bool-cases (key x == id)) [
    | inl hit ↦ rw (hit, same x, hit) refl
    | inr miss ↦ rw (miss, miss) (find-update_key key id f same xs)
  ]

  pub find-update_other :
      (key : A → ℕ) (id id' : ℕ) (f : A → A)
      → ((x : A) → key (f x) ≡ key x)
      → (id' == id) ≡ false
      → (xs : List A)
      → find (λ x. key x == id') (update (λ x. key x == id) f xs) ≡ find (λ x. key x == id') xs
  find-update_other key id id' f same ne [] = refl
  find-update_other key id id' f same ne (x ∷ xs) = elim (Bool-cases (key x == id)) [
    | inl hit ↦
        let miss : (key x == id') ≡ false =
          ground (arith, ==_iff (key x) id, ==_iff (key x) id', ==_iff id' id) in
        rw (hit, same x, miss) (find-update_other key id id' f same ne xs)
    | inr miss ↦
        rw miss
          (ap (λ l. if key x == id' then some x else l) (find-update_other key id id' f same ne xs))
  ]
