-- ===== src/Base/Tables.antt =====
-- Database tables as lists of rows: UPDATE ... WHERE, INSERT, and what a query of the changed
-- table finds.
use Prim.Native.Nat.{suc}
use mathlib.Core.Path.{◌≡◌, refl, subst}
use mathlib.Core.Logic.{inl, inr}
use mathlib.Core.Bool.{Bool, true, false}
use mathlib.Core.List.{List, [], ◌∷◌, ◌++◌}
use mathlib.Core.Option
use mathlib.Core.Option.{Option, none, some}
use native.Mathlib.Omega.{arith}
use costcrew.Base.Tests.{if◌then◌else◌, Bool-cases}
use costcrew.Base.Lists.{find, length, All, All-append}

module _ {ℓ} {A : Type ℓ} where
  -- UPDATE table SET f WHERE q
  abbrev pub update : (A → Bool) → (A → A) → List A → List A
  update q f [] = []
  update q f (x ∷ xs) = (if q x then f x else x) ∷ update q f xs

  -- DELETE FROM table WHERE q
  abbrev pub delete : (A → Bool) → List A → List A
  delete q [] = []
  delete q (x ∷ xs) = let rest = delete q xs in if q x then rest else x ∷ rest

  -- INSERT INTO table
  abbrev pub insert : A → List A → List A
  insert x xs = xs ++ x ∷ []

  -- A query whose test the update leaves alone finds the row that it found, updated.
  pub find-update :
      (p q : A → Bool) (f : A → A)
      → ((x : A) → p (f x) ≡ p x)
      → (xs : List A)
      → find p (update q f xs) ≡ Option.map (λ x. if q x then f x else x) (find p xs)
  find-update p q f same [] = refl
  find-update p q f same (x ∷ xs) = elim (Bool-cases (q x)) [
    | inl hit ↦ rw hit (
        rw (same x) (elim (Bool-cases (p x)) [
          | inl found ↦ rw (found, hit)
          | inr further ↦ rw further (find-update p q f same xs)
        ]))
    | inr miss ↦ rw miss (elim (Bool-cases (p x)) [
      | inl found ↦ rw (found, miss)
      | inr further ↦ rw further (find-update p q f same xs)
    ])
  ]

  pub length-update : (q : A → Bool) (f : A → A) (xs : List A) → length (update q f xs) ≡ length xs
  length-update q f [] = refl
  length-update q f (x ∷ xs) = omega (arith, length-update q f xs)

  pub length-insert : (x : A) (xs : List A) → length (insert x xs) ≡ suc (length xs)
  length-insert x [] = refl
  length-insert x (y ∷ xs) = omega (arith, length-insert x xs)

  pub find-insert_found :
      (p : A → Bool) (y : A) (xs : List A) {z : A}
      → find p xs ≡ some z
      → find p (insert y xs) ≡ some z
  find-insert_found p y [] h = cc
  find-insert_found p y (x ∷ xs) {z} h = ground (arith, find-insert_found p y xs {z = z})

  pub find-insert_new :
      (p : A → Bool) (y : A) (xs : List A)
      → find p xs ≡ none
      → find p (insert y xs) ≡ (if p y then some y else none)
  find-insert_new p y [] h = refl
  find-insert_new p y (x ∷ xs) h = ground (arith, find-insert_new p y xs)

  -- What a query finds passes its test.
  pub find_sound : (p : A → Bool) (xs : List A) {y : A} → find p xs ≡ some y → p y ≡ true
  find_sound p [] h = cc
  find_sound p (x ∷ xs) {y} h = ground (arith, find_sound p xs {y = y})

module _ {ℓ} {A : Type ℓ} where
  -- No row that is left after DELETE passes its test.
  pub All-deleted : (q : A → Bool) (xs : List A) → All (λ x. q x ≡ false) (delete q xs)
  All-deleted q [] = tt
  All-deleted q (x ∷ xs) = elim (Bool-cases (q x)) [
    | inl gone ↦ rw gone (All-deleted q xs)
    | inr kept ↦ rw kept (kept, All-deleted q xs)
  ]

module _ {ℓ κ} {A : Type ℓ} where
  pub All-update :
      (P : A → Type κ) (q : A → Bool) (f : A → A)
      → ((x : A) → q x ≡ true → P x → P (f x))
      → (xs : List A) → All P xs
      → All P (update q f xs)
  All-update P q f keep [] h = tt
  All-update P q f keep (x ∷ xs) h = elim (Bool-cases (q x)) [
    | inl hit ↦ rw hit (keep x hit h.0, All-update P q f keep xs h.1)
    | inr miss ↦ rw miss (h.0, All-update P q f keep xs h.1)
  ]

  pub All-update_to :
      (P Q : A → Type κ) (q : A → Bool) (f : A → A)
      → ((x : A) → q x ≡ true → P x → Q (f x))
      → ((x : A) → q x ≡ false → P x → Q x)
      → (xs : List A) → All P xs
      → All Q (update q f xs)
  All-update_to P Q q f hit miss [] h = tt
  All-update_to P Q q f hit miss (x ∷ xs) h = elim (Bool-cases (q x)) [
    | inl is_hit ↦ rw is_hit (hit x is_hit h.0, All-update_to P Q q f hit miss xs h.1)
    | inr is_miss ↦ rw is_miss (miss x is_miss h.0, All-update_to P Q q f hit miss xs h.1)
  ]

  pub All-insert : (P : A → Type κ) (y : A) (xs : List A) → P y → All P xs → All P (insert y xs)
  All-insert P y xs hy h = All-append P xs (y ∷ []) h (hy, tt)

  pub All-delete : (P : A → Type κ) (q : A → Bool) (xs : List A) → All P xs → All P (delete q xs)
  All-delete P q [] h = tt
  All-delete P q (x ∷ xs) h = elim (Bool-cases (q x)) [
    | inl gone ↦ rw gone (All-delete P q xs h.1)
    | inr kept ↦ rw kept (h.0, All-delete P q xs h.1)
  ]

  -- What is left after DELETE failed its test.
  pub All-delete_where :
      (P : A → Type κ) (q : A → Bool) (xs : List A)
      → All P xs
      → All (λ x. P x × (q x ≡ false)) (delete q xs)
  All-delete_where P q [] h = tt
  All-delete_where P q (x ∷ xs) h = elim (Bool-cases (q x)) [
    | inl gone ↦ rw gone (All-delete_where P q xs h.1)
    | inr kept ↦ rw kept ((h.0, kept), All-delete_where P q xs h.1)
  ]

  pub All-find :
      (P : A → Type κ) (p : A → Bool) (xs : List A) {y : A} → All P xs → find p xs ≡ some y → P y
  All-find P p [] h e = cc
  All-find P p (x ∷ xs) h e = elim (Bool-cases (p x)) [
    | inl here ↦ subst P (cc (rw here at e)) h.0
    | inr further ↦ All-find P p xs h.1 (rw further at e)
  ]
