-- ===== src/Base/Sorting.antt =====
-- sort.SliceStable and ORDER BY: insertion sort by a strict order, which keeps the order of elements
-- that are equal in it; and `any`, whether an element passes a test.
use mathlib.Core.Path.{◌≡◌, refl, ◌∙◌, ap}
use mathlib.Core.Logic.{inl, inr}
use mathlib.Core.Bool.{Bool, true, false, ◌&&◌, ◌||◌}
use mathlib.Core.List.{List, [], ◌∷◌, ◌++◌}
use native.Mathlib.Omega.{arith}
use costcrew.Base.Tests.{if◌then◌else◌, Bool-cases}
use costcrew.Base.Lists.{All, All-mono, select}

module _ {ℓ} {A : Type ℓ} where
  abbrev pub any : (A → Bool) → List A → Bool
  any p [] = false
  any p (x ∷ xs) = p x || any p xs

  module _ (less : A → A → Bool) where
    abbrev pub put : A → List A → List A
    put x [] = x ∷ []
    put x (y ∷ ys) = let rest = put x ys in if less y x then y ∷ rest else x ∷ y ∷ ys

    abbrev pub sort : List A → List A
    sort [] = []
    sort (x ∷ xs) = put x (sort xs)

    any-put : (p : A → Bool) (x : A) (ys : List A) → any p (put x ys) ≡ (p x || any p ys)
    any-put p x [] = refl
    any-put p x (y ∷ ys) = ground (arith, any-put p x ys)

    pub any-sort : (p : A → Bool) (xs : List A) → any p (sort xs) ≡ any p xs
    any-sort p [] = refl
    any-sort p (x ∷ xs) = any-put p x (sort xs) ∙ ap (λ b. p x || b) (any-sort p xs)

module _ {ℓ κ} {A : Type ℓ} (P : A → Type κ) where
  All-put : (less : A → A → Bool) (x : A) (ys : List A) → P x → All P ys → All P (put less x ys)
  All-put less x [] h k = (h, tt)
  All-put less x (y ∷ ys) h k = elim (Bool-cases (less y x)) [
    | inl before ↦ rw before (k.0, All-put less x ys h k.1)
    | inr after ↦ rw after (h, k)
  ]

  pub All-select : (q : A → Bool) (xs : List A) → All P xs → All P (select q xs)
  All-select q [] h = tt
  All-select q (x ∷ xs) h = elim (Bool-cases (q x)) [
    | inl chosen ↦ rw chosen (h.0, All-select q xs h.1)
    | inr passed ↦ rw passed (All-select q xs h.1)
  ]

  pub All-sort : (less : A → A → Bool) (xs : List A) → All P xs → All P (sort less xs)
  All-sort less [] h = tt
  All-sort less (x ∷ xs) h = All-put less x (sort less xs) h.0 (All-sort less xs h.1)

  put-All : (less : A → A → Bool) (x : A) (ys : List A) → All P (put less x ys) → P x × All P ys
  put-All less x [] h = h
  put-All less x (y ∷ ys) h = elim (Bool-cases (less y x)) [
    | inl before ↦
        let k : P y × All P (put less x ys) = rw before at h in
        let (px, rest) = put-All less x ys k.1 in (px, (k.0, rest))
    | inr after ↦ rw after at h
  ]

  pub sort-All : (less : A → A → Bool) (xs : List A) → All P (sort less xs) → All P xs
  sort-All less [] h = tt
  sort-All less (x ∷ xs) h =
      let (px, rest) = put-All less x (sort less xs) h in (px, sort-All less xs rest)

  -- What holds of the rows that a query selects holds of every row that passes its test.
  pub select-All :
      (q : A → Bool) (xs : List A) → All P (select q xs) → All (λ x. q x ≡ true → P x) xs
  select-All q [] h = tt
  select-All q (x ∷ xs) h = elim (Bool-cases (q x)) [
    | inl chosen ↦
        let k : P x × All P (select q xs) = rw chosen at h in ((λ _. k.0), select-All q xs k.1)
    | inr passed ↦ ((λ e. cc (e, passed)), select-All q xs (rw passed at h))
  ]

-- A strict order by keys that is transitive where it fails.
module _ {A : Type 0} (less : A → A → Bool) where
  abbrev pub IsSorted : List A → Type 0
  IsSorted [] = Unit
  IsSorted (x ∷ xs) = All (λ y. less y x ≡ false) xs × IsSorted xs

  pub select-IsSorted : (q : A → Bool) (xs : List A) → IsSorted xs → IsSorted (select q xs)
  select-IsSorted q [] h = tt
  select-IsSorted q (x ∷ xs) h = elim (Bool-cases (q x)) [
    | inl chosen ↦ rw chosen (All-select (λ y. less y x ≡ false) q xs h.0, select-IsSorted q xs h.1)
    | inr passed ↦ rw passed (select-IsSorted q xs h.1)
  ]

  module _ (asym : (x y : A) → less x y ≡ true → less y x ≡ false)
      (trans : (x y z : A) → less y x ≡ false → less z y ≡ false → less z x ≡ false) where
    put-IsSorted : (x : A) (ys : List A) → IsSorted ys → IsSorted (put less x ys)
    put-IsSorted x [] h = (tt, tt)
    put-IsSorted x (y ∷ ys) h = elim (Bool-cases (less y x)) [
      | inl before ↦
          rw before
            (All-put (λ z. less z y ≡ false) less x ys (asym y x before) h.0, put-IsSorted x ys h.1)
      | inr after ↦ rw after (
        (
          after,
          All-mono (λ z. less z y ≡ false) (λ z. less z x ≡ false) (λ z. trans x y z after) ys h.0,
        ),
        h,
      )
    ]

    pub sort-IsSorted : (xs : List A) → IsSorted (sort less xs)
    sort-IsSorted [] = tt
    sort-IsSorted (x ∷ xs) = put-IsSorted x (sort less xs) (sort-IsSorted xs)

module _ {ℓ} {A : Type ℓ} where
  pub any-append : (p : A → Bool) (xs ys : List A) → any p (xs ++ ys) ≡ (any p xs || any p ys)
  any-append p [] ys = refl
  any-append p (x ∷ xs) ys = ground (arith, any-append p xs ys)

  pub any-select : (p q : A → Bool) (xs : List A) → any p (select q xs) ≡ any (λ x. q x && p x) xs
  any-select p q [] = refl
  any-select p q (x ∷ xs) = ground (arith, any-select p q xs)

  -- An element that passes a test of itself is found by that test.
  pub All-any :
      (g : A → A → Bool) (xs : List A) → All (λ x. g x x ≡ true → any (λ y. g y x) xs ≡ true) xs
  All-any g [] = tt
  All-any g (x ∷ xs) = (
    λ h. rw h refl,
    All-mono (λ o. g o o ≡ true → any (λ y. g y o) xs ≡ true)
        (λ o. g o o ≡ true → any (λ y. g y o) (x ∷ xs) ≡ true) (λ o k h. ground (arith, k h)) xs
        (All-any g xs),
  )

module _ {ℓ κ} {A : Type ℓ} where
  -- The element that a test finds.
  pub any-All :
      (P : A → Type κ) (p : A → Bool) (xs : List A)
      → any p xs ≡ true
      → All P xs
      → (x : A) × (p x ≡ true) × P x
  any-All P p [] found h = cc
  any-All P p (x ∷ xs) found h = elim (Bool-cases (p x)) [
    | inl hit ↦ (x, hit, h.0)
    | inr miss ↦ any-All P p xs (rw miss at found) h.1
  ]

module _ {ℓ} {A : Type ℓ} where
  -- What a query selects passes its test.
  pub All-selected : (q : A → Bool) (xs : List A) → All (λ x. q x ≡ true) (select q xs)
  All-selected q [] = tt
  All-selected q (x ∷ xs) = elim (Bool-cases (q x)) [
    | inl chosen ↦ rw chosen (chosen, All-selected q xs)
    | inr passed ↦ rw passed (All-selected q xs)
  ]
