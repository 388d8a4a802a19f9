-- ===== src/Base/Results.antt =====
-- A Go call that returns a value or an error.
use mathlib.Core.Path.{◌≡◌, refl, subst}
use mathlib.Core.Logic.{◌⊎◌, inl, inr}
use mathlib.Core.Bool.{Bool, true, false}

pub data Result {ℓ} (E : Type ℓ) (A : Type ℓ) : Type ℓ where
  ok : A → Result E A
  err : E → Result E A

module _ {ℓ} {E : Type ℓ} where
  infixl 5 ◌>>=◌
  abbrev pub ◌>>=◌ : {A B : Type ℓ} → Result E A → (A → Result E B) → Result E B
  ok a >>= f = f a
  err e >>= f = err e

module _ {E : Type 0} where
  infixl 5 ◌>>◌
  abbrev pub ◌>>◌ : {B : Type 0} → Result E (Unit {0}) → Result E B → Result E B
  m >> k = m >>= λ _. k

  -- `if bad { return err }`
  abbrev pub refuse_if : Bool → E → Result E (Unit {0})
  refuse_if true e = err e
  refuse_if false _ = ok tt

module _ {ℓ} {E A B : Type ℓ} where
  -- A successful chain is a success of its first call and of the rest.
  pub >>=-eq-ok :
      (first : Result E A) (rest : A → Result E B) {y : B}
      → (first >>= rest) ≡ ok y
      → (x : A) × (first ≡ ok x) × (rest x ≡ ok y)
  >>=-eq-ok (err why) rest done = cc
  >>=-eq-ok (ok x) rest done = (x, refl, done)

module _ {E A : Type 0} where
  pub Result-cases : (r : Result E A) → ((a : A) × (r ≡ ok a)) ⊎ ((e : E) × (r ≡ err e))
  Result-cases (ok a) = inl (a, refl)
  Result-cases (err e) = inr (e, refl)

  -- A guard that was passed.
  pub refuse_if-eq-ok :
      (b : Bool) (e : E) (k : Result E A) {a : A} → (refuse_if b e >> k) ≡ ok a → k ≡ ok a
  refuse_if-eq-ok true e k h = cc
  refuse_if-eq-ok false e k h = h

-- A property of the value, if there is one.
pub data Ensures {ℓ κ} {E A : Type ℓ} (P : A → Type κ) : Result E A → Type (ℓ ⊔ κ) where
  ensured : {x : A} → P x → Ensures P (ok x)
  refused_with : {e : E} → Ensures P (err e)

module _ {ℓ κ} {E A : Type ℓ} where
  -- A value has the property.
  pub Ensures-value : (P : A → Type κ) {m : Result E A} {x : A} → Ensures P m → m ≡ ok x → P x
  Ensures-value P (ensured h) e = subst P (cc e) h
  Ensures-value P refused_with e = cc

module _ {ℓ κ} {E A B : Type ℓ} where
  -- What the first call ensures is given to the rest.
  pub Ensures->>= :
      {P : A → Type κ} {Q : B → Type κ} {m : Result E A} {f : A → Result E B}
      → Ensures P m
      → ((x : A) → P x → Ensures Q (f x))
      → Ensures Q (m >>= f)
  Ensures->>= (ensured {x = x} h) next = next x h
  Ensures->>= refused_with next = refused_with

module _ {κ} {E A : Type 0} where
  pub Ensures-refuse_if :
      {Q : A → Type κ} (b : Bool) (e : E) (k : Result E A)
      → (b ≡ false → Ensures Q k)
      → Ensures Q (refuse_if b e >> k)
  Ensures-refuse_if true e k next = refused_with
  Ensures-refuse_if false e k next = next refl
