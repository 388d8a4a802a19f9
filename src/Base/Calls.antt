-- ===== src/Base/Calls.antt =====
-- Go functions that write to the database as they go and may fail in the middle: a call takes the
-- database to its next contents and to a value or an error, and keeps what it wrote before an error.
use mathlib.Core.Path.{◌≡◌, refl, sym, subst}
use mathlib.Core.List.{List, [], ◌∷◌}
use costcrew.Base.Results.{Result, ok, err}

abbrev pub Call : Type 0 → Type 0 → Type 0 → Type 0
Call S E A = S → S × Result E A

module _ {S E : Type 0} where
  abbrev pub after : {A B : Type 0} → S × Result E A → (A → Call S E B) → S × Result E B
  after (s, ok a) f = f a s
  after (s, err e) f = (s, err e)

  infixl 5 ◌>>=◌ ◌>>◌
  abbrev pub ◌>>=◌ : {A B : Type 0} → Call S E A → (A → Call S E B) → Call S E B
  (m >>= f) s = after (m s) f

  abbrev pub ◌>>◌ : {A B : Type 0} → Call S E A → Call S E B → Call S E B
  (m >> k) s = after (m s) (λ _. k)

  abbrev pub give : {A : Type 0} → A → Call S E A
  give a s = (s, ok a)

  -- `if err != nil { return err }` of a call that only reads
  abbrev pub checked : {A : Type 0} → (S → Result E A) → Call S E A
  checked f s = (s, f s)

  abbrev pub read : {A : Type 0} → (S → A) → Call S E A
  read f s = (s, ok (f s))

  abbrev pub write : (S → S) → Call S E (Unit {0})
  write f s = (f s, ok tt)

  -- A loop that stops at the first error.
  abbrev pub for_each : {A : Type 0} → (A → Call S E (Unit {0})) → List A → Call S E (Unit {0})
  for_each f [] s = (s, ok tt)
  for_each f (x ∷ xs) s = after (f x s) (λ _. for_each f xs)

  -- What holds of the value and the database if a call returns, and of the database if it fails.
  abbrev pub Run : {A : Type 0} → (S → Type 0) → (A → S → Type 0) → S × Result E A → Type 0
  Run failed done (s, ok a) = done a s
  Run failed done (s, err e) = failed s

  pub Run-after :
      {A B : Type 0} (failed : S → Type 0) (mid : A → S → Type 0) (done : B → S → Type 0)
      (r : S × Result E A) (f : A → Call S E B)
      → Run failed mid r
      → ((a : A) (s : S) → mid a s → Run failed done (f a s))
      → Run failed done (after r f)
  Run-after failed mid done (s, ok a) f h next = next a s h
  Run-after failed mid done (s, err e) f h next = h

  -- An invariant that one turn of a loop keeps, failing or not, holds after the loop.
  pub Run-for_each :
      {A : Type 0} (holds : S → Type 0) (f : A → Call S E (Unit {0}))
      → ((x : A) (s : S) → holds s → Run holds (λ _. holds) (f x s))
      → (xs : List A) (s : S) → holds s
      → Run holds (λ _. holds) (for_each f xs s)
  Run-for_each holds f turn [] s h = h
  Run-for_each holds f turn (x ∷ xs) s h =
      Run-after holds (λ _. holds) (λ _. holds) (f x s) (λ _. for_each f xs) (turn x s h)
        (λ _ s'. Run-for_each holds f turn xs s')

  -- A call that reads and may fail, and then the rest.
  pub Run-checked :
      {A B : Type 0} (failed : S → Type 0) (done : B → S → Type 0) (r : Result E A) (s : S)
      (k : A → Call S E B)
      → failed s
      → ((a : A) → r ≡ ok a → Run failed done (k a s))
      → Run failed done (after (s, r) k)
  Run-checked failed done (ok a) s k h next = next a refl
  Run-checked failed done (err e) s k h next = h

  pub Run-returned :
      {A B : Type 0} (failed : S → Type 0) (done : B → S → Type 0) (r : S × Result E A)
      (f : A → Call S E B) {a : A}
      → r.1 ≡ ok a
      → Run failed done (f a r.0)
      → Run failed done (after r f)
  Run-returned failed done (s, r) f e h = subst (λ x. Run failed done (after (s, x) f)) (sym e) h

  pub Run-mono :
      {A : Type 0} (failed : S → Type 0) (mid done : A → S → Type 0) (r : S × Result E A)
      → Run failed mid r
      → ((a : A) (s : S) → mid a s → done a s)
      → Run failed done r
  Run-mono failed mid done (s, ok a) h next = next a s h
  Run-mono failed mid done (s, err e) h next = h

  -- A value that is given at the end changes nothing.
  pub after-give : {A B : Type 0} (r : S × Result E A) (b : B) → (after r (λ _. give b)).0 ≡ r.0
  after-give (s, ok a) b = refl
  after-give (s, err e) b = refl

  pub Run-weaken :
      {A : Type 0} (failed failed' : S → Type 0) (done : A → S → Type 0) (r : S × Result E A)
      → Run failed done r
      → ((s : S) → failed s → failed' s)
      → Run failed' done r
  Run-weaken failed failed' done (s, ok a) h weaker = h
  Run-weaken failed failed' done (s, err e) h weaker = weaker s h

  pub Run-state : {A : Type 0} (P : S → Type 0) (r : S × Result E A) → P r.0 → Run P (λ _. P) r
  Run-state P (s, ok a) h = h
  Run-state P (s, err e) h = h

  pub state-Run : {A : Type 0} (P : S → Type 0) (r : S × Result E A) → Run P (λ _. P) r → P r.0
  state-Run P (s, ok a) h = h
  state-Run P (s, err e) h = h
