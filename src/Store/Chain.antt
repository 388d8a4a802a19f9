-- ===== src/Store/Chain.antt =====
-- What VerifyChain makes of a chain that is cut at its head or extended at its end.
use costcrew.Base.{
  ℕ, zero, suc, ◌≡◌, refl, sym, ◌∙◌, true, false, none, some, List, [], ◌∷◌, Text, length, ap, take,
  drop, insert, arith,
}
use costcrew.Store.Journal.{
  Entry, Line, genesis, Verdict, links, is_sealed, verify_from, verify_chain,
}

abbrev pub passed : {F : Type 0} → ℕ → Verdict F
passed n = record { sound = true; count = n; break_at = none }

-- A digest whose first 16 characters are there, as those of the hexadecimal text of a SHA-256 are.
abbrev pub IsDigest : (Text → Text) → Type 0
IsDigest digest = (s : Text) → length (take 16 (digest s)) ≡ 16

module _ {F : Type 0} (digest : Text → Text) (py_float : F → Text) where
  -- a record that passes lets the rest decide
  pub verify_from-some :
      (prev : Text) (n : ℕ) (e : Entry F) (ls : List (Line F))
      → links digest py_float prev e ≡ true
      → is_sealed digest py_float e ≡ true
      → verify_from digest py_float prev n (some e ∷ ls)
        ≡ verify_from digest py_float e.hash (suc n) ls
  unfolding verify_from
  verify_from-some prev n e ls linked right = rw (linked, right) refl

  pub verify_from-sound :
      (prev : Text) (n : ℕ) (e : Entry F) (ls : List (Line F))
      → (verify_from digest py_float prev n (some e ∷ ls)).sound ≡ true
      → (links digest py_float prev e ≡ true)
        × (is_sealed digest py_float e ≡ true)
        × ((verify_from digest py_float e.hash (suc n) ls).sound ≡ true)
  unfolding verify_from
  verify_from-sound prev n e ls h = ground arith

  verify_from-none :
      (prev : Text) (n : ℕ) (ls : List (Line F))
      → (verify_from digest py_float prev n (none ∷ ls)).sound ≡ false
  unfolding verify_from
  verify_from-none prev n ls = refl

  pub verify_from-nil : (prev : Text) (n : ℕ) → verify_from digest py_float prev n [] ≡ passed n
  unfolding verify_from
  verify_from-nil prev n = refl

  -- how many records came before makes no difference
  verify_from-recount :
      (prev : Text) (n m : ℕ) (ls : List (Line F))
      → (verify_from digest py_float prev n ls).sound ≡ true
      → (verify_from digest py_float prev m ls).sound ≡ true
  verify_from-recount prev n m [] h = unfold verify_from in refl
  verify_from-recount prev n m (none ∷ ls) h = unfold verify_from in h
  verify_from-recount prev n m (some e ∷ ls) h =
      let (linked, right, rest) = verify_from-sound prev n e ls h in
      rw (verify_from-some prev m e ls linked right)
        (verify_from-recount e.hash (suc n) (suc m) ls rest)

  links-genesis : (e : Entry F) → links digest py_float genesis e ≡ true
  unfolding links
  links-genesis e = ground arith

  -- The records after any predecessor verify as a journal of their own.
  verify_from-genesis :
      (prev : Text) (n m : ℕ) (ls : List (Line F))
      → (verify_from digest py_float prev n ls).sound ≡ true
      → (verify_from digest py_float genesis m ls).sound ≡ true
  verify_from-genesis prev n m [] h = unfold verify_from in refl
  verify_from-genesis prev n m (none ∷ ls) h = unfold verify_from in h
  verify_from-genesis prev n m (some e ∷ ls) h =
      let (_, right, rest) = verify_from-sound prev n e ls h in
      rw (verify_from-some genesis m e ls (links-genesis e) right)
        (verify_from-recount e.hash (suc n) (suc m) ls rest)

  verify_chain-tail :
      (l : Line F) (lines : List (Line F))
      → (verify_chain digest py_float (l ∷ lines)).sound ≡ true
      → (verify_chain digest py_float lines).sound ≡ true
  unfolding verify_chain
  verify_chain-tail none lines h = absurd (cc (verify_from-none genesis 0 lines, h))
  verify_chain-tail (some e) lines h =
      let (_, _, rest) = verify_from-sound genesis 0 e lines h in
      verify_from-genesis e.hash 1 0 lines rest

  -- A journal that verifies still does when any number of its first records is removed.
  pub verify_chain-drop :
      (k : ℕ) (lines : List (Line F))
      → (verify_chain digest py_float lines).sound ≡ true
      → (verify_chain digest py_float (drop k lines)).sound ≡ true
  verify_chain-drop zero lines h = h
  verify_chain-drop (suc k) [] h = h
  verify_chain-drop (suc k) (l ∷ lines) h = verify_chain-drop k lines (verify_chain-tail l lines h)

  -- the hash that the next record names
  abbrev pub end_hash : Text → List (Line F) → Text
  end_hash prev [] = prev
  end_hash prev (none ∷ ls) = end_hash prev ls
  end_hash prev (some e ∷ ls) = end_hash e.hash ls

  pub verify_from-insert :
      (prev : Text) (n m : ℕ) (e : Entry F) (ls : List (Line F))
      → verify_from digest py_float prev n ls ≡ passed m
      → links digest py_float (end_hash prev ls) e ≡ true
      → is_sealed digest py_float e ≡ true
      → verify_from digest py_float prev n (insert (some e) ls) ≡ passed (suc m)
  verify_from-insert prev n m e [] h linked right =
      verify_from-some prev n e [] linked right
      ∙ (verify_from-nil e.hash (suc n)
          ∙ ap (λ k. passed (suc k)) (ap (λ v. v.count) (sym (verify_from-nil prev n) ∙ h)))
  verify_from-insert prev n m e (none ∷ ls) h linked right =
      absurd (cc (verify_from-none prev n ls, ap (λ v. v.sound) h))
  verify_from-insert prev n m e (some d ∷ ls) h linked right =
      let (first, sealed_right, _) = verify_from-sound prev n d ls (ap (λ v. v.sound) h) in
      verify_from-some prev n d (insert (some e) ls) first sealed_right
      ∙ verify_from-insert d.hash (suc n) m e ls
          (sym (verify_from-some prev n d ls first sealed_right) ∙ h) linked right

  pub end_hash-insert :
      (prev : Text) (e : Entry F) (ls : List (Line F)) → end_hash prev (insert (some e) ls) ≡ e.hash
  end_hash-insert prev e [] = refl
  end_hash-insert prev e (none ∷ ls) = end_hash-insert prev e ls
  end_hash-insert prev e (some d ∷ ls) = end_hash-insert d.hash e ls
