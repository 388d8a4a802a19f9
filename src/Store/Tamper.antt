-- ===== src/Store/Tamper.antt =====
-- What an edit of a journal costs: two journals that both verify, of one length and with one last hash.
use costcrew.Base.{
  ℕ, suc, ◌≡◌, ◌≢◌, refl, sym, ◌∙◌, ap, true, some, List, [], ◌∷◌, Text, text_eq, text_eq_iff,
  length, map, get_elem?, arith, Bool-cases, inl, inr, ◌⊎◌,
}
use costcrew.Store.Journal.{
  Entry, Line, body, seal, genesis, links, is_sealed, verify_from, verify_chain,
}
use costcrew.Store.Chain.{IsDigest, verify_from-sound, end_hash}

module _ {F : Type 0} (digest : Text → Text) (py_float : F → Text) where
  abbrev pub lines_of : List (Entry F) → List (Line F)
  lines_of es = map some es

  -- Two records at one place of the two journals, with one digest, that name different predecessors.
  pub record Collision (xs ys : List (Entry F)) : Type 0 where
    pub place : ℕ
    pub first : Entry F
    pub second : Entry F
    pub in_first : get_elem? xs place ≡ some first
    pub in_second : get_elem? ys place ≡ some second
    pub apart : first.prev ≢ second.prev
    pub same : seal digest py_float first ≡ seal digest py_float second

  Collision-cons :
      (x y : Entry F) (xs ys : List (Entry F)) → Collision xs ys → Collision (x ∷ xs) (y ∷ ys)
  Collision-cons x y xs ys c = record {
    place = suc c.place;
    first = c.first;
    second = c.second;
    in_first = c.in_first;
    in_second = c.in_second;
    apart = c.apart;
    same = c.same;
  }

  sealed_hash : (e : Entry F) → is_sealed digest py_float e ≡ true → seal digest py_float e ≡ e.hash
  unfolding is_sealed
  sealed_hash e h = (text_eq_iff (seal digest py_float e) e.hash).0 h

  links-not_genesis :
      (prev : Text) (e : Entry F)
      → length prev ≡ 16
      → links digest py_float prev e ≡ true
      → e.prev ≡ prev
  unfolding links
  links-not_genesis prev e long h =
      ground (arith, text_eq_iff e.prev prev, text_eq_iff prev genesis)

  module _ (hex : IsDigest digest) where
    hash_length : (e : Entry F) → is_sealed digest py_float e ≡ true → length e.hash ≡ 16
    hash_length e h = ap length (sym (sealed_hash e h)) ∙ unfold seal in hex (body py_float e)

    -- of two chains after records whose hashes are `p` and `q`
    same_from :
        (p q : Text) (n m : ℕ) (xs ys : List (Entry F))
        → length p ≡ 16
        → length q ≡ 16
        → (verify_from digest py_float p n (lines_of xs)).sound ≡ true
        → (verify_from digest py_float q m (lines_of ys)).sound ≡ true
        → length xs ≡ length ys
        → end_hash digest py_float p (lines_of xs) ≡ end_hash digest py_float q (lines_of ys)
        → Collision xs ys
          ⊎ ((p ≡ q) × (map (seal digest py_float) xs ≡ map (seal digest py_float) ys))
    same_from p q n m [] [] hp hq hx hy long ends = inr (ends, refl)
    same_from p q n m [] (y ∷ ys) hp hq hx hy long ends = absurd (omega (arith, long))
    same_from p q n m (x ∷ xs) [] hp hq hx hy long ends = absurd (omega (arith, long))
    same_from p q n m (x ∷ xs) (y ∷ ys) hp hq hx hy long ends =
        let (lx, sx, rx) = verify_from-sound digest py_float p n x (lines_of xs) hx in
        let (ly, sy, ry) = verify_from-sound digest py_float q m y (lines_of ys) hy in
        elim (same_from x.hash y.hash (suc n) (suc m) xs ys (hash_length x sx) (hash_length y sy) rx
          ry (omega (arith, long)) ends) [
            | inl clash ↦ inl (Collision-cons x y xs ys clash)
            | inr (hashes, seals) ↦
                let same : seal digest py_float x ≡ seal digest py_float y =
                  sealed_hash x sx ∙ hashes ∙ sym (sealed_hash y sy) in
                elim (Bool-cases (text_eq x.prev y.prev)) [
                  | inl agree ↦ inr (
                    cc (
                      links-not_genesis p x hp lx,
                      links-not_genesis q y hq ly,
                      (text_eq_iff x.prev y.prev).0 agree,
                    ),
                    cc (same, seals),
                  )
                  | inr differ ↦ inl (record {
                    place = 0;
                    first = x;
                    second = y;
                    in_first = refl;
                    in_second = refl;
                    apart = λ e. cc ((text_eq_iff x.prev y.prev).1 e, differ);
                    same = same;
                  })
                ]
          ]

    -- Two journals of valid records that both verify, of one length and with one last hash, have the
    -- same digest at every record; otherwise, at one place, their two records have one digest although
    -- they name different predecessors. So whoever edits a record and leaves the end of the chain as it
    -- was has found two records with one digest. The digest is one with at least 16 characters.
    pub same_end_same_seals :
        (xs ys : List (Entry F))
        → (verify_chain digest py_float (lines_of xs)).sound ≡ true
        → (verify_chain digest py_float (lines_of ys)).sound ≡ true
        → length xs ≡ length ys
        → end_hash digest py_float genesis (lines_of xs)
          ≡ end_hash digest py_float genesis (lines_of ys)
        → Collision xs ys ⊎ (map (seal digest py_float) xs ≡ map (seal digest py_float) ys)
    unfolding verify_chain
    same_end_same_seals [] [] hx hy long ends = inr refl
    same_end_same_seals [] (y ∷ ys) hx hy long ends = absurd (omega (arith, long))
    same_end_same_seals (x ∷ xs) [] hx hy long ends = absurd (omega (arith, long))
    same_end_same_seals (x ∷ xs) (y ∷ ys) hx hy long ends =
        let (_, sx, rx) = verify_from-sound digest py_float genesis 0 x (lines_of xs) hx in
        let (_, sy, ry) = verify_from-sound digest py_float genesis 0 y (lines_of ys) hy in
        elim (same_from x.hash y.hash 1 1 xs ys (hash_length x sx) (hash_length y sy) rx ry
          (omega (arith, long)) ends) [
            | inl clash ↦ inl (Collision-cons x y xs ys clash)
            | inr (hashes, seals) ↦ inr (
                let same : seal digest py_float x ≡ seal digest py_float y =
                  sealed_hash x sx ∙ hashes ∙ sym (sealed_hash y sy) in
                cc (same, seals))
          ]
