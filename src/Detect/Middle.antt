-- ===== src/Detect/Middle.antt =====
-- Where the median of a sample lies.
use costcrew.Base.{
  ℕ, zero, suc, ◌-◌, ◌/◌, ◌%◌, ◌^◌, ◌<◌, ◌≡◌, refl, List, [], ◌∷◌, ◌==◌, length, get_or, All, arith,
  Bool-cases, inl, inr, ℤ, pos, negsuc, leb_ℤ, ◌≤ℤ◌, nat_abs, add64, quot64, quot, ◌+ℤ◌,
  add64_exact, Fits64, int_laws,
}
use costcrew.Money.Amount.{Cents}
use costcrew.Detect.Median.{put, sort, median}

module _ (P : ℤ → Type 0) where
  All-put : (x : Cents) (l : List Cents) → P x → All P l → All P (put x l)
  unfolding put
  All-put x [] h k = (h, tt)
  All-put x (y ∷ l) h k = elim (Bool-cases (leb_ℤ x y)) [
    | inl first ↦ rw first (h, k)
    | inr after ↦ rw after (k.0, All-put x l h k.1)
  ]

  All-sort : (l : List Cents) → All P l → All P (sort l)
  unfolding sort
  All-sort [] k = tt
  All-sort (x ∷ l) k = All-put x (sort l) k.0 (All-sort l k.1)

  All-get_or : (l : List Cents) (i : ℕ) (d : Cents) → All P l → i < length l → P (get_or l i d)
  All-get_or [] i d k h = absurd (omega arith)
  All-get_or (x ∷ l) zero d k h = k.0
  All-get_or (x ∷ l) (suc i) d k h = All-get_or l i d k.1 (omega arith)

length-put : (x : Cents) (l : List Cents) → length (put x l) ≡ suc (length l)
unfolding put
length-put x [] = refl
length-put x (y ∷ l) = ground (arith, length-put x l)

length-sort : (l : List Cents) → length (sort l) ≡ length l
unfolding sort
length-sort [] = refl
length-sort (x ∷ l) = omega (arith, length-put x (sort l), length-sort l)

-- An amount between two bounds, with room for a sum.
pub record Between (lo hi x : ℤ) : Type 0 where
  pub above : lo ≤ℤ x
  pub below : x ≤ℤ hi
  pub small : nat_abs x < 2 ^ 62

half_above : (lo s : ℤ) → lo +ℤ lo ≤ℤ s → lo ≤ℤ quot s 2
unfolding quot ◌+ℤ◌
half_above (pos l) (pos n) h = ground arith
half_above (pos l) (negsuc n) h = ground arith
half_above (negsuc l) (pos n) h = ground arith
half_above (negsuc l) (negsuc n) h = ground arith

half_below : (hi s : ℤ) → s ≤ℤ hi +ℤ hi → quot s 2 ≤ℤ hi
unfolding quot ◌+ℤ◌
half_below (pos l) (pos n) h = ground arith
half_below (pos l) (negsuc n) h = ground arith
half_below (negsuc l) (pos n) h = ground arith
half_below (negsuc l) (negsuc n) h = ground arith

half_small : (s : ℤ) → nat_abs s < 2 ^ 63 → nat_abs (quot s 2) < 2 ^ 62
unfolding quot
half_small (pos n) h = ground arith
half_small (negsuc n) h = ground arith

sum_small : (a b : ℤ) → nat_abs a < 2 ^ 62 → nat_abs b < 2 ^ 62 → nat_abs (a +ℤ b) < 2 ^ 63
unfolding ◌+ℤ◌
sum_small a b h k = ground arith

small-Fits64 : (a : ℤ) → nat_abs a < 2 ^ 63 → Fits64 a
small-Fits64 (pos n) h = omega arith
small-Fits64 (negsuc n) h = omega arith

mean-Between :
    (lo hi a b : ℤ) → Between lo hi a → Between lo hi b → Between lo hi (quot64 (add64 a b) 2)
unfolding quot64
mean-Between lo hi a b ha hb =
    let small = sum_small a b ha.small hb.small in
    rw (add64_exact a b (small-Fits64 (a +ℤ b) small)) (record {
      above = half_above lo (a +ℤ b) (omega int_laws);
      below = half_below hi (a +ℤ b) (omega int_laws);
      small = half_small (a +ℤ b) small;
    })

-- The median of amounts that lie between two bounds and are below 2 ^ 62 lies between them, if
-- there is an amount at all.
pub median-Between :
    (lo hi : ℤ) (v : List Cents) → 0 < length v → All (Between lo hi) v → Between lo hi (median v)
unfolding median
median-Between lo hi v some_amount h =
    let s = All-sort (Between lo hi) v h in
    let n = length-sort v in
    elim (Bool-cases (length (sort v) == 0)) [
      | inl empty ↦ absurd (ground (arith, empty, n))
      | inr filled ↦ rw filled (elim (Bool-cases (length (sort v) % 2 == 1)) [
        | inl odd ↦
            rw odd
              (All-get_or (Between lo hi) (sort v) (length (sort v) / 2) (pos 0) s (omega arith))
        | inr even ↦ rw even (
            mean-Between lo hi _ _
              (All-get_or (Between lo hi) (sort v) (length (sort v) / 2 - 1) (pos 0) s
                (omega arith))
              (All-get_or (Between lo hi) (sort v) (length (sort v) / 2) (pos 0) s (omega arith)))
      ])
    ]
