-- ===== src/Base/Decimal/Laws.antt =====
-- Reading back the digits that %d prints.
use mathlib.Core.List.{reverse-cons, reverse-reverse}
use costcrew.Base.{
  ℕ, zero, suc, ◌+◌, ◌-◌, ◌*◌, ◌/◌, ◌%◌, ◌^◌, ◌<◌, ◌≡◌, refl, ◌∙◌, ap, true, false, some, List, [],
  ◌∷◌, ◌++◌, reverse, Text, ltb, Bool-cases, inl, inr, All, All-append, is_space, trim_space,
  trim_left, arith, pos,
}
use costcrew.Base.Decimal.{
  is_digit, read_digits, parse_digits, parse_int, show_fuel, show_nat, show_two,
}

pub read_digits-append :
    (acc n : ℕ) (s t : Text)
    → read_digits acc s ≡ some n
    → read_digits acc (s ++ t) ≡ read_digits n t
unfolding read_digits
read_digits-append acc n [] t h = ground arith
read_digits-append acc n (c ∷ s) t h =
    ground (arith, read_digits-append (acc * 10 + (c - b'0')) n s t)

read_digits-digit : (acc d : ℕ) → d < 10 → read_digits acc ((b'0' + d) ∷ []) ≡ some (acc * 10 + d)
unfolding read_digits
read_digits-digit acc d h = ground arith

show_fuel-read : (f n : ℕ) → n < f → read_digits 0 (show_fuel f n) ≡ some n
unfolding show_fuel
show_fuel-read zero n h = elim h [ ]
show_fuel-read (suc f) n h = elim (Bool-cases (ltb n 10)) [
  | inl one ↦ rw one (read_digits-digit 0 n (ground arith) ∙ ap some (omega arith))
  | inr more ↦ rw more (
      read_digits-append 0 (n / 10) (show_fuel f (n / 10)) ((b'0' + n % 10) ∷ [])
        (show_fuel-read f (n / 10) (ground arith))
      ∙ (read_digits-digit (n / 10) (n % 10) (omega arith) ∙ ap some (omega arith)))
]

show_fuel-digits : (f n : ℕ) → All (λ c. is_digit c ≡ true) (show_fuel f n)
unfolding show_fuel
show_fuel-digits zero n = tt
show_fuel-digits (suc f) n = elim (Bool-cases (ltb n 10)) [
  | inl one ↦ rw one (ground arith, tt)
  | inr more ↦ rw more (
      All-append (λ c. is_digit c ≡ true) (show_fuel f (n / 10)) ((b'0' + n % 10) ∷ [])
        (show_fuel-digits f (n / 10)) (ground arith, tt))
]

pub show_nat-read : (n : ℕ) → read_digits 0 (show_nat n) ≡ some n
unfolding show_nat
show_nat-read n = show_fuel-read (suc n) n (omega arith)

pub show_nat-digits : (n : ℕ) → All (λ c. is_digit c ≡ true) (show_nat n)
unfolding show_nat
show_nat-digits n = show_fuel-digits (suc n) n

-- Digits from the first on are read by ParseInt, within 64 bits.
pub parse_int-digits :
    (c n : ℕ) (s : Text)
    → is_digit c ≡ true
    → read_digits 0 (c ∷ s) ≡ some n
    → n < 2 ^ 63
    → parse_int (c ∷ s) ≡ some (pos n)
unfolding parse_int parse_digits
parse_int-digits c n s d r h = ground arith

All-reverse {ℓ κ} : {A : Type ℓ} (P : A → Type κ) (s : List A) → All P s → All P (reverse s)
All-reverse P [] h = h
All-reverse P (x ∷ s) h =
    rw reverse-cons (All-append P (reverse s) (x ∷ []) (All-reverse P s h.1) (h.0, tt))

trim_left_lem : (s : Text) → All (λ c. is_space c ≡ false) s → trim_left s ≡ s
unfolding trim_left
trim_left_lem [] h = refl
trim_left_lem (c ∷ s) h = rw h.0

-- A text with no space in it is its own trim.
pub trim_space_lem : (s : Text) → All (λ c. is_space c ≡ false) s → trim_space s ≡ s
unfolding trim_space
trim_space_lem s h =
    rw (trim_left_lem s h) (
      rw (trim_left_lem (reverse s) (All-reverse (λ c. is_space c ≡ false) s h))
        (reverse-reverse s))

show_fuel-cons : (f n : ℕ) → n < f → (c : ℕ) × (s : Text) × (show_fuel f n ≡ c ∷ s)
unfolding show_fuel
show_fuel-cons zero n h = elim h [ ]
show_fuel-cons (suc f) n h = elim (Bool-cases (ltb n 10)) [
  | inl one ↦ (b'0' + n, [], rw one)
  | inr more ↦
      let (c, s, e) = show_fuel-cons f (n / 10) (ground arith) in
      (c, s ++ (b'0' + n % 10) ∷ [], rw (more, e))
]

-- A number has a first digit.
pub show_nat-cons : (n : ℕ) → (c : ℕ) × (s : Text) × (show_nat n ≡ c ∷ s)
unfolding show_nat
show_nat-cons n = show_fuel-cons (suc n) n (omega arith)

show_fuel-digit : (f n : ℕ) → 0 < f → n < 10 → show_fuel f n ≡ (b'0' + n) ∷ []
unfolding show_fuel
show_fuel-digit zero n h d = elim h [ ]
show_fuel-digit (suc f) n h d = ground arith

-- Two digits, below a hundred.
pub show_two_lem : (n : ℕ) → n < 100 → show_two n ≡ (b'0' + n / 10) ∷ (b'0' + n % 10) ∷ []
unfolding show_two
show_two_lem n h = elim (Bool-cases (ltb n 10)) [
  | inl one ↦ rw one (ground arith)
  | inr more ↦ rw more (rw (show_fuel-digit n (n / 10) (ground arith) (ground arith)))
]
