-- ===== src/Base/Trim.antt =====
-- strings.TrimSpace, twice and of a text that is not blank.
use Prim.Native.Nat.{ℕ, ◌≤◌}
use mathlib.Core.Path.{◌≡◌, refl, sym, ◌∙◌, ap, subst}
use mathlib.Core.Logic.{inl, inr}
use mathlib.Core.Bool.{false}
use mathlib.Core.List.{[], ◌∷◌, ◌++◌, reverse, reverse-append, reverse-reverse}
use native.Mathlib.Omega.{arith}
use costcrew.Base.Tests.{Bool-cases}
use costcrew.Base.Lists.{length, is_empty}
use costcrew.Base.Texts.{Text, is_space, trim_left, trim_space, is_blank}

length-trim_left : (s : Text) → length (trim_left s) ≤ length s
unfolding trim_left
length-trim_left [] = omega arith
length-trim_left (c ∷ s) = elim (Bool-cases (is_space c)) [
  | inl space ↦ rw space (omega (arith, length-trim_left s))
  | inr word ↦ rw word (omega arith)
]

trim_left-trim_left : (s : Text) → trim_left (trim_left s) ≡ trim_left s
unfolding trim_left
trim_left-trim_left [] = refl
trim_left-trim_left (c ∷ s) = elim (Bool-cases (is_space c)) [
  | inl space ↦ rw space (trim_left-trim_left s)
  | inr word ↦ rw (word, word) refl
]

trim_left-suffix : (s : Text) → (w : Text) × (s ≡ w ++ trim_left s)
unfolding trim_left
trim_left-suffix [] = ([], refl)
trim_left-suffix (c ∷ s) = elim (Bool-cases (is_space c)) [
  | inl space ↦ rw space (c ∷ (trim_left-suffix s).0, ap (λ l. c ∷ l) (trim_left-suffix s).1)
  | inr word ↦ rw word ([], refl)
]

-- A text that begins with no space has no prefix that does.
trim_left-prefix : (s t : Text) → trim_left (s ++ t) ≡ s ++ t → trim_left s ≡ s
unfolding trim_left
trim_left-prefix [] t h = refl
trim_left-prefix (c ∷ s) t h = elim (Bool-cases (is_space c)) [
  | inr word ↦ rw word refl
  | inl space ↦
      let shorter : trim_left (s ++ t) ≡ c ∷ s ++ t = rw space at h in
      grind (arith, length-trim_left (s ++ t), ap length shorter)
]

pub trim_space-trim_space : (s : Text) → trim_space (trim_space s) ≡ trim_space s
unfolding trim_space
trim_space-trim_space s =
    let t : Text = trim_left s in
    let u : Text = trim_left (reverse t) in
    let split : t ≡ reverse u ++ reverse (trim_left-suffix (reverse t)).0 =
      sym (reverse-reverse t)
      ∙ ap reverse (trim_left-suffix (reverse t)).1
      ∙ reverse-append (trim_left-suffix (reverse t)).0 u in
    let front : trim_left (reverse u) ≡ reverse u =
      trim_left-prefix (reverse u) _ (ap trim_left (sym split) ∙ trim_left-trim_left s ∙ split) in
    ap (λ l. reverse (trim_left (reverse l))) front
    ∙ ap (λ l. reverse (trim_left l)) (reverse-reverse u)
    ∙ ap reverse (trim_left-trim_left (reverse t))

trim_left-snoc :
    (c : ℕ) (s : Text) → is_space c ≡ false → is_empty (trim_left (s ++ c ∷ [])) ≡ false
unfolding trim_left
trim_left-snoc c [] solid = rw solid refl
trim_left-snoc c (d ∷ s) solid = ground (arith, trim_left-snoc c s solid)

snoc-is_empty : (c : ℕ) (s : Text) → is_empty (s ++ c ∷ []) ≡ false
snoc-is_empty c [] = refl
snoc-is_empty c (d ∷ s) = refl

reverse-is_empty : (s : Text) → is_empty s ≡ false → is_empty (reverse s) ≡ false
reverse-is_empty [] full = full
reverse-is_empty (c ∷ s) full =
    subst (λ l. is_empty l ≡ false) (sym (reverse-append (c ∷ []) s)) (snoc-is_empty c (reverse s))

-- A text whose first character is no space is not blank.
pub is_blank-cons : (c : ℕ) (s : Text) → is_space c ≡ false → is_blank (c ∷ s) ≡ false
unfolding is_blank trim_space trim_left
is_blank-cons c s solid = rw solid (
    reverse-is_empty (trim_left (reverse (c ∷ s))) (
      subst (λ l. is_empty (trim_left l) ≡ false) (sym (reverse-append (c ∷ []) s))
        (trim_left-snoc c (reverse s) solid)))
