-- ===== src/Money/Total.antt =====
-- Sum: the total of the amounts, however they are ordered.
use mathlib.Core.List.{Perm, Permᴰ}
use mathlib.Core.Logic.{∥∥₁_elim}
use mathlib.Core.HLevel.{hedberg}
use native.Mathlib.Decide.{ℕ_discrete}
use costcrew.Base.{
  ◌≡◌, refl, sym, ◌∙◌, ap, List, [], ◌∷◌, ℤ, pos, ◌+ℤ◌, int_laws, wrap64, Fits64, add64_lem,
  wrap64_exact, wrap64-add, arith,
}
use costcrew.Money.Amount.{Cents, sum_from, sum}

-- The total in the integers, without a bound.
unfoldable pub total : List Cents → ℤ
total [] = pos 0
total (v ∷ vs) = v +ℤ total vs

+ℤ_assoc : (a b c : ℤ) → a +ℤ b +ℤ c ≡ a +ℤ (b +ℤ c)
+ℤ_assoc a b c = omega int_laws

sum_from-eq-wrap64 : (t : ℤ) (vs : List Cents) → sum_from (wrap64 t) vs ≡ wrap64 (t +ℤ total vs)
unfolding sum_from total
sum_from-eq-wrap64 t [] = ap wrap64 (omega int_laws)
sum_from-eq-wrap64 t (v ∷ vs) =
    rw (add64_lem, wrap64-add)
      (sum_from-eq-wrap64 (t +ℤ v) vs ∙ ap wrap64 (+ℤ_assoc t v (total vs)))

-- The sum that int64 additions give is the true total modulo 2 ^ 64, whatever the sums on the way
-- came to; so it is the true total wherever that fits in 64 bits.
pub sum-eq-wrap64 : (vs : List Cents) → sum vs ≡ wrap64 (total vs)
unfolding sum
sum-eq-wrap64 vs =
    ap (λ t. sum_from t vs) (sym (wrap64_exact (pos 0) (omega arith)))
    ∙ sum_from-eq-wrap64 (pos 0) vs
    ∙ ap wrap64 (omega int_laws)

pub sum_exact : (vs : List Cents) → Fits64 (total vs) → sum vs ≡ total vs
sum_exact vs h = sum-eq-wrap64 vs ∙ wrap64_exact (total vs) h

total-permᴰ : {vs ws : List Cents} → Permᴰ vs ws → total vs ≡ total ws
unfolding total
total-permᴰ Permᴰ.nil = refl
total-permᴰ (Permᴰ.cons e p) = rw (e, total-permᴰ p)
total-permᴰ (Permᴰ.swap e d) = rw (e, d) (omega int_laws)
total-permᴰ (Permᴰ.trans p q) = total-permᴰ p ∙ total-permᴰ q

ℤ_set : IsSet ℤ
ℤ_set = hedberg (hlevel ℕ_discrete)

-- Two orders of the same amounts have the same sum.
pub sum-perm : {vs ws : List Cents} → Perm vs ws → sum vs ≡ sum ws
sum-perm {vs} {ws} p =
    ∥∥₁_elim p (ℤ_set (sum vs) (sum ws))
      (λ d. sum-eq-wrap64 vs ∙ (ap wrap64 (total-permᴰ d) ∙ sym (sum-eq-wrap64 ws)))
