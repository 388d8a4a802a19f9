-- ===== src/Base/Int64.antt =====
-- int64: two's complement, so every operation is taken modulo 2 ^ 64.
use Prim.Native.Nat.{ℕ, ◌-◌, ◌%◌, ◌^◌, ◌≤◌, ◌<◌}
use mathlib.Core.Path.{◌≡◌, refl, ◌∙◌}
use native.Mathlib.Omega.{arith}
use costcrew.Base.Tests.{ltb, if◌then◌else◌}
use costcrew.Base.Int.{ℤ, pos, negsuc, pos_part, neg_part, ◌+ℤ◌, ◌-ℤ◌, ◌*ℤ◌, quot}

-- The integer whose bits are those of a number below 2 ^ 64.
abbrev pub signed64 : ℕ → ℤ
signed64 n = if ltb n (2 ^ 63) then pos n else negsuc (2 ^ 64 - 1 - n)

abbrev residue64 : ℤ → ℕ
residue64 (pos n) = n % 2 ^ 64
residue64 (negsuc n) = 2 ^ 64 - 1 - n % 2 ^ 64

unfoldable pub wrap64 : ℤ → ℤ
wrap64 a = signed64 (residue64 a)

-- The integers that an int64 holds.
abbrev pub Fits64 : ℤ → Type 0
Fits64 a = (pos_part a < 2 ^ 63) × (neg_part a ≤ 2 ^ 63)

unfoldable pub add64 : ℤ → ℤ → ℤ
unfolding wrap64 ◌+ℤ◌
add64 a b = wrap64 (a +ℤ b)

unfoldable pub sub64 : ℤ → ℤ → ℤ
unfolding wrap64 ◌-ℤ◌
sub64 a b = wrap64 (a -ℤ b)

unfoldable pub mul64 : ℤ → ℤ → ℤ
unfolding wrap64 ◌*ℤ◌
mul64 a b = wrap64 (a *ℤ b)

unfoldable pub neg64 : ℤ → ℤ
unfolding wrap64 ◌-ℤ◌
neg64 a = wrap64 (pos 0 -ℤ a)

-- Division by a constant above 1 cannot overflow.
unfoldable pub quot64 : ℤ → ℕ → ℤ
unfolding quot
quot64 a d = quot a d

pub wrap64-Fits64 : (a : ℤ) → Fits64 (wrap64 a)
unfolding wrap64
wrap64-Fits64 a = ground arith

pub wrap64_exact : (a : ℤ) → Fits64 a → wrap64 a ≡ a
unfolding wrap64
wrap64_exact a h = ground arith

-- A wrapped summand may be wrapped later.
pub wrap64-add : (a b : ℤ) → wrap64 (wrap64 a +ℤ b) ≡ wrap64 (a +ℤ b)
unfolding wrap64 ◌+ℤ◌
wrap64-add a b = ground arith

pub add64_lem : (a b : ℤ) → add64 a b ≡ wrap64 (a +ℤ b)
unfolding add64
add64_lem a b = refl

pub sub64_lem : (a b : ℤ) → sub64 a b ≡ wrap64 (a -ℤ b)
unfolding sub64
sub64_lem a b = refl

pub mul64_lem : (a b : ℤ) → mul64 a b ≡ wrap64 (a *ℤ b)
unfolding mul64
mul64_lem a b = refl

pub neg64_lem : (a : ℤ) → neg64 a ≡ wrap64 (pos 0 -ℤ a)
unfolding neg64
neg64_lem a = refl

pub add64_exact : (a b : ℤ) → Fits64 (a +ℤ b) → add64 a b ≡ a +ℤ b
add64_exact a b h = add64_lem a b ∙ wrap64_exact (a +ℤ b) h

pub sub64_exact : (a b : ℤ) → Fits64 (a -ℤ b) → sub64 a b ≡ a -ℤ b
sub64_exact a b h = sub64_lem a b ∙ wrap64_exact (a -ℤ b) h

pub mul64_exact : (a b : ℤ) → Fits64 (a *ℤ b) → mul64 a b ≡ a *ℤ b
mul64_exact a b h = mul64_lem a b ∙ wrap64_exact (a *ℤ b) h

pub neg64_exact : (a : ℤ) → Fits64 (pos 0 -ℤ a) → neg64 a ≡ pos 0 -ℤ a
neg64_exact a h = neg64_lem a ∙ wrap64_exact (pos 0 -ℤ a) h
