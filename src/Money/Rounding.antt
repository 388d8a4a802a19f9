-- ===== src/Money/Rounding.antt =====
-- Rounding half away from zero: Bps and Micros.Cents.
use costcrew.Base.{
  ℕ, ◌+◌, ◌*◌, ◌/◌, ◌^◌, ◌≤◌, ◌<◌, ◌≡◌, ℤ, pos, negsuc, nat_abs, sub_ℕ, ◌*ℤ◌, neg64, add64, quot64,
  mul64_exact, arith, Fits64,
}
use costcrew.Money.Amount.{Micros, round_away, bps, to_cents}

-- n under its sign
abbrev signed : ℤ → ℕ → ℤ
signed (pos _) r = pos r
signed (negsuc _) r = sub_ℕ 0 r

-- Where the magnitude leaves room for the half, nothing wraps.
round_away_lem :
    (n : ℤ) (half d : ℕ)
    → nat_abs n + half < 2 ^ 63
    → 0 < d
    → round_away n half d ≡ signed n ((nat_abs n + half) / d)
unfolding round_away neg64 add64 quot64
round_away_lem (pos n) half d h hd = ground arith
round_away_lem (negsuc n) half d h hd = ground arith

-- r is n / 10000 rounded to the nearest integer, a tie away from zero.
abbrev pub RoundsTo : ℤ → ℤ → Type 0
RoundsTo n r =
    (10000 * nat_abs r ≤ nat_abs n + 5000)
    × (nat_abs n + 5000 < 10000 * nat_abs r + 10000)
    × (r ≡ signed n (nat_abs r))

signed-RoundsTo : (n : ℤ) → RoundsTo n (signed n ((nat_abs n + 5000) / 10000))
signed-RoundsTo (pos n) = ground arith
signed-RoundsTo (negsuc n) = ground arith

-- A rate in basis points: the exact product over 10000, rounded half away from zero, for every
-- product whose magnitude is at least 5000 below 2 ^ 63.
pub bps-RoundsTo :
    (c rate : ℤ) → nat_abs (c *ℤ rate) + 5000 < 2 ^ 63 → RoundsTo (c *ℤ rate) (bps c rate)
unfolding bps
bps-RoundsTo c rate h =
    rw (mul64_exact c rate (small (c *ℤ rate) h))
      (rw (round_away_lem (c *ℤ rate) 5000 10000 h (omega arith)) (signed-RoundsTo (c *ℤ rate)))
  where
    small : (n : ℤ) → nat_abs n + 5000 < 2 ^ 63 → Fits64 n
    small (pos n) h = omega arith
    small (negsuc n) h = omega arith

-- Micro-units become the nearest cent, a tie away from zero, for every amount whose magnitude is
-- at least 5000 below 2 ^ 63.
pub to_cents-RoundsTo : (m : Micros) → nat_abs m + 5000 < 2 ^ 63 → RoundsTo m (to_cents m)
unfolding to_cents
to_cents-RoundsTo m h = rw (round_away_lem m 5000 10000 h (omega arith)) (signed-RoundsTo m)
