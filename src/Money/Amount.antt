-- ===== src/Money/Amount.antt =====
-- Cents and Micros: arithmetic and printing. Float, Scale and Pct use float64 and are left out.
use costcrew.Base.{
  ℕ, ◌+◌, ◌/◌, ◌%◌, ◌||◌, List, [], ◌∷◌, ◌++◌, Text, codes, if◌then◌else◌, ◌==◌, ℤ, pos, negsuc,
  nat_abs, leb_ℤ, ltb_ℤ, eq_ℤ, add64, sub64, mul64, neg64, quot64,
}
use costcrew.Base.Decimal.{show_nat, show_two, show_four}

-- int64, as an integer that fits in 64 bits
abbrev pub Cents : Type 0
Cents = ℤ

abbrev pub Micros : Type 0
Micros = ℤ

unfoldable pub add : Cents → Cents → Cents
add c o = add64 c o

unfoldable pub sub : Cents → Cents → Cents
sub c o = sub64 c o

unfoldable pub abs : Cents → Cents
abs c = if ltb_ℤ c (pos 0) then neg64 c else c

unfoldable pub sum_from : Cents → List Cents → Cents
sum_from t [] = t
sum_from t (v ∷ vs) = sum_from (add64 t v) vs

unfoldable pub sum : List Cents → Cents
unfolding sum_from
sum vs = sum_from (pos 0) vs

-- `(v + half) / d`, with the sign of `n` put back
unfoldable pub round_away : ℤ → ℕ → ℕ → ℤ
round_away n half d =
    let neg = ltb_ℤ n (pos 0) in
    let v = if neg then neg64 n else n in
    let r = quot64 (add64 v (pos half)) d in if neg then neg64 r else r

-- The product wraps like every int64 product.
unfoldable pub bps : Cents → ℤ → Cents
unfolding round_away
bps c rate = round_away (mul64 c rate) 5000 10000

-- Micros.Cents
unfoldable pub to_cents : Micros → Cents
unfolding round_away
to_cents m = round_away m 5000 10000

-- fmt's "%d.%02d" of an int64 and its remainder. Only the most negative int64 is negative here,
-- and fmt prints a minus sign on both parts.
print_parts : ℤ → Text
print_parts (pos v) = show_nat (v / 100) ++ b'.' ∷ show_two (v % 100)
print_parts (negsuc v) =
    let r = (v + 1) % 100 in
    b'-' ∷ show_nat ((v + 1) / 100) ++ b'.' ∷ (if r == 0 then codes "00" else b'-' ∷ show_nat r)

-- Cents.String
unfoldable pub print : Cents → Text
unfolding print_parts
print c =
    let neg = ltb_ℤ c (pos 0) in
    let v = if neg then neg64 c else c in if neg then b'-' ∷ print_parts v else print_parts v

-- Micros.String: four decimals under a cent
unfoldable pub print_micros : Micros → Text
unfolding print to_cents
print_micros m =
    let neg = ltb_ℤ m (pos 0) in
    let v = if neg then neg64 m else m in
    let s = codes "0." ++ show_four (nat_abs (quot64 (add64 v (pos 50)) 100)) in
    if leb_ℤ m (negsuc 9999) || leb_ℤ (pos 10000) m || eq_ℤ m (pos 0)
    then print (to_cents m)
    else (if neg then b'-' ∷ s else s)
