-- ===== src/Money/Tests.antt =====
-- Runs of internal/money on inputs of its own tests.
use costcrew.Base.{
  ◌≡◌, refl, ◌+◌, [], ◌∷◌, ◌++◌, arith, ◌*ℤ◌, wrap64, codes, trim_space, pos, negsuc, ok, err,
  add64, sub64, mul64, neg64, quot64,
}
use costcrew.Base.Decimal.{parse_int, show_nat, show_two, show_four}
use costcrew.Money.Amount.{print, print_micros, bps, sum}
use mathlib.Core.List.{Permᴰ}
use costcrew.Money.Total.{total, sum-eq-wrap64, sum-perm}
use costcrew.Money.Rounding.{RoundsTo, bps-RoundsTo}
use costcrew.Money.RoundTrip.{parse-print, parse_inner_plus}
use costcrew.Money.Decimal.{
  parse, parse_micros, parse_with, parse_body, parse_parts, fraction_cut, fraction_cents,
  fraction_micros, times_ten, strip_sign, starts_signed, cut, scaled, shape_of, too_big,
}

-- What a run of a parser computes through.
reading : Unit {0}
unfolding parse_with parse_body parse_parts fraction_cut fraction_cents fraction_micros times_ten
    trim_space strip_sign starts_signed cut scaled parse_int add64 sub64 mul64 neg64 quot64
reading = tt

parse_tie : parse (codes " 482.535 ") ≡ ok (pos 48254)
unfolding parse reading
parse_tie = refl

parse_negative : parse (codes "-1.5") ≡ ok (negsuc 149)
unfolding parse reading
parse_negative = refl

parse_two_signs : parse (codes "--1") ≡ err (shape_of (codes "-1"))
unfolding parse reading
parse_two_signs = refl

parse_inner_sign : parse (codes "1.+5") ≡ ok (pos 105)
unfolding parse reading
parse_inner_sign = refl

parse_wrapped : parse_micros (codes "18446744073710") ≡ err (too_big (codes "18446744073710"))
unfolding parse_micros reading
parse_wrapped = refl

print_cents : print (negsuc 149) ≡ codes "-1.50"
unfolding print show_nat show_two add64 sub64 mul64 neg64 quot64
print_cents = refl

print_sub_cent : print_micros (pos 3500) ≡ codes "0.0035"
unfolding print_micros show_four add64 sub64 mul64 neg64 quot64
print_sub_cent = refl

bps_tie : bps (pos 25) (pos 10600) ≡ pos 27
unfolding bps add64 sub64 mul64 neg64 quot64
bps_tie = refl

bps-RoundsTo_example : RoundsTo (pos 25 *ℤ pos 10600) (bps (pos 25) (pos 10600))
unfolding ◌*ℤ◌
bps-RoundsTo_example = bps-RoundsTo (pos 25) (pos 10600) (omega arith)

parse-print_example : parse (print (negsuc 149)) ≡ ok (negsuc 149)
parse-print_example = parse-print (negsuc 149) (omega arith)

parse_inner_plus_example : parse (show_nat 1 ++ b'.' ∷ b'+' ∷ (b'0' + 5) ∷ []) ≡ ok (pos 105)
parse_inner_plus_example = parse_inner_plus 1 5 (omega arith) (omega arith)

sum-eq-wrap64_example : sum (pos 1 ∷ negsuc 4 ∷ []) ≡ wrap64 (total (pos 1 ∷ negsuc 4 ∷ []))
sum-eq-wrap64_example = sum-eq-wrap64 (pos 1 ∷ negsuc 4 ∷ [])

sum-perm_example : sum (pos 48253 ∷ negsuc 4 ∷ pos 7 ∷ []) ≡ sum (negsuc 4 ∷ pos 48253 ∷ pos 7 ∷ [])
sum-perm_example = sum-perm ∣ Permᴰ.swap refl refl ∣₁
