-- ===== src/Detect/Median.antt =====
-- The median and the median absolute deviation of internal/detect/detect.go. Sorting is sort.Slice of
-- integers, where equal elements cannot be told apart.
use costcrew.Base.{
  ◌-◌, ◌/◌, ◌%◌, List, [], ◌∷◌, if◌then◌else◌, ◌==◌, length, get_or, map, pos, leb_ℤ, add64, sub64,
  quot64,
}
use costcrew.Money.Amount.{Cents, abs}

unfoldable pub put : Cents → List Cents → List Cents
put x [] = x ∷ []
put x (y ∷ l) = let rest = put x l in if leb_ℤ x y then x ∷ y ∷ l else y ∷ rest

unfoldable pub sort : List Cents → List Cents
sort [] = []
sort (x ∷ l) = put x (sort l)

unfoldable pub median : List Cents → Cents
median v =
    let s = sort v in
    let n = length s in
    if n == 0
    then pos 0
    else if n % 2 == 1
    then get_or s (n / 2) (pos 0)
    else quot64 (add64 (get_or s (n / 2 - 1) (pos 0)) (get_or s (n / 2) (pos 0))) 2

unfoldable pub median_abs_dev : List Cents → Cents → Cents
median_abs_dev v med = median (map (λ x. abs (sub64 x med)) v)
