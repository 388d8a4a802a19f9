-- ===== src/Base/Decimal.antt =====
-- What the program uses of strconv and fmt for decimal integers.
pub mod Laws
use Prim.Native.Nat.{ℕ, zero, suc, ◌+◌, ◌-◌, ◌*◌, ◌/◌, ◌%◌, ◌^◌}
use mathlib.Core.Bool.{Bool, ◌&&◌}
use mathlib.Core.Option.{Option, none, some}
use mathlib.Core.List.{[], ◌∷◌, ◌++◌}
use costcrew.Base.Tests.{ltb, leb, ◌==◌, if◌then◌else◌}
use costcrew.Base.Texts.{Text}
use costcrew.Base.Int.{ℤ, pos, sub_ℕ}

abbrev pub is_digit : ℕ → Bool
is_digit c = leb b'0' c && leb c b'9'

-- The digits of a text, read after those that stand for `acc`.
unfoldable pub read_digits : ℕ → Text → Option ℕ
read_digits acc [] = some acc
read_digits acc (c ∷ s) =
    let rest = read_digits (acc * 10 + (c - b'0')) s in if is_digit c then rest else none

-- One digit at least.
unfoldable pub parse_digits : Text → Option ℕ
unfolding read_digits
parse_digits [] = none
parse_digits (c ∷ s) = read_digits 0 (c ∷ s)

abbrev positive : Option ℕ → Option ℤ
positive none = none
positive (some n) = if ltb n (2 ^ 63) then some (pos n) else none

abbrev negative : Option ℕ → Option ℤ
negative none = none
negative (some n) = if leb n (2 ^ 63) then some (sub_ℕ 0 n) else none

-- strconv.ParseInt(s, 10, 64): one sign at most, then digits, within 64 bits.
unfoldable pub parse_int : Text → Option ℤ
unfolding parse_digits
parse_int [] = none
parse_int (c ∷ s) =
    if c == b'-'
    then negative (parse_digits s)
    else if c == b'+'
    then positive (parse_digits s)
    else positive (parse_digits (c ∷ s))

show_fuel : ℕ → ℕ → Text
show_fuel zero n = []
show_fuel (suc f) n =
    let longer = show_fuel f (n / 10) ++ (b'0' + n % 10) ∷ [] in
    if ltb n 10 then (b'0' + n) ∷ [] else longer

-- fmt's %d of a number that is not negative. A number has fewer digits than its successor's value.
unfoldable pub show_nat : ℕ → Text
unfolding show_fuel
show_nat n = show_fuel (suc n) n

-- fmt's %02d
unfoldable pub show_two : ℕ → Text
unfolding show_nat
show_two n = if ltb n 10 then b'0' ∷ show_nat n else show_nat n

-- fmt's %04d
unfoldable pub show_four : ℕ → Text
unfolding show_nat
show_four n =
    if ltb n 10
    then b'0' ∷ b'0' ∷ b'0' ∷ show_nat n
    else if ltb n 100
    then b'0' ∷ b'0' ∷ show_nat n
    else if ltb n 1000
    then b'0' ∷ show_nat n
    else show_nat n
