-- ===== src/Money/Decimal.antt =====
-- Parse and ParseMicros: a decimal string into cents or micro-units, without a float. A text is a
-- list of code points where Go's is a list of bytes: past the trim both read ASCII alone, since
-- any other character makes a ParseInt fail.
use costcrew.Base.{
  ℕ, zero, suc, ◌-◌, ◌^◌, Bool, true, false, ◌&&◌, ◌||◌, Option, none, some, [], ◌∷◌, Text, leb,
  ◌==◌, if◌then◌else◌, length, take, drop, is_empty, trim_space, ℤ, pos, ltb_ℤ, add64, sub64, mul64,
  neg64, quot64, Result, ok, err, ◌>>=◌, ◌>>◌, refuse_if,
}
use costcrew.Base.Decimal.{parse_int}
use costcrew.Money.Amount.{Cents, Micros}

-- Each wraps errShape; the text is the one that the message quotes.
pub data ParseError : Type 0 where
  shape : ParseError
  shape_of : Text → ParseError
  too_big : Text → ParseError

abbrev pub max_int64 : ℤ
max_int64 = pos (2 ^ 63 - 1)

-- whole*unit + part, or none when that does not fit in an int64
unfoldable pub scaled : ℤ → ℤ → ℕ → Option ℤ
scaled whole part unit =
    if ltb_ℤ whole (pos 0) || ltb_ℤ part (pos 0) || ltb_ℤ (quot64 (sub64 max_int64 part) unit) whole
    then none
    else some (add64 (mul64 whole (pos unit)) part)

-- strings.Cut(s, "."): what stands before and after the first point
unfoldable pub cut : Text → Text × Text
cut [] = ([], [])
cut (c ∷ s) = let (before, after) = cut s in if c == b'.' then ([], s) else (c ∷ before, after)

unfoldable pub strip_sign : Text → Bool × Text
strip_sign [] = (false, [])
strip_sign (c ∷ s) =
    if c == b'-' then (true, s) else if c == b'+' then (false, s) else (false, c ∷ s)

unfoldable pub starts_signed : Text → Bool
starts_signed [] = false
starts_signed (c ∷ _) = c == b'-' || c == b'+'

abbrev rounds_up : ℕ → Bool
rounds_up c = leb b'5' c && leb c b'9'

abbrev pub or_shape : Text → Option ℤ → Result ParseError ℤ
or_shape s none = err (shape_of s)
or_shape s (some v) = ok v

-- the fraction from the first `scale` digits, one more if the next digit is 5 or over; the rest
-- is read only to see that it is a number
unfoldable pub fraction_cut : ℕ → Text → Text → Result ParseError ℤ
fraction_cut scale s frac = do
  head ← or_shape s (parse_int (take scale frac))
  let next = drop scale frac
  let rounded =
      if (elim next [ [] ↦ false | c ∷ _ ↦ rounds_up c ]) then add64 head (pos 1) else head
  let tail_read = if is_empty next then some (pos 0) else parse_int next
  checked ← or_shape s tail_read
  ok rounded

-- the fraction of Parse, in cents; `s` is what the message quotes
unfoldable pub fraction_cents : Text → Text → Result ParseError ℤ
fraction_cents s [] = ok (pos 0)
fraction_cents s (d ∷ []) = do v ← or_shape s (parse_int (d ∷ [])); ok (mul64 v (pos 10))
fraction_cents s (d ∷ e ∷ r) = fraction_cut 2 s (d ∷ e ∷ r)

-- `for i := len(frac); i < scale; i++ { d *= 10 }`, on the rounds left
unfoldable pub times_ten : ℕ → ℤ → ℤ
times_ten zero d = d
times_ten (suc n) d = times_ten n (mul64 d (pos 10))

-- the fraction of ParseMicros, in millionths
unfoldable pub fraction_micros : Text → Text → Result ParseError ℤ
fraction_micros s [] = ok (pos 0)
fraction_micros s (d ∷ r) =
    if leb (length (d ∷ r)) 6
    then (do v ← or_shape s (parse_int (d ∷ r)); ok (times_ten (6 - length (d ∷ r)) v))
    else fraction_cut 6 s (d ∷ r)

abbrev pub or_too_big : Text → Option ℤ → Result ParseError ℤ
or_too_big s none = err (too_big s)
or_too_big s (some v) = ok v

-- the amount from its two parts, under the sign
unfoldable pub parse_parts :
    (Text → Text → Result ParseError ℤ) → ℕ → Bool → Text → Text × Text → Result ParseError ℤ
parse_parts fraction unit neg s (int_part, frac) = do
  whole ← or_shape s (parse_int (if is_empty int_part then b'0' ∷ [] else int_part))
  part ← fraction s frac
  total ← or_too_big s (scaled whole part unit)
  ok (if neg then neg64 total else total)

-- from the text after the trim and the sign
unfoldable pub parse_body :
    (Text → Text → Result ParseError ℤ) → ℕ → Bool → Text → Result ParseError ℤ
parse_body fraction unit neg s = do
  refuse_if (is_empty s || starts_signed s) (shape_of s)
  refuse_if (is_empty (cut s).0 && is_empty (cut s).1) shape
  parse_parts fraction unit neg s (cut s)

unfoldable pub parse_with : (Text → Text → Result ParseError ℤ) → ℕ → Text → Result ParseError ℤ
parse_with fraction unit text = do
  let s = trim_space text
  refuse_if (is_empty s) shape
  let (neg, rest) = strip_sign s
  parse_body fraction unit neg rest

unfoldable pub parse : Text → Result ParseError Cents
parse = parse_with fraction_cents 100

unfoldable pub parse_micros : Text → Result ParseError Micros
parse_micros = parse_with fraction_micros 1_000_000
