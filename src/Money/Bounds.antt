-- ===== src/Money/Bounds.antt =====
-- Amounts stay within 64 bits: what `scaled` refuses, and what a parsed amount can be.
use costcrew.Base.{
  ℕ, zero, suc, ◌+◌, ◌-◌, ◌*◌, ◌/◌, ◌^◌, ◌<◌, ◌≡◌, refl, Bool, none, some, Text, ltb, if◌then◌else◌,
  ℤ, pos, negsuc, nat_abs, Fits64, ◌+ℤ◌, ◌*ℤ◌, arith, Result, ok, wrap64-Fits64, add64_lem,
  mul64_lem, [], ◌∷◌, take, is_empty, Option-cases, trim_space, neg64, ◌>>=◌, ◌>>◌, refuse_if,
  >>=-eq-ok, ◌||◌, ◌&&◌, refuse_if-eq-ok, length, quot64, sub64, mul64, add64, ◌↔◌, ◌⊎◌, inl, inr,
}
use costcrew.Base.Decimal.{parse_int}
use costcrew.Money.Decimal.{
  scaled, max_int64, parse, parse_micros, times_ten, fraction_cut, fraction_cents, fraction_micros,
  parse_body, parse_parts, cut, strip_sign, parse_with, starts_signed, or_too_big, or_shape, shape,
  shape_of, ParseError,
}

room : (p u : ℕ) → p < 2 ^ 63 → quot64 (sub64 max_int64 (pos p)) u ≡ pos ((2 ^ 63 - 1 - p) / u)
unfolding quot64 sub64
room p u h = ground arith

product : (w u : ℕ) → w * u < 2 ^ 63 → mul64 (pos w) (pos u) ≡ pos (w * u)
unfolding mul64
product w u h = ground arith

sum_fits : (a b : ℕ) → a + b < 2 ^ 63 → add64 (pos a) (pos b) ≡ pos (a + b)
unfolding add64
sum_fits a b h = ground arith

div-lt : (a u w : ℕ) → 0 < u → (a / u < w) ↔ (a < w * u)
div-lt a u w h = grind arith

-- For non-negative parts, `scaled` gives the exact amount when it fits in an int64 and nothing
-- otherwise: neither the product nor the sum wraps.
pub scaled_lem :
    (w p u : ℕ)
    → p < 2 ^ 63
    → 0 < u
    → scaled (pos w) (pos p) u ≡ (if ltb (w * u + p) (2 ^ 63) then some (pos (w * u + p)) else none)
unfolding scaled
scaled_lem w p u hp hu =
    ground (arith, room p u hp, div-lt (2 ^ 63 - 1 - p) u w hu, product w u, sum_fits (w * u) p)

-- A negative part is refused.
pub scaled-negsuc : (w p : ℤ) (u n : ℕ) → (w ≡ negsuc n) ⊎ (p ≡ negsuc n) → scaled w p u ≡ none
unfolding scaled
scaled-negsuc w p u n h = ground arith

-- What `scaled` gives is a non-negative int64.
scaled-some :
    (w p : ℤ) (u : ℕ) {v : ℤ}
    → Fits64 p
    → 0 < u
    → scaled w p u ≡ some v
    → (n : ℕ) × (v ≡ pos n) × (n < 2 ^ 63)
scaled-some (pos w) (pos p) u fits hu e = (
  w * u + p,
  ground (arith, scaled_lem w p u fits.0 hu),
  ground (arith, scaled_lem w p u fits.0 hu),
)
scaled-some (negsuc w) p u fits hu e = ground (arith, scaled-negsuc (negsuc w) p u w (inl refl))
scaled-some (pos w) (negsuc p) u fits hu e =
    ground (arith, scaled-negsuc (pos w) (negsuc p) u p (inr refl))

parse_int-Fits64 : (s : Text) {v : ℤ} → parse_int s ≡ some v → Fits64 v
unfolding parse_int
parse_int-Fits64 [] e = cc
parse_int-Fits64 (c ∷ s) e = ground arith

add64-Fits64 : (a b : ℤ) → Fits64 (add64 a b)
add64-Fits64 a b = rw add64_lem (wrap64-Fits64 (a +ℤ b))

mul64-Fits64 : (a b : ℤ) → Fits64 (mul64 a b)
mul64-Fits64 a b = rw mul64_lem (wrap64-Fits64 (a *ℤ b))

times_ten-Fits64 : (n : ℕ) (v : ℤ) → Fits64 v → Fits64 (times_ten n v)
unfolding times_ten
times_ten-Fits64 zero v h = h
times_ten-Fits64 (suc n) v h = times_ten-Fits64 n (mul64 v (pos 10)) (mul64-Fits64 v (pos 10))

fraction_cut-Fits64 :
    (scale : ℕ) (s frac : Text) {v : ℤ} → fraction_cut scale s frac ≡ ok v → Fits64 v
unfolding fraction_cut
fraction_cut-Fits64 scale s frac e = elim (Option-cases (parse_int (take scale frac))) [
  | inl bad ↦ ground arith
  | inr (head, read) ↦
      ground (arith, parse_int-Fits64 (take scale frac) read, add64-Fits64 head (pos 1))
]

fraction_cents-Fits64 : (s frac : Text) {v : ℤ} → fraction_cents s frac ≡ ok v → Fits64 v
unfolding fraction_cents
fraction_cents-Fits64 s [] e = ground arith
fraction_cents-Fits64 s (d ∷ []) e = elim (Option-cases (parse_int (d ∷ []))) [
  | inl bad ↦ ground arith
  | inr (v, read) ↦ ground (arith, mul64-Fits64 v (pos 10))
]
fraction_cents-Fits64 s (d ∷ c ∷ r) e = fraction_cut-Fits64 2 s (d ∷ c ∷ r) e

fraction_micros-Fits64 : (s frac : Text) {v : ℤ} → fraction_micros s frac ≡ ok v → Fits64 v
unfolding fraction_micros
fraction_micros-Fits64 s [] e = ground arith
fraction_micros-Fits64 s (d ∷ r) {v} e = elim (Option-cases (parse_int (d ∷ r))) [
  | inl bad ↦ ground (arith, fraction_cut-Fits64 6 s (d ∷ r) {v = v})
  | inr (w, read) ↦ ground (
    arith,
    fraction_cut-Fits64 6 s (d ∷ r) {v = v},
    times_ten-Fits64 (6 - length (d ∷ r)) w (parse_int-Fits64 (d ∷ r) read),
  )
]

nat_abs-signed :
    (neg : Bool) (n : ℕ) → n < 2 ^ 63 → nat_abs (if neg then neg64 (pos n) else pos n) ≡ n
unfolding neg64
nat_abs-signed neg n h = ground arith

-- The end of a parse: an amount that `scaled` gives, under its sign.
or_too_big-lt :
    (neg : Bool) (s : Text) (w p : ℤ) (u : ℕ) {v : ℤ}
    → Fits64 p
    → 0 < u
    → (do total ← or_too_big s (scaled w p u); ok (if neg then neg64 total else total)) ≡ ok v
    → nat_abs v < 2 ^ 63
or_too_big-lt neg s w p u fits hu e = elim (Option-cases (scaled w p u)) [
  | inl no_room ↦ ground arith
  | inr (t, some_t) ↦
      let (n, is_pos, small) = scaled-some w p u fits hu some_t in
      ground (arith, nat_abs-signed neg n small)
]

-- What a parse gives is the amount from `scaled`, or its negation.
parse_parts-lt :
    (fraction : Text → Text → Result ParseError ℤ) (unit : ℕ) (neg : Bool) (s t frac : Text) {v : ℤ}
    → ((t frac : Text) (p : ℤ) → fraction t frac ≡ ok p → Fits64 p)
    → 0 < unit
    → parse_parts fraction unit neg s (t, frac) ≡ ok v
    → nat_abs v < 2 ^ 63
unfolding parse_parts
parse_parts-lt fraction unit neg s t frac fits hu e =
    let rest = λ (whole : ℤ) (part : ℤ). (do
      total ← or_too_big s (scaled whole part unit)
      ok (if neg then neg64 total else total)) in
    let (whole, _, e₁) =
      >>=-eq-ok (or_shape s (parse_int (if is_empty t then b'0' ∷ [] else t)))
        (λ whole. fraction s frac >>= rest whole) e in
    let (part, read, e₂) = >>=-eq-ok (fraction s frac) (rest whole) e₁ in
    or_too_big-lt neg s whole part unit (fits s frac part read) hu e₂

parse_with-lt :
    (fraction : Text → Text → Result ParseError ℤ) (unit : ℕ) (s : Text) {v : ℤ}
    → ((t frac : Text) (p : ℤ) → fraction t frac ≡ ok p → Fits64 p)
    → 0 < unit
    → parse_with fraction unit s ≡ ok v
    → nat_abs v < 2 ^ 63
unfolding parse_with parse_body
parse_with-lt fraction unit s fits hu e =
    let (neg, t) = strip_sign (trim_space s) in
    let e₁ = refuse_if-eq-ok (is_empty (trim_space s)) shape (parse_body fraction unit neg t) e in
    let parts = parse_parts fraction unit neg t (cut t) in
    let e₂ =
      refuse_if-eq-ok (is_empty t || starts_signed t) (shape_of t)
        (refuse_if (is_empty (cut t).0 && is_empty (cut t).1) shape >> parts) e₁ in
    parse_parts-lt fraction unit neg t (cut t).0 (cut t).1 fits hu
      (refuse_if-eq-ok (is_empty (cut t).0 && is_empty (cut t).1) shape parts e₂)

-- A parsed amount of cents is never the most negative int64: its magnitude is below 2 ^ 63, so
-- negating it cannot wrap.
pub parse-lt : (s : Text) {v : ℤ} → parse s ≡ ok v → nat_abs v < 2 ^ 63
unfolding parse
parse-lt s =
    parse_with-lt fraction_cents 100 s (λ t frac p. fraction_cents-Fits64 t frac) (omega arith)

-- The same of a parsed amount of micro-units.
pub parse_micros-lt : (s : Text) {v : ℤ} → parse_micros s ≡ ok v → nat_abs v < 2 ^ 63
unfolding parse_micros
parse_micros-lt s =
    parse_with-lt fraction_micros 1_000_000 s (λ t frac p. fraction_micros-Fits64 t frac)
      (omega arith)
