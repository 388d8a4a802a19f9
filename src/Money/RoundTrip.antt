-- ===== src/Money/RoundTrip.antt =====
-- What print writes, parse reads back.
use costcrew.Base.{
  ℕ, suc, ◌+◌, ◌*◌, ◌/◌, ◌%◌, ◌^◌, ◌<◌, ◌≡◌, refl, ◌∙◌, ap, subst, Bool, true, false, some, [], ◌∷◌,
  ◌++◌, Text, if◌then◌else◌, All, All-append, is_space, arith, pos, negsuc, nat_abs, ok, neg64,
  ◌||◌, ◌==◌,
}
use costcrew.Base.Decimal.{is_digit, parse_int, read_digits, show_nat, show_two}
use costcrew.Base.Decimal.Laws.{
  show_two_lem, show_nat-cons, show_nat-digits, show_nat-read, trim_space_lem, parse_int-digits,
}
use costcrew.Money.Amount.{Cents, print}
use costcrew.Money.Bounds.{scaled_lem}
use costcrew.Money.Decimal.{
  parse, parse_with, parse_body, parse_parts, cut, strip_sign, starts_signed, fraction_cents,
  fraction_cut,
}

-- No point stands among digits.
cut-digits : (s r : Text) → All (λ c. is_digit c ≡ true) s → cut (s ++ b'.' ∷ r) ≡ (s, r)
unfolding cut
cut-digits [] r h = refl
cut-digits (c ∷ s) r h = ground (arith, cut-digits s r h.1)

whole-read : (q : ℕ) → q < 2 ^ 63 → parse_int (show_nat q) ≡ some (pos q)
whole-read q h =
    let (c, s, e) = show_nat-cons q in
    rw e (
      parse_int-digits c q s (subst (All (λ c. is_digit c ≡ true)) e (show_nat-digits q)).0
        (rw (← e) (show_nat-read q)) h)

pair-read :
    (a b : ℕ) → a < 10 → b < 10 → parse_int ((b'0' + a) ∷ (b'0' + b) ∷ []) ≡ some (pos (a * 10 + b))
unfolding read_digits
pair-read a b ha hb =
    parse_int-digits (b'0' + a) (a * 10 + b) ((b'0' + b) ∷ []) (ground arith) (ground arith)
      (omega arith)

fraction-read : (s : Text) (r : ℕ) → r < 100 → fraction_cents s (show_two r) ≡ ok (pos r)
unfolding fraction_cents fraction_cut
fraction-read s r h = rw (show_two_lem r h) (
    rw (pair-read (r / 10) (r % 10) (omega arith) (omega arith))
      (ap (λ n. ok (pos n)) (omega arith)))

-- The text of an amount without its sign.
abbrev body : ℕ → Text
body v = show_nat (v / 100) ++ b'.' ∷ show_two (v % 100)

parse_parts-body :
    (neg : Bool) (s : Text) (v : ℕ)
    → v < 2 ^ 63
    → parse_parts fraction_cents 100 neg s (show_nat (v / 100), show_two (v % 100))
      ≡ ok (if neg then neg64 (pos v) else pos v)
unfolding parse_parts
parse_parts-body neg s v h =
    let (c, t, e) = show_nat-cons (v / 100) in
    rw (e, ← e, whole-read (v / 100) (omega arith), fraction-read s (v % 100) (omega arith))
      (rw (scaled_lem (v / 100) (v % 100) 100 (omega arith) (omega arith)) (ground arith))

is_digit-not_space : (c : ℕ) → is_digit c ≡ true → is_space c ≡ false
is_digit-not_space c h = ground arith

digits-no_space : (s : Text) → All (λ c. is_digit c ≡ true) s → All (λ c. is_space c ≡ false) s
digits-no_space [] h = tt
digits-no_space (c ∷ s) h = (is_digit-not_space c h.0, digits-no_space s h.1)

body-no_space : (v : ℕ) → All (λ c. is_space c ≡ false) (body v)
body-no_space v =
    All-append (λ c. is_space c ≡ false) (show_nat (v / 100)) (b'.' ∷ show_two (v % 100))
      (digits-no_space (show_nat (v / 100)) (show_nat-digits (v / 100)))
      (rw (show_two_lem (v % 100) (omega arith)) (refl, (ground arith, (ground arith, tt))))

not_sign : (c : ℕ) → is_digit c ≡ true → (c == b'-' || c == b'+') ≡ false
not_sign c d = ground arith

-- A text that begins with a digit and has a point after its digits.
parse_body-digits :
    (neg : Bool) (c : ℕ) (s i frac : Text)
    → is_digit c ≡ true
    → cut (c ∷ s) ≡ (c ∷ i, frac)
    → parse_body fraction_cents 100 neg (c ∷ s)
      ≡ parse_parts fraction_cents 100 neg (c ∷ s) (c ∷ i, frac)
unfolding parse_body starts_signed
parse_body-digits neg c s i frac d e = rw (e, not_sign c d)

parse_body-body :
    (neg : Bool) (v : ℕ)
    → v < 2 ^ 63
    → parse_body fraction_cents 100 neg (body v) ≡ ok (if neg then neg64 (pos v) else pos v)
parse_body-body neg v h =
    let q : ℕ = v / 100 in
    let frac = show_two (v % 100) in
    let (c, i, e) = show_nat-cons q in
    let digit = (subst (All (λ c. is_digit c ≡ true)) e (show_nat-digits q)).0 in
    let split = cut-digits (show_nat q) frac (show_nat-digits q) in
    rw e (
      parse_body-digits neg c (i ++ b'.' ∷ frac) i frac digit (rw e at split)
      ∙ rw (← e) (parse_parts-body neg (c ∷ (i ++ b'.' ∷ frac)) v h))

parse_with-text :
    (c : ℕ) (s : Text)
    → All (λ c. is_space c ≡ false) (c ∷ s)
    → parse (c ∷ s) ≡ parse_body fraction_cents 100 (strip_sign (c ∷ s)).0 (strip_sign (c ∷ s)).1
unfolding parse parse_with
parse_with-text c s h = rw (trim_space_lem (c ∷ s) h)

strip_sign-digit : (c : ℕ) (s : Text) → is_digit c ≡ true → strip_sign (c ∷ s) ≡ (false, c ∷ s)
unfolding strip_sign
strip_sign-digit c s d = ground arith

print-pos : (v : ℕ) → print (pos v) ≡ body v
unfolding print
print-pos v = ground arith

print-negsuc : (v : ℕ) → suc v < 2 ^ 63 → print (negsuc v) ≡ b'-' ∷ body (suc v)
unfolding print neg64
print-negsuc v h = ground arith

strip_minus : (s : Text) → strip_sign (b'-' ∷ s) ≡ (true, s)
unfolding strip_sign
strip_minus s = refl

neg64-suc : (v : ℕ) → suc v < 2 ^ 63 → neg64 (pos (suc v)) ≡ negsuc v
unfolding neg64
neg64-suc v h = ground arith

-- What an amount prints as, its own parser reads as the same amount, for every int64 but the most
-- negative one.
pub parse-print : (c : Cents) → nat_abs c < 2 ^ 63 → parse (print c) ≡ ok c
parse-print (pos v) h =
    let (c, i, e) = show_nat-cons (v / 100) in
    let t = i ++ b'.' ∷ show_two (v % 100) in
    let digit = (subst (All (λ c. is_digit c ≡ true)) e (show_nat-digits (v / 100))).0 in
    let text : body v ≡ c ∷ t = ap (λ s. s ++ b'.' ∷ show_two (v % 100)) e in
    let plain = strip_sign-digit c t digit in
    rw (print-pos v) (
      rw text (
        parse_with-text c t (subst (All (λ c. is_space c ≡ false)) text (body-no_space v))
        ∙ rw (plain, ← text) (parse_body-body false v h)))
parse-print (negsuc v) h = rw (print-negsuc v h) (
    rw (parse_with-text b'-' (body (suc v)) (refl, body-no_space (suc v)))
      (rw strip_minus (parse_body-body true (suc v) h ∙ ap ok (neg64-suc v h))))

plus-read : (s : Text) (d : ℕ) → d < 10 → fraction_cents s (b'+' ∷ (b'0' + d) ∷ []) ≡ ok (pos d)
unfolding fraction_cents fraction_cut parse_int read_digits
plus-read s d h = ground arith

plus_parts :
    (s : Text) (w d : ℕ)
    → d < 10
    → w * 100 + d < 2 ^ 63
    → parse_parts fraction_cents 100 false s (show_nat w, b'+' ∷ (b'0' + d) ∷ [])
      ≡ ok (pos (w * 100 + d))
unfolding parse_parts
plus_parts s w d hd h =
    let (c, t, e) = show_nat-cons w in
    rw (e, ← e, whole-read w (omega arith), plus-read s d hd)
      (rw (scaled_lem w d 100 (omega arith) (omega arith)) (ground arith))

-- Parse reads "w.+d", a plus sign and one digit after the point, as w units and d cents, for every
-- digit d and every whole number w for which that amount fits an int64.
pub parse_inner_plus :
    (w d : ℕ)
    → d < 10
    → w * 100 + d < 2 ^ 63
    → parse (show_nat w ++ b'.' ∷ b'+' ∷ (b'0' + d) ∷ []) ≡ ok (pos (w * 100 + d))
parse_inner_plus w d hd h =
    let frac = b'+' ∷ (b'0' + d) ∷ [] in
    let (c, i, e) = show_nat-cons w in
    let t = i ++ b'.' ∷ frac in
    let all_digits = show_nat-digits w in
    let digit = (subst (All (λ c. is_digit c ≡ true)) e all_digits).0 in
    let split = cut-digits (show_nat w) frac all_digits in
    let clean =
      All-append (λ c. is_space c ≡ false) (show_nat w) (b'.' ∷ frac)
        (digits-no_space (show_nat w) all_digits) (refl, (refl, (ground arith, tt))) in
    let plain = strip_sign-digit c t digit in
    rw e (
      parse_with-text c t (rw e at clean)
      ∙ rw plain (
          parse_body-digits false c t i frac digit (rw e at split)
          ∙ rw (← e) (plus_parts (c ∷ t) w d hd h)))
