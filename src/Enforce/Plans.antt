-- ===== src/Enforce/Plans.antt =====
-- Config, Plan, Fingerprint and MakePlan of internal/enforce/enforce.go. A map is the list of its
-- entries. The control plane is a package's HTTP service: `read` is its answer to
-- GET /v1/unit-budgets in its state, in micro-units, and `set` its answer to a budget posted for a
-- unit, with the state that it is left in.
use costcrew.Base.{
  ℕ, suc, Bool, true, false, not, ◌&&◌, Option, none, some, List, [], ◌∷◌, ◌++◌, Text, codes,
  text_eq, text_leb, if◌then◌else◌, is_blank, find, ℤ, pos, negsuc, ltb_ℤ, leb_ℤ, eq_ℤ, quot64,
  take, Result, ok, err, ◌>>=◌, ◌>>◌, refuse_if,
}
use costcrew.Base.Decimal.{show_nat}
use costcrew.Money.Amount.{Cents}

pub record Config : Type 0 where
  pub base_url : Text
  pub key : Text

unfoldable pub is_on : Config → Bool
is_on c = not (is_blank c.base_url) && not (is_blank c.key)

abbrev pub Budgets : Type 0
Budgets = List (Text × Cents)

abbrev pub entry_of : Text → Text × Cents → Bool
entry_of unit e = text_eq e.0 unit

unfoldable pub lookup : Text → Budgets → Option Cents
lookup unit m = elim (find (entry_of unit) m) [ none ↦ none | some e ↦ some e.1 ]

pub record Plane (R : Type 0) : Type 0 where
  pub read : R → Option (List (Text × ℤ))
  pub set : Text → Cents → R → Bool × R

pub record Change : Type 0 where
  pub unit : Text
  pub now : Option Cents
  pub want : Cents
  pub lowered : Bool
  pub is_new : Bool

pub record Plan : Type 0 where
  pub changes : List Change
  pub unchanged : ℕ
  pub lowered : ℕ
  pub added : ℕ
  pub snapshot : Budgets

unfoldable pub put_unit : Text × Cents → Budgets → Budgets
put_unit e [] = e ∷ []
put_unit e (f ∷ m) = let rest = put_unit e m in if text_leb e.0 f.0 then e ∷ f ∷ m else f ∷ rest

-- sort.Strings of the map's keys
unfoldable pub by_unit : Budgets → Budgets
by_unit [] = []
by_unit (e ∷ m) = put_unit e (by_unit m)

unfoldable pub show_int : ℤ → Text
show_int (pos n) = show_nat n
show_int (negsuc n) = codes "-" ++ show_nat (suc n)

abbrev pub line : Text → Text → Cents → Text
line word unit v = word ++ 0 ∷ unit ++ 0 ∷ show_int v ++ 10 ∷ []

unfoldable pub was_lines : Budgets → Text
was_lines [] = []
was_lines (e ∷ m) = line (codes "was") e.0 e.1 ++ was_lines m

unfoldable pub set_lines : List Change → Text
set_lines [] = []
set_lines (c ∷ l) = line (codes "set") c.unit c.want ++ set_lines l

-- `digest` is the hexadecimal text of a SHA-256.
unfoldable pub fingerprint : (Text → Text) → Plan → Text
fingerprint digest p = take 12 (digest (was_lines (by_unit p.snapshot) ++ set_lines p.changes))

pub data EnforceError : Type 0 where
  switched_off unreadable not_approved has_moved : EnforceError
  refused : Text → EnforceError

-- micro-units to cents, m / 10_000
unfoldable pub in_cents : List (Text × ℤ) → Budgets
in_cents [] = []
in_cents (e ∷ m) = (e.0, quot64 e.1 10000) ∷ in_cents m

unfoldable pub current : {R : Type 0} → Plane R → R → Result EnforceError Budgets
current plane r = elim (plane.read r) [ none ↦ err unreadable | some micros ↦ ok (in_cents micros) ]

abbrev pub is_some_below : Cents → Option Cents → Bool
is_some_below w none = false
is_some_below w (some cur) = ltb_ℤ w cur

abbrev pub is_same : Cents → Option Cents → Bool
is_same w none = false
is_same w (some cur) = eq_ℤ cur w

abbrev pub is_missing : Option Cents → Bool
is_missing none = true
is_missing (some _) = false

unfoldable pub change_of : Text × Cents → Option Cents → Change
change_of e now = record {
  unit = e.0;
  now = now;
  want = e.1;
  lowered = is_some_below e.1 now;
  is_new = is_missing now;
}

abbrev pub count_if : Bool → ℕ → ℕ
count_if true n = suc n
count_if false n = n

-- One unit of the loop.
unfoldable pub consider : Budgets → Text × Cents → Plan → Plan
consider now e p =
    let cur = lookup e.0 now in
    let ch = change_of e cur in
    if leb_ℤ e.1 (pos 0)
    then p
    else if is_same e.1 cur
    then record p { unchanged = suc p.unchanged }
    else record p {
      changes = p.changes ++ ch ∷ [];
      lowered = count_if ch.lowered p.lowered;
      added = count_if ch.is_new p.added;
    }

unfoldable pub consider_all : Budgets → Budgets → Plan → Plan
consider_all now [] p = p
consider_all now (e ∷ es) p = consider_all now es (consider now e p)

unfoldable pub make_plan : {R : Type 0} → Plane R → Config → Budgets → R → Result EnforceError Plan
make_plan plane cfg want r = do
  refuse_if (not (is_on cfg)) switched_off
  now ← current plane r
  ok (
      consider_all now (by_unit want)
        (record { changes = []; unchanged = 0; lowered = 0; added = 0; snapshot = now }))
