-- ===== src/Detect/Series.antt =====
-- The data of internal/detect/detect.go and what the registry of drivers says of a day. A date is its
-- text; two dates are compared as texts, which is what the code does.
use costcrew.Base.{
  ℕ, Bool, true, false, not, ◌&&◌, ◌||◌, Option, none, some, List, [], ◌∷◌, ◌++◌, Text, codes,
  text_eq, text_leb, if◌then◌else◌, is_empty, map, pos, find,
}
use costcrew.Money.Amount.{Cents, add}

pub data Direction : Type 0 where
  up down : Direction

unfoldable pub direction_eq : Direction → Direction → Bool
direction_eq up up = true
direction_eq down down = true
direction_eq _ _ = false

unfoldable pub direction_name : Direction → Text
direction_name up = codes "up"
direction_name down = codes "down"

pub record Point : Type 0 where
  pub day : Text
  pub amount : Cents

-- `z_text` is ZCut as trimFloat prints it.
pub record Config : Type 0 where
  pub window : ℕ
  pub z_text : Text
  pub min_move : Cents
  pub min_base : Cents
  pub directions : List Direction
  pub cool_days : ℕ

pub record Driver : Type 0 where
  pub start : Text
  pub end_day : Text
  pub scope : Text
  pub label : Text
  pub kind : Text
  pub expected : Option Cents

-- `F` is the type of the z score, a float64.
pub record Finding (F : Type 0) : Type 0 where
  pub day : Text
  pub direction : Direction
  pub amount : Cents
  pub baseline : Cents
  pub excess : Cents
  pub z : F
  pub driver : Text
  pub rule : Text

abbrev pub text_ltb : Text → Text → Bool
text_ltb a b = not (text_leb b a)

-- The first result of Covers.
unfoldable pub covers : Driver → Text → Text → Bool
covers d service day =
    (text_eq d.scope (codes "*") || text_eq d.scope service)
    && (text_leb d.start day && text_leb day d.end_day)

-- The second one, where the driver covers the day.
unfoldable pub recurring : Driver → Bool
recurring d = text_eq d.kind (codes "recurring")

-- explain, from the label of the drivers before
unfoldable pub explain_from : Text → List Driver → Text → Text → Text × Bool
explain_from label [] service day = (label, false)
explain_from label (d ∷ ds) service day =
    let further = explain_from d.label ds service day in
    let passed = explain_from label ds service day in
    if covers d service day then (if recurring d then (d.label, true) else further) else passed

unfoldable pub explain : List Driver → Text → Text → Text × Bool
explain drivers service day = explain_from [] drivers service day

-- The history with the days before an announced start moved by its amount.
unfoldable pub shift_points : Text → Cents → List Point → List Point
shift_points start step [] = []
shift_points start step (p ∷ ps) =
    (if text_ltb p.day start then record p { amount = add p.amount step } else p)
    ∷ shift_points start step ps

pub record Shift : Type 0 where
  pub history : List Point
  pub step : Cents
  pub labels : List Text
  pub earliest : Text

-- One turn of the loop, for a driver that is announced and covers the day.
unfoldable pub shift_by : Driver → Cents → Shift → Shift
shift_by d expected s = record {
  history = shift_points d.start expected s.history;
  step = add s.step expected;
  labels = s.labels ++ d.label ∷ [];
  earliest = if is_empty s.earliest || text_ltb d.start s.earliest then d.start else s.earliest;
}

unfoldable pub shift_one : Text → Text → Driver → Shift → Shift
shift_one service day d s = elim d.expected [
  | none ↦ s
  | some expected ↦ if covers d service day then shift_by d expected s else s
]

unfoldable pub shift_all : Text → Text → List Driver → Shift → Shift
shift_all service day [] s = s
shift_all service day (d ∷ ds) s = shift_all service day ds (shift_one service day d s)

-- shiftForAnnounced
unfoldable pub shift_for_announced : List Point → Text → Text → List Driver → Shift
shift_for_announced history service day drivers =
    shift_all service day drivers
      (record { history = history; step = pos 0; labels = []; earliest = [] })

-- earlyHint. `limit` is the seventh day after `day`, if `day` is a date.
abbrev pub announces : Text → Text → Text → Driver → Bool
announces service day limit d = elim d.expected [
  | none ↦ false
  | some _ ↦
      (text_eq d.scope service || text_eq d.scope (codes "*"))
      && (text_ltb day d.start && text_leb d.start limit)
]

unfoldable pub early_hint : (Text → Option Text) → List Driver → Text → Text → Text
early_hint week_after drivers service day = elim (week_after day) [
  | none ↦ []
  | some limit ↦ elim (find (announces service day limit) drivers) [
    | none ↦ []
    | some d ↦ d.label ++ codes " (announced from " ++ d.start ++ codes ")"
  ]
]

unfoldable pub amounts : List Point → List Cents
amounts points = map (λ p. p.amount) points

-- sameDayType, where `weekend` tells a Saturday or Sunday from its date
unfoldable pub same_day_type : (Text → Bool) → List Point → Text → List Cents
same_day_type weekend [] target = []
same_day_type weekend (p ∷ ps) target =
    let rest = same_day_type weekend ps target in
    let same = if weekend p.day then weekend target else not (weekend target) in
    if same then p.amount ∷ rest else rest
