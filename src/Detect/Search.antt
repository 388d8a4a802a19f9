-- ===== src/Detect/Search.antt =====
-- Find of internal/detect/detect.go. A `Calendar` stands for package time on dates "2006-01-02", a
-- `Score` for the float64 arithmetic of the z score and its cut.
use costcrew.Base.{
  ℕ, suc, ◌+◌, ◌-◌, ◌/◌, Bool, true, false, not, ◌&&◌, ◌||◌, Option, none, some, List, [], ◌∷◌,
  ◌++◌, Text, codes, if◌then◌else◌, ltb, ltb_ℤ, leb_ℤ, eq_ℤ, length, take, drop, is_empty, join,
  pos, sub64,
}
use costcrew.Base.Decimal.{show_nat}
use costcrew.Money.Amount.{Cents, abs, print}
use costcrew.Detect.Series.{
  Direction, up, down, direction_eq, Point, Config, Driver, Finding, explain, Shift,
  shift_for_announced, early_hint, amounts, same_day_type,
}
use costcrew.Detect.Median.{median, median_abs_dev}
use costcrew.Detect.Coalesce.{coalesce}

pub record Calendar : Type 0 where
  pub is_date : Text → Bool
  pub day_number : Text → ℕ
  pub weekend : Text → Bool
  pub week_after : Text → Option Text

pub record Score (F : Type 0) : Type 0 where
  pub z : Cents → Cents → F
  pub near : F → Bool

unfoldable pub wants : List Direction → Direction → Bool
wants [] d = false
wants (e ∷ l) d = let rest = wants l d in if direction_eq e d then true else rest

unfoldable pub rule_text : Config → Text
rule_text cfg =
    codes "daily spend more than "
    ++ cfg.z_text
    ++ codes " robust deviations from the median of the last "
    ++ show_nat cfg.window
    ++ codes " days of the same day type, and at least "
    ++ print cfg.min_move
    ++ codes " away from it"

-- How many days back the window of a day goes.
unfoldable pub width : ℕ → ℕ → ℕ
width window count =
    let half = count / 2 in
    let w = if ltb half window then half else window in if ltb w 7 then 7 else w

-- The history that a day is judged by, and its announced shift.
unfoldable pub history_at :
    Calendar → List Point → Text → List Driver → Config → ℕ → Point → List Cents × Shift
history_at cal points service drivers cfg i p =
    let lo = i - width cfg.window (length points) in
    let shift = shift_for_announced (drop lo (take i points)) service p.day drivers in
    let same = same_day_type cal.weekend shift.history p.day in
    ((if ltb (length same) 5 then amounts shift.history else same), shift)

unfoldable pub direction_of : Cents → Direction
direction_of excess = if ltb_ℤ excess (pos 0) then down else up

unfoldable pub rule_for : Config → Shift → Cents → Cents → Text
rule_for cfg shift amt med =
    if eq_ℤ shift.step (pos 0)
    then rule_text cfg
    else codes "differs from announced decision "
      ++ join (codes ", ") shift.labels
      ++ codes " (expected "
      ++ print shift.step
      ++ codes "/day from "
      ++ shift.earliest
      ++ codes "): "
      ++ print amt
      ++ codes " against an expected "
      ++ print med

module _ {F : Type 0} where
  -- The tests of one day: wanted direction, far enough, over the floors.
  unfoldable pub stands_out : Score F → Config → Cents → Cents → Cents → Bool
  stands_out score cfg excess med mad =
      wants cfg.directions (direction_of excess)
      && (not (score.near (score.z excess mad))
          && (leb_ℤ cfg.min_move (abs excess)
              && not (direction_eq (direction_of excess) down && ltb_ℤ med cfg.min_base)))

  unfoldable pub judge :
      Calendar → Score F → List Point → Text → List Driver → Config → ℕ → Point → Option (Finding F)
  judge cal score points service drivers cfg i p =
      let (hist, shift) = history_at cal points service drivers cfg i p in
      let med = median hist in
      let spread = median_abs_dev hist med in
      let mad = if eq_ℤ spread (pos 0) then pos 1 else spread in
      let excess = sub64 p.amount med in
      let (label, expected) = explain drivers service p.day in
      if stands_out score cfg excess med mad && not expected
      then some (record {
        day = p.day;
        direction = direction_of excess;
        amount = p.amount;
        baseline = med;
        excess = excess;
        z = score.z excess mad;
        driver = if is_empty label then early_hint cal.week_after drivers service p.day else label;
        rule = rule_for cfg shift p.amount med;
      })
      else none

  -- The loop over the days from `i` on.
  unfoldable pub judge_from :
      Calendar
      → Score F
      → List Point
      → Text
      → List Driver
      → Config
      → ℕ
      → List Point
      → List (Finding F)
  judge_from cal score points service drivers cfg i [] = []
  judge_from cal score points service drivers cfg i (p ∷ ps) =
      let rest = judge_from cal score points service drivers cfg (suc i) ps in
      elim (judge cal score points service drivers cfg i p) [ none ↦ rest | some f ↦ f ∷ rest ]

  unfoldable pub put_by_excess : Finding F → List (Finding F) → List (Finding F)
  put_by_excess x [] = x ∷ []
  put_by_excess x (y ∷ l) =
      let rest = put_by_excess x l in
      if leb_ℤ (abs y.excess) (abs x.excess) then x ∷ y ∷ l else y ∷ rest

  -- sort.SliceStable, largest first
  unfoldable pub sort_by_excess : List (Finding F) → List (Finding F)
  sort_by_excess [] = []
  sort_by_excess (x ∷ l) = put_by_excess x (sort_by_excess l)

abbrev pub all_dates : (Text → Bool) → List Point → Bool
all_dates is_date [] = true
all_dates is_date (p ∷ ps) = is_date p.day && all_dates is_date ps

unfoldable pub search :
    {F : Type 0} → Calendar → Score F → List Point → Text → List Driver → Config → List (Finding F)
search cal score points service drivers cfg =
    if ltb (length points) (cfg.window + 2) || not (all_dates cal.is_date points)
    then []
    else sort_by_excess (
        coalesce cal.day_number cfg.cool_days
          (judge_from cal score points service drivers cfg cfg.window (drop cfg.window points)))
