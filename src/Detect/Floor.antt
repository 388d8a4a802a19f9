-- ===== src/Detect/Floor.antt =====
-- What every finding of a search satisfies.
use costcrew.Base.{
  ℕ, suc, ◌+◌, ◌≡◌, true, false, not, ◌||◌, some, List, [], ◌∷◌, Text, ltb, length, drop, All,
  arith, Bool-cases, Option-cases, inl, inr, leb_ℤ, sub64,
}
use costcrew.Money.Amount.{abs}
use costcrew.Detect.Series.{Point, Config, Driver, Finding, explain}
use costcrew.Detect.Search.{
  Calendar, Score, wants, direction_of, stands_out, judge, judge_from, all_dates, search,
}
use costcrew.Detect.Kept.{All-sort_by_excess, All-coalesce}

module _ {F : Type 0} where
  -- The excess is the amount over the baseline and has the sign of the direction, which is wanted;
  -- it reaches the floor, its score is not near, and no recurring driver covers the day.
  pub record IsWorthwhile (score : Score F) (service : Text) (drivers : List Driver) (cfg : Config)
      (f : Finding F) : Type 0 where
    pub excess : f.excess ≡ sub64 f.amount f.baseline
    pub direction : f.direction ≡ direction_of f.excess
    pub wanted : wants cfg.directions f.direction ≡ true
    pub far : score.near f.z ≡ false
    pub floor : leb_ℤ cfg.min_move (abs f.excess) ≡ true
    pub unexpected : (explain drivers service f.day).1 ≡ false

  module _ (cal : Calendar) (score : Score F) (points : List Point) (service : Text)
      (drivers : List Driver) (cfg : Config) where
    judge-IsWorthwhile :
        (i : ℕ) (p : Point) {f : Finding F}
        → judge cal score points service drivers cfg i p ≡ some f
        → IsWorthwhile score service drivers cfg f
    unfolding judge stands_out
    judge-IsWorthwhile i p {f} h = ground arith

    judge_from-IsWorthwhile :
        (i : ℕ) (ps : List Point)
        → All
            (IsWorthwhile score service drivers cfg)
            (judge_from cal score points service drivers cfg i ps)
    unfolding judge_from
    judge_from-IsWorthwhile i [] = tt
    judge_from-IsWorthwhile i (p ∷ ps) =
        elim (Option-cases (judge cal score points service drivers cfg i p)) [
          | inl passed ↦ rw (judge_from, passed) (judge_from-IsWorthwhile (suc i) ps)
          | inr (f, found) ↦
              rw (judge_from, found)
                (judge-IsWorthwhile i p found, judge_from-IsWorthwhile (suc i) ps)
        ]

    -- Every finding of a search, with its day the first of its incident: its excess is its amount
    -- less its baseline and has the sign of its direction, which is one that is wanted; it reaches
    -- the money floor, its score is past the cut, and no recurring driver covers its day.
    pub search-IsWorthwhile :
        All (IsWorthwhile score service drivers cfg) (search cal score points service drivers cfg)
    unfolding search
    search-IsWorthwhile =
        elim (Bool-cases
          (ltb (length points) (cfg.window + 2) || not (all_dates cal.is_date points))) [
            | inl refused ↦ rw refused tt
            | inr accepted ↦ rw accepted (
                All-sort_by_excess _ _ (
                  All-coalesce _
                    (λ f g wf wg. record {
                      excess = wg.excess;
                      direction = wg.direction;
                      wanted = wg.wanted;
                      far = wg.far;
                      floor = wg.floor;
                      unexpected = wf.unexpected;
                    })
                    cal.day_number cfg.cool_days _
                    (judge_from-IsWorthwhile cfg.window (drop cfg.window points))))
          ]
