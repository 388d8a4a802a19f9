-- ===== src/Detect/Tests.antt =====
-- A short series of spend, searched.
use costcrew.Base.{
  ℕ, ◌≡◌, refl, true, false, none, List, [], ◌∷◌, Text, codes, pos, negsuc, nat_abs, ltb, quot64,
  add64, All, arith,
}
use costcrew.Money.Amount.{Cents}
use costcrew.Detect.Series.{up, down, Point, Config}
use costcrew.Detect.Median.{median, sort, put}
use costcrew.Detect.Search.{Calendar, Score, search}
use costcrew.Detect.Floor.{IsWorthwhile, search-IsWorthwhile}
use costcrew.Detect.Middle.{Between, median-Between}

-- Days that are one letter, counted from "a".
abbrev letter : Text → ℕ
letter [] = 0
letter (c ∷ _) = c

abbrev letters : Calendar
letters = record {
  is_date = λ d. true;
  day_number = letter;
  weekend = λ d. false;
  week_after = λ d. none;
}

-- The excess stands for the score, and under 3 dollars it is near.
abbrev plain : Score ℕ
plain = record { z = λ excess mad. nat_abs excess; near = λ z. ltb z 300 }

abbrev cfg : Config
cfg = record {
  window = 7;
  z_text = codes "3.5";
  min_move = pos 500;
  min_base = pos 100;
  directions = up ∷ down ∷ [];
  cool_days = 3;
}

abbrev quiet : Text → Point
quiet day = record { day = day; amount = pos 1000 }

abbrev week : List Point
week =
    quiet (codes "a")
    ∷ quiet (codes "b")
    ∷ quiet (codes "c")
    ∷ quiet (codes "d")
    ∷ quiet (codes "e")
    ∷ quiet (codes "f")
    ∷ quiet (codes "g")
    ∷ record { day = codes "h"; amount = pos 9000 }
    ∷ record { day = codes "i"; amount = pos 9500 }
    ∷ []

search-IsWorthwhile_example :
    All (IsWorthwhile plain (codes "ec2") [] cfg) (search letters plain week (codes "ec2") [] cfg)
search-IsWorthwhile_example = search-IsWorthwhile letters plain week (codes "ec2") [] cfg

abbrev sample : List Cents
sample = pos 30 ∷ negsuc 4 ∷ pos 10 ∷ pos 20 ∷ []

median-Between_example : Between (negsuc 4) (pos 30) (median sample)
median-Between_example = median-Between (negsuc 4) (pos 30) sample (omega arith) (
  record { above = omega arith; below = omega arith; small = omega arith },
  (
    record { above = omega arith; below = omega arith; small = omega arith },
    (
      record { above = omega arith; below = omega arith; small = omega arith },
      (record { above = omega arith; below = omega arith; small = omega arith }, tt),
    ),
  ),
)

-- The mean of two negative middle values is rounded up, towards zero.
median_up : median (negsuc 0 ∷ negsuc 1 ∷ []) ≡ negsuc 0
unfolding median sort put quot64 add64
median_up = refl
