-- ===== src/Detect/Coalesce.antt =====
-- coalesce of internal/detect/detect.go: one incident becomes one finding. `day_number` counts the
-- days of a date, as time.Parse and Sub do. Sorting by day is unstable in the source: the days of one
-- series are distinct, so no two orders differ.
use costcrew.Base.{
  ℕ, zero, suc, ◌+◌, Option, none, some, List, [], ◌∷◌, ◌++◌, Text, text_leb, if◌then◌else◌, ltb,
  leb, ltb_ℤ, length, get_elem?,
}
use costcrew.Money.Amount.{abs}
use costcrew.Detect.Series.{Direction, up, down, Finding}

module _ {F : Type 0} where
  unfoldable pub put_by_day : Finding F → List (Finding F) → List (Finding F)
  put_by_day x [] = x ∷ []
  put_by_day x (y ∷ l) =
      let rest = put_by_day x l in if text_leb x.day y.day then x ∷ y ∷ l else y ∷ rest

  unfoldable pub sort_by_day : List (Finding F) → List (Finding F)
  sort_by_day [] = []
  sort_by_day (x ∷ l) = put_by_day x (sort_by_day l)

  -- out[i] = x
  unfoldable pub set_elem : ℕ → Finding F → List (Finding F) → List (Finding F)
  set_elem _ x [] = []
  set_elem zero x (_ ∷ l) = x ∷ l
  set_elem (suc i) x (y ∷ l) = y ∷ set_elem i x l

-- `head`: where the open incident of each direction stands.
pub record Incidents (F : Type 0) : Type 0 where
  pub out : List (Finding F)
  pub head_up : Option ℕ
  pub head_down : Option ℕ

abbrev pub head_of : {F : Type 0} → Direction → Incidents F → Option ℕ
head_of up s = s.head_up
head_of down s = s.head_down

unfoldable pub with_head : {F : Type 0} → Direction → ℕ → Incidents F → Incidents F
with_head up i s = record s { head_up = some i }
with_head down i s = record s { head_down = some i }

unfoldable pub begin_incident : {F : Type 0} → Finding F → Incidents F → Incidents F
begin_incident cur s = with_head cur.direction (length s.out) (record s { out = s.out ++ cur ∷ [] })

-- The head takes the finding's numbers when they are larger, and keeps its day.
unfoldable pub absorb : {F : Type 0} → ℕ → Finding F → Finding F → Incidents F → Incidents F
absorb i first cur s =
    if ltb_ℤ (abs first.excess) (abs cur.excess)
    then record s { out = set_elem i (record cur { day = first.day }) s.out }
    else s

-- The finding that the head of this direction points at. Every head points into `out`.
abbrev pub open_incident : {F : Type 0} → Direction → Incidents F → Option (ℕ × Finding F)
open_incident d s = elim (head_of d s) [
  | none ↦ none
  | some i ↦ elim (get_elem? s.out i) [ none ↦ none | some first ↦ some (i, first) ]
]

unfoldable pub gather : {F : Type 0} → (Text → ℕ) → ℕ → Finding F → Incidents F → Incidents F
gather day_number cool cur s = elim (open_incident cur.direction s) [
  | none ↦ begin_incident cur s
  | some (i, first) ↦
      if leb (day_number cur.day) (day_number first.day + cool)
      then absorb i first cur s
      else begin_incident cur s
]

unfoldable pub gather_all :
    {F : Type 0} → (Text → ℕ) → ℕ → List (Finding F) → Incidents F → Incidents F
gather_all day_number cool [] s = s
gather_all day_number cool (f ∷ fs) s = gather_all day_number cool fs (gather day_number cool f s)

unfoldable pub coalesce : {F : Type 0} → (Text → ℕ) → ℕ → List (Finding F) → List (Finding F)
coalesce day_number cool_days f =
    let cool = if ltb cool_days 1 then 1 else cool_days in
    if ltb (length f) 2
    then f
    else (gather_all day_number cool (sort_by_day f)
        (record { out = []; head_up = none; head_down = none })).out
