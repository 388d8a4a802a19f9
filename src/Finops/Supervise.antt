-- ===== src/Finops/Supervise.antt =====
-- Supervise of internal/finops/supervise.go: what a pass reads, and whether it may
-- apply an option itself.
use costcrew.Base.{
  ℕ, Bool, true, false, not, ◌&&◌, ◌||◌, Option, none, some, List, [], ◌∷◌, ◌++◌, Text, codes,
  text_eq, if◌then◌else◌, is_empty, trim_space, any, leb_ℤ, ltb_ℤ, eq_ℤ, pos, nat_abs, ◌==◌, Result,
  ok, err, select,
}
use costcrew.Base.Decimal.{parse_int}
use costcrew.Money.Amount.{Cents, abs}
use costcrew.Crew.Roles.Defs.{
  RolesFile, Threshold, threshold_for, supervisor_may_select, is_may, class_for, link_eq, analyst,
}
use costcrew.Anomaly.Store.{get}
use costcrew.Crew.Options.Table.{OptionRow, Store, StoreError, not_found}
use costcrew.Crew.Options.Marks.{anomaly_of, anomaly_explain}
use costcrew.Finops.Routing.{Note, figure_mismatch, Routing, redirect_of, task_of}

-- What the pass has done so far.
pub record Pass : Type 0 where
  pub applied : List OptionRow
  pub carried : List OptionRow
  pub settled : List Text
  pub by_owner : List (Text × List OptionRow)
  pub notes : List (OptionRow × Note)

abbrev pub no_pass : Pass
no_pass = record { applied = []; carried = []; settled = []; by_owner = []; notes = [] }

-- byOwner[owner] = append(byOwner[owner], group...)
unfoldable pub hand_to : {A : Type 0} → Text → List A → List (Text × List A) → List (Text × List A)
hand_to owner group [] = (owner, group) ∷ []
hand_to owner group ((o, g) ∷ os) =
    let rest = hand_to owner group os in
    if text_eq o owner then (o, g ++ group) ∷ os else (o, g) ∷ rest

unfoldable pub handed_to : {A : Type 0} → Text → List (Text × List A) → List A
handed_to owner [] = []
handed_to owner ((o, g) ∷ os) = let rest = handed_to owner os in if text_eq o owner then g else rest

unfoldable pub analyst_owned : RolesFile → Text → Bool
analyst_owned rf class = elim (class_for rf class) [
  | none ↦ false
  | some c ↦ link_eq c.owner analyst
]

unfoldable pub moves_anomaly : Text → Bool
moves_anomaly c =
    text_eq c anomaly_explain
    || text_eq c (codes "anomaly.dismiss")
    || text_eq c (codes "anomaly.accept")

module _ {F W : Type 0} where
  unfoldable pub anomaly_of_option : OptionRow → Store F W → Result StoreError Text
  anomaly_of_option o s =
      if not (moves_anomaly o.class)
      then ok []
      else (elim (task_of s o) [ err e ↦ err e | ok t ↦ ok (anomaly_of t) ])

  -- The excess that the option's anomaly records, or none for an option tied to no anomaly.
  unfoldable pub recorded_figure : OptionRow → Store F W → Result StoreError (Option Cents)
  recorded_figure o s = elim (task_of s o) [
    | err e ↦ err e
    | ok t ↦ if is_empty (anomaly_of t) then ok none else (elim (get s.anomalies (anomaly_of t)) [
      | none ↦ err not_found
      | some a ↦ ok (some (abs a.excess))
    ])
  ]

unfoldable pub judged : OptionRow → Option Cents → Cents
judged o none = o.figure_cents
judged o (some recorded) = recorded

unfoldable pub agrees : OptionRow → Option Cents → Bool
agrees o none = true
agrees o (some recorded) = eq_ℤ o.figure_cents recorded

-- The value of T.anomaly, which is 0 where the file lacks it.
unfoldable pub anomaly_threshold : List Threshold → Cents
anomaly_threshold ts = elim (threshold_for ts (codes "T.anomaly")) [
  | none ↦ pos 0
  | some t ↦ t.value_cents
]

-- wholeNumberThreshold of a number that is no percentage
unfoldable pub whole_number_threshold : List Threshold → Text → Option ℕ
whole_number_threshold ts name = elim (threshold_for ts name) [
  | none ↦ none
  | some t ↦ (elim (parse_int (trim_space t.value)) [
    | none ↦ none
    | some n ↦ if ltb_ℤ n (pos 0) then none else some (nat_abs n)
  ])
]

unfoldable pub mismatch_note : Option Cents → OptionRow → List (OptionRow × Note)
mismatch_note none o = []
mismatch_note (some recorded) o =
    if eq_ℤ o.figure_cents recorded then [] else (o, figure_mismatch o.figure_cents recorded) ∷ []

abbrev pub same_option : OptionRow → OptionRow → Bool
same_option o p = (o.artifact == p.artifact) && (o.ordinal == p.ordinal)

unfoldable pub notes_on : Routing → Option Cents → OptionRow → List (OptionRow × Note)
notes_on r recorded o = select (λ n. same_option n.0 o) r.notes ++ mismatch_note recorded o

-- What the roles file gives a pass, and the clock.
pub record Rules : Type 0 where
  pub roles : RolesFile
  pub thresholds : List Threshold
  pub today : Text
  pub default_lapses : Text
  pub now : Text

unfoldable pub owner_or_unclaimed : Text → Text
owner_or_unclaimed owner = if is_empty owner then codes "unclaimed" else owner

unfoldable pub not_contradicted : Option Text → Bool
not_contradicted none = true
not_contradicted (some _) = false

-- The condition under which the pass applies a deliverable's first option.
unfoldable pub may_apply : Rules → Routing → List Text → ℕ → OptionRow → Option Cents → Text → Bool
may_apply rules routing settled artifact top recorded anomaly =
    is_may (supervisor_may_select rules.roles top.class)
    && leb_ℤ (judged top recorded) (anomaly_threshold rules.thresholds)
    && agrees top recorded
    && not_contradicted (redirect_of routing artifact)
    && not (
        not (is_empty anomaly)
        && any (λ a. text_eq a anomaly) settled
        && analyst_owned rules.roles top.class)
