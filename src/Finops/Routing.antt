-- ===== src/Finops/Routing.antt =====
-- contradictionRouting of internal/finops/supervise.go: explanations of one anomaly by different
-- deliverables that name different causes go to one owner. The map by anomaly is walked here in the
-- order of its first options: a deliverable is about one anomaly, so the order does not show.
use costcrew.Base.{
  ℕ, Bool, false, not, Option, none, some, List, [], ◌∷◌, Text, text_eq, if◌then◌else◌, is_empty,
  trim_space, find, any, ltb, ◌==◌, Result, ok, err, ◌>>=◌,
}
use costcrew.Crew.Board.Tables.{Task}
use costcrew.Crew.Options.Table.{OptionRow, Store, StoreError, task_of_artifact, task_by_id}
use costcrew.Crew.Options.Marks.{anomaly_of, anomaly_explain}
use costcrew.Money.Amount.{Cents}
use costcrew.Finops.Rank.{Group, join_group}

-- What stands under an option of a decision request.
pub data Note : Type 0 where
  answered_differently : Text → Option Text → ℕ → Text → Note
  figure_mismatch : Cents → Cents → Note

-- The explanations of an anomaly, by deliverable, in rank order.
abbrev pub Question : Type 0
Question = Text × List Group

unfoldable pub ask : Text → OptionRow → List Question → List Question
ask anomaly o [] = (anomaly, join_group o []) ∷ []
ask anomaly o ((id, groups) ∷ qs) =
    let rest = ask anomaly o qs in
    if text_eq id anomaly then (id, join_group o groups) ∷ qs else (id, groups) ∷ rest

-- Where a deliverable goes, and what stands under an option.
pub record Routing : Type 0 where
  pub redirect : List (ℕ × Text)
  pub notes : List (OptionRow × Note)

abbrev pub no_routing : Routing
no_routing = record { redirect = []; notes = [] }

unfoldable pub redirect_of : Routing → ℕ → Option Text
redirect_of r artifact = elim (find (λ x. x.0 == artifact) r.redirect) [
  | none ↦ none
  | some x ↦ some x.1
]

-- The option of lowest ordinal.
unfoldable pub lowest : OptionRow → List OptionRow → OptionRow
lowest o [] = o
lowest o (p ∷ ps) = lowest (if ltb p.ordinal o.ordinal then p else o) ps

-- One representative for each deliverable; a group is never empty.
unfoldable pub representatives : List Group → List OptionRow
representatives [] = []
representatives ((id, []) ∷ gs) = representatives gs
representatives ((id, o ∷ os) ∷ gs) = lowest o os ∷ representatives gs

-- len(summaries) > 1
unfoldable pub differ : List OptionRow → Bool
differ [] = false
differ (o ∷ os) = any (λ p. not (text_eq (trim_space p.summary) (trim_space o.summary))) os

module _ {F W : Type 0} (s : Store F W) where
  unfoldable pub task_of : OptionRow → Result StoreError Task
  task_of o = task_of_artifact o.artifact s >>= λ id. task_by_id id s

  -- byAnomaly
  unfoldable pub questions : List Question → List OptionRow → Result StoreError (List Question)
  questions qs [] = ok qs
  questions qs (o ∷ os) =
      let skipped = questions qs os in
      if not (text_eq o.class anomaly_explain) then skipped else (elim (task_of o) [
        | err e ↦ err e
        | ok t ↦ questions (if is_empty (anomaly_of t) then qs else ask (anomaly_of t) o qs) os
      ])

  -- The loop over the deliverables of a contradiction, whose owner and rivals are known.
  unfoldable pub send_all :
      Text → Text → OptionRow → List OptionRow → Routing → Result StoreError Routing
  send_all anomaly owner rival [] r = ok r
  send_all anomaly owner rival (o ∷ os) r = elim (task_of rival) [
    | err e ↦ err e
    | ok t ↦ send_all anomaly owner rival os (record {
      redirect = (o.artifact, owner) ∷ r.redirect;
      notes = (o, answered_differently anomaly t.assignee t.id rival.summary) ∷ r.notes;
    })
  ]

  unfoldable pub route : Question → Routing → Result StoreError Routing
  route (anomaly, groups) r = elim (representatives groups) [
    | first ∷ second ∷ others ↦
        if not (differ (first ∷ second ∷ others)) then ok r else (elim (task_of first) [
          | err e ↦ err e
          | ok t ↦ send_all anomaly t.owner second (first ∷ []) r >>= λ r'.
              send_all anomaly t.owner first (second ∷ others) r'
        ])
    | _ ↦ ok r
  ]

  unfoldable pub route_all : List Question → Routing → Result StoreError Routing
  route_all [] r = ok r
  route_all (q ∷ qs) r = route q r >>= λ r'. route_all qs r'

  unfoldable pub contradiction_routing : List OptionRow → Result StoreError Routing
  contradiction_routing ranked = questions [] ranked >>= λ qs. route_all qs no_routing
