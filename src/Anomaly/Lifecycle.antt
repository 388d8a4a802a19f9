-- ===== src/Anomaly/Lifecycle.antt =====
-- Every way an anomaly's row can change, and what holds of the rows that are reached.
use costcrew.Base.{
  ◌≡◌, false, not, ◌&&◌, Option, none, some, List, Text, is_empty, is_blank, update, ok, arith,
  Option-cases, inl, inr,
}
use costcrew.Detect.Series.{Finding}
use costcrew.Anomaly.Store.{State, Anomaly, has_id, get, Event}
use costcrew.Anomaly.Transition.{
  MoveError, is_triaged, moved, transition, assign, explain, accept, dismiss,
}
use costcrew.Anomaly.Detection.{SeriesKey, run}

-- What a move found, and did, when it succeeded.
pub record Done (F : Type 0) (id : Text) (to : State) (reason : Text)
    (allowed : State → Option MoveError) (analyst now : Text) (rows after : List (Anomaly F))
    : Type 0 where
  pub cur : Anomaly F
  pub known : get rows id ≡ some cur
  pub may : allowed cur.state ≡ none
  pub reasoned : (not (is_triaged to) && is_blank reason) ≡ false
  pub written : after ≡ update (has_id id) (moved to reason analyst now) rows

module _ {F : Type 0} where
  pub transition-Done :
      (id : Text) (to : State) (reason : Text) (allowed : State → Option MoveError)
      (analyst now : Text) (rows : List (Anomaly F)) {after : List (Anomaly F)}
      {event : Option (Event F)}
      → transition id to reason allowed analyst now rows ≡ ok (after, event)
      → Done F id to reason allowed analyst now rows after
  unfolding transition
  transition-Done id to reason allowed analyst now rows h = elim (Option-cases (get rows id)) [
    | inl unknown ↦ ground arith
    | inr (cur, known) ↦ elim (Option-cases (allowed cur.state)) [
      | inl may ↦ record {
        cur = cur;
        known = known;
        may = may;
        reasoned = ground arith;
        written = ground arith;
      }
      | inr (e, refused) ↦ ground arith
    ]
  ]

  -- A move or a detection pass.
  pub data Step : List (Anomaly F) → List (Anomaly F) → Type 0 where
    assigned :
        (id analyst now : Text) {rows after : List (Anomaly F)} (event : Option (Event F))
        → assign id analyst now rows ≡ ok (after, event)
        → Step rows after
    explained_by :
        (id reason now : Text) {rows after : List (Anomaly F)} (event : Option (Event F))
        → explain id reason now rows ≡ ok (after, event)
        → Step rows after
    accepted_by :
        (id reason now : Text) {rows after : List (Anomaly F)} (event : Option (Event F))
        → is_empty now ≡ false
        → accept id reason now rows ≡ ok (after, event)
        → Step rows after
    dismissed_by :
        (id reason now : Text) {rows after : List (Anomaly F)} (event : Option (Event F))
        → is_empty now ≡ false
        → dismiss id reason now rows ≡ ok (after, event)
        → Step rows after
    detected_by :
        (digest : Text → Text) (agent_for : SeriesKey → Text → Text) (pass stamp : Text)
        (series : List (SeriesKey × List (Finding F))) {rows : List (Anomaly F)}
        → Step rows (run digest agent_for pass stamp series rows).rows

  pub data Reach (rows : List (Anomaly F)) : List (Anomaly F) → Type 0 where
    here : Reach rows rows
    next : {mid after : List (Anomaly F)} → Reach rows mid → Step mid after → Reach rows after
