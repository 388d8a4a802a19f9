-- ===== src/Anomaly/Transition.antt =====
-- The moves of an anomaly: Assign, Explain, Accept, Dismiss. Each takes the clock's reading, which
-- stamps a closing move, and gives back the table and the event for the recorder.
use costcrew.Base.{
  Bool, true, false, not, ◌&&◌, Option, none, some, List, [], ◌∷◌, ◌++◌, Text, codes, if◌then◌else◌,
  is_empty, is_blank, update, Result, ok, err, ◌>>=◌, ◌>>◌, refuse_if,
}
use costcrew.Anomaly.Store.{
  State, triaged, explained, accepted, dismissed, closed, state_name, Anomaly, has_id, get, Event,
  emit,
}

pub data MoveError : Type 0 where
  not_found need_reason already_closed : MoveError

unfoldable pub is_triaged : State → Bool
is_triaged triaged = true
is_triaged _ = false

-- cur == Explained || cur == Triaged
unfoldable pub answerable : State → Bool
answerable explained = true
answerable triaged = true
answerable _ = false

-- The columns that the UPDATE sets: the owner where an analyst is named, the reason elsewhere.
unfoldable pub moved : {F : Type 0} → State → Text → Text → Text → Anomaly F → Anomaly F
moved to reason analyst now a =
    let closed_at = if closed to then now else [] in
    if is_empty analyst
    then record a { state = to; reason = reason; closed_at = closed_at }
    else record a { state = to; handled_by = analyst; closed_at = closed_at }

abbrev pub entry : Text → Text → List (Text × Text)
entry key value = if is_empty value then [] else (key, value) ∷ []

-- what is reported, of the row that is read back
unfoldable pub move_event : {F : Type 0} → State → State → Text → Text → Anomaly F → Event F
move_event from to reason analyst a = emit (codes "anomaly_" ++ state_name to) a.handled_by a (
    (codes "to", state_name to)
    ∷ (codes "from", state_name from)
    ∷ (entry (codes "reason") reason ++ entry (codes "assigned_to") analyst))

abbrev pub or_not_found : {F : Type 0} → Option (Anomaly F) → Result MoveError (Anomaly F)
or_not_found none = err not_found
or_not_found (some a) = ok a

abbrev pub event_of :
    {F : Type 0} → State → State → Text → Text → Option (Anomaly F) → Option (Event F)
event_of from to reason analyst none = none
event_of from to reason analyst (some a) = some (move_event from to reason analyst a)

-- `allowed` is the error that the move's own test gives in a state, if any.
unfoldable pub transition :
    {F : Type 0}
    → Text
    → State
    → Text
    → (State → Option MoveError)
    → Text
    → Text
    → List (Anomaly F)
    → Result MoveError (List (Anomaly F) × Option (Event F))
transition id to reason allowed analyst now rows = do
  refuse_if (not (is_triaged to) && is_blank reason) need_reason
  cur ← or_not_found (get rows id)
  let after = update (has_id id) (moved to reason analyst now) rows
  elim (allowed cur.state) [
    | some e ↦ err e
    | none ↦ ok (after, event_of cur.state to reason analyst (get after id))
  ]

unfoldable pub unless_closed : State → Option MoveError
unless_closed cur = if closed cur then some already_closed else none

unfoldable pub if_answerable : State → Option MoveError
if_answerable cur = if answerable cur then none else some need_reason

unfoldable pub assign :
    {F : Type 0}
    → Text
    → Text
    → Text
    → List (Anomaly F)
    → Result MoveError (List (Anomaly F) × Option (Event F))
assign id analyst now = transition id triaged [] unless_closed analyst now

unfoldable pub explain :
    {F : Type 0}
    → Text
    → Text
    → Text
    → List (Anomaly F)
    → Result MoveError (List (Anomaly F) × Option (Event F))
explain id reason now = transition id explained reason unless_closed [] now

unfoldable pub accept :
    {F : Type 0}
    → Text
    → Text
    → Text
    → List (Anomaly F)
    → Result MoveError (List (Anomaly F) × Option (Event F))
accept id reason now = transition id accepted reason if_answerable [] now

unfoldable pub dismiss :
    {F : Type 0}
    → Text
    → Text
    → Text
    → List (Anomaly F)
    → Result MoveError (List (Anomaly F) × Option (Event F))
dismiss id reason now = transition id dismissed reason unless_closed [] now
