-- ===== src/Anomaly/Store.antt =====
-- The stored anomaly of internal/anomaly/anomaly.go, its states, and what an event says of it.
-- The table is a list of rows; a NULL column is the empty text, as every query reads it (COALESCE).
-- `F` is the type of the z score, a float64 that the store only carries.
use costcrew.Base.{
  Bool, true, false, Option, List, Text, codes, text_eq, if◌then◌else◌, pos, leb_ℤ, find,
}
use costcrew.Money.Amount.{Cents, abs}

-- `opened` is "open".
pub data State : Type 0 where
  opened triaged explained accepted dismissed : State

unfoldable pub closed : State → Bool
closed accepted = true
closed dismissed = true
closed _ = false

unfoldable pub state_name : State → Text
state_name opened = codes "open"
state_name triaged = codes "triaged"
state_name explained = codes "explained"
state_name accepted = codes "accepted"
state_name dismissed = codes "dismissed"

pub record Anomaly (F : Type 0) : Type 0 where
  pub id : Text
  pub source : Text
  pub team : Text
  pub service : Text
  pub day : Text
  pub direction : Text
  pub amount : Cents
  pub baseline : Cents
  pub excess : Cents
  pub z : F
  pub rule : Text
  pub rule_ver : Text
  pub driver : Text
  pub caused_by : Text
  pub caused_by_kind : Text
  pub handled_by : Text
  pub state : State
  pub reason : Text
  pub detected_at : Text
  pub closed_at : Text

-- SELECT ... WHERE id=?, on the key of the table
abbrev pub has_id : {F : Type 0} → Text → Anomaly F → Bool
has_id id a = text_eq id a.id

unfoldable pub get : {F : Type 0} → List (Anomaly F) → Text → Option (Anomaly F)
get rows id = find (has_id id) rows

pub data Severity : Type 0 where
  critical high medium low : Severity

-- severityOf
unfoldable pub severity_of : Cents → Severity
severity_of excess =
    let a = abs excess in
    if leb_ℤ (pos 500000) a
    then critical
    else if leb_ℤ (pos 100000) a
    then high
    else if leb_ℤ (pos 20000) a
    then medium
    else low

-- One Recorder.Emit: the kind, the actor, the severity, the anomaly that the data map describes,
-- and the extra entries.
pub record Event (F : Type 0) : Type 0 where
  pub kind : Text
  pub actor : Text
  pub severity : Severity
  pub anomaly : Anomaly F
  pub extra : List (Text × Text)

unfoldable pub emit : {F : Type 0} → Text → Text → Anomaly F → List (Text × Text) → Event F
emit kind actor a extra = record {
  kind = kind;
  actor = actor;
  severity = severity_of a.excess;
  anomaly = a;
  extra = extra;
}
