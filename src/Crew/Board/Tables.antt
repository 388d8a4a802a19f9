-- ===== src/Crew/Board/Tables.antt =====
-- The tables of internal/crew/crew.go and roster.go that the board keeps, as lists of rows, and the
-- queries that several operations make. A NULL text column is the empty text where every query
-- reads it through COALESCE, and an option where a query compares it.
use costcrew.Base.{
  ℕ, Bool, true, false, Option, none, some, List, [], Text, text_eq, if◌then◌else◌, is_empty, find,
  pos, ltb_ℤ, ◌&&◌, ◌==◌,
}
use costcrew.Money.Amount.{Cents}

pub data TaskState : Type 0 where
  queued active blocked returned done posted : TaskState

-- openStates
unfoldable pub open_state : TaskState → Bool
open_state done = false
open_state posted = false
open_state _ = true

pub data ArtifactState : Type 0 where
  draft returned_draft posted_draft : ArtifactState

pub record Task : Type 0 where
  pub id : ℕ
  pub sprint : ℕ
  pub title : Text
  pub goal : Text
  pub assignee : Option Text
  pub desk : Text
  pub state : TaskState
  pub reason : Text
  pub budget : Cents
  pub spent : Cents
  pub anomaly : Option Text
  pub created : Text
  pub updated : Text
  pub owner : Text

unfoldable pub over_guard : Task → Bool
over_guard t = ltb_ℤ (pos 0) t.budget && ltb_ℤ t.budget t.spent

pub record Artifact : Type 0 where
  pub id : ℕ
  pub task : ℕ
  pub author : Text
  pub title : Text
  pub body : Text
  pub state : ArtifactState
  pub reason : Text
  pub created : Text
  pub stamped : Text
  pub stamper : Text

pub data SprintState : Type 0 where
  planned active_sprint closed_sprint : SprintState

pub record Sprint : Type 0 where
  pub id : ℕ
  pub label : Text
  pub start : Text
  pub finish : Text
  pub state : SprintState
  pub goal : Text

pub record Comment : Type 0 where
  pub task : ℕ
  pub author : Text
  pub body : Text
  pub created : Text

-- The columns of `analysts` that the board's operations read.
pub record Analyst : Type 0 where
  pub name : Text
  pub desk : Text
  pub state : Text
  pub reason : Text
  pub monthly : Cents
  pub owner : Text

-- decision_requests
pub record Request : Type 0 where
  pub artifact : ℕ
  pub sprint : ℕ
  pub owner : Text
  pub lapses : Text
  pub created : Text

pub record Db : Type 0 where
  pub sprints : List Sprint
  pub tasks : List Task
  pub artifacts : List Artifact
  pub comments : List Comment
  pub analysts : List Analyst
  pub requests : List Request

abbrev pub task_is : ℕ → Task → Bool
task_is id t = t.id == id

abbrev pub artifact_is : ℕ → Artifact → Bool
artifact_is id a = a.id == id

abbrev pub sprint_is : ℕ → Sprint → Bool
sprint_is id s = s.id == id

abbrev pub named : Text → Analyst → Bool
named name a = text_eq a.name name

-- `column = ?` in SQL, which no NULL satisfies
abbrev pub column_is : Text → Option Text → Bool
column_is s none = false
column_is s (some t) = text_eq t s

unfoldable pub get_task : Db → ℕ → Option Task
get_task db id = find (task_is id) db.tasks

unfoldable pub get_artifact : Db → ℕ → Option Artifact
get_artifact db id = find (artifact_is id) db.artifacts

unfoldable pub null_if : Text → Option Text
null_if s = if is_empty s then none else some s

unfoldable pub owner_of : Db → Text → Text
owner_of db agent = elim (find (named agent) db.analysts) [ none ↦ [] | some a ↦ a.owner ]

unfoldable pub state_for : Text → TaskState
state_for assignee = if is_empty assignee then queued else active

pub data BoardError : Type 0 where
  not_found settled need_reason empty_comment : BoardError
  no_such_analyst : Text → BoardError
  suspended : Text → BoardError
  may_not_decide : BoardError
  nothing_to_plan on_board no_such_sprint sprint_closed : BoardError
