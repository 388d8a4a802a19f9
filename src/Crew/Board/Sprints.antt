-- ===== src/Crew/Board/Sprints.antt =====
-- Sprints of internal/crew/crew.go: FromAnomaly, Approve and CloseSprint, and EnsureTask of
-- decision.go. `fresh` is the id that the database gives a new row, from the ids in use.
use costcrew.Base.{
  ℕ, Bool, true, false, not, ◌&&◌, Option, none, some, List, [], ◌∷◌, Text, codes, text_eq,
  text_leb, if◌then◌else◌, is_empty, find, select, map, length, update, insert, ◌==◌, pos, Result,
  ok, err, ◌>>◌, refuse_if,
}
use costcrew.Money.Amount.{Cents}
use costcrew.Crew.Roles.Defs.{RolesFile, may_decide, is_may}
use costcrew.Crew.Board.Tables.{
  open_state, Task, SprintState, planned, active_sprint, closed_sprint, Sprint, Db, sprint_is,
  column_is, null_if, owner_of, state_for, BoardError, may_not_decide, nothing_to_plan, on_board,
  no_such_sprint, sprint_closed,
}

pub record PlanItem : Type 0 where
  pub title : Text
  pub goal : Text
  pub assignee : Text
  pub desk : Text
  pub budget : Cents

-- The fields of Plan that Approve reads.
pub record Plan : Type 0 where
  pub label : Text
  pub start : Text
  pub finish : Text
  pub goal : Text
  pub items : List PlanItem
  pub existing : Bool

abbrev pub task_ids : Db → List ℕ
task_ids db = map (λ t. t.id) db.tasks

abbrev pub sprint_ids : Db → List ℕ
sprint_ids db = map (λ s. s.id) db.sprints

unfoldable pub is_active_state : SprintState → Bool
is_active_state active_sprint = true
is_active_state _ = false

unfoldable pub is_active : Sprint → Bool
is_active s = is_active_state s.state

-- ORDER BY label DESC LIMIT 1
unfoldable pub last_label : List Sprint → Option Sprint
last_label [] = none
last_label (s ∷ l) = elim (last_label l) [
  | none ↦ some s
  | some t ↦ if text_leb t.label s.label then some s else some t
]

unfoldable pub current_sprint : Db → ℕ
current_sprint db = elim (last_label (select is_active db.sprints)) [
  | some s ↦ s.id
  | none ↦ elim (last_label db.sprints) [ some s ↦ s.id | none ↦ 0 ]
]

-- The row of the three INSERT INTO tasks.
unfoldable pub new_task : Db → ℕ → ℕ → PlanItem → Option Text → Text → Task
new_task db id sprint item anomaly now = record {
  id = id;
  sprint = sprint;
  title = item.title;
  goal = item.goal;
  assignee = null_if item.assignee;
  desk = item.desk;
  state = state_for item.assignee;
  reason = [];
  budget = item.budget;
  spent = pos 0;
  anomaly = anomaly;
  created = now;
  updated = now;
  owner = owner_of db item.assignee;
}

abbrev pub add_task : Task → Db → Db
add_task t db = record db { tasks = insert t db.tasks }

abbrev pub from_is : Text → Task → Bool
from_is anomaly t = column_is anomaly t.anomaly

unfoldable pub from_anomaly : (List ℕ → ℕ) → Text → PlanItem → Text → Db → Db × ℕ
from_anomaly fresh anomaly item now db = elim (find (from_is anomaly) db.tasks) [
  | some t ↦ (db, t.id)
  | none ↦
      let id = fresh (task_ids db) in
      (add_task (new_task db id (current_sprint db) item (some anomaly) now) db, id)
]

-- sprint=? AND assignee=? AND title=?
abbrev pub same_work : ℕ → Text → Text → Task → Bool
same_work sprint assignee title t =
    (t.sprint == sprint) && (column_is assignee t.assignee && text_eq t.title title)

unfoldable pub ensure_task : (List ℕ → ℕ) → ℕ → PlanItem → Text → Db → Db × ℕ
ensure_task fresh sprint item now db =
    elim (find (same_work sprint item.assignee item.title) db.tasks) [
      | some t ↦ (db, t.id)
      | none ↦
          let id = fresh (task_ids db) in (add_task (new_task db id sprint item none now) db, id)
    ]

-- The loop of Approve.
unfoldable pub add_items : (List ℕ → ℕ) → ℕ → Text → List PlanItem → Db → Db
add_items fresh sprint now [] db = db
add_items fresh sprint now (item ∷ items) db =
    add_items fresh sprint now items
      (add_task (new_task db (fresh (task_ids db)) sprint item none now) db)

unfoldable pub planned_sprint : Plan → ℕ → Sprint
planned_sprint p id = record {
  id = id;
  label = p.label;
  start = p.start;
  finish = p.finish;
  state = planned;
  goal = p.goal;
}

unfoldable pub approve :
    (List ℕ → ℕ) → RolesFile → Plan → Text → Text → Db → Result BoardError (Db × ℕ)
approve fresh roles p link now db = do
  refuse_if (not (is_may (may_decide roles link (codes "sprint.approve")))) may_not_decide
  refuse_if (is_empty p.items) nothing_to_plan
  refuse_if p.existing on_board
  let sprint = fresh (sprint_ids db)
  let begun = record db { sprints = insert (planned_sprint p sprint) db.sprints }
  ok (add_items fresh sprint now p.items begun, length p.items)

unfoldable pub is_closed : SprintState → Bool
is_closed closed_sprint = true
is_closed _ = false

unfoldable pub still_open : ℕ → Db → ℕ
still_open sprint db = length (select (λ t. (t.sprint == sprint) && open_state t.state) db.tasks)

unfoldable pub shut : Sprint → Sprint
shut s = record s { state = closed_sprint }

unfoldable pub close_sprint : ℕ → Db → Result BoardError (Db × ℕ)
close_sprint id db = elim (find (sprint_is id) db.sprints) [
  | none ↦ err no_such_sprint
  | some s ↦ do
    refuse_if (is_closed s.state) sprint_closed
    ok (record db { sprints = update (sprint_is id) shut db.sprints }, still_open id db)
]
