-- ===== src/Crew/Board/Work.antt =====
-- Work on one task, of internal/crew/crew.go: Assign, AssignableTo, Block and Comment_. `now` is the
-- clock's reading that the row is stamped with.
use costcrew.Base.{
  ℕ, Bool, true, false, Option, none, some, [], Text, codes, text_eq, if◌then◌else◌, find, update,
  insert, is_blank, Result, ok, err, ◌>>=◌, ◌>>◌, refuse_if,
}
use costcrew.Crew.Board.Tables.{
  TaskState, active, blocked, posted, Task, Comment, Db, task_is, named, get_task, BoardError,
  not_found, settled, need_reason, empty_comment, no_such_analyst, suspended,
}

unfoldable pub is_posted : TaskState → Bool
is_posted posted = true
is_posted _ = false

abbrev pub or_not_found : {A : Type 0} → Option A → Result BoardError A
or_not_found none = err not_found
or_not_found (some a) = ok a

unfoldable pub assignable_to : Db → Text → Result BoardError (Unit {0})
assignable_to db analyst =
    if is_blank analyst then ok tt else (elim (find (named analyst) db.analysts) [
      | none ↦ err (no_such_analyst analyst)
      | some a ↦ refuse_if (text_eq a.state (codes "suspended")) (suspended analyst)
    ])

-- UPDATE tasks SET ... WHERE id=?
abbrev pub set_task : ℕ → (Task → Task) → Db → Db
set_task id f db = record db { tasks = update (task_is id) f db.tasks }

unfoldable pub assigned : Text → Text → Task → Task
assigned analyst now t = record t {
  assignee = some analyst;
  state = active;
  reason = [];
  updated = now;
}

unfoldable pub stopped : TaskState → Text → Text → Task → Task
stopped state reason now t = record t { state = state; reason = reason; updated = now }

unfoldable pub assign : ℕ → Text → Text → Db → Result BoardError Db
assign id analyst now db = do
  t ← or_not_found (get_task db id)
  refuse_if (is_posted t.state) settled
  assignable_to db analyst
  ok (set_task id (assigned analyst now) db)

unfoldable pub block : ℕ → Text → Text → Db → Result BoardError Db
block id reason now db = do
  refuse_if (is_blank reason) need_reason
  t ← or_not_found (get_task db id)
  refuse_if (is_posted t.state) settled
  ok (set_task id (stopped blocked reason now) db)

-- Comment_
unfoldable pub comment : ℕ → Text → Text → Text → Db → Result BoardError Db
comment task author body now db = do
  refuse_if (is_blank body) empty_comment
  t ← or_not_found (get_task db task)
  let c : Comment = record { task = task; author = author; body = body; created = now }
  ok (record db { comments = insert c db.comments })
