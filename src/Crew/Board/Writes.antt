-- ===== src/Crew/Board/Writes.antt =====
-- The single statements that the board's operations execute, each with what its operation has
-- checked before it, and that every operation is a sequence of them.
use costcrew.Base.{
  ℕ, ◌≡◌, Bool, true, false, ◌∷◌, none, some, List, [], Text, is_empty, is_blank, find, update,
  insert, Option-cases, inl, inr,
}
use costcrew.Crew.Board.Tables.{
  TaskState, blocked, returned, Artifact, Comment, Db, sprint_is, get_artifact,
}
use costcrew.Crew.Board.Work.{set_task, assigned, stopped}
use costcrew.Crew.Board.Stamp.{is_posted_draft, set_artifact, stamped_by, sent_back, posted_task}
use costcrew.Crew.Board.Sprints.{
  PlanItem, Plan, task_ids, sprint_ids, new_task, add_task, from_is, same_work, from_anomaly,
  ensure_task, add_items, planned_sprint, shut, current_sprint,
}
use costcrew.Crew.Board.Requests.{
  request_is, decision_request_for, rewritten, new_request_artifact, artifact_ids, add_request,
  answered,
}

-- The states that a task is stopped in.
unfoldable pub stops : TaskState → Bool
stops blocked = true
stops returned = true
stops _ = false

module _ (fresh : List ℕ → ℕ) where
  pub data Write (db : Db) : Db → Type 0 where
    task_assigned : (id : ℕ) (analyst now : Text) → Write db (set_task id (assigned analyst now) db)
    task_stopped :
        (id : ℕ) (state : TaskState) (reason now : Text)
        → stops state ≡ true
        → is_blank reason ≡ false
        → Write db (set_task id (stopped state reason now) db)
    task_posted : (id : ℕ) (now : Text) → Write db (set_task id (posted_task now) db)
    task_planned :
        (sprint : ℕ) (item : PlanItem) (now : Text)
        → Write db (add_task (new_task db (fresh (task_ids db)) sprint item none now) db)
    task_from :
        (sprint : ℕ) (item : PlanItem) (anomaly now : Text)
        → find (from_is anomaly) db.tasks ≡ none
        → Write db (add_task (new_task db (fresh (task_ids db)) sprint item (some anomaly) now) db)
    artifact_stamped :
        (id : ℕ) (stamper now : Text) {a : Artifact}
        → is_empty now ≡ false
        → get_artifact db id ≡ some a
        → is_posted_draft a.state ≡ false
        → Write db (set_artifact id (stamped_by stamper now) db)
    artifact_returned :
        (id : ℕ) (reason : Text) {a : Artifact}
        → is_blank reason ≡ false
        → get_artifact db id ≡ some a
        → is_posted_draft a.state ≡ false
        → Write db (set_artifact id (sent_back reason) db)
    artifact_rewritten :
        (sprint : ℕ) (owner body : Text) {id : ℕ}
        → decision_request_for db sprint owner ≡ some id
        → Write db (set_artifact id (rewritten body) db)
    artifact_answered :
        (id : ℕ) (owner now : Text)
        → is_empty now ≡ false
        → Write db (set_artifact id (answered owner now) db)
    request_written :
        (task sprint : ℕ) (owner body lapses now : Text)
        → find (request_is sprint owner) db.requests ≡ none
        → Write db (
            add_request
              (new_request_artifact (fresh (artifact_ids db)) task owner body now)
              (record {
                artifact = fresh (artifact_ids db);
                sprint = sprint;
                owner = owner;
                lapses = lapses;
                created = now;
              })
              db)
    commented : (c : Comment) → Write db (record db { comments = insert c db.comments })
    sprint_planned :
        (p : Plan)
        → Write db
            (record db { sprints = insert (planned_sprint p (fresh (sprint_ids db))) db.sprints })
    sprint_shut :
        (id : ℕ) → Write db (record db { sprints = update (sprint_is id) shut db.sprints })

  pub data Writes (db : Db) : Db → Type 0 where
    nothing : Writes db db
    also : {mid after : Db} → Writes db mid → Write mid after → Writes db after

  pub Writes-one : {db after : Db} → Write db after → Writes db after
  Writes-one w = also nothing w

  pub Writes-two : {db mid after : Db} → Write db mid → Write mid after → Writes db after
  Writes-two w v = also (also nothing w) v

  pub Writes-trans : {db mid after : Db} → Writes db mid → Writes mid after → Writes db after
  Writes-trans ws nothing = ws
  Writes-trans ws (also vs v) = also (Writes-trans ws vs) v

  pub ensure_task-Writes :
      (sprint : ℕ) (item : PlanItem) (now : Text) (db : Db)
      → Writes db (ensure_task fresh sprint item now db).0
  unfolding ensure_task
  ensure_task-Writes sprint item now db =
      elim (Option-cases (find (same_work sprint item.assignee item.title) db.tasks)) [
        | inl new ↦ rw (ensure_task, new) (Writes-one (Write.task_planned sprint item now))
        | inr (t, known) ↦ rw (ensure_task, known) nothing
      ]

  pub from_anomaly-Writes :
      (anomaly : Text) (item : PlanItem) (now : Text) (db : Db)
      → Writes db (from_anomaly fresh anomaly item now db).0
  unfolding from_anomaly
  from_anomaly-Writes anomaly item now db = elim (Option-cases (find (from_is anomaly) db.tasks)) [
    | inl new ↦
        rw (from_anomaly, new)
          (Writes-one (Write.task_from (current_sprint db) item anomaly now new))
    | inr (t, known) ↦ rw (from_anomaly, known) nothing
  ]

  pub add_items-Writes :
      (sprint : ℕ) (now : Text) (items : List PlanItem) (db : Db)
      → Writes db (add_items fresh sprint now items db)
  unfolding add_items
  add_items-Writes sprint now [] db = nothing
  add_items-Writes sprint now (item ∷ items) db =
      Writes-trans (Writes-one (Write.task_planned sprint item now))
        (add_items-Writes sprint now items _)
