-- ===== src/Crew/Board/Sound.antt =====
-- What holds of every board: reasons and stamps where the states promise them, distinct row ids,
-- one task for an anomaly, one decision request for an owner in a sprint.
use costcrew.Base.{
  ℕ, ◌≡◌, Bool, true, false, ◌&&◌, Option, none, some, List, Text, is_empty, is_blank, All,
  All-update, All-insert, arith,
}
use costcrew.Crew.Roles.Defs.{RolesFile}
use costcrew.Crew.Board.Tables.{
  TaskState, queued, Task, ArtifactState, returned_draft, Artifact, Db, task_is, artifact_is,
  null_if, state_for,
}
use costcrew.Crew.Board.Work.{assigned, stopped}
use costcrew.Crew.Board.Stamp.{is_posted_draft, stamped_by, sent_back, posted_task}
use costcrew.Crew.Board.Sprints.{PlanItem, new_task}
use costcrew.Crew.Board.Requests.{rewritten, new_request_artifact, answered}
use costcrew.Crew.Board.Steps.{Reach, here, next}
use costcrew.Crew.Board.Writes.{stops, Write, Writes, nothing, also}
use costcrew.Crew.Board.Split.{Step-Writes}

unfoldable pub is_queued : TaskState → Bool
is_queued queued = true
is_queued _ = false

unfoldable pub is_returned_draft : ArtifactState → Bool
is_returned_draft returned_draft = true
is_returned_draft _ = false

unfoldable pub has_assignee : Option Text → Bool
has_assignee none = false
has_assignee (some _) = true

-- A blocked or returned task has a reason that is not blank, and a queued task has no assignee.
pub record IsSoundTask (t : Task) : Type 0 where
  pub reasoned : (stops t.state && is_blank t.reason) ≡ false
  pub unassigned : (is_queued t.state && has_assignee t.assignee) ≡ false

-- A returned deliverable has a reason that is not blank, and a posted one its stamp.
pub record IsSoundArtifact (a : Artifact) : Type 0 where
  pub reasoned : (is_returned_draft a.state && is_blank a.reason) ≡ false
  pub stamped : (is_posted_draft a.state && is_empty a.stamped) ≡ false

assigned-IsSoundTask : (analyst now : Text) (t : Task) → IsSoundTask (assigned analyst now t)
unfolding assigned stops is_queued
assigned-IsSoundTask analyst now t = ground arith

stopped-IsSoundTask :
    (state : TaskState) (reason now : Text) (t : Task)
    → stops state ≡ true
    → is_blank reason ≡ false
    → IsSoundTask (stopped state reason now t)
unfolding stopped stops is_queued
stopped-IsSoundTask state reason now t s h = ground arith

posted_task-IsSoundTask : (now : Text) (t : Task) → IsSoundTask (posted_task now t)
unfolding posted_task stops is_queued
posted_task-IsSoundTask now t = ground arith

new_task-IsSoundTask :
    (db : Db) (id sprint : ℕ) (item : PlanItem) (anomaly : Option Text) (now : Text)
    → IsSoundTask (new_task db id sprint item anomaly now)
unfolding new_task stops is_queued has_assignee null_if state_for
new_task-IsSoundTask db id sprint item anomaly now = ground arith

stamped_by-IsSoundArtifact :
    (stamper now : Text) (a : Artifact)
    → is_empty now ≡ false
    → IsSoundArtifact (stamped_by stamper now a)
unfolding stamped_by is_returned_draft
stamped_by-IsSoundArtifact stamper now a h = ground arith

sent_back-IsSoundArtifact :
    (reason : Text) (a : Artifact) → is_blank reason ≡ false → IsSoundArtifact (sent_back reason a)
unfolding sent_back is_posted_draft
sent_back-IsSoundArtifact reason a h = ground arith

rewritten-IsSoundArtifact : (body : Text) (a : Artifact) → IsSoundArtifact (rewritten body a)
unfolding rewritten is_posted_draft is_returned_draft
rewritten-IsSoundArtifact body a = ground arith

answered-IsSoundArtifact :
    (owner now : Text) (a : Artifact)
    → is_empty now ≡ false
    → IsSoundArtifact a
    → IsSoundArtifact (answered owner now a)
unfolding answered is_returned_draft
answered-IsSoundArtifact owner now a t h = ground arith

new_request_artifact-IsSoundArtifact :
    (id task : ℕ) (owner body now : Text)
    → IsSoundArtifact (new_request_artifact id task owner body now)
unfolding new_request_artifact is_posted_draft is_returned_draft
new_request_artifact-IsSoundArtifact id task owner body now = ground arith

pub record IsSound (db : Db) : Type 0 where
  pub tasks : All IsSoundTask db.tasks
  pub artifacts : All IsSoundArtifact db.artifacts

module _ (fresh : List ℕ → ℕ) where
  Write-IsSound : {db after : Db} → Write fresh db after → IsSound db → IsSound after
  Write-IsSound {db} (Write.task_assigned id analyst now) s = record {
    artifacts = s.artifacts;
    tasks =
        All-update IsSoundTask (task_is id) _ (λ t _ _. assigned-IsSoundTask analyst now t) db.tasks
          s.tasks;
  }
  Write-IsSound {db} (Write.task_stopped id state reason now h k) s = record {
    artifacts = s.artifacts;
    tasks =
        All-update IsSoundTask (task_is id) _ (λ t _ _. stopped-IsSoundTask state reason now t h k)
          db.tasks s.tasks;
  }
  Write-IsSound {db} (Write.task_posted id now) s = record {
    artifacts = s.artifacts;
    tasks =
        All-update IsSoundTask (task_is id) _ (λ t _ _. posted_task-IsSoundTask now t) db.tasks
          s.tasks;
  }
  Write-IsSound {db} (Write.task_planned sprint item now) s = record {
    artifacts = s.artifacts;
    tasks =
        All-insert IsSoundTask _ db.tasks (new_task-IsSoundTask db _ sprint item none now) s.tasks;
  }
  Write-IsSound {db} (Write.task_from sprint item anomaly now _) s = record {
    artifacts = s.artifacts;
    tasks =
        All-insert IsSoundTask _ db.tasks (new_task-IsSoundTask db _ sprint item (some anomaly) now)
          s.tasks;
  }
  Write-IsSound {db} (Write.artifact_stamped id stamper now h _ _) s = record {
    tasks = s.tasks;
    artifacts =
        All-update IsSoundArtifact (artifact_is id) _
          (λ a _ _. stamped_by-IsSoundArtifact stamper now a h) db.artifacts s.artifacts;
  }
  Write-IsSound {db} (Write.artifact_returned id reason h _ _) s = record {
    tasks = s.tasks;
    artifacts =
        All-update IsSoundArtifact (artifact_is id) _
          (λ a _ _. sent_back-IsSoundArtifact reason a h) db.artifacts s.artifacts;
  }
  Write-IsSound {db} (Write.artifact_rewritten sprint owner body {id} _) s = record {
    tasks = s.tasks;
    artifacts =
        All-update IsSoundArtifact (artifact_is id) _ (λ a _ _. rewritten-IsSoundArtifact body a)
          db.artifacts s.artifacts;
  }
  Write-IsSound {db} (Write.artifact_answered id owner now h) s = record {
    tasks = s.tasks;
    artifacts =
        All-update IsSoundArtifact (artifact_is id) _
          (λ a _. answered-IsSoundArtifact owner now a h) db.artifacts s.artifacts;
  }
  Write-IsSound {db} (Write.request_written task sprint owner body lapses now _) s = record {
    tasks = s.tasks;
    artifacts =
        All-insert IsSoundArtifact _ db.artifacts
          (new_request_artifact-IsSoundArtifact _ task owner body now) s.artifacts;
  }
  Write-IsSound (Write.commented c) s = record { tasks = s.tasks; artifacts = s.artifacts }
  Write-IsSound (Write.sprint_planned p) s = record { tasks = s.tasks; artifacts = s.artifacts }
  Write-IsSound (Write.sprint_shut id) s = record { tasks = s.tasks; artifacts = s.artifacts }

  Writes-IsSound : {db after : Db} → Writes fresh db after → IsSound db → IsSound after
  Writes-IsSound nothing s = s
  Writes-IsSound (also ws w) s = Write-IsSound w (Writes-IsSound ws s)

  -- From a sound board, such as the empty one, every board that is reached is sound: a blocked or
  -- returned task and a returned deliverable have a reason that is not blank, a queued task has no
  -- assignee, and a posted deliverable has its stamp, if the clock's reading is never empty.
  pub Board-IsSound :
      (roles : RolesFile) {db after : Db} → Reach fresh roles db after → IsSound db → IsSound after
  Board-IsSound roles here s = s
  Board-IsSound roles (next r st) s =
      Writes-IsSound (Step-Writes fresh roles st) (Board-IsSound roles r s)
