-- ===== src/Crew/Board/Unique.antt =====
-- The ids of the board's rows are distinct, an anomaly has one task and an owner has one decision
-- request in a sprint, if the database gives a new row an id that is not in use.
use costcrew.Base.{
  ℕ, ◌≤◌, ◌≡◌, refl, true, false, none, some, List, Text, find, select, length, Distinct,
  Distinct-insert, mem_id, map-update, map-insert, select-insert_once, length-select-update, arith,
  text_eq_iff, ==_iff, subst,
}
use costcrew.Crew.Roles.Defs.{RolesFile}
use costcrew.Crew.Board.Tables.{Task, Artifact, Request, Db, task_is, artifact_is}
use costcrew.Crew.Board.Work.{set_task, assigned, stopped}
use costcrew.Crew.Board.Stamp.{set_artifact, stamped_by, sent_back, posted_task}
use costcrew.Crew.Board.Sprints.{task_ids, new_task, add_task, from_is}
use costcrew.Crew.Board.Requests.{
  request_is, rewritten, new_request_artifact, artifact_ids, add_request, answered,
}
use costcrew.Crew.Board.Steps.{Reach, here, next}
use costcrew.Crew.Board.Writes.{Write, Writes, nothing, also}
use costcrew.Crew.Board.Split.{Step-Writes}

pub record IsUnique (db : Db) : Type 0 where
  pub task_ids : Distinct (task_ids db)
  pub artifact_ids : Distinct (artifact_ids db)
  pub anomalies : (anomaly : Text) → length (select (from_is anomaly) db.tasks) ≤ 1
  pub requests :
      (sprint : ℕ) (owner : Text) → length (select (request_is sprint owner) db.requests) ≤ 1

request_once :
    (r : Request) (sprint : ℕ) (owner : Text) (requests : List Request)
    → find (request_is r.sprint r.owner) requests ≡ none
    → request_is sprint owner r ≡ true
    → find (request_is sprint owner) requests ≡ none
request_once r sprint owner requests none_yet h =
    let sprints : r.sprint ≡ sprint = ground (arith, ==_iff r.sprint sprint) in
    let owners : r.owner ≡ owner = (text_eq_iff r.owner owner).0 (ground arith) in
    rw (← sprints, ← owners) none_yet

module _ (fresh : List ℕ → ℕ) (unused : (l : List ℕ) → mem_id (fresh l) l ≡ false) where
  -- a change of a task that leaves its id and its anomaly
  tasks-IsUnique :
      (id : ℕ) (f : Task → Task) {db : Db}
      → ((t : Task) → (f t).id ≡ t.id)
      → ((t : Task) → (f t).anomaly ≡ t.anomaly)
      → IsUnique db
      → IsUnique (set_task id f db)
  tasks-IsUnique id f {db} same_id same_anomaly u = record {
    task_ids = rw (map-update (λ t. t.id) (task_is id) f same_id db.tasks) u.task_ids;
    artifact_ids = u.artifact_ids;
    anomalies = λ anomaly.
        rw
          (length-select-update (from_is anomaly) (task_is id) f (λ t. rw (same_anomaly t) refl)
            db.tasks)
          (u.anomalies anomaly);
    requests = u.requests;
  }

  artifacts-IsUnique :
      (id : ℕ) (f : Artifact → Artifact) {db : Db}
      → ((a : Artifact) → (f a).id ≡ a.id)
      → IsUnique db
      → IsUnique (set_artifact id f db)
  artifacts-IsUnique id f {db} same_id u = record {
    task_ids = u.task_ids;
    artifact_ids =
        rw (map-update (λ a. a.id) (artifact_is id) f same_id db.artifacts) u.artifact_ids;
    anomalies = u.anomalies;
    requests = u.requests;
  }

  add_task-IsUnique :
      (t : Task) {db : Db}
      → t.id ≡ fresh (task_ids db)
      → ((anomaly : Text) → from_is anomaly t ≡ true → find (from_is anomaly) db.tasks ≡ none)
      → IsUnique db
      → IsUnique (add_task t db)
  add_task-IsUnique t {db} new once u = record {
    task_ids =
        rw (map-insert (λ t. t.id) t db.tasks, new)
          (Distinct-insert (fresh (task_ids db)) (task_ids db) (unused _) u.task_ids);
    artifact_ids = u.artifact_ids;
    anomalies = λ anomaly.
        select-insert_once (from_is anomaly) t db.tasks (once anomaly) (u.anomalies anomaly);
    requests = u.requests;
  }

  add_request-IsUnique :
      (a : Artifact) (r : Request) {db : Db}
      → a.id ≡ fresh (artifact_ids db)
      → find (request_is r.sprint r.owner) db.requests ≡ none
      → IsUnique db
      → IsUnique (add_request a r db)
  add_request-IsUnique a r {db} new once u = record {
    task_ids = u.task_ids;
    artifact_ids =
        rw (map-insert (λ a. a.id) a db.artifacts, new)
          (Distinct-insert (fresh (artifact_ids db)) (artifact_ids db) (unused _) u.artifact_ids);
    anomalies = u.anomalies;
    requests = λ sprint owner.
        select-insert_once (request_is sprint owner) r db.requests
          (request_once r sprint owner db.requests once) (u.requests sprint owner);
  }

  Write-IsUnique : {db after : Db} → Write fresh db after → IsUnique db → IsUnique after
  unfolding assigned stopped posted_task stamped_by sent_back rewritten answered new_task
      new_request_artifact
  Write-IsUnique (Write.task_assigned id analyst now) u =
      tasks-IsUnique id (assigned analyst now) (λ t. refl) (λ t. refl) u
  Write-IsUnique (Write.task_stopped id state reason now _ _) u =
      tasks-IsUnique id (stopped state reason now) (λ t. refl) (λ t. refl) u
  Write-IsUnique (Write.task_posted id now) u =
      tasks-IsUnique id (posted_task now) (λ t. refl) (λ t. refl) u
  Write-IsUnique {db} (Write.task_planned sprint item now) u =
      add_task-IsUnique (new_task db _ sprint item none now) refl (λ anomaly h. cc) u
  Write-IsUnique {db} (Write.task_from sprint item anomaly now new) u =
      add_task-IsUnique (new_task db _ sprint item (some anomaly) now) refl
        (λ other h.
          subst (λ x. find (from_is x) db.tasks ≡ none) ((text_eq_iff anomaly other).0 h) new)
        u
  Write-IsUnique (Write.artifact_stamped id stamper now _ _ _) u =
      artifacts-IsUnique id (stamped_by stamper now) (λ a. refl) u
  Write-IsUnique (Write.artifact_returned id reason _ _ _) u =
      artifacts-IsUnique id (sent_back reason) (λ a. refl) u
  Write-IsUnique (Write.artifact_rewritten sprint owner body {id} _) u =
      artifacts-IsUnique id (rewritten body) (λ a. refl) u
  Write-IsUnique (Write.artifact_answered id owner now _) u =
      artifacts-IsUnique id (answered owner now) (λ a. ground arith) u
  Write-IsUnique (Write.request_written task sprint owner body lapses now new) u =
      add_request-IsUnique (new_request_artifact _ task owner body now) _ refl new u
  Write-IsUnique (Write.commented c) u = record {
    task_ids = u.task_ids;
    artifact_ids = u.artifact_ids;
    anomalies = u.anomalies;
    requests = u.requests;
  }
  Write-IsUnique (Write.sprint_planned p) u = record {
    task_ids = u.task_ids;
    artifact_ids = u.artifact_ids;
    anomalies = u.anomalies;
    requests = u.requests;
  }
  Write-IsUnique (Write.sprint_shut id) u = record {
    task_ids = u.task_ids;
    artifact_ids = u.artifact_ids;
    anomalies = u.anomalies;
    requests = u.requests;
  }

  Writes-IsUnique : {db after : Db} → Writes fresh db after → IsUnique db → IsUnique after
  Writes-IsUnique nothing u = u
  Writes-IsUnique (also ws w) u = Write-IsUnique w (Writes-IsUnique ws u)

  -- From a board where they hold, such as the empty one, every board that is reached has distinct
  -- task ids and distinct deliverable ids, at most one task for an anomaly and at most one decision
  -- request for an owner in a sprint, if the database gives a new row an id that is not in use.
  pub Board-IsUnique :
      (roles : RolesFile) {db after : Db}
      → Reach fresh roles db after
      → IsUnique db
      → IsUnique after
  Board-IsUnique roles here u = u
  Board-IsUnique roles (next r st) u =
      Writes-IsUnique (Step-Writes fresh roles st) (Board-IsUnique roles r u)
