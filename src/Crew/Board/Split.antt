-- ===== src/Crew/Board/Split.antt =====
-- Every operation of the board is a sequence of single statements.
use costcrew.Base.{
  ℕ, ◌≡◌, refl, false, none, some, List, Text, is_empty, is_blank, find, update, insert, ok, arith,
  Option-cases, Bool-cases, inl, inr, ◌==◌, length,
}
use costcrew.Crew.Roles.Defs.{RolesFile}
use costcrew.Crew.Board.Tables.{blocked, returned, Db, sprint_is, get_task, get_artifact, Artifact}
use costcrew.Crew.Board.Work.{set_task, assigned, stopped, assign, block, comment}
use costcrew.Crew.Board.Stamp.{
  is_posted_draft, set_artifact, stamped_by, sent_back, posted_task, post, send_back,
}
use costcrew.Crew.Board.Sprints.{
  Plan, sprint_ids, add_items, planned_sprint, approve, shut, close_sprint, still_open, ensure_task,
}
use costcrew.Crew.Board.Requests.{
  request_is, ensure_supervisor_task, supervisor_item, decision_request_for, write_decision_request,
  post_request_if_complete,
}
use costcrew.Crew.Board.Steps.{Step}
use costcrew.Crew.Board.Writes.{
  stops, Write, Writes, nothing, also, Writes-one, Writes-two, Writes-trans, ensure_task-Writes,
  from_anomaly-Writes, add_items-Writes,
}

-- What each operation did when it succeeded.
pub assign-eq-ok :
    (id : ℕ) (analyst now : Text) (db : Db) {after : Db}
    → assign id analyst now db ≡ ok after
    → after ≡ set_task id (assigned analyst now) db
unfolding assign
assign-eq-ok id analyst now db h = elim (Option-cases (get_task db id)) [
  | inl unknown ↦ ground arith
  | inr (t, known) ↦ ground arith
]

pub block-eq-ok :
    (id : ℕ) (reason now : Text) (db : Db) {after : Db}
    → block id reason now db ≡ ok after
    → (is_blank reason ≡ false) × (after ≡ set_task id (stopped blocked reason now) db)
unfolding block
block-eq-ok id reason now db h = ground (arith, Option-cases (get_task db id))

pub comment-eq-ok :
    (id : ℕ) (author body now : Text) (db : Db) {after : Db}
    → comment id author body now db ≡ ok after
    → after ≡ record db {
      comments =
          insert (record { task = id; author = author; body = body; created = now }) db.comments;
    }
unfolding comment
comment-eq-ok id author body now db h = ground (arith, Option-cases (get_task db id))

pub post-eq-ok :
    (roles : RolesFile) (id : ℕ) (stamper link now : Text) (db : Db) {after : Db}
    → post roles id stamper link now db ≡ ok after
    → (a : Artifact) × (get_artifact db id ≡ some a)
      × (is_posted_draft a.state ≡ false)
      × (after ≡ set_task a.task (posted_task now) (set_artifact id (stamped_by stamper now) db))
unfolding post
post-eq-ok roles id stamper link now db h = elim (Option-cases (get_artifact db id)) [
  | inl unknown ↦ ground arith
  | inr (a, known) ↦ (a, known, ground arith, ground arith)
]

pub send_back-eq-ok :
    (roles : RolesFile) (id : ℕ) (reason link now : Text) (db : Db) {after : Db}
    → send_back roles id reason link now db ≡ ok after
    → (a : Artifact) × (get_artifact db id ≡ some a)
      × (is_posted_draft a.state ≡ false)
      × (is_blank reason ≡ false)
      × (after
          ≡ set_task a.task (stopped returned reason now) (set_artifact id (sent_back reason) db))
unfolding send_back
send_back-eq-ok roles id reason link now db h = elim (Option-cases (get_artifact db id)) [
  | inl unknown ↦ ground arith
  | inr (a, known) ↦ (a, known, ground arith, ground arith, ground arith)
]

module _ (fresh : List ℕ → ℕ) where
  pub approve-eq-ok :
      (roles : RolesFile) (p : Plan) (link now : Text) (db : Db) {after : Db} {n : ℕ}
      → approve fresh roles p link now db ≡ ok (after, n)
      → (n ≡ length p.items)
        × (after
            ≡ add_items fresh (fresh (sprint_ids db)) now p.items (record db {
              sprints = insert (planned_sprint p (fresh (sprint_ids db))) db.sprints;
            }))
  unfolding approve
  approve-eq-ok roles p link now db h = ground arith

pub close_sprint-eq-ok :
    (id : ℕ) (db : Db) {after : Db} {n : ℕ}
    → close_sprint id db ≡ ok (after, n)
    → (n ≡ still_open id db)
      × (after ≡ record db { sprints = update (sprint_is id) shut db.sprints })
unfolding close_sprint
close_sprint-eq-ok id db h = ground (arith, Option-cases (find (sprint_is id) db.sprints))

decision_request_for-eq-none :
    (db : Db) (sprint : ℕ) (owner : Text)
    → decision_request_for db sprint owner ≡ none
    → find (request_is sprint owner) db.requests ≡ none
unfolding decision_request_for
decision_request_for-eq-none db sprint owner h =
    ground (arith, Option-cases (find (request_is sprint owner) db.requests))

module _ (fresh : List ℕ → ℕ) (roles : RolesFile) where
  ensure_supervisor_task-requests :
      (sprint : ℕ) (now : Text) (db : Db)
      → (ensure_supervisor_task fresh sprint now db).0.requests ≡ db.requests
  unfolding ensure_supervisor_task ensure_task
  ensure_supervisor_task-requests sprint now db = ground arith

  ensure_supervisor_task-Writes :
      (sprint : ℕ) (now : Text) (db : Db)
      → Writes fresh db (ensure_supervisor_task fresh sprint now db).0
  unfolding ensure_supervisor_task
  ensure_supervisor_task-Writes sprint now db =
      ensure_task-Writes fresh sprint supervisor_item now db

  write_decision_request-Writes :
      (sprint : ℕ) (owner body lapses now : Text) (db : Db)
      → Writes fresh db (write_decision_request fresh sprint owner body lapses now db).0
  unfolding write_decision_request
  write_decision_request-Writes sprint owner body lapses now db =
      elim (Option-cases (decision_request_for db sprint owner)) [
        | inl new ↦
            rw (write_decision_request, new)
              (also (ensure_supervisor_task-Writes sprint now db) (
                Write.request_written _ sprint owner body lapses now (
                  rw (ensure_supervisor_task-requests sprint now db)
                    (decision_request_for-eq-none db sprint owner new))))
        | inr (id, known) ↦
            rw (write_decision_request, known)
              (Writes-one fresh (Write.artifact_rewritten sprint owner body known))
      ]

  post_request-Writes :
      (remaining sprint : ℕ) (owner now : Text) (db : Db)
      → is_empty now ≡ false
      → Writes fresh db (post_request_if_complete remaining sprint owner now db)
  unfolding post_request_if_complete
  post_request-Writes remaining sprint owner now db t = elim (Bool-cases (remaining == 0)) [
    | inr carried ↦ rw carried nothing
    | inl complete ↦ rw complete (elim (Option-cases (decision_request_for db sprint owner)) [
      | inl unknown ↦ rw unknown nothing
      | inr (id, known) ↦ rw known (Writes-one fresh (Write.artifact_answered id owner now t))
    ])
  ]

  -- Every step of the board executes a sequence of single statements, each in its own condition.
  pub Step-Writes : {db after : Db} → Step fresh roles db after → Writes fresh db after
  Step-Writes {db} (Step.assigning id analyst now h) =
      rw (assign-eq-ok id analyst now db h) (Writes-one fresh (Write.task_assigned id analyst now))
  Step-Writes {db} (Step.blocking id reason now h) =
      let (given, written) = block-eq-ok id reason now db h in
      rw written
        (Writes-one fresh (Write.task_stopped id blocked reason now (unfold stops in refl) given))
  Step-Writes {db} (Step.commenting id author body now h) =
      rw (comment-eq-ok id author body now db h) (Writes-one fresh (Write.commented _))
  Step-Writes {db} (Step.posting id stamper link now t h) =
      let (a, known, drafted, written) = post-eq-ok roles id stamper link now db h in
      rw written (
        Writes-two fresh (Write.artifact_stamped id stamper now t known drafted)
          (Write.task_posted a.task now))
  Step-Writes {db} (Step.sending_back id reason link now h) =
      let (a, known, drafted, given, written) = send_back-eq-ok roles id reason link now db h in
      rw written (
        Writes-two fresh (Write.artifact_returned id reason given known drafted)
          (Write.task_stopped a.task returned reason now (unfold stops in refl) given))
  Step-Writes {db} (Step.investigating anomaly item now) =
      from_anomaly-Writes fresh anomaly item now db
  Step-Writes {db} (Step.ensuring sprint item now) = ensure_task-Writes fresh sprint item now db
  Step-Writes {db} (Step.approving p link now h) =
      let (_, written) = approve-eq-ok fresh roles p link now db h in
      rw written (
        Writes-trans fresh (Writes-one fresh (Write.sprint_planned p))
          (add_items-Writes fresh (fresh (sprint_ids db)) now p.items _))
  Step-Writes {db} (Step.closing id h) =
      let (_, written) = close_sprint-eq-ok id db h in
      rw written (Writes-one fresh (Write.sprint_shut id))
  Step-Writes {db} (Step.requesting sprint owner body lapses now) =
      write_decision_request-Writes sprint owner body lapses now db
  Step-Writes {db} (Step.completing remaining sprint owner now t) =
      post_request-Writes remaining sprint owner now db t
