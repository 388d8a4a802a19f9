-- ===== src/Crew/Board/Effects.antt =====
-- What the operations of the board do: to the row that they are about, and to the others.
use mathlib.Core.Option
use costcrew.Base.{
  ℕ, ◌≡◌, refl, ap, sym, subst, ◌∙◌, false, ◌&&◌, none, some, List, [], ◌∷◌, ◌++◌, Text, is_empty,
  text_eq_refl, find, find-update_key, find-update_other, find-insert_new, insert, select, length,
  append_nil, append_assoc, arith, Option-cases, inl, inr, if◌then◌else◌, ◌==◌, ok,
}
use costcrew.Crew.Roles.Defs.{RolesFile}
use costcrew.Crew.Board.Tables.{
  planned, posted, queued, active, posted_draft, Sprint, Task, Artifact, Db, sprint_is, get_task,
  get_artifact, open_state, state_for, owner_of,
}
use costcrew.Crew.Board.Stamp.{stamped_by, posted_task, post}
use costcrew.Crew.Board.Sprints.{
  PlanItem, Plan, task_ids, sprint_ids, new_task, add_task, from_is, current_sprint, from_anomaly,
  add_items, approve, planned_sprint, still_open, shut, close_sprint,
}
use costcrew.Crew.Board.Split.{post-eq-ok, approve-eq-ok, close_sprint-eq-ok}

-- What a stamp leaves: the deliverable posted with its stamp, its task posted, every other
-- deliverable and task as it was.
pub record Stamped (id : ℕ) (stamper now : Text) (db after : Db) : Type 0 where
  pub before : Artifact
  pub known : get_artifact db id ≡ some before
  pub deliverable :
      get_artifact after id
      ≡ some (record before { state = posted_draft; stamped = now; stamper = stamper; reason = [] })
  pub others : (id' : ℕ) → (id' == id) ≡ false → get_artifact after id' ≡ get_artifact db id'
  pub task :
      get_task after before.task
      ≡ Option.map {A = Task} {B = Task}
          (λ t. record t { state = posted; updated = now })
          (get_task db before.task)
  pub other_tasks : (id' : ℕ) → (id' == before.task) ≡ false → get_task after id' ≡ get_task db id'

-- A stamp that succeeds posts the deliverable with the stamp's date and the stamper and without a
-- reason, and posts its task. Every other deliverable and task stays as it was.
pub post_effect :
    (roles : RolesFile) (id : ℕ) (stamper link now : Text) (db : Db) {after : Db}
    → post roles id stamper link now db ≡ ok after
    → Stamped id stamper now db after
unfolding get_task get_artifact stamped_by posted_task
post_effect roles id stamper link now db h =
    let (a, known, _, written) = post-eq-ok roles id stamper link now db h in
    record {
      before = a;
      known = known;
      deliverable = rw written (
          find-update_key (λ x. x.id) id (stamped_by stamper now) (λ x. refl) db.artifacts
          ∙ ap (Option.map (stamped_by stamper now)) known);
      others = λ id' ne. rw written (
          find-update_other (λ x. x.id) id id' (stamped_by stamper now) (λ x. refl) ne
            db.artifacts);
      task = rw written (find-update_key (λ t. t.id) a.task (posted_task now) (λ t. refl) db.tasks);
      other_tasks = λ id' ne.
          rw written
            (find-update_other (λ t. t.id) a.task id' (posted_task now) (λ t. refl) ne db.tasks);
    }

-- The sprint that a plan asks for.
pub record Begun (number : ℕ) (p : Plan) (s : Sprint) : Type 0 where
  pub id : s.id ≡ number
  pub label : s.label ≡ p.label
  pub start : s.start ≡ p.start
  pub finish : s.finish ≡ p.finish
  pub goal : s.goal ≡ p.goal
  pub state : s.state ≡ planned

planned_sprint-Begun : (number : ℕ) (p : Plan) → Begun number p (planned_sprint p number)
unfolding planned_sprint
planned_sprint-Begun number p = record {
  id = refl;
  label = refl;
  start = refl;
  finish = refl;
  goal = refl;
  state = refl;
}

-- The task that a plan's item asks for, where `owner` tells who answers for an analyst.
pub record Planned (number : ℕ) (owner : Text → Text) (item : PlanItem) (t : Task) : Type 0 where
  pub sprint : t.sprint ≡ number
  pub title : t.title ≡ item.title
  pub goal : t.goal ≡ item.goal
  pub budget : t.budget ≡ item.budget
  pub answerable : t.owner ≡ owner item.assignee
  pub state : t.state ≡ (if is_empty item.assignee then queued else active)
  pub anomaly : t.anomaly ≡ none

abbrev pub AllPlanned : ℕ → (Text → Text) → List PlanItem → List Task → Type 0
AllPlanned number owner [] [] = Unit
AllPlanned number owner (item ∷ items) (t ∷ l) =
    Planned number owner item t × AllPlanned number owner items l
AllPlanned number owner [] (_ ∷ _) = ⊥
AllPlanned number owner (_ ∷ _) [] = ⊥

new_task-Planned :
    (db : Db) (id number : ℕ) (item : PlanItem) (now : Text)
    → Planned number (owner_of db) item (new_task db id number item none now)
unfolding new_task state_for
new_task-Planned db id number item now = ground arith

new_task-from :
    (db : Db) (id number : ℕ) (item : PlanItem) (anomaly now : Text)
    → let t = new_task db id number item (some anomaly) now in
      (if from_is anomaly t then some t else none) ≡ some t
unfolding new_task
new_task-from db id number item anomaly now = rw (text_eq_refl anomaly) refl

module _ (fresh : List ℕ → ℕ) where
  add_items-tasks :
      (number : ℕ) (now : Text) (items : List PlanItem) (db : Db)
      → (l : List Task) × ((add_items fresh number now items db).tasks ≡ db.tasks ++ l)
        × AllPlanned number (owner_of db) items l
  unfolding add_items owner_of
  add_items-tasks number now [] db = ([], sym (append_nil db.tasks), tt)
  add_items-tasks number now (item ∷ items) db =
      let t = new_task db (fresh (task_ids db)) number item none now in
      let (l, added, asked) = add_items-tasks number now items (add_task t db) in
      (
        t ∷ l,
        added ∙ append_assoc db.tasks (t ∷ []) l,
        (new_task-Planned db (fresh (task_ids db)) number item now, asked),
      )

  add_items-sprints :
      (number : ℕ) (now : Text) (items : List PlanItem) (db : Db)
      → (add_items fresh number now items db).sprints ≡ db.sprints
  unfolding add_items
  add_items-sprints number now [] db = refl
  add_items-sprints number now (item ∷ items) db =
      add_items-sprints number now items
        (add_task (new_task db (fresh (task_ids db)) number item none now) db)

  -- An approved plan puts its sprint after the sprints on the board: planned, with the plan's label,
  -- dates and goal. It puts one task of that sprint for each of its items, in order, after the tasks
  -- that were there: with the item's title, goal and budget, the owner of its assignee, active if it
  -- has one and queued if not. The count returned is the number of items.
  pub approve_effect :
      (roles : RolesFile) (p : Plan) (link now : Text) (db : Db) {after : Db} {n : ℕ}
      → approve fresh roles p link now db ≡ ok (after, n)
      → (n ≡ length p.items)
        × (s : Sprint) × (after.sprints ≡ insert s db.sprints)
        × Begun (fresh (sprint_ids db)) p s
        × (l : List Task) × (after.tasks ≡ db.tasks ++ l)
        × AllPlanned s.id (owner_of db) p.items l
  approve_effect roles p link now db h =
      let number = fresh (sprint_ids db) in
      let (counted, written) = approve-eq-ok fresh roles p link now db h in
      let (l, added, asked) =
        add_items-tasks number now p.items
          (record db { sprints = insert (planned_sprint p number) db.sprints }) in
      let begun = planned_sprint-Begun number p in
      (
        counted,
        planned_sprint p number,
        rw written (add_items-sprints number now p.items _),
        begun,
        l,
        rw written added,
        subst (λ k. AllPlanned k (owner_of db) p.items l) (sym begun.id) (unfold owner_of in asked),
      )

  from_anomaly_known :
      (anomaly : Text) (item : PlanItem) (now : Text) (db : Db) {t : Task}
      → find (from_is anomaly) db.tasks ≡ some t
      → from_anomaly fresh anomaly item now db ≡ (db, t.id)
  unfolding from_anomaly
  from_anomaly_known anomaly item now db h = rw (from_anomaly, h) refl

  from_anomaly_new :
      (anomaly : Text) (item : PlanItem) (now : Text) (db : Db)
      → find (from_is anomaly) db.tasks ≡ none
      → let t = new_task db (fresh (task_ids db)) (current_sprint db) item (some anomaly) now in
        from_anomaly fresh anomaly item now db ≡ (add_task t db, t.id)
  unfolding from_anomaly
  from_anomaly_new anomaly item now db h = rw (from_anomaly, h) (unfold new_task in refl)

  -- Opening the investigation of an anomaly stores a task for it, and the id given back is that
  -- task's. Opening it again, whatever is asked for then, changes nothing and gives back the same id.
  pub from_anomaly_again :
      (anomaly : Text) (item item' : PlanItem) (now now' : Text) (db : Db)
      → let first = from_anomaly fresh anomaly item now db in
        (from_anomaly fresh anomaly item' now' first.0 ≡ first)
        × (t : Task) × (find (from_is anomaly) first.0.tasks ≡ some t)
        × (t.id ≡ first.1)
  from_anomaly_again anomaly item item' now now' db =
      elim (Option-cases (find (from_is anomaly) db.tasks)) [
        | inl new ↦
            let t = new_task db (fresh (task_ids db)) (current_sprint db) item (some anomaly) now in
            let stored : find (from_is anomaly) (insert t db.tasks) ≡ some t =
              find-insert_new (from_is anomaly) t db.tasks new
              ∙ new_task-from db _ _ item anomaly now in
            rw (from_anomaly_new anomaly item now db new)
              (from_anomaly_known anomaly item' now' (add_task t db) stored, t, stored, refl)
        | inr (t, known) ↦
            rw (from_anomaly_known anomaly item now db known)
              (from_anomaly_known anomaly item' now' db known, t, known, refl)
      ]

-- Closing a sprint that is on the board leaves every task as it is, and tells how many of the
-- sprint's tasks are open.
pub close_sprint_effect :
    (id : ℕ) (db : Db) {after : Db} {n : ℕ}
    → close_sprint id db ≡ ok (after, n)
    → (after.tasks ≡ db.tasks)
      × (n ≡ length (select (λ t. (t.sprint == id) && open_state t.state) after.tasks))
      × (find (sprint_is id) after.sprints ≡ Option.map shut (find (sprint_is id) db.sprints))
unfolding still_open
close_sprint_effect id db h =
    let (counted, written) = close_sprint-eq-ok id db h in
    (
      rw written refl,
      rw written counted,
      rw written (find-update_key (λ s. s.id) id shut (λ s. unfold shut in refl) db.sprints),
    )
