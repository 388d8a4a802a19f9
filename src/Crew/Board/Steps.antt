-- ===== src/Crew/Board/Steps.antt =====
-- The board as a transition system: every operation that changes the tables, from the console, the
-- planner and the supervisor's pass.
use costcrew.Base.{ℕ, ◌≡◌, false, List, Text, is_empty, ok}
use costcrew.Crew.Roles.Defs.{RolesFile}
use costcrew.Crew.Board.Tables.{Db}
use costcrew.Crew.Board.Work.{assign, block, comment}
use costcrew.Crew.Board.Stamp.{post, send_back}
use costcrew.Crew.Board.Sprints.{PlanItem, Plan, from_anomaly, ensure_task, approve, close_sprint}
use costcrew.Crew.Board.Requests.{write_decision_request, post_request_if_complete}

module _ (fresh : List ℕ → ℕ) (roles : RolesFile) where
  pub data Step (db : Db) : Db → Type 0 where
    assigning :
        (id : ℕ) (analyst now : Text) {after : Db}
        → assign id analyst now db ≡ ok after
        → Step db after
    blocking :
        (id : ℕ) (reason now : Text) {after : Db}
        → block id reason now db ≡ ok after
        → Step db after
    commenting :
        (id : ℕ) (author body now : Text) {after : Db}
        → comment id author body now db ≡ ok after
        → Step db after
    posting :
        (id : ℕ) (stamper link now : Text) {after : Db}
        → is_empty now ≡ false
        → post roles id stamper link now db ≡ ok after
        → Step db after
    sending_back :
        (id : ℕ) (reason link now : Text) {after : Db}
        → send_back roles id reason link now db ≡ ok after
        → Step db after
    investigating :
        (anomaly : Text) (item : PlanItem) (now : Text)
        → Step db (from_anomaly fresh anomaly item now db).0
    ensuring :
        (sprint : ℕ) (item : PlanItem) (now : Text)
        → Step db (ensure_task fresh sprint item now db).0
    approving :
        (p : Plan) (link now : Text) {after : Db} {n : ℕ}
        → approve fresh roles p link now db ≡ ok (after, n)
        → Step db after
    closing : (id : ℕ) {after : Db} {n : ℕ} → close_sprint id db ≡ ok (after, n) → Step db after
    requesting :
        (sprint : ℕ) (owner body lapses now : Text)
        → Step db (write_decision_request fresh sprint owner body lapses now db).0
    completing :
        (remaining sprint : ℕ) (owner now : Text)
        → is_empty now ≡ false
        → Step db (post_request_if_complete remaining sprint owner now db)

  pub data Reach (db : Db) : Db → Type 0 where
    here : Reach db db
    next : {mid after : Db} → Reach db mid → Step mid after → Reach db after
