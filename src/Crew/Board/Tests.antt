-- ===== src/Crew/Board/Tests.antt =====
-- A board with one task and one draft, worked on.
mod Plans
use costcrew.Base.{
  ℕ, suc, ◌≡◌, ◌≤◌, refl, false, ◌&&◌, some, List, [], ◌∷◌, ◌++◌, Text, codes, ok, pos, mem_id,
  if◌then◌else◌, ◌==◌, ltb, arith, select, length, find, is_blank, ltb, Bool-cases, inl, inr,
}
use mathlib.Core.Option
use costcrew.Crew.Roles.Defs.{may_decide, class_for, class_answer, link_named, link_eq}
use costcrew.Crew.Roles.Table.{roles}
use costcrew.Crew.Board.Tables.{
  active, posted, draft, posted_draft, active_sprint, SprintState, Task, Artifact, Sprint, Analyst,
  Db, get_task, get_artifact, open_state, owner_of, sprint_is,
}
use costcrew.Crew.Board.Work.{comment}
use costcrew.Crew.Board.Stamp.{is_posted_draft, stamped_by, posted_task, post}
use costcrew.Crew.Board.Sprints.{
  PlanItem, Plan, from_is, from_anomaly, approve, close_sprint, shut, is_closed, still_open,
  sprint_ids, add_items, planned_sprint,
}
use costcrew.Crew.Board.Requests.{existing_lapses, write_decision_request}
use costcrew.Crew.Board.Steps.{Step, here, next}
use costcrew.Crew.Board.Writes.{stops}
use costcrew.Crew.Board.Sound.{IsSound, is_queued, is_returned_draft, Board-IsSound}
use costcrew.Crew.Board.Unique.{IsUnique, Board-IsUnique}
use costcrew.Crew.Board.Settled.{IsStamped, IsStamped-forever}
use costcrew.Crew.Board.Kept.{IsClosed, IsDated, closed_as, lapses_on, kept_forever}
use costcrew.Crew.Board.Effects.{
  Stamped, post_effect, AllPlanned, approve_effect, from_anomaly_again, close_sprint_effect,
}

-- one more than the largest
abbrev top : List ℕ → ℕ
top [] = 0
top (x ∷ l) = let m = top l in if ltb m x then x else m

abbrev pub next_id : List ℕ → ℕ
next_id l = suc (top l)

above : (x : ℕ) (l : List ℕ) → suc (top l) ≤ x → mem_id x l ≡ false
above x [] h = refl
above x (y ∷ l) h = ground (arith, above x l)

next_id-unused : (l : List ℕ) → mem_id (next_id l) l ≡ false
next_id-unused l = above (next_id l) l (omega arith)

abbrev job : Task
job = record {
  id = 1;
  sprint = 1;
  title = codes "Look";
  goal = [];
  assignee = some (codes "ann");
  desk = codes "aws";
  state = active;
  reason = [];
  budget = pos 100;
  spent = pos 0;
  anomaly = some (codes "A-1");
  created = codes "d";
  updated = codes "d";
  owner = codes "olga";
}

abbrev paper : Artifact
paper = record {
  id = 1;
  task = 1;
  author = codes "ann";
  title = codes "Findings";
  body = codes "text";
  state = draft;
  reason = [];
  created = codes "d";
  stamped = [];
  stamper = [];
}

abbrev pub week : Sprint
week = record {
  id = 1;
  label = codes "2026-W31";
  start = codes "2026-07-27";
  finish = codes "2026-08-02";
  state = active_sprint;
  goal = [];
}

abbrev ann : Analyst
ann = record {
  name = codes "ann";
  desk = codes "aws";
  state = codes "active";
  reason = [];
  monthly = pos 5000;
  owner = codes "olga";
}

abbrev pub board : Db
board = record {
  sprints = week ∷ [];
  tasks = job ∷ [];
  artifacts = paper ∷ [];
  comments = [];
  analysts = ann ∷ [];
  requests = [];
}

abbrev signed : Artifact
signed = record paper { state = posted_draft; stamped = codes "t"; stamper = codes "olga" }

abbrev posted_board : Db
posted_board = record board {
  tasks = record job { state = posted; updated = codes "t" } ∷ [];
  artifacts = signed ∷ [];
}

-- What a run of the board's operations computes through.
pub working : Unit {0}
unfolding get_task get_artifact is_posted_draft stamped_by posted_task may_decide class_for
    class_answer link_named link_eq shut is_closed still_open open_state
working = tt

posting_runs : post roles 1 (codes "olga") (codes "owner") (codes "t") board ≡ ok posted_board
unfolding post working
posting_runs = refl

post_effect_example : Stamped 1 (codes "olga") (codes "t") board posted_board
post_effect_example =
    post_effect roles 1 (codes "olga") (codes "owner") (codes "t") board posting_runs

stamp : Step next_id roles board posted_board
stamp = Step.posting 1 (codes "olga") (codes "owner") (codes "t") refl posting_runs

IsSound-board : IsSound board
unfolding stops is_queued is_returned_draft
IsSound-board = record {
  tasks = (record { reasoned = refl; unassigned = refl }, tt);
  artifacts = (record { reasoned = refl; stamped = unfold is_posted_draft in refl }, tt);
}

Board-IsSound_example : IsSound posted_board
Board-IsSound_example = Board-IsSound next_id roles (next here stamp) IsSound-board

one_task : (anomaly : Text) → length (select (from_is anomaly) board.tasks) ≤ 1
one_task anomaly = elim (Bool-cases (from_is anomaly job)) [
  | inl hit ↦ rw hit (omega arith)
  | inr miss ↦ rw miss (omega arith)
]

IsUnique-board : IsUnique board
IsUnique-board = record {
  task_ids = (refl, tt);
  artifact_ids = (refl, tt);
  anomalies = one_task;
  requests = λ sprint owner. omega arith;
}

Board-IsUnique_example : IsUnique posted_board
Board-IsUnique_example =
    Board-IsUnique next_id next_id-unused roles (next here stamp) IsUnique-board

abbrev commented_board : Db
commented_board = record posted_board {
  comments =
      record { task = 1; author = codes "ann"; body = codes "done"; created = codes "t" } ∷ [];
}

note : Step next_id roles posted_board commented_board
unfolding comment get_task is_blank
note = Step.commenting 1 (codes "ann") (codes "done") (codes "t") refl

IsStamped-forever_example : IsStamped commented_board signed
unfolding working
IsStamped-forever_example =
    IsStamped-forever next_id next_id-unused roles (next here note)
      (record { stored = refl; posted = refl; ordinary = refl })

abbrev closed_board : Db
closed_board = record board {
  sprints = record week { state = SprintState.closed_sprint } ∷ [];
  requests =
      record {
        artifact = 1;
        sprint = 1;
        owner = codes "olga";
        lapses = codes "2026-08-09";
        created = codes "d";
      }
      ∷ [];
}

-- the request is written again, with a later date
abbrev asked_again : Db
asked_again =
    (write_decision_request next_id 1 (codes "olga") (codes "b") (codes "2026-09-01") (codes "t")
      closed_board).0

kept_forever_example : IsDated 1 (codes "olga") (codes "2026-08-09") asked_again
unfolding existing_lapses
kept_forever_example =
    kept_forever next_id roles (lapses_on 1 (codes "olga") (codes "2026-08-09"))
      (next here (Step.requesting 1 (codes "olga") (codes "b") (codes "2026-09-01") (codes "t")))
      (record { dated = refl })

asked_again-IsClosed : IsClosed 1 (record week { state = SprintState.closed_sprint }) asked_again
unfolding is_closed
asked_again-IsClosed =
    kept_forever next_id roles (closed_as 1 (record week { state = SprintState.closed_sprint }))
      (next here (Step.requesting 1 (codes "olga") (codes "b") (codes "2026-09-01") (codes "t")))
      (record { stored = refl; closed = refl })
