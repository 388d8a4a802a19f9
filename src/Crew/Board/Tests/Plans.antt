-- ===== src/Crew/Board/Tests/Plans.antt =====
-- The board of the tests, with a plan approved, an anomaly investigated and the sprint closed.
use costcrew.Base.{insert, ◌≡◌, refl, false, List, [], ◌∷◌, ◌++◌, codes, ok, pos, length}
use costcrew.Crew.Roles.Table.{roles}
use costcrew.Crew.Board.Tables.{SprintState, Sprint, Task, Db, owner_of}
use costcrew.Crew.Board.Sprints.{
  PlanItem, Plan, approve, close_sprint, sprint_ids, add_items, planned_sprint,
}
use costcrew.Crew.Board.Effects.{Begun, AllPlanned, approve_effect}
use costcrew.Crew.Board.Tests.{next_id, board, week, working}

abbrev items : List PlanItem
items =
    record {
      title = codes "a";
      goal = [];
      assignee = codes "ann";
      desk = codes "aws";
      budget = pos 10;
    }
    ∷ record { title = codes "b"; goal = []; assignee = []; desk = []; budget = pos 20 }
    ∷ []

abbrev plan : Plan
plan = record {
  label = codes "2026-W32";
  start = codes "2026-08-03";
  finish = codes "2026-08-09";
  goal = [];
  items = items;
  existing = false;
}

-- the board that the approved plan leaves
abbrev approved : Db
approved =
    add_items next_id 2 (codes "t") items
      (record board { sprints = week ∷ planned_sprint plan 2 ∷ [] })

approving_runs : approve next_id roles plan (codes "owner") (codes "t") board ≡ ok (approved, 2)
unfolding approve working
approving_runs = refl

approve_effect_example :
    (2 ≡ length plan.items)
    × (s : Sprint) × (approved.sprints ≡ insert s board.sprints)
    × Begun (next_id (sprint_ids board)) plan s
    × (l : List Task) × (approved.tasks ≡ board.tasks ++ l)
    × AllPlanned s.id (owner_of board) plan.items l
approve_effect_example =
    approve_effect next_id roles plan (codes "owner") (codes "t") board approving_runs

abbrev first_item : PlanItem
first_item = record {
  title = codes "a";
  goal = [];
  assignee = codes "ann";
  desk = codes "aws";
  budget = pos 10;
}

abbrev shut_board : Db
shut_board = record board { sprints = record week { state = SprintState.closed_sprint } ∷ [] }

closing_runs : close_sprint 1 board ≡ ok (shut_board, 1)
unfolding close_sprint working
closing_runs = refl
