-- ===== src/Crew/Board/Requests.antt =====
-- The decision requests of internal/crew/decision.go: one deliverable for each owner in each sprint.
-- The last call of PostDecisionRequestIfComplete is here as well, with the number of options still
-- carried as its argument.
use costcrew.Base.{
  ℕ, Bool, ◌&&◌, Option, none, some, List, [], ◌++◌, Text, codes, text_eq, if◌then◌else◌, find, map,
  insert, ◌==◌, pos,
}
use costcrew.Crew.Board.Tables.{draft, posted_draft, Artifact, Request, Db}
use costcrew.Crew.Board.Stamp.{set_artifact, is_posted_draft}
use costcrew.Crew.Board.Sprints.{PlanItem, ensure_task}

abbrev pub request_is : ℕ → Text → Request → Bool
request_is sprint owner r = (r.sprint == sprint) && text_eq r.owner owner

abbrev pub supervisor_item : PlanItem
supervisor_item = record {
  title = codes "Decision requests";
  goal =
      codes
        "Route what this sprint's deliverables handed up: apply what the supervisor's own job description decides, and ask the owner for the rest.";
  assignee = codes "supervisor";
  desk = codes "management";
  budget = pos 0;
}

unfoldable pub ensure_supervisor_task : (List ℕ → ℕ) → ℕ → Text → Db → Db × ℕ
ensure_supervisor_task fresh sprint now db = ensure_task fresh sprint supervisor_item now db

unfoldable pub decision_request_for : Db → ℕ → Text → Option ℕ
decision_request_for db sprint owner = elim (find (request_is sprint owner) db.requests) [
  | none ↦ none
  | some r ↦ some r.artifact
]

unfoldable pub existing_lapses : Db → ℕ → Text → Option Text
existing_lapses db sprint owner = elim (find (request_is sprint owner) db.requests) [
  | none ↦ none
  | some r ↦ some r.lapses
]

unfoldable pub rewritten : Text → Artifact → Artifact
rewritten body a = record a { body = body; state = draft }

unfoldable pub new_request_artifact : ℕ → ℕ → Text → Text → Text → Artifact
new_request_artifact id task owner body now = record {
  id = id;
  task = task;
  author = codes "supervisor";
  title = codes "Decision request for " ++ owner;
  body = body;
  state = draft;
  reason = [];
  created = now;
  stamped = [];
  stamper = [];
}

abbrev pub artifact_ids : Db → List ℕ
artifact_ids db = map (λ a. a.id) db.artifacts

abbrev pub add_request : Artifact → Request → Db → Db
add_request a r db = record db {
  artifacts = insert a db.artifacts;
  requests = insert r db.requests;
}

unfoldable pub write_decision_request : (List ℕ → ℕ) → ℕ → Text → Text → Text → Text → Db → Db × ℕ
write_decision_request fresh sprint owner body lapses now db =
    elim (decision_request_for db sprint owner) [
      | some id ↦ (set_artifact id (rewritten body) db, id)
      | none ↦
          let (opened, task) = ensure_supervisor_task fresh sprint now db in
          let id = fresh (artifact_ids opened) in
          (
            add_request (new_request_artifact id task owner body now)
                (record {
                  artifact = id;
                  sprint = sprint;
                  owner = owner;
                  lapses = lapses;
                  created = now;
                })
                opened,
            id,
          )
    ]

unfoldable pub answered : Text → Text → Artifact → Artifact
answered owner now a =
    if is_posted_draft a.state
    then a
    else record a { state = posted_draft; stamped = now; stamper = owner }

unfoldable pub post_request_if_complete : ℕ → ℕ → Text → Text → Db → Db
post_request_if_complete remaining sprint owner now db =
    if remaining == 0
    then (elim (decision_request_for db sprint owner) [
      | none ↦ db
      | some id ↦ set_artifact id (answered owner now) db
    ])
    else db
