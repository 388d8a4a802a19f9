-- ===== src/Finops/Tests.antt =====
-- A sprint with two posted deliverables: the supervisor decides one of them and carries the other,
-- which its owner answers.
use costcrew.Base.{
  ℕ, ◌≡◌, refl, true, false, Option, none, some, List, [], ◌∷◌, Text, codes, ok, pos, All, map, any,
  select, ◌==◌, Result,
}
use costcrew.Auth.Accounts.{User, operator, rank, may}
use costcrew.Crew.Roles.Defs.{
  threshold_for, mem_text, role_for, class_for, may_decide, class_answer, supervisor_may_select,
  link_named, link_eq, role_answer,
}
use costcrew.Crew.Roles.Table.{roles}
use costcrew.Crew.Halts.Desk.{DeskHalt, sort_texts, put_text}
use costcrew.Crew.Board.Tables.{active, posted_draft, Task, Artifact, get_task, get_artifact}
use costcrew.Crew.Board.Stamp.{is_posted_draft}
use costcrew.Crew.Options.Table.{
  OptionState, opened, carried, applied, not_chosen, OptionRow, Store, StoreError, is_opened,
  is_applied, posted_in, earlier, task_of_artifact, task_by_id, is_live, is_carried,
  open_options_for_sprint, carried_options_for, options_of, get_option, asked_of, option_is,
}
use costcrew.Crew.Options.Block.{RawOption}
use costcrew.Crew.Options.Gate.{Targets, GateReason}
use costcrew.Crew.Options.Choice.{IsChoice, undecided, IsChosen}
use costcrew.Finops.Apply.{
  Outside, apply_as, apply_side_effect, is_elsewhere, settle_rivals, not_chosen_reason,
  owner_of_option,
}
use costcrew.Finops.Routing.{
  Note, contradiction_routing, questions, route_all, route, representatives, lowest, differ,
  send_all, ask, redirect_of, task_of,
}
use costcrew.Finops.Supervise.{
  Rules, recorded_figure, anomaly_of_option, moves_anomaly, judged, agrees, anomaly_threshold,
  may_apply, not_contradicted, analyst_owned, hand_to, handed_to, notes_on, mismatch_note,
  whole_number_threshold,
}
use costcrew.Finops.Pass.{
  Report, supervise, decide_sprint, decide_groups, decide_group, apply_top, carry_group,
  stale_halts, halts_by_owner, owners_of, write_request, lapses_of,
}
use costcrew.Finops.Console.{
  ActionError, addressee, carried_option, may_answer_for, answers_for_other, answer_of, answer_with,
  apply_it, option_action,
}
use costcrew.Finops.Supervised.{supervise_drops_nothing}
use costcrew.Finops.Restraint.{IsWithin, supervise-IsWithin}
use costcrew.Finops.Reach.{here, next, supervising, answering, Reach-IsChoice}
use costcrew.Finops.Ranked.{is_of, IsBestFirst, group_by_artifact-IsBestFirst}
use costcrew.Finops.Stamped.{IsAnswered}
use costcrew.Finops.Rank.{
  rank_options, ranks_before, risk_rank, group_by_artifact, group_from, join_group,
}
use costcrew.Crew.Options.Marks.{
  anomaly_of, mark_option_applied_as, set_option_state_as, set_option_state, marked, live_rivals_of,
  is_alternative, other_causes, mark_option_not_chosen, mark_option_carried,
}
use costcrew.Crew.Options.Answer.{validate, on_behalf, trimmed_reason}
use costcrew.Base.Decimal.{show_nat}
use costcrew.Crew.Board.Requests.{
  post_request_if_complete, existing_lapses, write_decision_request, decision_request_for,
  ensure_supervisor_task, new_request_artifact,
}
use costcrew.Crew.Board.Sprints.{ensure_task}
mod Answers

abbrev pub job : Task
job = record {
  id = 7;
  sprint = 1;
  title = codes "Look";
  goal = [];
  assignee = some (codes "ann");
  desk = codes "aws";
  state = active;
  reason = [];
  budget = pos 100;
  spent = pos 0;
  anomaly = none;
  created = codes "d";
  updated = codes "d";
  owner = codes "olga";
}

abbrev pub report_of : ℕ → Artifact
report_of id = record {
  id = id;
  task = 7;
  author = codes "ann";
  title = [];
  body = [];
  state = posted_draft;
  reason = [];
  created = codes "d";
  stamped = codes "d";
  stamper = codes "olga";
}

abbrev pub row : ℕ → ℕ → Text → ℕ → OptionRow
row artifact ordinal class saving = record {
  artifact = artifact;
  ordinal = ordinal;
  class = class;
  summary = [];
  figure_cents = pos 100;
  saving_cents = pos saving;
  risk = codes "low";
  needs = [];
  evidence = [];
  target = [];
  state = opened;
  decided_by = [];
  decided_at = [];
  reason = [];
  on_behalf_of = [];
  behalf_reason = [];
}

abbrev pub console : Store ℕ ℕ
console = record {
  board = record {
    sprints = [];
    tasks = job ∷ [];
    artifacts = report_of 3 ∷ report_of 4 ∷ [];
    comments = [];
    analysts = [];
    requests = [];
  };
  options =
      row 3 1 (codes "commentary.variance") 5
      ∷ row 3 2 (codes "commentary.variance") 9
      ∷ row 4 1 (codes "budget.set") 0
      ∷ [];
  anomalies = [];
  halts = [];
  drivers = [];
  rest = 0;
  events = [];
}

abbrev pub outside : Outside ℕ
outside = record { others = λ opt t actor s. (s, ok tt); window = λ raw. none }

abbrev rules : Rules
rules = record {
  roles = roles;
  thresholds = record { name = codes "T.anomaly"; value = []; value_cents = pos 250000 } ∷ [];
  today = codes "2026-10-05";
  default_lapses = codes "2026-10-12";
  now = codes "now";
}

abbrev fresh : List ℕ → ℕ
fresh ids = 90

abbrev days : Text → Text → ℕ
days from to = 0

abbrev body : List OptionRow → List (OptionRow × Note) → Text → List DeskHalt → Text
body options notes lapses halts = codes "body"

abbrev passed : Store ℕ ℕ × Result StoreError Report
passed = supervise outside rules fresh days body 1 console

abbrev pub states : Store ℕ ℕ → List (ℕ × ℕ × OptionState)
states s = map (λ o. (o.artifact, o.ordinal, o.state)) s.options

abbrev report : Report
report = record {
  applied = row 3 2 (codes "commentary.variance") 9 ∷ [];
  carried = row 4 1 (codes "budget.set") 0 ∷ [];
  requests = (codes "olga", 1) ∷ [];
  stale_halts = [];
}

pass_returns :
    (supervise outside rules fresh days body 1 console ≡ (passed.0, ok report))
    × (states passed.0 ≡ (3, 1, not_chosen) ∷ (3, 2, applied) ∷ (4, 1, carried) ∷ [])
unfolding supervise decide_sprint contradiction_routing questions route_all route representatives
    lowest differ send_all ask redirect_of task_of task_of_artifact task_by_id get_task get_artifact
    posted_in is_posted_draft is_opened is_live is_carried earlier open_options_for_sprint
    carried_options_for options_of get_option asked_of option_is rank_options ranks_before risk_rank
    group_by_artifact group_from join_group decide_groups decide_group recorded_figure
    anomaly_of_option moves_anomaly anomaly_of judged agrees anomaly_threshold threshold_for
    may_apply not_contradicted analyst_owned supervisor_may_select class_for link_eq role_for
    mem_text may_decide class_answer link_named role_answer apply_top carry_group apply_as
    apply_side_effect is_elsewhere mark_option_applied_as set_option_state_as set_option_state
    marked validate on_behalf trimmed_reason live_rivals_of is_alternative other_causes
    settle_rivals mark_option_not_chosen not_chosen_reason show_nat mark_option_carried
    owner_of_option hand_to handed_to notes_on mismatch_note stale_halts whole_number_threshold
    halts_by_owner owners_of sort_texts put_text write_request lapses_of existing_lapses
    write_decision_request decision_request_for ensure_supervisor_task ensure_task
    new_request_artifact
pass_returns = (refl, refl)

chosen : IsChosen console.options
unfolding is_applied
chosen artifact = undecided ((λ here. refl), ((λ here. refl), ((λ here. refl), tt)))

supervise_drops_nothing_example :
    All
      (λ o. posted_in console.board 1 o.artifact ≡ true → is_opened o.state ≡ false)
      passed.0.options
supervise_drops_nothing_example =
    supervise_drops_nothing outside rules fresh days body 1 console chosen pass_returns.0

supervise-IsWithin_example : All (IsWithin rules) report.applied
supervise-IsWithin_example =
    supervise-IsWithin outside rules fresh days body 1 console pass_returns.0

abbrev pub olga : User
olga = record {
  username = codes "olga";
  hash = [];
  role = operator;
  created = 0;
  last_login = 0;
  failed = 0;
  locked_until = 0;
}

abbrev targets : Targets ℕ ℕ
targets = record {
  allocation_rule = λ raw. none;
  unit_rule = λ s raw. none;
  driver = λ class raw tied. none;
  announced = λ raw. none;
  announced_saving = λ s artifact raw. none;
}

abbrev sentence : GateReason → Text
sentence why = codes "refused"

abbrev decode : Text → Option (List RawOption)
decode raw = none

abbrev ended : Store ℕ ℕ
ended = (option_action outside (codes "t") (codes "n") olga 4 1 apply_it [] passed.0).0

Reach-IsChoice_example : IsChoice 3 ended.options
Reach-IsChoice_example =
    Reach-IsChoice outside fresh days body targets sentence decode
      (next (next here (supervising rules 1))
        (answering (codes "t") (codes "n") olga 4 1 apply_it []))
      chosen 3

group_by_artifact-IsBestFirst_example :
    let groups = group_by_artifact (rank_options console.options) in
    All (λ o. any (λ g. g.0 == o.artifact) groups ≡ true) console.options
    × All
        (λ g.
          (g.1 ≡ select (is_of g.0) (rank_options console.options))
          × IsBestFirst console.options g.0 g.1)
        groups
group_by_artifact-IsBestFirst_example = group_by_artifact-IsBestFirst console.options
