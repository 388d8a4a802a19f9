-- ===== src/Crew/Options/Tests.antt =====
-- A deliverable with two blocks, and the gate at work on the first.
use costcrew.Base.{
  ℕ, ◌≡◌, refl, Option, none, some, List, [], ◌∷◌, ◌++◌, Text, codes, text_eq, if◌then◌else◌,
}
use costcrew.Crew.Roles.Table.{roles}
use costcrew.Crew.Options.Table.{Store}
use costcrew.Crew.Options.Fence.{ticks, options_fence, options_fence-first}
use costcrew.Crew.Options.Block.{RawOption}
use costcrew.Crew.Options.Gate.{Targets, GateReason, validate_and_save_options}
use costcrew.Crew.Options.Saved.{Gated, gate-Gated}

abbrev empty : Store ℕ ℕ
empty = record {
  board = record {
    sprints = [];
    tasks = [];
    artifacts = [];
    comments = [];
    analysts = [];
    requests = [];
  };
  options = [];
  anomalies = [];
  halts = [];
  drivers = [];
  rest = 0;
  events = [];
}

abbrev targets : Targets ℕ ℕ
targets = record {
  allocation_rule = λ raw. none;
  unit_rule = λ s raw. none;
  driver = λ class raw tied. none;
  announced = λ raw. none;
  announced_saving = λ s artifact raw. none;
}

abbrev sentence : GateReason → Text
sentence why = codes "refused"

abbrev raw : RawOption
raw = record {
  class = codes "anomaly.explain";
  summary = codes "a backfill";
  figure_cents = codes "100";
  saving_cents = [];
  risk = codes "low";
  needs = [];
  evidence = [];
  target = [];
}

abbrev decode : Text → Option (List RawOption)
decode block = if text_eq block (codes "one") then some (raw ∷ []) else none

abbrev two_blocks : Text
two_blocks = codes "```options\n" ++ codes "one" ++ ticks ++ codes " and ```options\ntwo```"

options_fence-first_example : options_fence two_blocks ≡ some (codes "one")
options_fence-first_example =
    options_fence-first (codes "one") (codes " and ```options\ntwo```") (refl, (refl, (refl, tt)))

gate-Gated_example : Gated roles targets (codes "investigator") 3 [] (
    validate_and_save_options roles targets sentence decode 3
      (codes "investigator")
      two_blocks
      empty)
gate-Gated_example =
    gate-Gated roles targets sentence decode 3 (codes "investigator") two_blocks empty
