-- ===== src/Anomaly/Tests.antt =====
-- A small table of anomalies, moved and detected again.
use costcrew.Base.{
  ℕ, ◌≡◌, refl, Option, some, List, [], ◌∷◌, Text, codes, is_blank, ok, pos, All, length,
}
use costcrew.Detect.Series.{Finding, up}
use costcrew.Anomaly.Store.{State, triaged, accepted, closed, Anomaly, get, Event}
use costcrew.Anomaly.Transition.{
  accept, transition, moved, answerable, is_triaged, unless_closed, if_answerable,
}
use costcrew.Anomaly.Detection.{SeriesKey, run, detections}
use costcrew.Anomaly.Decisions.{SameDecision, run-keeps}
use costcrew.Anomaly.Rerun.{run_again}
use costcrew.Anomaly.Lifecycle.{Step, here, next}
use costcrew.Anomaly.Closed.{closed_forever}
use costcrew.Anomaly.Invariant.{IsSound, Reach-IsSound}
use costcrew.Anomaly.Graph.{Edge, Step-Edge}

abbrev row : State → Text → Text → Text → Anomaly ℕ
row state owner reason closed_at = record {
  id = codes "A-1";
  source = codes "aws";
  team = codes "core";
  service = codes "ec2";
  day = codes "2026-08-01";
  direction = codes "up";
  amount = pos 90000;
  baseline = pos 30000;
  excess = pos 60000;
  z = 5;
  rule = codes "z";
  rule_ver = codes "v1";
  driver = [];
  caused_by = codes "core";
  caused_by_kind = codes "team";
  handled_by = owner;
  state = state;
  reason = reason;
  detected_at = codes "d";
  closed_at = closed_at;
}

abbrev key : SeriesKey
key = record { source = codes "aws"; team = codes "core"; service = codes "ec2" }

abbrev spike : Finding ℕ
spike = record {
  day = codes "2026-08-01";
  direction = up;
  amount = pos 95000;
  baseline = pos 30000;
  excess = pos 65000;
  z = 6;
  driver = codes "launch";
  rule = codes "z";
}

abbrev series : List (SeriesKey × List (Finding ℕ))
series = (key, spike ∷ []) ∷ []

abbrev digest : Text → Text
digest s = codes "1"

abbrev no_agent : SeriesKey → Text → Text
no_agent k day = []

abbrev an_agent : SeriesKey → Text → Text
an_agent k day = codes "bot"

abbrev settled : List (Anomaly ℕ)
settled = row accepted (codes "ann") (codes "a launch") (codes "t") ∷ []

abbrev owned : List (Anomaly ℕ)
owned = row triaged (codes "ann") [] [] ∷ []

run-keeps_example :
    (c : Anomaly ℕ) × (get
        (run digest no_agent (codes "p") (codes "s") series settled).rows
        (codes "A-1")
      ≡ some c)
    × SameDecision c (row accepted (codes "ann") (codes "a launch") (codes "t"))
unfolding get
run-keeps_example =
    run-keeps digest no_agent (codes "p") (codes "s") series settled (codes "A-1") refl

run_again_example :
    let first = run digest no_agent (codes "p") (codes "s") series [] in
    let again = run digest an_agent (codes "q") (codes "u") series first.rows in
    (again.added ≡ 0)
    × (again.found ≡ length (detections digest an_agent (codes "u") series))
    × (again.events ≡ [])
run_again_example =
    run_again digest no_agent an_agent (codes "p") (codes "q") (codes "s") (codes "u") series []

-- What a run of a move computes through.
moving : Unit {0}
unfolding transition get moved closed is_triaged unless_closed if_answerable answerable is_blank
moving = tt

abbrev accepted_rows : List (Anomaly ℕ)
accepted_rows = row accepted (codes "ann") (codes "ok") (codes "t") ∷ []

accept_event :
    (event : Option (Event ℕ)) × (accept (codes "A-1") (codes "ok") (codes "t") owned
      ≡ ok (accepted_rows, event))
unfolding accept moving
accept_event = (_, refl)

accepting : Step owned accepted_rows
accepting =
    Step.accepted_by (codes "A-1") (codes "ok") (codes "t") accept_event.0 refl accept_event.1

Step-Edge_example : Edge triaged accepted
unfolding get
Step-Edge_example = Step-Edge (codes "A-1") accepting refl refl

owned-IsSound : All IsSound owned
unfolding closed
owned-IsSound = (record { reasoned = refl; dated = refl }, tt)

Reach-IsSound_example : All IsSound accepted_rows
Reach-IsSound_example = Reach-IsSound (next here accepting) owned-IsSound

closed_forever_example :
    (c : Anomaly ℕ) × (get
        (run digest no_agent (codes "p") (codes "s") series settled).rows
        (codes "A-1")
      ≡ some c)
    × SameDecision c (row accepted (codes "ann") (codes "a launch") (codes "t"))
unfolding get closed
closed_forever_example =
    closed_forever (codes "A-1")
      (next here (Step.detected_by digest no_agent (codes "p") (codes "s") series)) refl refl
