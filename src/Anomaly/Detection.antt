-- ===== src/Anomaly/Detection.antt =====
-- Run and upsert: a detection pass reconciled with what is stored. What the detector found in each
-- series, its attribution and the digest of an id (SHA-256) are arguments.
use costcrew.Base.{
  ℕ, ◌+◌, Bool, true, false, none, some, List, [], ◌∷◌, ◌++◌, Text, codes, if◌then◌else◌, is_empty,
  map, join, update, insert,
}
use costcrew.Detect.Series.{Finding, direction_name}
use costcrew.Anomaly.Store.{opened, Anomaly, has_id, get, Event, emit}

-- estate.SeriesKey
pub record SeriesKey : Type 0 where
  pub source : Text
  pub team : Text
  pub service : Text

abbrev pub rule_version : Text
rule_version = codes "v1"

-- `digest` is the hexadecimal text of the first six bytes of a SHA-256.
unfoldable pub anomaly_id : (Text → Text) → Text → Text → Text → Text → Text → Text
anomaly_id digest source team service day version =
    codes "A-" ++ digest (join (0 ∷ []) (source ∷ team ∷ service ∷ day ∷ version ∷ []))

-- The finest grain that is proven: the agent that estate.AgentFor names, else the team.
unfoldable pub attribute : Text → SeriesKey → Text × Text
attribute agent k =
    if is_empty agent
    then (if is_empty k.team then ([], codes "unknown") else (k.team, codes "team"))
    else (agent, codes "agent")

-- What a pass has done so far: the table, `found`, `added` and the events.
pub record Pass (F : Type 0) : Type 0 where
  pub rows : List (Anomaly F)
  pub found : ℕ
  pub added : ℕ
  pub events : List (Event F)

module _ {F : Type 0} where
  -- The row as it is inserted: open, with no owner, no reason and no closing date.
  unfoldable pub fresh : Anomaly F → Anomaly F
  fresh a = record a { state = opened; handled_by = []; reason = []; closed_at = [] }

  -- The measurements of a later run on a row that is known.
  unfoldable pub refreshed : Anomaly F → Anomaly F → Anomaly F
  refreshed a old = record old {
    amount = a.amount;
    baseline = a.baseline;
    excess = a.excess;
    z = a.z;
    driver = a.driver;
  }

  unfoldable pub upsert : Anomaly F → List (Anomaly F) → Bool × List (Anomaly F)
  upsert a rows = elim (get rows a.id) [
    | none ↦ (true, insert (fresh a) rows)
    | some _ ↦ (false, update (has_id a.id) (refreshed a) rows)
  ]

  -- The anomaly that a finding of a series stands for.
  unfoldable pub detected :
      (Text → Text) → (SeriesKey → Text → Text) → Text → SeriesKey → Finding F → Anomaly F
  detected digest agent_for stamp k f =
      let (caused_by, caused_by_kind) = attribute (agent_for k f.day) k in
      record {
        id = anomaly_id digest k.source k.team k.service f.day rule_version;
        source = k.source;
        team = k.team;
        service = k.service;
        day = f.day;
        direction = direction_name f.direction;
        amount = f.amount;
        baseline = f.baseline;
        excess = f.excess;
        z = f.z;
        rule = f.rule;
        rule_ver = rule_version;
        driver = f.driver;
        caused_by = caused_by;
        caused_by_kind = caused_by_kind;
        handled_by = [];
        state = opened;
        reason = [];
        detected_at = stamp;
        closed_at = [];
      }

  -- One finding of the inner loop.
  unfoldable pub reconcile : Text → Anomaly F → Pass F → Pass F
  reconcile pass a p =
      let (is_new, rows) = upsert a p.rows in
      if is_new
      then record {
        rows = rows;
        found = p.found + 1;
        added = p.added + 1;
        events = p.events ++ emit (codes "anomaly_detected") [] a ((codes "pass", pass) ∷ []) ∷ [];
      }
      else record { rows = rows; found = p.found + 1; added = p.added; events = p.events }

  unfoldable pub reconcile_all : Text → List (Anomaly F) → Pass F → Pass F
  reconcile_all pass [] p = p
  reconcile_all pass (a ∷ as') p = reconcile_all pass as' (reconcile pass a p)

  -- The anomalies of every series, in the order of the two loops.
  unfoldable pub detections :
      (Text → Text)
      → (SeriesKey → Text → Text)
      → Text
      → List (SeriesKey × List (Finding F))
      → List (Anomaly F)
  detections digest agent_for stamp [] = []
  detections digest agent_for stamp ((k, fs) ∷ series) =
      map (detected digest agent_for stamp k) fs ++ detections digest agent_for stamp series

  -- A pass before its first finding.
  abbrev pub start : List (Anomaly F) → Pass F
  start rows = record { rows = rows; found = 0; added = 0; events = [] }

  -- Run, where every query succeeds. `pass` names the run, `stamp` is its time.
  unfoldable pub run :
      (Text → Text)
      → (SeriesKey → Text → Text)
      → Text
      → Text
      → List (SeriesKey × List (Finding F))
      → List (Anomaly F)
      → Pass F
  run digest agent_for pass stamp series rows =
      reconcile_all pass (detections digest agent_for stamp series) (start rows)
