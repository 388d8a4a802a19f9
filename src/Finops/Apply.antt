-- ===== src/Finops/Apply.antt =====
-- internal/finops/apply.go: what applying an option does, by its class, and what becomes of the
-- options that it was chosen over.
use costcrew.Base.{
  ℕ, Bool, true, false, ◌||◌, Option, none, some, List, [], ◌++◌, Text, codes, text_eq,
  if◌then◌else◌, is_empty, trim_space, insert, map, Result, ok, err,
}
use costcrew.Base.Calls.{Call, ◌>>=◌, ◌>>◌, checked, read, write, for_each}
use costcrew.Base.Decimal.{show_nat}
use costcrew.Crew.Board.Tables.{Db, Task}
use costcrew.Crew.Halts.Desk.{Crew, HaltError, apply_halt}
use costcrew.Anomaly.Store.{Anomaly, get}
use costcrew.Anomaly.Store as Anomalies
use costcrew.Anomaly.Transition.{MoveError, explain, accept, dismiss}
use costcrew.Crew.Options.Table.{
  OptionRow, Driver, Answer, option_applied, anomaly_moved, state_changed, Store, StoreError,
  no_desk, no_window, bad_window, anomaly_error, halt_error, task_of_artifact, task_by_id,
}
use costcrew.Crew.Options.Answer.{own_act, validate}
use costcrew.Crew.Options.Marks.{
  tell, mark_option_applied_as, mark_option_not_chosen, live_rivals_of, anomaly_of, anomaly_explain,
}

-- What the classes outside the model do, and encoding/json's reading of a window: its start and end.
pub record Outside (W : Type 0) : Type 0 where
  pub others : OptionRow → Task → Text → Call (Db × List Driver × W) StoreError (Unit {0})
  pub window : Text → Option (Text × Text)

-- decodeDriverTarget, whose `ok` of false is none
unfoldable pub decode_driver_target :
    (Text → Option (Text × Text)) → Text → Result StoreError (Option (Text × Text))
decode_driver_target window raw = if is_empty raw then ok none else (elim (window raw) [
  | none ↦ err bad_window
  | some (start, finish) ↦
      if is_empty (trim_space start) || is_empty (trim_space finish)
      then err bad_window
      else ok (some (start, finish))
])

-- ownerOfOption
unfoldable pub owner_of_option : {F W : Type 0} → OptionRow → Store F W → Result StoreError Text
owner_of_option o s = elim (task_of_artifact o.artifact s) [
  | err e ↦ err e
  | ok id ↦ (elim (task_by_id id s) [
    | err e ↦ err e
    | ok t ↦ ok (if is_empty t.owner then codes "unclaimed" else t.owner)
  ])
]

-- The classes that other packages' tables carry out.
unfoldable pub is_elsewhere : Text → Bool
is_elsewhere c =
    text_eq c (codes "driver.announced")
    || text_eq c (codes "forecast.freeze")
    || text_eq c (codes "period.close")
    || text_eq c (codes "period.reopen")
    || text_eq c (codes "allocation.rule")
    || text_eq c (codes "explainer.publish")

abbrev pub Move : Type 0 → Type 0
Move F = Result MoveError (List (Anomaly F) × Option (Anomalies.Event F))

abbrev driver_row : OptionRow → Text → Text → Text → Text × Text → Driver
driver_row opt kind scope source (start, finish) = record {
  start = start;
  finish = finish;
  scope = scope;
  label = opt.summary;
  kind = kind;
  source = source;
  expected = none;
  team = [];
}

-- The window of a driver that takes it from the option's target.
unfoldable pub target_window :
    (Text → Option (Text × Text)) → OptionRow → Result StoreError (Text × Text)
target_window window opt = elim (decode_driver_target window opt.target) [
  | err e ↦ err e
  | ok none ↦ err no_window
  | ok (some w) ↦ ok w
]

unfoldable pub halt_reason : OptionRow → Text
halt_reason opt =
    let reason = trim_space opt.summary in
    if is_empty reason
    then codes "data.halt applied on option "
      ++ show_nat opt.ordinal
      ++ codes ", no reason given in the deliverable"
    else reason

unfoldable pub not_chosen_reason : OptionRow → Text
not_chosen_reason opt =
    codes "not chosen: option "
    ++ show_nat opt.ordinal
    ++ codes " ("
    ++ opt.class
    ++ codes ") was applied"

abbrev pub losers : List OptionRow → List (ℕ × ℕ × Text)
losers = map (λ riv. (riv.artifact, riv.ordinal, riv.class))

module _ {F W : Type 0} (outside : Outside W) (today now : Text) where
  abbrev pub reported : Option (Anomalies.Event F) → Store F W → Store F W
  reported none s = s
  reported (some e) s = tell (anomaly_moved e) s

  unfoldable pub move_anomaly :
      (Text → Text → Text → List (Anomaly F) → Move F)
      → OptionRow
      → Task
      → Call (Store F W) StoreError (Unit {0})
  move_anomaly move opt t s =
      if is_empty (anomaly_of t)
      then (s, ok tt)
      else (elim (move (anomaly_of t) opt.summary now s.anomalies) [
        | err e ↦ (s, err (anomaly_error e))
        | ok (rows, event) ↦ (reported event (record s { anomalies = rows }), ok tt)
      ])

  -- anomaly.Get, whose error means that the option has no anomaly to take a day from
  unfoldable pub anomaly_row : Task → Store F W → Option (Anomaly F)
  anomaly_row t s = if is_empty (anomaly_of t) then none else get s.anomalies (anomaly_of t)

  abbrev insert_driver : Driver → Store F W → Store F W
  insert_driver d s = record s { drivers = insert d s.drivers }

  unfoldable pub driver_window :
      OptionRow → Bool → Option (Anomaly F) → Result StoreError (Text × Text)
  driver_window opt one_time none = target_window outside.window opt
  driver_window opt one_time (some a) =
      if one_time then ok (a.day, a.day) else target_window outside.window opt

  abbrev scope_of : Option (Anomaly F) → Text
  scope_of none = codes "*"
  scope_of (some a) = a.service

  abbrev pub source_of : Task → Option (Anomaly F) → Text
  source_of t none = t.desk
  source_of t (some a) = a.source

  unfoldable pub apply_driver : OptionRow → Task → Bool → Call (Store F W) StoreError (Unit {0})
  apply_driver opt t one_time s =
      let an = anomaly_row t s in
      if is_empty (source_of t an)
      then (s, err no_desk)
      else (elim (driver_window opt one_time an) [
        | err e ↦ (s, err e)
        | ok w ↦
            let kind = if one_time then codes "one-time" else codes "recurring" in
            (insert_driver (driver_row opt kind (scope_of an) (source_of t an) w) s, ok tt)
      ])

  abbrev pub crew_of : Store F W → Crew
  crew_of s = record { analysts = s.board.analysts; halts = s.halts; events = [] }

  -- The database after crew.ApplyHalt, whose answer is not used.
  abbrev pub after_halt :
      {A : Type 0}
      → Store F W
      → Crew × Result HaltError A
      → Store F W × Result StoreError (Unit {0})
  after_halt s (c, r) = (
    record s {
      board = record s.board { analysts = c.analysts };
      halts = c.halts;
      events = s.events ++ map (λ e. state_changed e) c.events;
    },
    elim r [ ok _ ↦ ok tt | err e ↦ err (halt_error e) ],
  )

  unfoldable pub halt_desk : OptionRow → Text → Call (Store F W) StoreError (Unit {0})
  halt_desk opt actor s =
      if is_empty (trim_space opt.needs) then (s, err no_desk) else (elim (owner_of_option opt s) [
        | err e ↦ (s, err e)
        | ok owner ↦
            after_halt s
              (apply_halt (trim_space opt.needs) (halt_reason opt) actor owner today (crew_of s))
      ])

  abbrev pub after_others :
      Store F W
      → (Db × List Driver × W) × Result StoreError (Unit {0})
      → Store F W × Result StoreError (Unit {0})
  after_others s (t, r) = (record s { board = t.0; drivers = t.1; rest = t.2 }, r)

  unfoldable pub apply_side_effect :
      OptionRow → Task → Text → Call (Store F W) StoreError (Unit {0})
  apply_side_effect opt t actor s =
      if text_eq opt.class anomaly_explain
      then move_anomaly explain opt t s
      else if text_eq opt.class (codes "anomaly.dismiss")
      then move_anomaly dismiss opt t s
      else if text_eq opt.class (codes "anomaly.accept")
      then move_anomaly accept opt t s
      else if text_eq opt.class (codes "driver.one-time")
      then apply_driver opt t true s
      else if text_eq opt.class (codes "driver.recurring")
      then apply_driver opt t false s
      else if text_eq opt.class (codes "data.halt")
      then halt_desk opt actor s
      else if is_elsewhere opt.class
      then after_others s (outside.others opt t actor (s.board, s.drivers, s.rest))
      else (s, ok tt)

  unfoldable pub settle_rivals :
      OptionRow → Text → List OptionRow → Call (Store F W) StoreError (Unit {0})
  settle_rivals opt actor =
      for_each
        (λ riv. mark_option_not_chosen riv.artifact riv.ordinal actor (not_chosen_reason opt) now)

  unfoldable pub apply_as : OptionRow → Answer → Call (Store F W) StoreError (Unit {0})
  apply_as opt ans = do
    checked (λ _. validate ans)
    task ← checked (task_of_artifact opt.artifact)
    t ← checked (task_by_id task)
    apply_side_effect opt t ans.actor
    mark_option_applied_as opt.artifact opt.ordinal ans now
    rivals ← read (live_rivals_of opt)
    settle_rivals opt ans.actor rivals
    write (tell (option_applied opt task (losers rivals) ans))

  abbrev pub apply : OptionRow → Text → Call (Store F W) StoreError (Unit {0})
  apply opt actor = apply_as opt (own_act actor)
