-- ===== src/Crew/Options/Table.antt =====
-- The rows of artifact_options, and the tables that the operations on them read and write. `F` is
-- the type of an anomaly's z score; `W` stands for the tables that only the applied classes outside
-- the model write.
use costcrew.Base.{
  ℕ, Bool, true, false, ◌&&◌, ◌||◌, ltb, sort, Option, none, some, List, Text, text_eq, find,
  select, ◌==◌, Result, ok, err,
}
use costcrew.Money.Amount.{Cents}
use costcrew.Crew.Board.Tables.{Db, Task, get_task, get_artifact}
use costcrew.Crew.Board.Stamp.{is_posted_draft}
use costcrew.Crew.Halts.Desk.{DeskHalt, StateEvent, HaltError}
use costcrew.Anomaly.Store.{Anomaly}
use costcrew.Anomaly.Store as Anomalies
use costcrew.Anomaly.Transition.{MoveError}

-- `opened` is "open".
pub data OptionState : Type 0 where
  opened carried applied refused not_chosen : OptionState

unfoldable pub is_opened : OptionState → Bool
is_opened opened = true
is_opened _ = false

unfoldable pub is_carried : OptionState → Bool
is_carried carried = true
is_carried _ = false

unfoldable pub is_applied : OptionState → Bool
is_applied applied = true
is_applied _ = false

-- o.State == OptionOpen || o.State == OptionCarried
unfoldable pub is_live : OptionState → Bool
is_live opened = true
is_live carried = true
is_live _ = false

pub record OptionRow : Type 0 where
  pub artifact : ℕ
  pub ordinal : ℕ
  pub class : Text
  pub summary : Text
  pub figure_cents : Cents
  pub saving_cents : Cents
  pub risk : Text
  pub needs : Text
  pub evidence : List Text
  pub target : Text
  pub state : OptionState
  pub decided_by : Text
  pub decided_at : Text
  pub reason : Text
  pub on_behalf_of : Text
  pub behalf_reason : Text

-- world.Driver, a row of drivers; `none` is a NULL amount.
pub record Driver : Type 0 where
  pub start : Text
  pub finish : Text
  pub scope : Text
  pub label : Text
  pub kind : Text
  pub source : Text
  pub expected : Option Cents
  pub team : Text

pub data AnsweredAs : Type 0 where
  as_nobody as_owner as_admin_for_owner : AnsweredAs

-- One stamp on an option: who, as what, for whom and why.
pub record Answer : Type 0 where
  pub actor : Text
  pub given_as : AnsweredAs
  pub on_behalf_of : Text
  pub reason : Text

-- What the recorder is told. Of an option that lost, its deliverable, its ordinal and its class.
pub data Event (F : Type 0) : Type 0 where
  option_applied : OptionRow → ℕ → List (ℕ × ℕ × Text) → Answer → Event F
  option_refused : OptionRow → Text → Answer → Event F
  block_refused : Text → ℕ → Text → Event F
  decision_requested : ℕ → Text → ℕ → Text → Event F
  anomaly_moved : Anomalies.Event F → Event F
  state_changed : StateEvent → Event F

pub record Store (F W : Type 0) : Type 0 where
  pub board : Db
  pub options : List OptionRow
  pub anomalies : List (Anomaly F)
  pub halts : List DeskHalt
  pub drivers : List Driver
  pub rest : W
  pub events : List (Event F)

pub data StoreError : Type 0 where
  not_found need_reason need_behalf_reason : StoreError
  reason_for_nobody wrong_mark bad_behalf_reason : StoreError
  stored_twice : StoreError
  no_desk no_window bad_window : StoreError
  anomaly_error : MoveError → StoreError
  halt_error : HaltError → StoreError
  other_error : Text → StoreError

-- WHERE artifact=? AND ordinal=?
unfoldable pub option_is : ℕ → ℕ → OptionRow → Bool
option_is artifact ordinal o = (o.artifact == artifact) && (o.ordinal == ordinal)

-- ORDER BY artifact, ordinal
unfoldable pub earlier : OptionRow → OptionRow → Bool
earlier o p = ltb o.artifact p.artifact || ((o.artifact == p.artifact) && ltb o.ordinal p.ordinal)

abbrev pub of_artifact : ℕ → OptionRow → Bool
of_artifact artifact o = o.artifact == artifact

module _ {F W : Type 0} where
  -- Options
  unfoldable pub options_of : Store F W → ℕ → List OptionRow
  options_of s artifact = sort earlier (select (of_artifact artifact) s.options)

  unfoldable pub get_option : Store F W → ℕ → ℕ → Option OptionRow
  get_option s artifact ordinal = find (λ o. o.ordinal == ordinal) (options_of s artifact)

  unfoldable pub task_of_artifact : ℕ → Store F W → Result StoreError ℕ
  task_of_artifact id s = elim (get_artifact s.board id) [
    | none ↦ err not_found
    | some a ↦ ok a.task
  ]

  unfoldable pub task_by_id : ℕ → Store F W → Result StoreError Task
  task_by_id id s = elim (get_task s.board id) [ none ↦ err not_found | some t ↦ ok t ]

-- Whether a deliverable is posted and its task is in the sprint.
unfoldable pub posted_in : Db → ℕ → ℕ → Bool
posted_in db sprint artifact = elim (get_artifact db artifact) [
  | none ↦ false
  | some a ↦
      is_posted_draft a.state
      && (elim (get_task db a.task) [ none ↦ false | some t ↦ t.sprint == sprint ])
]

-- Whether a deliverable's task is in the sprint and belongs to the owner.
unfoldable pub asked_of : Db → ℕ → Text → ℕ → Bool
asked_of db sprint owner artifact = elim (get_artifact db artifact) [
  | none ↦ false
  | some a ↦ (elim (get_task db a.task) [
    | none ↦ false
    | some t ↦ (t.sprint == sprint) && text_eq t.owner owner
  ])
]

module _ {F W : Type 0} where
  unfoldable pub open_options_for_sprint : ℕ → Store F W → List OptionRow
  open_options_for_sprint sprint s =
      sort earlier
        (select (λ o. posted_in s.board sprint o.artifact && is_opened o.state) s.options)

  unfoldable pub carried_options_for : ℕ → Text → Store F W → List OptionRow
  carried_options_for sprint owner s =
      sort earlier
        (select (λ o. asked_of s.board sprint owner o.artifact && is_carried o.state) s.options)
