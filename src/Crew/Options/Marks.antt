-- ===== src/Crew/Options/Marks.antt =====
-- The writes on options of internal/crew/options.go, RefuseOption of answer.go, and LiveRivalsOf.
-- `now` is the database's clock.
use costcrew.Base.{
  ℕ, Bool, false, not, ◌&&◌, Option, none, some, List, [], ◌++◌, Text, codes, text_eq,
  if◌then◌else◌, is_empty, is_blank, trim_space, find, select, update, insert, ◌==◌, Result, ok,
  err,
}
use costcrew.Base.Calls.{Call, ◌>>=◌, ◌>>◌, checked, write}
use costcrew.Crew.Board.Tables.{Db, Task, get_task, get_artifact, column_is}
use costcrew.Crew.Options.Table.{
  OptionState, applied, refused, carried, not_chosen, is_live, OptionRow, Answer, Event,
  option_refused, Store, StoreError, not_found, need_reason, option_is, options_of, get_option,
  task_of_artifact, task_by_id,
}
use costcrew.Crew.Options.Answer.{validate, trimmed_reason}

-- The columns that setOptionStateAs sets.
unfoldable pub marked : OptionState → Text → Text → Text → Text → Text → OptionRow → OptionRow
marked state by reason behalf_of behalf_reason now o = record o {
  state = state;
  decided_by = by;
  decided_at = now;
  reason = reason;
  on_behalf_of = behalf_of;
  behalf_reason = behalf_reason;
}

abbrev pub option_or_not_found : Option OptionRow → Result StoreError OptionRow
option_or_not_found none = err not_found
option_or_not_found (some o) = ok o

module _ {F W : Type 0} where
  abbrev pub set_options : (OptionRow → Bool) → (OptionRow → OptionRow) → Store F W → Store F W
  set_options p f s = record s { options = update p f s.options }

  abbrev pub tell : Event F → Store F W → Store F W
  tell e s = record s { events = insert e s.events }

  unfoldable pub set_option_state_as :
      ℕ
      → ℕ
      → OptionState
      → Text
      → Text
      → Text
      → Text
      → Text
      → Call (Store F W) StoreError (Unit {0})
  set_option_state_as artifact ordinal state by reason behalf_of behalf_reason now s =
      elim (find (option_is artifact ordinal) s.options) [
        | none ↦ (s, err not_found)
        | some _ ↦ (
          set_options (option_is artifact ordinal)
              (marked state by reason behalf_of behalf_reason now) s,
          ok tt,
        )
      ]

  unfoldable pub set_option_state :
      ℕ → ℕ → OptionState → Text → Text → Text → Call (Store F W) StoreError (Unit {0})
  set_option_state artifact ordinal state by reason now =
      set_option_state_as artifact ordinal state by reason [] [] now

  unfoldable pub mark_option_applied_as :
      ℕ → ℕ → Answer → Text → Call (Store F W) StoreError (Unit {0})
  mark_option_applied_as artifact ordinal ans now = do
    checked (λ _. validate ans)
    set_option_state_as artifact ordinal applied ans.actor [] ans.on_behalf_of (trimmed_reason ans)
        now

  unfoldable pub mark_option_carried : ℕ → ℕ → Text → Call (Store F W) StoreError (Unit {0})
  mark_option_carried artifact ordinal now =
      set_option_state artifact ordinal carried (codes "supervisor") [] now

  unfoldable pub mark_option_not_chosen :
      ℕ → ℕ → Text → Text → Text → Call (Store F W) StoreError (Unit {0})
  mark_option_not_chosen artifact ordinal actor reason now =
      set_option_state artifact ordinal not_chosen actor reason now

  unfoldable pub refuse_option :
      ℕ → ℕ → Answer → Text → Text → Call (Store F W) StoreError (Unit {0})
  refuse_option artifact ordinal ans reason now = do
    checked (λ _. validate ans)
    checked (λ _. if is_blank reason then err need_reason else ok tt)
    opt ← checked (λ s. option_or_not_found (get_option s artifact ordinal))
    set_option_state_as artifact ordinal refused ans.actor reason ans.on_behalf_of
        (trimmed_reason ans) now
    write (tell (option_refused opt reason ans))

abbrev pub anomaly_explain : Text
anomaly_explain = codes "anomaly.explain"

-- The live options of the option's own deliverable, but for itself.
unfoldable pub is_alternative : OptionRow → OptionRow → Bool
is_alternative opt o = not (o.ordinal == opt.ordinal) && is_live o.state

-- Whether a deliverable's task is about the anomaly.
unfoldable pub about : Db → Text → ℕ → Bool
about db anomaly artifact = elim (get_artifact db artifact) [
  | none ↦ false
  | some a ↦ (elim (get_task db a.task) [ none ↦ false | some t ↦ column_is anomaly t.anomaly ])
]

-- A live explanation of the anomaly in another deliverable, with another cause.
unfoldable pub contradicts : Db → Text → OptionRow → OptionRow → Bool
contradicts db anomaly opt o =
    about db anomaly o.artifact
    && text_eq o.class anomaly_explain
    && not (o.artifact == opt.artifact)
    && is_live o.state
    && not (text_eq (trim_space o.summary) (trim_space opt.summary))

-- A NULL anomaly reads as the empty text.
unfoldable pub anomaly_of : Task → Text
anomaly_of t = elim t.anomaly [ none ↦ [] | some a ↦ a ]

module _ {F W : Type 0} where
  unfoldable pub other_causes : OptionRow → Store F W → List OptionRow
  other_causes opt s =
      if not (text_eq opt.class anomaly_explain)
      then []
      else (elim (task_of_artifact opt.artifact s) [
        | err _ ↦ []
        | ok id ↦ (elim (task_by_id id s) [
          | err _ ↦ []
          | ok t ↦
              if is_empty (anomaly_of t)
              then []
              else select (contradicts s.board (anomaly_of t) opt) s.options
        ])
      ])

  unfoldable pub live_rivals_of : OptionRow → Store F W → List OptionRow
  live_rivals_of opt s =
      select (is_alternative opt) (options_of s opt.artifact) ++ other_causes opt s
