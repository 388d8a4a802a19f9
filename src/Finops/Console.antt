-- ===== src/Finops/Console.antt =====
-- optionAction of internal/web/decisions.go: the answer of a signed-in user to one option of a
-- decision request. The CSRF token and the session are checked before it; a redirect's message is
-- the constructor of a refusal.
use costcrew.Base.{
  ℕ, Bool, not, ◌&&◌, ◌||◌, none, some, Text, text_eq, if◌then◌else◌, is_empty, length, Result, ok,
  err,
}
use costcrew.Base.Calls.{Call, ◌>>=◌, ◌>>◌, checked, write}
use costcrew.Auth.Accounts.{User, operator, admin, may}
use costcrew.Crew.Board.Requests.{post_request_if_complete}
use costcrew.Crew.Options.Table.{
  OptionRow, is_carried, Answer, Store, StoreError, get_option, task_of_artifact, task_by_id,
  carried_options_for,
}
use costcrew.Crew.Options.Answer.{owner_answer, admin_answer_for, valid_behalf_reason}
use costcrew.Crew.Options.Marks.{refuse_option}
use costcrew.Finops.Apply.{Outside, apply_as}

pub data ActionError : Type 0 where
  no_such_option not_addressee not_carried : ActionError
  behalf_reason_needed : StoreError → ActionError
  not_done : StoreError → ActionError

-- mayAnswerFor
unfoldable pub may_answer_for : User → Text → Bool
may_answer_for u owner = may u.role admin || (may u.role operator && text_eq u.username owner)

-- answersForOther
unfoldable pub answers_for_other : User → Text → Bool
answers_for_other u owner = may_answer_for u owner && not (text_eq u.username owner)

-- `apply_it` is the page's button, `refuse_it` the form with its reason.
pub data Choice : Type 0 where
  apply_it : Choice
  refuse_it : Text → Choice

-- Whose stamp it is.
unfoldable pub answer_of : User → Text → Text → Result ActionError Answer
answer_of u owner behalf_reason =
    if answers_for_other u owner
    then (elim (valid_behalf_reason behalf_reason) [
      | err e ↦ err (behalf_reason_needed e)
      | ok reason ↦ ok (admin_answer_for u.username owner reason)
    ])
    else ok (owner_answer u.username)

module _ {F W : Type 0} (outside : Outside W) (today now : Text) where
  -- The sprint and the owner of the option's task; both lookups must succeed and name an owner.
  unfoldable pub addressee : ℕ → Store F W → Result ActionError (ℕ × Text)
  addressee artifact s = elim (task_of_artifact artifact s) [
    | err _ ↦ err no_such_option
    | ok id ↦ (elim (task_by_id id s) [
      | err _ ↦ err no_such_option
      | ok t ↦ if is_empty t.owner then err no_such_option else ok (t.sprint, t.owner)
    ])
  ]

  unfoldable pub carried_option : ℕ → ℕ → Store F W → Result ActionError OptionRow
  carried_option artifact ordinal s = elim (get_option s artifact ordinal) [
    | none ↦ err no_such_option
    | some o ↦ if not (is_carried o.state) then err not_carried else ok o
  ]

  abbrev pub done :
      {A : Type 0} → Store F W × Result StoreError A → Store F W × Result ActionError A
  done (s, ok a) = (s, ok a)
  done (s, err e) = (s, err (not_done e))

  unfoldable pub answer_with : Choice → OptionRow → Answer → Call (Store F W) ActionError (Unit {0})
  answer_with apply_it opt ans s = done (apply_as outside today now opt ans s)
  answer_with (refuse_it reason) opt ans s =
      done (refuse_option opt.artifact opt.ordinal ans reason now s)

  abbrev post_if_complete : ℕ → Text → Store F W → Store F W
  post_if_complete sprint owner s = record s {
    board =
        post_request_if_complete (length (carried_options_for sprint owner s)) sprint owner now
          s.board;
  }

  unfoldable pub option_action :
      User → ℕ → ℕ → Choice → Text → Call (Store F W) ActionError (Unit {0})
  option_action u artifact ordinal choice behalf_reason = do
    to ← checked (addressee artifact)
    checked (λ _. if not (may_answer_for u to.1) then err not_addressee else ok tt)
    opt ← checked (carried_option artifact ordinal)
    ans ← checked (λ _. answer_of u to.1 behalf_reason)
    answer_with choice opt ans
    write (post_if_complete to.0 to.1)
