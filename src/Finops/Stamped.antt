-- ===== src/Finops/Stamped.antt =====
-- What the answer of a signed-in user leaves on an option: optionAction of internal/web/decisions.go.
use costcrew.Base.{◌≡◌, ℕ, true, false, ◌⊎◌, some, [], Text, ok, All, is_empty, text_eq}
use costcrew.Auth.Accounts.{User, admin, operator, may}
use costcrew.Crew.Options.Table.{
  is_carried, get_option, OptionRow, OptionState, applied, refused, Answer, Store,
}
use costcrew.Crew.Options.Answer.{trimmed_reason}
use costcrew.Finops.Apply.{Outside}
use costcrew.Finops.Marking.{OfKey}
use costcrew.Finops.Console.{Choice, apply_it, refuse_it, addressee}

abbrev pub chosen_state : Choice → OptionState
chosen_state apply_it = applied
chosen_state (refuse_it _) = refused

-- The stamp of a user on an option that an owner was asked about.
pub record IsStampOf (u : User) (owner : Text) (state : OptionState) (o : OptionRow) : Type 0 where
  pub in_state : o.state ≡ state
  pub by : o.decided_by ≡ u.username
  pub for_whom :
      ((text_eq u.username owner ≡ true) × (o.on_behalf_of ≡ []))
      ⊎ ((text_eq u.username owner ≡ false)
          × (o.on_behalf_of ≡ owner)
          × (is_empty o.behalf_reason ≡ false))

-- What the answer says of the user and the owner.
abbrev SaysFor : User → Text → Answer → Type 0
SaysFor u owner ans =
    (ans.actor ≡ u.username)
    × (((text_eq u.username owner ≡ true) × (ans.on_behalf_of ≡ []))
        ⊎ ((text_eq u.username owner ≡ false)
            × (ans.on_behalf_of ≡ owner)
            × (is_empty (trimmed_reason ans) ≡ false)))

module _ {F W : Type 0} (outside : Outside W) (today now : Text) where
  abbrev Stamped : User → Text → Choice → OptionRow → Store F W → Type 0
  Stamped u owner choice opt s = All (OfKey opt (IsStampOf u owner (chosen_state choice))) s.options

  -- Who may have answered, and what stands on the option then.
  pub record IsAnswered (u : User) (artifact ordinal : ℕ) (choice : Choice)
      (before after : Store F W) : Type 0 where
    pub sprint : ℕ
    pub owner : Text
    pub option : OptionRow
    pub asked : addressee outside today now artifact before ≡ ok (sprint, owner)
    pub allowed : (may u.role admin ≡ true) ⊎ ((may u.role operator ≡ true) × (u.username ≡ owner))
    pub was_stored : get_option before artifact ordinal ≡ some option
    pub was_carried : is_carried option.state ≡ true
    pub stamped : Stamped u owner choice option after
