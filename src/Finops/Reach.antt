-- ===== src/Finops/Reach.antt =====
-- What the program does to the table of options, over time: a deliverable's options are saved with
-- it, passes of the supervisor and answers of people follow in any order, failing or not, and
-- everything else leaves the table alone.
use costcrew.Base.{
  ◌≡◌, refl, sym, subst, ℕ, true, false, Option, List, ◌++◌, Text, Result, All, All-mono,
  All-append, ==_iff, ◌==◌, arith, Bool-cases, inl, inr,
}
use costcrew.Base.Calls.{Run-mono, state-Run}
use costcrew.Auth.Accounts.{User}
use costcrew.Crew.Roles.Defs.{RolesFile, JobDescription}
use costcrew.Crew.Halts.Desk.{DeskHalt}
use costcrew.Crew.Options.Table.{OptionRow, Store, StoreError, is_applied, is_live, posted_in}
use costcrew.Crew.Options.Block.{RawOption}
use costcrew.Crew.Options.Gate.{Targets, GateReason, validate_and_save_options}
use costcrew.Crew.Options.Saved.{IsSaved, Gated, unchanged, saved, gate-Gated}
use costcrew.Crew.Options.Choice.{Undecided, Decided, IsChoice, undecided, decided, IsChosen}
use costcrew.Finops.Apply.{Outside}
use costcrew.Finops.Routing.{Note}
use costcrew.Finops.Supervise.{Rules}
use costcrew.Finops.Pass.{supervise}
use costcrew.Finops.Passing.{NoneOpen}
use costcrew.Finops.Console.{Choice, option_action}
use costcrew.Finops.Supervised.{supervise-Run}
use costcrew.Finops.Answered.{option_action-IsChosen}

-- The deliverable has no option yet.
abbrev pub IsNew : ℕ → List OptionRow → Type 0
IsNew artifact os = All (λ o. (o.artifact == artifact) ≡ false) os

module _ {F W : Type 0} (rf : RolesFile) (targets : Targets F W) (role : JobDescription)
    (artifact : ℕ) where
  unapplied : (o : OptionRow) → IsSaved rf targets role artifact o → Undecided artifact o
  unfolding is_applied
  unapplied o h here = rw h.is_open refl

  elsewhere_of :
      (P : OptionRow → Type 0) (b : ℕ) (o : OptionRow)
      → (artifact == b) ≡ false
      → IsSaved rf targets role artifact o
      → (o.artifact == b) ≡ true
      → P o
  elsewhere_of P b o differs h here = ground (arith, h.of_artifact)

  -- New rows of a deliverable that had none, none of them applied, are a choice to make.
  grown-IsChosen :
      (before new : List OptionRow)
      → IsNew artifact before
      → All (IsSaved rf targets role artifact) new
      → IsChosen before
      → IsChosen (before ++ new)
  grown-IsChosen before new fresh all chosen b = elim (Bool-cases (artifact == b)) [
    | inl same ↦
        subst (λ a. IsChoice a (before ++ new)) ((==_iff artifact b).0 same)
          (undecided (
            All-append (Undecided artifact) before new
              (All-mono (λ o. (o.artifact == artifact) ≡ false) (Undecided artifact)
                (λ o k here. ground arith) before fresh)
              (All-mono (IsSaved rf targets role artifact) (Undecided artifact) unapplied new all)))
    | inr differs ↦ elim (chosen b) [
      | undecided h ↦ undecided (
          All-append (Undecided b) before new h (
            All-mono (IsSaved rf targets role artifact) (Undecided b)
              (λ o k. elsewhere_of (λ x. is_applied x.state ≡ false) b o differs k) new all))
      | decided n h ↦ decided n (
          All-append (Decided b n) before new h (
            All-mono (IsSaved rf targets role artifact) (Decided b n)
              (λ o k.
                elsewhere_of
                  (λ x. (is_live x.state ≡ false) × (is_applied x.state ≡ true → x.ordinal ≡ n)) b o
                  differs k)
              new all))
    ]
  ]

module _ {F W : Type 0} (outside : Outside W) (fresh : List ℕ → ℕ) (days_between : Text → Text → ℕ)
    (render : List OptionRow → List (OptionRow × Note) → Text → List DeskHalt → Text)
    (targets : Targets F W) (sentence : GateReason → Text)
    (decode : Text → Option (List RawOption)) where
  pub data Step (s : Store F W) : Store F W → Type 0 where
    saving :
        (rf : RolesFile) (artifact : ℕ) (role_name body : Text)
        → IsNew artifact s.options
        → Step s (validate_and_save_options rf targets sentence decode artifact role_name body s).0
    supervising :
        (rules : Rules) (sprint : ℕ)
        → Step s (supervise outside rules fresh days_between render sprint s).0
    answering :
        (today now : Text) (u : User) (artifact ordinal : ℕ) (choice : Choice)
        (behalf_reason : Text)
        → Step s (option_action outside today now u artifact ordinal choice behalf_reason s).0
    elsewhere : {after : Store F W} → after.options ≡ s.options → Step s after

  pub data Reach (s : Store F W) : Store F W → Type 0 where
    here : Reach s s
    next : {mid after : Store F W} → Reach s mid → Step mid after → Reach s after

  Gated-IsChosen :
      (rf : RolesFile) (role_name : Text) (artifact : ℕ) (before : List OptionRow)
      (call : Store F W × Result StoreError (Option GateReason))
      → IsNew artifact before
      → Gated rf targets role_name artifact before call
      → IsChosen before
      → IsChosen call.0.options
  Gated-IsChosen rf role_name artifact before call new (unchanged same) chosen =
      subst IsChosen (sym same) chosen
  Gated-IsChosen rf role_name artifact before call new (saved role _ _ (rows, grown, _, all))
        chosen =
      subst IsChosen (sym grown)
        (grown-IsChosen rf targets role artifact before rows new all chosen)

  Step-IsChosen : {s after : Store F W} → Step s after → IsChosen s.options → IsChosen after.options
  Step-IsChosen {s} (saving rf artifact role_name body new) chosen =
      Gated-IsChosen rf role_name artifact s.options _ new
        (gate-Gated rf targets sentence decode artifact role_name body s) chosen
  Step-IsChosen {s} (supervising rules sprint) chosen =
      let call : _ = supervise outside rules fresh days_between render sprint s in
      state-Run (λ s'. IsChosen s'.options) call
        (Run-mono (λ s'. IsChosen s'.options)
          (λ _ s'. IsChosen s'.options × NoneOpen (posted_in s.board sprint) s'.options)
          (λ _ s'. IsChosen s'.options) call
          (supervise-Run outside rules fresh days_between render sprint s chosen) (λ _ s' h. h.0))
  Step-IsChosen {s} (answering today now u artifact ordinal choice behalf_reason) chosen =
      let call : _ = option_action outside today now u artifact ordinal choice behalf_reason s in
      state-Run (λ s'. IsChosen s'.options) call
        (option_action-IsChosen outside today now u artifact ordinal choice behalf_reason s chosen)
  Step-IsChosen (elsewhere same) chosen = subst IsChosen (sym same) chosen

  -- Whatever is saved, decided by the supervisor and answered by people, in any order and with
  -- whatever failures, a deliverable's options stay one choice: either none of them is applied, or
  -- none is left open or carried and those applied have one ordinal. It is so from a table where it
  -- holds, such as the empty one.
  pub Reach-IsChoice :
      {s after : Store F W}
      → Reach s after
      → IsChosen s.options
      → (artifact : ℕ) → IsChoice artifact after.options
  Reach-IsChoice here chosen = chosen
  Reach-IsChoice (next r st) chosen = Step-IsChosen st (Reach-IsChoice r chosen)
