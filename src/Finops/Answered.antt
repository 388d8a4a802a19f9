-- ===== src/Finops/Answered.antt =====
-- An answer given through the console keeps every choice that was made, whether it fails or not.
use costcrew.Base.{
  ◌≡◌, refl, sym, subst, ℕ, true, not, some, List, [], ◌∷◌, Text, Result, ok, err, All, All-both,
  All-find, All-select, All-selected, All-sort, find, select, ==_iff, ◌==◌, arith, Bool-cases,
  Option-cases, inl, inr, if◌then◌else◌, is_blank,
}
use costcrew.Base.Calls.{Run, Run-after, Run-mono, Run-checked, Run-state, state-Run}
use costcrew.Auth.Accounts.{User}
use costcrew.Crew.Options.Table.{
  OptionRow, refused, Answer, Store, StoreError, need_reason, is_live, is_carried, is_applied,
  earlier, of_artifact, options_of, get_option, option_is,
}
use costcrew.Crew.Options.Answer.{validate, trimmed_reason}
use costcrew.Crew.Options.Marks.{marked, set_option_state_as, refuse_option, option_or_not_found}
use costcrew.Crew.Options.Rows.{marked-KeepsKey}
use costcrew.Crew.Options.Choice.{
  Undecided, Decided, IsChoice, undecided, decided, IsChosen, IsClosing, closing-IsChoice,
}
use costcrew.Finops.Apply.{Outside, apply_as}
use costcrew.Finops.Applying.{HasChosen}
use costcrew.Finops.Chosen.{apply_as-Run}
use costcrew.Finops.Console.{
  Choice, apply_it, refuse_it, not_addressee, may_answer_for, answer_of, addressee, carried_option,
  done, answer_with, option_action,
}

refused-IsClosing :
    (by reason behalf_of behalf_reason now : Text)
    → IsClosing (marked refused by reason behalf_of behalf_reason now)
unfolding marked is_applied is_live
refused-IsClosing by reason behalf_of behalf_reason now = record {
  keys = marked-KeepsKey refused by reason behalf_of behalf_reason now;
  unapplied = λ o. refl;
  unlive = λ o. refl;
}

carried_live : (o : OptionRow) → is_carried o.state ≡ true → is_live o.state ≡ true
unfolding is_carried is_live
carried_live o h = ground arith

All-trivial : (os : List OptionRow) → All (λ _. Unit {0}) os
All-trivial [] = tt
All-trivial (o ∷ os) = (tt, All-trivial os)

module _ {F W : Type 0} where
  -- What is read of a deliverable's options is a row of the table, and the deliverable's.
  get_option-found :
      (P : OptionRow → Type 0) (s : Store F W) (artifact ordinal : ℕ) {o : OptionRow}
      → All P s.options
      → get_option s artifact ordinal ≡ some o
      → ((o.artifact == artifact) ≡ true) × P o
  unfolding get_option options_of
  get_option-found P s artifact ordinal h found =
      let Both : OptionRow → Type 0 = λ o. ((o.artifact == artifact) ≡ true) × P o in
      All-find Both (λ o. o.ordinal == ordinal) (options_of s artifact)
        (All-sort Both earlier (select (of_artifact artifact) s.options) (
          All-both (λ o. (o.artifact == artifact) ≡ true) P
            (select (of_artifact artifact) s.options)
            (All-selected (of_artifact artifact) s.options)
            (All-select P (of_artifact artifact) s.options h)))
        found

  -- The deliverable of a carried option is not decided.
  carried-Undecided :
      (s : Store F W) (artifact ordinal : ℕ) (o : OptionRow)
      → get_option s artifact ordinal ≡ some o
      → is_carried o.state ≡ true
      → IsChoice artifact s.options
      → All (Undecided artifact) s.options
  carried-Undecided s artifact ordinal o found is_carried (undecided h) = h
  carried-Undecided s artifact ordinal o found carried (decided n h) =
      let (here, settled) = get_option-found (Decided artifact n) s artifact ordinal h found in
      ground (arith, settled here, carried_live o carried)

  set_refused-Run :
      (artifact ordinal : ℕ) (ans : Answer) (reason now : Text) (s : Store F W)
      → IsChosen s.options
      → Run
          (λ s'. IsChosen s'.options)
          (λ _ s'. IsChosen s'.options)
          (set_option_state_as artifact ordinal refused ans.actor reason ans.on_behalf_of
            (trimmed_reason ans)
            now
            s)
  unfolding set_option_state_as
  set_refused-Run artifact ordinal ans reason now s chosen =
      elim (Option-cases (find (option_is artifact ordinal) s.options)) [
        | inl missing ↦ rw (set_option_state_as, missing) chosen
        | inr (o, found) ↦
            rw (set_option_state_as, found)
              (λ b.
                closing-IsChoice b
                  (marked refused ans.actor reason ans.on_behalf_of (trimmed_reason ans) now)
                  (refused-IsClosing ans.actor reason ans.on_behalf_of (trimmed_reason ans) now)
                  (option_is artifact ordinal) s.options (chosen b))
      ]

  refuse_option-Run :
      (artifact ordinal : ℕ) (ans : Answer) (reason now : Text) (s : Store F W)
      → IsChosen s.options
      → Run
          (λ s'. IsChosen s'.options)
          (λ _ s'. IsChosen s'.options)
          (refuse_option artifact ordinal ans reason now s)
  unfolding refuse_option
  refuse_option-Run artifact ordinal ans reason now s chosen =
      let Kept : Store F W → Type 0 = λ s'. IsChosen s'.options in
      let done : Unit {0} → Store F W → Type 0 = λ _ s'. IsChosen s'.options in
      Run-checked Kept done (validate ans) s _ chosen (λ _ _.
        Run-checked Kept done (if is_blank reason then err need_reason else ok tt) s _ chosen
          (λ _ _.
            Run-checked Kept done (option_or_not_found (get_option s artifact ordinal)) s _ chosen
              (λ o _.
                Run-after Kept done done
                  (set_option_state_as artifact ordinal refused ans.actor reason ans.on_behalf_of
                    (trimmed_reason ans) now s)
                  _ (set_refused-Run artifact ordinal ans reason now s chosen) (λ _ s' h. h))))

module _ {F W : Type 0} (outside : Outside W) (today now : Text) where
  done-options :
      {A : Type 0} (P : List OptionRow → Type 0) (r : Store F W × Result StoreError A)
      → P r.0.options
      → P (done outside today now r).0.options
  done-options P (s, ok a) h = h
  done-options P (s, err e) h = h

  -- The option that is answered is a row of the deliverable, and carried.
  pub carried_option-eq-ok :
      (artifact ordinal : ℕ) (s : Store F W) {o : OptionRow}
      → carried_option outside today now artifact ordinal s ≡ ok o
      → (get_option s artifact ordinal ≡ some o) × (is_carried o.state ≡ true)
  unfolding carried_option
  carried_option-eq-ok artifact ordinal s {o} h =
      elim (Option-cases (get_option s artifact ordinal)) [
        | inl missing ↦ cc (rw (carried_option, missing) at h)
        | inr (x, found) ↦ elim (Bool-cases (is_carried x.state)) [
          | inr passed ↦ cc (rw (carried_option, found, passed) at h)
          | inl carried ↦
              subst (λ y. (get_option s artifact ordinal ≡ some y) × (is_carried y.state ≡ true))
                (cc (rw (carried_option, found, carried) at h)) (found, carried)
        ]
      ]

  free_option :
      (artifact ordinal : ℕ) (s : Store F W) (o : OptionRow)
      → carried_option outside today now artifact ordinal s ≡ ok o
      → IsChosen s.options
      → All (Undecided o.artifact) s.options
  free_option artifact ordinal s o h chosen =
      let (found, carried) = carried_option-eq-ok artifact ordinal s h in
      let (here, _) =
        get_option-found (λ _. Unit {0}) s artifact ordinal (All-trivial s.options) found in
      subst (λ a. All (Undecided a) s.options) (sym ((==_iff o.artifact artifact).0 here))
        (carried-Undecided s artifact ordinal o found carried (chosen artifact))

  answer_with-Run :
      (choice : Choice) (opt : OptionRow) (ans : Answer) (s : Store F W)
      → IsChosen s.options
      → All (Undecided opt.artifact) s.options
      → IsChosen (answer_with outside today now choice opt ans s).0.options
  unfolding answer_with
  answer_with-Run apply_it opt ans s chosen free =
      done-options IsChosen (apply_as outside today now opt ans s) (
        state-Run (λ s'. IsChosen s'.options) (apply_as outside today now opt ans s)
          (Run-mono (λ s'. IsChosen s'.options) (λ _ s'. HasChosen opt s.options s'.options)
            (λ _ s'. IsChosen s'.options) (apply_as outside today now opt ans s)
            (apply_as-Run outside today now opt ans s chosen free) (λ _ s' h. h.chosen)))
  answer_with-Run (refuse_it reason) opt ans s chosen free =
      done-options IsChosen (refuse_option opt.artifact opt.ordinal ans reason now s) (
        state-Run (λ s'. IsChosen s'.options)
          (refuse_option opt.artifact opt.ordinal ans reason now s)
          (refuse_option-Run opt.artifact opt.ordinal ans reason now s chosen))

  pub option_action-IsChosen :
      (u : User) (artifact ordinal : ℕ) (choice : Choice) (behalf_reason : Text) (s : Store F W)
      → IsChosen s.options
      → Run
          (λ s'. IsChosen s'.options)
          (λ _ s'. IsChosen s'.options)
          (option_action outside today now u artifact ordinal choice behalf_reason s)
  unfolding option_action
  option_action-IsChosen u artifact ordinal choice behalf_reason s chosen =
      let Kept : Store F W → Type 0 = λ s'. IsChosen s'.options in
      let ends : Unit {0} → Store F W → Type 0 = λ _ s'. IsChosen s'.options in
      Run-checked Kept ends (addressee outside today now artifact s) s _ chosen (λ to _.
        Run-checked Kept ends (if not (may_answer_for u to.1) then err not_addressee else ok tt) s _
          chosen
          (λ _ _.
            Run-checked Kept ends (carried_option outside today now artifact ordinal s) s _ chosen
              (λ opt found.
                Run-checked Kept ends (answer_of u to.1 behalf_reason) s _ chosen (λ ans _.
                  Run-after Kept ends ends (answer_with outside today now choice opt ans s) _
                    (Run-state Kept (answer_with outside today now choice opt ans s) (
                      answer_with-Run choice opt ans s chosen
                        (free_option artifact ordinal s opt found chosen)))
                    (λ _ s' h. h)))))
