-- ===== src/Finops/Chosen.antt =====
-- ApplyAs, call by call: it keeps every choice that was made, whether it fails or not, and where it
-- does not fail the option's own deliverable is decided.
use costcrew.Base.{
  ◌≡◌, refl, sym, subst, ℕ, false, List, Text, Result, ok, err, All, All-append, All-select, update,
  find, Option-cases, Result-cases, inl, inr, ◌++◌, [], All-sort, Bool-cases, is_empty, text_eq,
}
use costcrew.Base.Calls.{Run, Run-after, Run-checked, Run-returned, after}
use costcrew.Crew.Options.Table.{
  applied, not_chosen, option_applied, OptionRow, Answer, Store, is_live, of_artifact, earlier,
  options_of, task_of_artifact, task_by_id, option_is,
}
use costcrew.Crew.Options.Answer.{validate, trimmed_reason}
use costcrew.Crew.Options.Marks.{
  marked, set_option_state, set_option_state_as, mark_option_applied_as, mark_option_not_chosen,
  live_rivals_of, other_causes, contradicts, is_alternative, tell, anomaly_of, anomaly_explain,
}
use costcrew.Crew.Options.Rows.{
  same_key, mark_all, IsStored, marked-KeepsKey, set_option_state_as-stored, for_each-stored,
}
use costcrew.Crew.Options.Choice.{Undecided, IsChosen}
use costcrew.Crew.Options.Settle.{alternatives}
use costcrew.Finops.Apply.{
  Outside, not_chosen_reason, settle_rivals, apply_side_effect, apply_as, losers,
}
use costcrew.Finops.Effects.{apply_side_effect-options}
use costcrew.Finops.Applying.{HasChosen, not_chosen-IsClosing, all-IsStored, settled-HasChosen}

abbrev pub as_applied : Answer → Text → OptionRow → OptionRow
as_applied ans now = marked applied ans.actor [] ans.on_behalf_of (trimmed_reason ans) now

abbrev pub as_lost : OptionRow → Text → Text → OptionRow → OptionRow
as_lost opt actor now = marked not_chosen actor (not_chosen_reason opt) [] [] now

applied_unlive :
    (ans : Answer) (now : Text) (o : OptionRow) → is_live (as_applied ans now o).state ≡ false
unfolding marked is_live
applied_unlive ans now o = refl

-- A call that leaves the options alone.
Run-frame :
    {F W E A : Type 0} (s : Store F W) (r : Store F W × Result E A)
    → IsChosen s.options
    → r.0.options ≡ s.options
    → Run (λ s'. IsChosen s'.options) (λ _ s'. s'.options ≡ s.options) r
Run-frame s (s', ok a) chosen same = same
Run-frame s (s', err e) chosen same = subst IsChosen (sym same) chosen

module _ {F W : Type 0} (outside : Outside W) (today now : Text) where
  abbrev Kept : Store F W → Type 0
  Kept s = IsChosen s.options

  other_causes-IsStored :
      (opt : OptionRow) (s : Store F W) → All (IsStored s.options) (other_causes opt s)
  unfolding other_causes
  other_causes-IsStored opt s = elim (Bool-cases (text_eq opt.class anomaly_explain)) [
    | inr other ↦ rw other tt
    | inl explains ↦ rw explains (elim (Result-cases (task_of_artifact opt.artifact s)) [
      | inr (e, lost) ↦ rw lost tt
      | inl (id, found) ↦ rw found (elim (Result-cases (task_by_id id s)) [
        | inr (e, lost) ↦ rw lost tt
        | inl (t, task) ↦ rw task (elim (Bool-cases (is_empty (anomaly_of t))) [
          | inl none_named ↦ rw none_named tt
          | inr named ↦ rw named (
              All-select (IsStored s.options) (contradicts s.board (anomaly_of t) opt) s.options
                (all-IsStored s.options))
        ])
      ])
    ])
  ]

  pub rivals-IsStored :
      (opt : OptionRow) (s : Store F W) → All (IsStored s.options) (live_rivals_of opt s)
  unfolding live_rivals_of options_of
  rivals-IsStored opt s =
      let stored : _ = all-IsStored s.options in
      All-append (IsStored s.options) (alternatives opt s.options) (other_causes opt s)
        (All-select (IsStored s.options) (is_alternative opt) _ (
          All-sort (IsStored s.options) earlier _
            (All-select (IsStored s.options) (of_artifact opt.artifact) s.options stored)))
        (other_causes-IsStored opt s)

  pub settle_rivals_lem :
      (opt : OptionRow) (actor : Text) (s : Store F W) (rs : List OptionRow)
      → All (IsStored s.options) rs
      → settle_rivals outside today now opt actor rs s ≡ (
        record s {
          options =
              mark_all (marked not_chosen actor (not_chosen_reason opt) [] [] now) rs s.options;
        },
        ok tt,
      )
  unfolding settle_rivals mark_option_not_chosen set_option_state
  settle_rivals_lem opt actor s rs h =
      for_each-stored _ (marked not_chosen actor (not_chosen_reason opt) [] [] now)
        (marked-KeepsKey not_chosen actor (not_chosen_reason opt) [] [] now)
        (λ r s' stored.
          set_option_state_as-stored r not_chosen actor (not_chosen_reason opt) [] [] now s' stored)
        rs s h

  module _ (opt : OptionRow) (ans : Answer) where
    -- The option is marked, or nothing is.
    mark_applied-Run :
        (s : Store F W)
        → Kept s
        → Run Kept
            (λ _ s'. s'.options ≡ update (same_key opt) (as_applied ans now) s.options)
            (mark_option_applied_as opt.artifact opt.ordinal ans now s)
    unfolding mark_option_applied_as set_option_state_as same_key
    mark_applied-Run s h = elim (Result-cases (validate ans)) [
      | inr (e, refused) ↦ rw refused h
      | inl (u, valid) ↦
          rw valid (elim (Option-cases (find (option_is opt.artifact opt.ordinal) s.options)) [
            | inl missing ↦ rw (set_option_state_as, missing) h
            | inr (o, found) ↦ rw (set_option_state_as, found) refl
          ])
    ]

    -- From the mark on, the call does not fail.
    settled-Run :
        (os : List OptionRow) (s : Store F W)
        → IsChosen os
        → All (Undecided opt.artifact) os
        → s.options ≡ update (same_key opt) (as_applied ans now) os
        → (settle_rivals outside today now opt ans.actor (live_rivals_of opt s) s).1 ≡ ok tt
          × HasChosen opt os
              (settle_rivals outside today now opt ans.actor (live_rivals_of opt s) s).0.options
    unfolding live_rivals_of options_of
    settled-Run os s chosen free marked_so =
        let done : _ =
          settle_rivals_lem opt ans.actor s (live_rivals_of opt s) (rivals-IsStored opt s) in
        rw done (
          refl,
          subst
              (λ l.
                HasChosen opt os (
                  mark_all (as_lost opt ans.actor now) (alternatives opt l ++ other_causes opt s)
                    l))
              (sym marked_so)
              (settled-HasChosen opt (as_applied ans now) (as_lost opt ans.actor now)
                (not_chosen-IsClosing ans.actor (not_chosen_reason opt) now)
                (marked-KeepsKey applied ans.actor [] ans.on_behalf_of (trimmed_reason ans) now)
                (applied_unlive ans now) (other_causes opt s) os chosen free),
        )

    -- The call from the mark on, for a table where the deliverable is not decided.
    last_calls-Run :
        (os : List OptionRow) (task : ℕ) (s : Store F W)
        → IsChosen os
        → All (Undecided opt.artifact) os
        → s.options ≡ os
        → Run Kept
            (λ _ s'. HasChosen opt os s'.options)
            (after (mark_option_applied_as opt.artifact opt.ordinal ans now s) (λ _ s1.
              after
                (settle_rivals outside today now opt ans.actor (live_rivals_of opt s1) s1)
                (λ _ s2.
                  (tell (option_applied opt task (losers (live_rivals_of opt s1)) ans) s2, ok tt))))
    last_calls-Run os task s chosen free same =
        Run-after Kept (λ _ s'. s'.options ≡ update (same_key opt) (as_applied ans now) os)
          (λ _ s'. HasChosen opt os s'.options)
          (mark_option_applied_as opt.artifact opt.ordinal ans now s) _
          (subst
            (λ l.
              Run Kept (λ _ s'. s'.options ≡ update (same_key opt) (as_applied ans now) l)
                (mark_option_applied_as opt.artifact opt.ordinal ans now s))
            same (mark_applied-Run s (subst IsChosen (sym same) chosen)))
          (λ _ s1 marked_so.
            let (returned, done) = settled-Run os s1 chosen free marked_so in
            Run-returned Kept (λ _ s'. HasChosen opt os s'.options)
              (settle_rivals outside today now opt ans.actor (live_rivals_of opt s1) s1) _ returned
              done)

    -- An option of a deliverable that is not decided is applied, and settles it; or every choice stays
    -- as it was made.
    pub apply_as-Run :
        (s : Store F W)
        → IsChosen s.options
        → All (Undecided opt.artifact) s.options
        → Run Kept
            (λ _ s'. HasChosen opt s.options s'.options)
            (apply_as outside today now opt ans s)
    unfolding apply_as
    apply_as-Run s chosen free =
        let done : Unit {0} → Store F W → Type 0 = λ _ s'. HasChosen opt s.options s'.options in
        Run-checked Kept done (validate ans) s _ chosen (λ _ _.
          Run-checked Kept done (task_of_artifact opt.artifact s) s _ chosen (λ task _.
            Run-checked Kept done (task_by_id task s) s _ chosen (λ t _.
              Run-after Kept (λ _ s'. s'.options ≡ s.options) done
                (apply_side_effect outside today now opt t ans.actor s) _
                (Run-frame s (apply_side_effect outside today now opt t ans.actor s) chosen
                  (apply_side_effect-options outside today now opt t ans.actor s))
                (λ _ s'. last_calls-Run s.options task s' chosen free))))
