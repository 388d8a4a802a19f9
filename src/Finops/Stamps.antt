-- ===== src/Finops/Stamps.antt =====
-- Whose stamp an answered option carries: what optionAction of internal/web/decisions.go has asked
-- and written when it returns.
use costcrew.Base.{
  ◌≡◌, [], Text, Result, ok, err, All, find, Option-cases, inl, inr, if◌then◌else◌, is_blank,
}
use costcrew.Base.Calls.{Run, Run-after, Run-checked}
use costcrew.Crew.Options.Table.{
  OptionRow, OptionState, applied, refused, Answer, Store, StoreError, need_reason, option_is,
  get_option, task_of_artifact, task_by_id,
}
use costcrew.Crew.Options.Answer.{validate, trimmed_reason}
use costcrew.Crew.Options.Marks.{
  marked, set_option_state_as, mark_option_applied_as, refuse_option, option_or_not_found,
  live_rivals_of,
}
use costcrew.Crew.Options.Rows.{same_key, marked-KeepsKey}
use costcrew.Finops.Apply.{Outside, settle_rivals, apply_side_effect, apply_as}
use costcrew.Finops.Chosen.{as_applied, as_lost, rivals-IsStored, settle_rivals_lem}
use costcrew.Finops.Marking.{OfKey, marked-OfKey, mark_all-OfKey, rivals-apart}

abbrev pub Anything : {S : Type 0} → S → Type 0
Anything _ = Unit {0}

pub Run-Anything :
    {F W A : Type 0} (r : Store F W × Result StoreError A) → Run Anything (λ _. Anything) r
Run-Anything (s, ok a) = tt
Run-Anything (s, err e) = tt

module _ {F W : Type 0} (opt : OptionRow) (Q : OptionRow → Type 0) (ans : Answer) (now : Text) where
  abbrev pub Marked : Unit {0} → Store F W → Type 0
  Marked _ s = All (OfKey opt Q) s.options

  set_state-OfKey :
      (state : OptionState) (reason : Text)
      → ((o : OptionRow)
          → Q (marked state ans.actor reason ans.on_behalf_of (trimmed_reason ans) now o))
      → (s : Store F W)
      → Run Anything Marked (
          set_option_state_as opt.artifact opt.ordinal state ans.actor reason ans.on_behalf_of
            (trimmed_reason ans)
            now
            s)
  unfolding set_option_state_as same_key
  set_state-OfKey state reason made s =
      elim (Option-cases (find (option_is opt.artifact opt.ordinal) s.options)) [
        | inl missing ↦ rw (set_option_state_as, missing) tt
        | inr (o, found) ↦
            rw (set_option_state_as, found)
              (marked-OfKey opt Q
                (marked state ans.actor reason ans.on_behalf_of (trimmed_reason ans) now) made
                s.options)
      ]

  pub refuse_option-OfKey :
      (reason : Text)
      → ((v : Unit {0})
          → validate ans ≡ ok v
          → (o : OptionRow)
          → Q (marked refused ans.actor reason ans.on_behalf_of (trimmed_reason ans) now o))
      → (s : Store F W)
      → Run Anything Marked (refuse_option opt.artifact opt.ordinal ans reason now s)
  unfolding refuse_option
  refuse_option-OfKey reason made s = Run-checked Anything Marked (validate ans) s _ tt (λ v valid.
      Run-checked Anything Marked (if is_blank reason then err need_reason else ok tt) s _ tt
        (λ _ _.
          Run-checked Anything Marked (option_or_not_found (get_option s opt.artifact opt.ordinal))
            s _ tt
            (λ o _.
              Run-after Anything Marked Marked
                (set_option_state_as opt.artifact opt.ordinal refused ans.actor reason
                  ans.on_behalf_of (trimmed_reason ans) now s)
                _ (set_state-OfKey refused reason (made v valid) s) (λ _ s' h. h))))

  module _ (outside : Outside W) (today : Text) where
    settle-OfKey :
        (s : Store F W)
        → All (OfKey opt Q) s.options
        → Run Anything Marked
            (settle_rivals outside today now opt ans.actor (live_rivals_of opt s) s)
    settle-OfKey s h =
        rw
          (settle_rivals_lem outside today now opt ans.actor s (live_rivals_of opt s)
            (rivals-IsStored outside today now opt s))
          (mark_all-OfKey opt Q (as_lost opt ans.actor now) (marked-KeepsKey _ _ _ _ _ now)
            (live_rivals_of opt s) s.options (rivals-apart opt s) h)

    pub apply_as-OfKey :
        ((v : Unit {0}) → validate ans ≡ ok v → (o : OptionRow) → Q (as_applied ans now o))
        → (s : Store F W) → Run Anything Marked (apply_as outside today now opt ans s)
    unfolding apply_as mark_option_applied_as
    apply_as-OfKey made s = Run-checked Anything Marked (validate ans) s _ tt (λ v valid.
        Run-checked Anything Marked (task_of_artifact opt.artifact s) s _ tt (λ task _.
          Run-checked Anything Marked (task_by_id task s) s _ tt (λ t _.
            Run-after Anything (λ _. Anything) Marked
              (apply_side_effect outside today now opt t ans.actor s) _
              (Run-Anything (apply_side_effect outside today now opt t ans.actor s))
              (λ _ s1 _.
                Run-after Anything Marked Marked
                  (mark_option_applied_as opt.artifact opt.ordinal ans now s1) _
                  (Run-checked Anything Marked (validate ans) s1 _ tt
                    (λ _ _. set_state-OfKey applied [] (made v valid) s1))
                  (λ _ s2 h.
                    Run-after Anything Marked Marked
                      (settle_rivals outside today now opt ans.actor (live_rivals_of opt s2) s2) _
                      (settle-OfKey s2 h) (λ _ s3 k. k))))))
