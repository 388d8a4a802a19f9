-- ===== src/Finops/Supervised.antt =====
-- The supervisor's pass with the decision requests that it writes: what becomes of the options.
use costcrew.Base.{◌≡◌, subst, ℕ, true, false, List, [], Text, ok, All}
use costcrew.Base.Calls.{Run, Run-after, Run-weaken, Run-for_each, for_each}
use costcrew.Crew.Halts.Desk.{DeskHalt}
use costcrew.Crew.Options.Table.{OptionRow, Store, is_opened, posted_in}
use costcrew.Crew.Options.Choice.{IsChosen}
use costcrew.Finops.Apply.{Outside}
use costcrew.Finops.Routing.{Note}
use costcrew.Finops.Supervise.{Pass, Rules}
use costcrew.Finops.Pass.{
  Report, stale_halts, halts_by_owner, owners_of, decide_sprint, write_request, supervise,
}
use costcrew.Finops.Passing.{NoneOpen, decide_sprint-Run}

module _ {F W : Type 0} (outside : Outside W) (rules : Rules) (fresh : List ℕ → ℕ)
    (days_between : Text → Text → ℕ)
    (render : List OptionRow → List (OptionRow × Note) → Text → List DeskHalt → Text) where
  abbrev Kept : Store F W → Type 0
  Kept s = IsChosen s.options

  -- The requests are on the board.
  write_request-keeps :
      (P : List OptionRow → Type 0) (sprint : ℕ) (p : Pass) (stale : List (Text × List DeskHalt))
      (owner : Text) (s : Store F W)
      → P s.options
      → Run
          (λ s'. P s'.options)
          (λ _ s'. P s'.options)
          (write_request outside rules fresh days_between render sprint p stale owner s)
  unfolding write_request
  write_request-keeps P sprint p stale owner s h = h

  pub supervise-Run :
      (sprint : ℕ) (s : Store F W)
      → IsChosen s.options
      → Run Kept
          (λ _ s'. IsChosen s'.options × NoneOpen (posted_in s.board sprint) s'.options)
          (supervise outside rules fresh days_between render sprint s)
  unfolding supervise
  supervise-Run sprint s chosen =
      let Done : List OptionRow → Type 0 =
        λ os. IsChosen os × NoneOpen (posted_in s.board sprint) os in
      Run-after Kept (λ _ s'. Done s'.options) (λ _ s'. Done s'.options)
        (decide_sprint outside rules sprint s) _ (decide_sprint-Run sprint s outside rules chosen)
        (λ p s1 done.
          let stale : _ = stale_halts days_between rules s1.halts in
          let by_owner : _ = halts_by_owner stale [] in
          let write_all : _ =
            for_each (write_request outside rules fresh days_between render sprint p by_owner)
              (owners_of p.by_owner by_owner) s1 in
          Run-after Kept (λ _ s'. Done s'.options) (λ _ s'. Done s'.options) write_all _
            (Run-weaken (λ s'. Done s'.options) Kept (λ _ s'. Done s'.options) write_all
              (Run-for_each (λ s'. Done s'.options)
                (write_request outside rules fresh days_between render sprint p by_owner)
                (λ owner s'. write_request-keeps Done sprint p by_owner owner s')
                (owners_of p.by_owner by_owner) s1 done)
              (λ s' h. h.0))
            (λ _ s2 h. h))

  -- Nothing is dropped: after a pass that returns, no option is open of a deliverable that was posted
  -- in the sprint when the pass began, from a table where each deliverable's options are one choice.
  pub supervise_drops_nothing :
      (sprint : ℕ) (s : Store F W) {after : Store F W} {report : Report}
      → IsChosen s.options
      → supervise outside rules fresh days_between render sprint s ≡ (after, ok report)
      → All
          (λ o. posted_in s.board sprint o.artifact ≡ true → is_opened o.state ≡ false)
          after.options
  supervise_drops_nothing sprint s chosen returned =
      (subst
        (Run Kept (λ _ s'. IsChosen s'.options × NoneOpen (posted_in s.board sprint) s'.options))
        returned (supervise-Run sprint s chosen)).1
