-- ===== src/Finops/Restraint.antt =====
-- What a pass of the supervisor applies on its own.
use costcrew.Base.{
  ◌≡◌, subst, ℕ, true, Option, none, some, List, [], ◌∷◌, Text, ok, codes, All, All-append, ◌≤ℤ◌,
  arith, Bool-cases, Result-cases, inl, inr,
}
use costcrew.Base.Calls.{Run, Run-after, Run-checked, for_each}
use costcrew.Money.Amount.{Cents}
use costcrew.Crew.Roles.Defs.{is_may, supervisor_may_select}
use costcrew.Crew.Halts.Desk.{DeskHalt}
use costcrew.Crew.Options.Table.{OptionRow, Store, open_options_for_sprint}
use costcrew.Crew.Options.Marks.{mark_option_carried}
use costcrew.Finops.Apply.{Outside, owner_of_option, apply}
use costcrew.Finops.Rank.{Group, rank_options, group_by_artifact}
use costcrew.Finops.Routing.{Note, Routing, contradiction_routing}
use costcrew.Finops.Supervise.{
  Pass, no_pass, Rules, judged, agrees, anomaly_threshold, recorded_figure, anomaly_of_option,
  may_apply,
}
use costcrew.Finops.Pass.{
  Report, carry_group, apply_top, decide_group, decide_groups, decide_sprint, write_request,
  stale_halts, halts_by_owner, owners_of, supervise,
}
use costcrew.Finops.Stamps.{Anything, Run-Anything}

-- Of a class that the supervisor may select, with a figure within the threshold.
abbrev pub IsWithin : Rules → OptionRow → Type 0
IsWithin rules o =
    (is_may (supervisor_may_select rules.roles o.class) ≡ true)
    × (o.figure_cents ≤ℤ anomaly_threshold rules.thresholds)

may_apply-IsWithin :
    (rules : Rules) (routing : Routing) (settled : List Text) (id : ℕ) (top : OptionRow)
    (recorded : Option Cents) (anomaly : Text)
    → may_apply rules routing settled id top recorded anomaly ≡ true
    → IsWithin rules top
unfolding may_apply judged agrees
may_apply-IsWithin rules routing settled id top none anomaly h = (ground arith, ground arith)
may_apply-IsWithin rules routing settled id top (some recorded) anomaly h =
    (ground arith, ground arith)

module _ {F W : Type 0} (outside : Outside W) (rules : Rules) where
  abbrev Within : Pass → Store F W → Type 0
  Within p _ = All (IsWithin rules) p.applied

  decide_group-Within :
      (routing : Routing) (g : Group) (p : Pass) (s : Store F W)
      → All (IsWithin rules) p.applied
      → Run Anything Within (decide_group outside rules routing g p s)
  unfolding decide_group carry_group apply_top
  decide_group-Within routing (id, []) p s h = h
  decide_group-Within routing (id, top ∷ others) p s h =
      Run-checked Anything Within (recorded_figure top s) s _ tt (λ recorded _.
        Run-checked Anything Within (anomaly_of_option top s) s _ tt (λ anomaly _.
          elim (Bool-cases (may_apply rules routing p.settled id top recorded anomaly)) [
            | inl allowed ↦ rw allowed (
                Run-after Anything (λ _. Anything) Within
                  (apply outside rules.today rules.now top (codes "supervisor") s) _
                  (Run-Anything (apply outside rules.today rules.now top (codes "supervisor") s))
                  (λ _ s' _. All-append (IsWithin rules) p.applied (top ∷ []) h (
                    may_apply-IsWithin rules routing p.settled id top recorded anomaly allowed,
                    tt,
                  )))
            | inr held ↦ rw held (
                Run-checked Anything Within (owner_of_option top s) s _ tt (λ owner _.
                  Run-after Anything (λ _. Anything) Within
                    (for_each (λ o. mark_option_carried o.artifact o.ordinal rules.now)
                      (top ∷ others) s)
                    _
                    (Run-Anything (
                      for_each (λ o. mark_option_carried o.artifact o.ordinal rules.now)
                        (top ∷ others) s))
                    (λ _ s' _. h)))
          ]))

  decide_groups-Within :
      (routing : Routing) (gs : List Group) (p : Pass) (s : Store F W)
      → All (IsWithin rules) p.applied
      → Run Anything Within (decide_groups outside rules routing gs p s)
  unfolding decide_groups
  decide_groups-Within routing [] p s h = h
  decide_groups-Within routing (g ∷ gs) p s h =
      Run-after Anything Within Within (decide_group outside rules routing g p s) _
        (decide_group-Within routing g p s h) (λ p' s'. decide_groups-Within routing gs p' s')

  decide_sprint-Within :
      (sprint : ℕ) (s : Store F W) → Run Anything Within (decide_sprint outside rules sprint s)
  unfolding decide_sprint
  decide_sprint-Within sprint s =
      let ranked : _ = rank_options (open_options_for_sprint sprint s) in
      elim (Result-cases (contradiction_routing s ranked)) [
        | inr (e, lost) ↦ rw (decide_sprint, lost) tt
        | inl (routing, found) ↦
            rw (decide_sprint, found)
              (decide_groups-Within routing (group_by_artifact ranked) no_pass s tt)
      ]

  module _ (fresh : List ℕ → ℕ) (days_between : Text → Text → ℕ)
      (render : List OptionRow → List (OptionRow × Note) → Text → List DeskHalt → Text) where
    abbrev Reported : Report → Store F W → Type 0
    Reported r _ = All (IsWithin rules) r.applied

    supervise-Within :
        (sprint : ℕ) (s : Store F W)
        → Run Anything Reported (supervise outside rules fresh days_between render sprint s)
    unfolding supervise
    supervise-Within sprint s =
        Run-after Anything Within Reported (decide_sprint outside rules sprint s) _
          (decide_sprint-Within sprint s)
          (λ p s1 within.
            let stale : _ = stale_halts days_between rules s1.halts in
            let by_owner : _ = halts_by_owner stale [] in
            let write_all : _ =
              for_each (write_request outside rules fresh days_between render sprint p by_owner)
                (owners_of p.by_owner by_owner) s1 in
            Run-after Anything (λ _. Anything) Reported write_all _ (Run-Anything write_all)
              (λ _ s2 _. within))

    -- Every option that a pass reports as applied is of a class that the supervisor may select, and the
    -- figure that its analyst wrote is at most T.anomaly.
    pub supervise-IsWithin :
        (sprint : ℕ) (s : Store F W) {after : Store F W} {report : Report}
        → supervise outside rules fresh days_between render sprint s ≡ (after, ok report)
        → All (IsWithin rules) report.applied
    supervise-IsWithin sprint s returned =
        subst (Run Anything Reported) returned (supervise-Within sprint s)
