-- ===== src/Finops/Passing.antt =====
-- A whole pass of the supervisor: what becomes of the options that it collects.
use costcrew.Base.{
  ◌≡◌, refl, sym, ◌∙◌, ℕ, Bool, true, false, not, ◌||◌, ◌&&◌, List, [], ◌∷◌, All, All-mono, All-any,
  any, any-sort, any-select, any-All, select, ==_iff, ◌==◌, arith, inl, inr, mem_id, Result-cases,
}
use costcrew.Base.Calls.{Run, Run-mono}
use costcrew.Crew.Options.Table.{
  OptionRow, Store, is_opened, posted_in, open_options_for_sprint, earlier,
}
use costcrew.Crew.Options.Choice.{Undecided, Decided, IsChoice, undecided, decided, IsChosen}
use costcrew.Finops.Apply.{Outside}
use costcrew.Finops.Applying.{opened_live}
use costcrew.Finops.Rank.{Group, group_by_artifact, rank_options}
use costcrew.Finops.Routing.{contradiction_routing}
use costcrew.Finops.Supervise.{no_pass, Rules}
use costcrew.Finops.Pass.{decide_groups, decide_sprint}
use costcrew.Finops.Groups.{
  ids, any_of, All-mem_id, group_by_artifact-Distinct, group_by_artifact-IsOwn,
  any-group_by_artifact, mem_id-group_by_artifact,
}
use costcrew.Finops.Deciding.{OpenOnly, or_groups, AllFree, decide_groups-Run}

or_groups_lem :
    (P : ℕ → ℕ → Bool) (gs : List Group) (a n : ℕ)
    → or_groups P gs a n ≡ (P a n || any_of (λ r. (a == r.artifact) && (n == r.ordinal)) gs)
or_groups_lem P [] a n = ground arith
or_groups_lem P (g ∷ gs) a n = ground (arith, or_groups_lem P gs a n)

-- No option is open of a deliverable for which the test is true.
abbrev pub NoneOpen : (ℕ → Bool) → List OptionRow → Type 0
NoneOpen posted os = All (λ o. posted o.artifact ≡ true → is_opened o.state ≡ false) os

module _ {F W : Type 0} (sprint : ℕ) (s : Store F W) where
  abbrev collects : OptionRow → Bool
  collects o = posted_in s.board sprint o.artifact && is_opened o.state

  abbrev gs : List Group
  gs = group_by_artifact (rank_options (open_options_for_sprint sprint s))

  any-collected :
      (p : OptionRow → Bool)
      → any p (open_options_for_sprint sprint s) ≡ any (λ o. collects o && p o) s.options
  unfolding open_options_for_sprint
  any-collected p = any-sort earlier p (select collects s.options) ∙ any-select p collects s.options

  free_of :
      (id : ℕ) → IsChoice id s.options → mem_id id (ids gs) ≡ true → All (Undecided id) s.options
  free_of id (undecided h) named = h
  free_of id (decided n h) named =
      let (o, hit, settled) =
        any-All (Decided id n) (λ o. collects o && (o.artifact == id)) s.options
          (sym (
              mem_id-group_by_artifact (open_options_for_sprint sprint s) id
              ∙ any-collected (λ o. o.artifact == id))
            ∙ named)
          h in
      ground (arith, hit, settled, opened_live o.state)

  all-free : IsChosen s.options → AllFree s.options gs
  all-free chosen =
      All-mono (λ g. mem_id g.0 (ids gs) ≡ true) (λ g. All (Undecided g.0) s.options)
        (λ g named. free_of g.0 (chosen g.0) named) gs (All-mem_id gs)

  abbrev unposted : ℕ → ℕ → Bool
  unposted a n = not (posted_in s.board sprint a)

  all-waiting : All (OpenOnly (or_groups unposted gs)) s.options
  all-waiting =
      let same : OptionRow → OptionRow → Bool =
        λ y x. collects y && ((x.artifact == y.artifact) && (x.ordinal == y.ordinal)) in
      All-mono (λ o. same o o ≡ true → any (λ y. same y o) s.options ≡ true)
        (OpenOnly (or_groups unposted gs))
        (λ o k is_open.
          or_groups_lem unposted gs o.artifact o.ordinal
          ∙ ground (
            arith,
            any-group_by_artifact (open_options_for_sprint sprint s)
                (λ r. (o.artifact == r.artifact) && (o.ordinal == r.ordinal)),
            any-collected (λ r. (o.artifact == r.artifact) && (o.ordinal == r.ordinal)),
            k,
            is_open,
            (==_iff o.artifact o.artifact).1 refl,
            (==_iff o.ordinal o.ordinal).1 refl,
          ))
        s.options (All-any same s.options)

  -- Every choice that was made stays; and a pass that returns leaves none of the options open that it
  -- collected.
  pub decide_sprint-Run :
      (outside : Outside W) (rules : Rules)
      → IsChosen s.options
      → Run
          (λ s'. IsChosen s'.options)
          (λ _ s'. IsChosen s'.options × NoneOpen (posted_in s.board sprint) s'.options)
          (decide_sprint outside rules sprint s)
  unfolding decide_sprint
  decide_sprint-Run outside rules chosen =
      elim (Result-cases
        (contradiction_routing s (rank_options (open_options_for_sprint sprint s)))) [
          | inr (e, lost) ↦ rw (decide_sprint, lost) chosen
          | inl (routing, found) ↦
              rw (decide_sprint, found)
                (Run-mono (λ s'. IsChosen s'.options)
                  (λ _ s'.
                    IsChosen s'.options
                    × ((P : ℕ → ℕ → Bool)
                        → All (OpenOnly (or_groups P gs)) s.options
                        → All (OpenOnly P) s'.options))
                  (λ _ s'. IsChosen s'.options × NoneOpen (posted_in s.board sprint) s'.options)
                  (decide_groups outside rules routing gs no_pass s)
                  (decide_groups-Run outside rules routing gs no_pass s
                    (group_by_artifact-Distinct (rank_options (open_options_for_sprint sprint s)))
                    (group_by_artifact-IsOwn (rank_options (open_options_for_sprint sprint s)))
                    chosen (all-free chosen))
                  (λ _ s' h. (
                    h.0,
                    All-mono (OpenOnly unposted)
                        (λ o.
                          posted_in s.board sprint o.artifact ≡ true → is_opened o.state ≡ false)
                        (λ o k posted. ground (arith, k)) s'.options (h.1 unposted all-waiting),
                  )))
        ]
