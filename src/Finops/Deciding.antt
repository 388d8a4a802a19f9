-- ===== src/Finops/Deciding.antt =====
-- The loop of a pass, deliverable by deliverable: it keeps every choice that was made, and leaves no
-- option of the deliverables that it has been through open.
use costcrew.Base.{
  ◌≡◌, refl, sym, subst, ℕ, Bool, true, false, ◌||◌, ◌&&◌, Option, List, [], ◌∷◌, Text, codes, All,
  All-mono, All-both, any, ==_iff, ◌==◌, arith, Bool-cases, inl, inr, mem_id, Distinct,
}
use costcrew.Base.Calls.{Run, Run-after, Run-mono, Run-checked, for_each}
use costcrew.Money.Amount.{Cents}
use costcrew.Crew.Options.Table.{OptionRow, Store, is_opened, option_is}
use costcrew.Crew.Options.Marks.{mark_option_carried}
use costcrew.Crew.Options.Rows.{same_key}
use costcrew.Crew.Options.Choice.{Undecided, Decided, IsChosen}
use costcrew.Crew.Options.Answer.{own_act}
use costcrew.Finops.Apply.{Outside, owner_of_option, apply}
use costcrew.Finops.Rank.{Group}
use costcrew.Finops.Routing.{Routing}
use costcrew.Finops.Supervise.{Pass, Rules, recorded_figure, anomaly_of_option, may_apply}
use costcrew.Finops.Pass.{carry_group, apply_top, decide_group, decide_groups}
use costcrew.Finops.Groups.{ids, IsOwn}
use costcrew.Finops.Applying.{HasChosen, opened_live}
use costcrew.Finops.Chosen.{apply_as-Run}
use costcrew.Finops.Carrying.{Carries, carry_rows-Run}

-- An open option is one that the test names.
abbrev pub OpenOnly : (ℕ → ℕ → Bool) → OptionRow → Type 0
OpenOnly P o = is_opened o.state ≡ true → P o.artifact o.ordinal ≡ true

abbrev pub in_rows : List OptionRow → ℕ → ℕ → Bool
in_rows rs a n = any (λ r. (a == r.artifact) && (n == r.ordinal)) rs

abbrev pub or_in : (ℕ → ℕ → Bool) → List OptionRow → ℕ → ℕ → Bool
or_in P rs a n = P a n || in_rows rs a n

-- What deciding one deliverable does to the table.
pub record Decides (g : Group) (before now : List OptionRow) : Type 0 where
  pub chosen : IsChosen now
  pub others : (b : ℕ) → (g.0 == b) ≡ false → All (Undecided b) before → All (Undecided b) now
  pub unopened : (P : ℕ → ℕ → Bool) → All (OpenOnly (or_in P g.1)) before → All (OpenOnly P) now

in_rows-own :
    (id a n : ℕ) (rs : List OptionRow)
    → All (λ o. o.artifact ≡ id) rs
    → (a == id) ≡ false
    → in_rows rs a n ≡ false
in_rows-own id a n [] own differs = refl
in_rows-own id a n (r ∷ rs) own differs =
    ground (arith, in_rows-own id a n rs own.1 differs, ==_iff a id, ==_iff a r.artifact, own.0)

Carries-Decides :
    (g : Group) (before now : List OptionRow) → Carries g.0 g.1 before now → Decides g before now
unfolding same_key option_is
Carries-Decides g before now c = record {
  chosen = c.chosen;
  others = c.others;
  unopened = c.unopened;
}

module _ (top : OptionRow) (others : List OptionRow) where
  HasChosen-Decides :
      (before now : List OptionRow)
      → All (λ o. o.artifact ≡ top.artifact) others
      → HasChosen top before now
      → Decides (top.artifact, top ∷ others) before now
  HasChosen-Decides before now own h = record {
    chosen = h.chosen;
    others = h.others;
    unopened = λ P only.
        All-mono (λ o. Decided top.artifact top.ordinal o × OpenOnly (or_in P (top ∷ others)) o)
          (OpenOnly P)
          (λ o k is_open. elim (Bool-cases (o.artifact == top.artifact)) [
            | inl here ↦ ground (arith, (k.0 here).0, opened_live o.state is_open)
            | inr elsewhere ↦ ground (
              arith,
              k.1 is_open,
              in_rows-own top.artifact o.artifact o.ordinal (top ∷ others) (refl, own) elsewhere,
            )
          ])
          now
          (All-both (Decided top.artifact top.ordinal) (OpenOnly (or_in P (top ∷ others))) now
            h.closed (h.unopened (or_in P (top ∷ others)) only));
  }

-- An option that is still open is named by the test, or waits in a group.
abbrev pub or_groups : (ℕ → ℕ → Bool) → List Group → ℕ → ℕ → Bool
or_groups P [] = P
or_groups P (g ∷ gs) = or_in (or_groups P gs) g.1

abbrev pub AllFree : List OptionRow → List Group → Type 0
AllFree os gs = All (λ g. All (Undecided g.0) os) gs

free_rest :
    (g : Group) (gs : List Group) (before now : List OptionRow)
    → mem_id g.0 (ids gs) ≡ false
    → ((b : ℕ) → (g.0 == b) ≡ false → All (Undecided b) before → All (Undecided b) now)
    → AllFree before gs
    → AllFree now gs
free_rest g [] before now new keep h = tt
free_rest g (x ∷ gs) before now new keep h = (
  keep x.0 (ground (arith, ==_iff g.0 x.0, ==_iff x.0 g.0)) h.0,
  free_rest g gs before now (ground arith) keep h.1,
)

module _ {F W : Type 0} (outside : Outside W) (rules : Rules) (routing : Routing) where
  abbrev Kept : Store F W → Type 0
  Kept s = IsChosen s.options

  carry_group-Run :
      (id : ℕ) (top : OptionRow) (group : List OptionRow) (recorded : Option Cents) (p : Pass)
      (s : Store F W)
      → All (λ o. o.artifact ≡ id) group
      → IsChosen s.options
      → All (Undecided id) s.options
      → Run Kept
          (λ _ s'. Decides (id, group) s.options s'.options)
          (carry_group outside rules routing id top group recorded p s)
  unfolding carry_group
  carry_group-Run id top group recorded p s own chosen free =
      Run-checked Kept (λ _ s'. Decides (id, group) s.options s'.options) (owner_of_option top s) s
        _ chosen
        (λ owner _.
          Run-after Kept (λ _ s'. Carries id group s.options s'.options)
            (λ _ s'. Decides (id, group) s.options s'.options)
            (for_each (λ o. mark_option_carried o.artifact o.ordinal rules.now) group s) _
            (carry_rows-Run rules.now id group s own chosen free)
            (λ _ s'. Carries-Decides (id, group) s.options s'.options))

  apply_top-Run :
      (top : OptionRow) (others : List OptionRow) (anomaly : Text) (p : Pass) (s : Store F W)
      → All (λ o. o.artifact ≡ top.artifact) others
      → IsChosen s.options
      → All (Undecided top.artifact) s.options
      → Run Kept
          (λ _ s'. Decides (top.artifact, top ∷ others) s.options s'.options)
          (apply_top outside rules top anomaly p s)
  unfolding apply_top
  apply_top-Run top others anomaly p s own chosen free =
      Run-after Kept (λ _ s'. HasChosen top s.options s'.options)
        (λ _ s'. Decides (top.artifact, top ∷ others) s.options s'.options)
        (apply outside rules.today rules.now top (codes "supervisor") s) _
        (apply_as-Run outside rules.today rules.now top (own_act (codes "supervisor")) s chosen
          free)
        (λ _ s'. HasChosen-Decides top others s.options s'.options own)

  -- Whichever way a deliverable is decided.
  decide_group-Run :
      (g : Group) (p : Pass) (s : Store F W)
      → IsOwn g
      → IsChosen s.options
      → All (Undecided g.0) s.options
      → Run Kept (λ _ s'. Decides g s.options s'.options) (decide_group outside rules routing g p s)
  unfolding decide_group
  decide_group-Run (id, []) p s own chosen free = record {
    chosen = chosen;
    others = λ b differs h. h;
    unopened = λ P h.
        All-mono (OpenOnly (or_in P [])) (OpenOnly P) (λ o k is_open. ground (arith, k is_open))
          s.options h;
  }
  decide_group-Run (id, top ∷ others) p s own chosen free =
      let done : Pass → Store F W → Type 0 =
        λ _ s'. Decides (id, top ∷ others) s.options s'.options in
      Run-checked Kept done (recorded_figure top s) s _ chosen (λ recorded _.
        Run-checked Kept done (anomaly_of_option top s) s _ chosen (λ anomaly _.
          elim (Bool-cases (may_apply rules routing p.settled id top recorded anomaly)) [
            | inl allowed ↦ rw allowed (
                subst
                  (λ a.
                    Run Kept (λ _ s'. Decides (a, top ∷ others) s.options s'.options)
                      (apply_top outside rules top anomaly p s))
                  own.0
                  (apply_top-Run top others anomaly p s
                    (subst (λ a. All (λ o. o.artifact ≡ a) others) (sym own.0) own.1) chosen
                    (subst (λ a. All (Undecided a) s.options) (sym own.0) free)))
            | inr held ↦
                rw held (carry_group-Run id top (top ∷ others) recorded p s own chosen free)
          ]))

  pub decide_groups-Run :
      (gs : List Group) (p : Pass) (s : Store F W)
      → Distinct (ids gs)
      → All IsOwn gs
      → IsChosen s.options
      → AllFree s.options gs
      → Run Kept
          (λ _ s'.
            IsChosen s'.options
            × ((P : ℕ → ℕ → Bool)
                → All (OpenOnly (or_groups P gs)) s.options
                → All (OpenOnly P) s'.options))
          (decide_groups outside rules routing gs p s)
  unfolding decide_groups
  decide_groups-Run [] p s distinct own chosen free = (chosen, λ P h. h)
  decide_groups-Run (g ∷ gs) p s distinct own chosen free =
      let Done : List OptionRow → List OptionRow → Type 0 = λ os last.
        IsChosen last
        × ((P : ℕ → ℕ → Bool) → All (OpenOnly (or_groups P gs)) os → All (OpenOnly P) last) in
      let All_done : Pass → Store F W → Type 0 = λ _ s'.
        IsChosen s'.options
        × ((P : ℕ → ℕ → Bool)
            → All (OpenOnly (or_groups P (g ∷ gs))) s.options
            → All (OpenOnly P) s'.options) in
      Run-after Kept (λ _ s'. Decides g s.options s'.options) All_done
        (decide_group outside rules routing g p s) _ (decide_group-Run g p s own.0 chosen free.0)
        (λ p' s1 one.
          Run-mono Kept (λ _ s'. Done s1.options s'.options) All_done
            (decide_groups outside rules routing gs p' s1)
            (decide_groups-Run gs p' s1 distinct.1 own.1 one.chosen
              (free_rest g gs s.options s1.options distinct.0 one.others free.1))
            (λ _ s' rest. (rest.0, λ P h. rest.1 P (one.unopened (or_groups P gs) h))))
