-- ===== src/Finops/Pass.antt =====
-- Supervise of internal/finops/supervise.go: one pass over the open options of a sprint's posted
-- deliverables. `render` writes the body of a decision request, `days_between` counts the days from
-- a date to another, and `fresh` is the id that the database gives a new row.
use costcrew.Base.{
  ℕ, not, Option, none, some, List, [], ◌∷◌, ◌++◌, Text, codes, text_eq, if◌then◌else◌, is_empty,
  map, any, length, ltb, ok, err, select, Bool, sort, text_leb,
}
use costcrew.Base.Calls.{Call, ◌>>=◌, ◌>>◌, give, checked, read, for_each}
use costcrew.Money.Amount.{Cents}
use costcrew.Crew.Halts.Desk.{DeskHalt, sort_texts}
use costcrew.Crew.Board.Requests.{existing_lapses, write_decision_request}
use costcrew.Crew.Options.Table.{
  OptionRow, decision_requested, Store, StoreError, open_options_for_sprint,
}
use costcrew.Crew.Options.Marks.{tell, mark_option_carried}
use costcrew.Finops.Apply.{Outside, owner_of_option, apply}
use costcrew.Finops.Rank.{Group, rank_options, group_by_artifact}
use costcrew.Finops.Routing.{Note, Routing, redirect_of, contradiction_routing}
use costcrew.Finops.Supervise.{
  Pass, no_pass, hand_to, handed_to, anomaly_of_option, recorded_figure, whole_number_threshold,
  notes_on, Rules, owner_or_unclaimed, may_apply,
}

abbrev pub or_redirected : Option Text → Text → Text
or_redirected none owner = owner
or_redirected (some redirect) _ = redirect

abbrev pub with_notes : Routing → Option Cents → List OptionRow → List (OptionRow × Note)
with_notes routing recorded [] = []
with_notes routing recorded (o ∷ os) = notes_on routing recorded o ++ with_notes routing recorded os

abbrev pub settling : Text → List Text → List Text
settling anomaly settled = if is_empty anomaly then settled else anomaly ∷ settled

-- crew.Halts' ORDER BY desk
abbrev by_desk : DeskHalt → DeskHalt → Bool
by_desk g h = not (text_leb h.desk g.desk)

-- The halts that have lasted, in the order of their desks.
unfoldable pub stale_halts : (Text → Text → ℕ) → Rules → List DeskHalt → List DeskHalt
stale_halts days_between rules halts =
    elim (whole_number_threshold rules.thresholds (codes "T.stale_days")) [
      | none ↦ []
      | some n ↦ select (λ h. not (ltb (days_between h.started rules.today) n)) (sort by_desk halts)
    ]

unfoldable pub halts_by_owner :
    List DeskHalt → List (Text × List DeskHalt) → List (Text × List DeskHalt)
halts_by_owner [] gs = gs
halts_by_owner (h ∷ hs) gs = halts_by_owner hs (hand_to (owner_or_unclaimed h.owner) (h ∷ []) gs)

-- The owners who have options or stale halts, each once, in the order of sort.Strings.
unfoldable pub owners_of : List (Text × List OptionRow) → List (Text × List DeskHalt) → List Text
owners_of options halts = sort_texts (
    map (λ g. g.0) options
    ++ map (λ g. g.0) (select (λ g. not (any (λ o. text_eq o.0 g.0) options)) halts))

-- What one pass did.
pub record Report : Type 0 where
  pub applied : List OptionRow
  pub carried : List OptionRow
  pub requests : List (Text × ℕ)
  pub stale_halts : List DeskHalt

module _ {F W : Type 0} (outside : Outside W) (rules : Rules) where
  unfoldable pub carry_group :
      Routing
      → ℕ
      → OptionRow
      → List OptionRow
      → Option Cents
      → Pass
      → Call (Store F W) StoreError Pass
  carry_group routing id top group recorded p = do
    own ← checked (owner_of_option top)
    for_each (λ o. mark_option_carried o.artifact o.ordinal rules.now) group
    give (record p {
      carried = p.carried ++ group;
      notes = p.notes ++ with_notes routing recorded group;
      by_owner = hand_to (or_redirected (redirect_of routing id) own) group p.by_owner;
    })

  unfoldable pub apply_top : OptionRow → Text → Pass → Call (Store F W) StoreError Pass
  apply_top top anomaly p = do
    apply outside rules.today rules.now top (codes "supervisor")
    give (record p { applied = p.applied ++ top ∷ []; settled = settling anomaly p.settled })

  -- One turn of the loop: a deliverable's whole choice. A group is never empty.
  unfoldable pub decide_group : Routing → Group → Pass → Call (Store F W) StoreError Pass
  decide_group routing (id, []) p = give p
  decide_group routing (id, top ∷ others) p = do
    recorded ← checked (recorded_figure top)
    anomaly ← checked (anomaly_of_option top)
    if may_apply rules routing p.settled id top recorded anomaly
        then apply_top top anomaly p
        else carry_group routing id top (top ∷ others) recorded p

  unfoldable pub decide_groups : Routing → List Group → Pass → Call (Store F W) StoreError Pass
  decide_groups routing [] p = give p
  decide_groups routing (g ∷ gs) p = do p' ← decide_group routing g p; decide_groups routing gs p'

  unfoldable pub decide_sprint : ℕ → Call (Store F W) StoreError Pass
  decide_sprint sprint s =
      let ranked = rank_options (open_options_for_sprint sprint s) in
      elim (contradiction_routing s ranked) [
        | err e ↦ (s, err e)
        | ok routing ↦ decide_groups routing (group_by_artifact ranked) no_pass s
      ]

module _ {F W : Type 0} (outside : Outside W) (rules : Rules) (fresh : List ℕ → ℕ)
    (days_between : Text → Text → ℕ)
    (render : List OptionRow → List (OptionRow × Note) → Text → List DeskHalt → Text) where
  -- The date that the request was first given, if it has one.
  unfoldable pub lapses_of : ℕ → Text → Store F W → Text
  lapses_of sprint owner s = elim (existing_lapses s.board sprint owner) [
    | none ↦ rules.default_lapses
    | some d ↦ if is_empty d then rules.default_lapses else d
  ]

  -- One turn of the loop over the owners.
  unfoldable pub write_request :
      ℕ → Pass → List (Text × List DeskHalt) → Text → Call (Store F W) StoreError (Unit {0})
  write_request sprint p stale owner s =
      let options = handed_to owner p.by_owner in
      let lapses = lapses_of sprint owner s in
      let body = render options p.notes lapses (handed_to owner stale) in
      let written = write_decision_request fresh sprint owner body lapses rules.now s.board in
      (
        tell (decision_requested sprint owner (length options) lapses)
            (record s { board = written.0 }),
        ok tt,
      )

  unfoldable pub supervise : ℕ → Call (Store F W) StoreError Report
  supervise sprint = do
    p ← decide_sprint outside rules sprint
    stale ← read (λ s. stale_halts days_between rules s.halts)
    let by_owner = halts_by_owner stale []
    let owners = owners_of p.by_owner by_owner
    for_each (write_request sprint p by_owner) owners
    give (record {
      applied = p.applied;
      carried = p.carried;
      requests = map (λ o. (o, length (handed_to o p.by_owner))) owners;
      stale_halts = stale;
    })
