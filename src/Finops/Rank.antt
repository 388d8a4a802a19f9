-- ===== src/Finops/Rank.antt =====
-- rankOptions and groupByArtifact of internal/finops/supervise.go.
use costcrew.Base.{
  ◌≡◌, arith, true, false, ℕ, Bool, List, [], ◌∷◌, ◌++◌, Text, codes, text_eq, if◌then◌else◌, ltb,
  ◌==◌, ltb_ℤ, eq_ℤ, sort,
}
use costcrew.Crew.Options.Table.{OptionRow}

unfoldable pub risk_rank : Text → ℕ
risk_rank risk =
    if text_eq risk (codes "low")
    then 0
    else if text_eq risk (codes "medium")
    then 1
    else if text_eq risk (codes "high")
    then 2
    else 3

-- The comparison that sort.SliceStable is given.
unfoldable pub ranks_before : OptionRow → OptionRow → Bool
ranks_before o p =
    if eq_ℤ o.saving_cents p.saving_cents
    then ltb (risk_rank o.risk) (risk_rank p.risk)
    else ltb_ℤ p.saving_cents o.saving_cents

unfoldable pub rank_options : List OptionRow → List OptionRow
rank_options opts = sort ranks_before opts

-- A deliverable with its options, in the order of the first of each.
abbrev pub Group : Type 0
Group = ℕ × List OptionRow

-- One turn of the loop: the option joins its deliverable's group, or starts it.
unfoldable pub join_group : OptionRow → List Group → List Group
join_group o [] = (o.artifact, o ∷ []) ∷ []
join_group o ((id, group) ∷ gs) =
    let rest = join_group o gs in
    if id == o.artifact then (id, group ++ o ∷ []) ∷ gs else (id, group) ∷ rest

unfoldable pub group_from : List Group → List OptionRow → List Group
group_from gs [] = gs
group_from gs (o ∷ os) = group_from (join_group o gs) os

unfoldable pub group_by_artifact : List OptionRow → List Group
group_by_artifact ranked = group_from [] ranked

pub ranks_before_asym : (o p : OptionRow) → ranks_before o p ≡ true → ranks_before p o ≡ false
unfolding ranks_before
ranks_before_asym o p h = ground arith

pub ranks_before_trans :
    (o p q : OptionRow)
    → ranks_before p o ≡ false
    → ranks_before q p ≡ false
    → ranks_before q o ≡ false
unfolding ranks_before
ranks_before_trans o p q h k = ground arith
