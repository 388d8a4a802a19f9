-- ===== src/Finops/Ranked.antt =====
-- What groupByArtifact makes of the ranked options, and the option that a pass takes of a deliverable.
use costcrew.Base.{
  ℕ, ◌≡◌, refl, sym, ◌∙◌, ap, subst, Bool, true, false, ◌||◌, List, [], ◌∷◌, ◌++◌, All, All-both,
  All-mono, IsSorted, sort-IsSorted, select-IsSorted, sort-All, select-All, select, any, any-sort,
  All-any, append_nil, append_assoc, is_empty, arith, Bool-cases, inl, inr, ◌==◌, eq_ℤ, ◌≤ℤ◌, ◌≤◌,
  if◌then◌else◌,
}
use costcrew.Crew.Options.Table.{OptionRow}
use costcrew.Finops.Rank.{
  ranks_before, ranks_before_asym, ranks_before_trans, rank_options, Group, join_group, group_from,
  group_by_artifact, risk_rank,
}

abbrev pub is_of : ℕ → OptionRow → Bool
is_of id o = o.artifact == id

-- The first group of a deliverable.
abbrev group_of : ℕ → List Group → List OptionRow
group_of id [] = []
group_of id ((j, group) ∷ gs) = if j == id then group else group_of id gs

join_group-group_of :
    (id : ℕ) (o : OptionRow) (gs : List Group)
    → group_of id (join_group o gs) ≡ group_of id gs ++ select (is_of id) (o ∷ [])
unfolding join_group
join_group-group_of id o [] = refl
join_group-group_of id o ((j, group) ∷ gs) = elim (Bool-cases (j == o.artifact)) [
  | inl joins ↦ elim (Bool-cases (o.artifact == id)) [
    | inl own ↦
        let here : (j == id) ≡ true = ground (arith, joins, own) in rw (joins, here, own) refl
    | inr other ↦
        let away : (j == id) ≡ false = ground (arith, joins, other) in
        rw (joins, away, other) (sym (append_nil (group_of id gs)))
  ]
  | inr further ↦ elim (Bool-cases (j == id)) [
    | inl here ↦
        let other : (o.artifact == id) ≡ false = ground (arith, further, here) in
        rw (further, here, other) (sym (append_nil group))
    | inr away ↦ rw (further, away) (join_group-group_of id o gs)
  ]
]

select-cons :
    (id : ℕ) (o : OptionRow) (os : List OptionRow)
    → select (is_of id) (o ∷ []) ++ select (is_of id) os ≡ select (is_of id) (o ∷ os)
select-cons id o os = ground arith

-- A group has all the options of its deliverable, in their order.
group_from-group_of :
    (id : ℕ) (gs : List Group) (os : List OptionRow)
    → group_of id (group_from gs os) ≡ group_of id gs ++ select (is_of id) os
unfolding group_from
group_from-group_of id gs [] = sym (append_nil (group_of id gs))
group_from-group_of id gs (o ∷ os) =
    group_from-group_of id (join_group o gs) os
    ∙ ap (λ l. l ++ select (is_of id) os) (join_group-group_of id o gs)
    ∙ append_assoc (group_of id gs) (select (is_of id) (o ∷ [])) (select (is_of id) os)
    ∙ ap (λ l. group_of id gs ++ l) (select-cons id o os)

-- No two groups are of one deliverable, and no group is empty.
abbrev Distinct : List Group → Type 0
Distinct [] = Unit
Distinct (g ∷ gs) = All (λ h. (h.0 == g.0) ≡ false) gs × (is_empty g.1 ≡ false) × Distinct gs

join_group-apart :
    (id : ℕ) (o : OptionRow) (gs : List Group)
    → (o.artifact == id) ≡ false
    → All (λ h. (h.0 == id) ≡ false) gs
    → All (λ h. (h.0 == id) ≡ false) (join_group o gs)
unfolding join_group
join_group-apart id o [] other h = (other, tt)
join_group-apart id o ((j, group) ∷ gs) other h = elim (Bool-cases (j == o.artifact)) [
  | inl joins ↦ rw joins (h.0, h.1)
  | inr further ↦ rw further (h.0, join_group-apart id o gs other h.1)
]

snoc-is_empty : (group : List OptionRow) (o : OptionRow) → is_empty (group ++ o ∷ []) ≡ false
snoc-is_empty [] o = refl
snoc-is_empty (x ∷ group) o = refl

join_group-Distinct : (o : OptionRow) (gs : List Group) → Distinct gs → Distinct (join_group o gs)
unfolding join_group
join_group-Distinct o [] h = (tt, refl, tt)
join_group-Distinct o ((j, group) ∷ gs) h = elim (Bool-cases (j == o.artifact)) [
  | inl joins ↦ rw joins (h.0, snoc-is_empty group o, h.2)
  | inr further ↦
      let other : (o.artifact == j) ≡ false = ground (arith, further) in
      rw further (join_group-apart j o gs other h.0, h.1, join_group-Distinct o gs h.2)
]

group_from-Distinct :
    (gs : List Group) (os : List OptionRow) → Distinct gs → Distinct (group_from gs os)
unfolding group_from
group_from-Distinct gs [] h = h
group_from-Distinct gs (o ∷ os) h =
    group_from-Distinct (join_group o gs) os (join_group-Distinct o gs h)

-- Each group is the one that its deliverable has.
Distinct-group_of :
    (gs : List Group) → Distinct gs → All (λ g. (group_of g.0 gs ≡ g.1) × (is_empty g.1 ≡ false)) gs
Distinct-group_of [] h = tt
Distinct-group_of (g ∷ gs) h = (
  (ground arith, h.1),
  All-mono (λ k. ((k.0 == g.0) ≡ false) × ((group_of k.0 gs ≡ k.1) × (is_empty k.1 ≡ false)))
      (λ k. (group_of k.0 (g ∷ gs) ≡ k.1) × (is_empty k.1 ≡ false))
      (λ k r. let away : (g.0 == k.0) ≡ false = ground (arith, r.0) in (rw away (r.1.0), r.1.1)) gs
      (All-both (λ k. (k.0 == g.0) ≡ false) (λ k. (group_of k.0 gs ≡ k.1) × (is_empty k.1 ≡ false))
        gs h.0 (Distinct-group_of gs h.2)),
)

join_group-any :
    (id : ℕ) (o : OptionRow) (gs : List Group)
    → any (λ g. g.0 == id) (join_group o gs) ≡ (any (λ g. g.0 == id) gs || is_of id o)
unfolding join_group
join_group-any id o [] = ground arith
join_group-any id o ((j, group) ∷ gs) = ground (arith, join_group-any id o gs)

group_from-any :
    (id : ℕ) (gs : List Group) (os : List OptionRow)
    → any (λ g. g.0 == id) (group_from gs os) ≡ (any (λ g. g.0 == id) gs || any (is_of id) os)
unfolding group_from
group_from-any id gs [] = ground arith
group_from-any id gs (o ∷ os) =
    ground (arith, group_from-any id (join_group o gs) os, join_group-any id o gs)

-- The second saves no more, and where it saves as much its risk is no lower.
abbrev pub IsNoBetter : OptionRow → OptionRow → Type 0
IsNoBetter top o =
    (o.saving_cents ≤ℤ top.saving_cents)
    × (eq_ℤ o.saving_cents top.saving_cents ≡ true → risk_rank top.risk ≤ risk_rank o.risk)

to_IsNoBetter : (top o : OptionRow) → ranks_before o top ≡ false → IsNoBetter top o
unfolding ranks_before
to_IsNoBetter top o h = (ground arith, λ same. ground arith)

ranks_before_self : (o : OptionRow) → ranks_before o o ≡ false
unfolding ranks_before
ranks_before_self o = ground arith

-- The first of a deliverable's options, of which no other in the list is better.
abbrev pub IsBestFirst : List OptionRow → ℕ → List OptionRow → Type 0
IsBestFirst os id [] = ⊥
IsBestFirst os id (top ∷ others) = All (λ o. is_of id o ≡ true → IsNoBetter top o) os

to_IsBestFirst :
    (os : List OptionRow) (id : ℕ) (group : List OptionRow)
    → group ≡ select (is_of id) (rank_options os)
    → is_empty group ≡ false
    → IsBestFirst os id group
unfolding rank_options
to_IsBestFirst os id [] whole full = cc
to_IsBestFirst os id (top ∷ others) whole full =
    let sorted : IsSorted ranks_before (top ∷ others) = subst (IsSorted ranks_before) (sym whole) (
      select-IsSorted ranks_before (is_of id) (rank_options os)
        (sort-IsSorted ranks_before ranks_before_asym ranks_before_trans os)) in
    let best : All (IsNoBetter top) (top ∷ others) = (
      to_IsNoBetter top top (ranks_before_self top),
      All-mono (λ o. ranks_before o top ≡ false) (IsNoBetter top) (to_IsNoBetter top) others
          sorted.0,
    ) in
    sort-All (λ o. is_of id o ≡ true → IsNoBetter top o) ranks_before os
      (select-All (IsNoBetter top) (is_of id) (rank_options os)
        (subst (All (IsNoBetter top)) whole best))

-- Every option is of a deliverable that has a group. A group has all the options of its deliverable,
-- in the order of the ranking. Its first, with which a pass decides the deliverable, is one of those
-- that save the most, and no option that saves as much has a lower risk.
pub group_by_artifact-IsBestFirst :
    (os : List OptionRow)
    → let groups = group_by_artifact (rank_options os) in
      All (λ o. any (λ g. g.0 == o.artifact) groups ≡ true) os
      × All (λ g. (g.1 ≡ select (is_of g.0) (rank_options os)) × IsBestFirst os g.0 g.1) groups
unfolding group_by_artifact rank_options
group_by_artifact-IsBestFirst os =
    let groups = group_from [] (rank_options os) in
    (
      All-mono (λ o. ((o.artifact == o.artifact) ≡ true) → any (is_of o.artifact) os ≡ true)
          (λ o. any (λ g. g.0 == o.artifact) groups ≡ true)
          (λ o h.
            group_from-any o.artifact [] (rank_options os)
            ∙ any-sort ranks_before (is_of o.artifact) os
            ∙ h (ground arith))
          os (All-any (λ x y. x.artifact == y.artifact) os),
      All-mono (λ g. (group_of g.0 groups ≡ g.1) × (is_empty g.1 ≡ false))
          (λ g. (g.1 ≡ select (is_of g.0) (rank_options os)) × IsBestFirst os g.0 g.1)
          (λ g h.
            let whole : g.1 ≡ select (is_of g.0) (rank_options os) =
              sym (h.0) ∙ group_from-group_of g.0 [] (rank_options os) in
            (whole, to_IsBestFirst os g.0 g.1 whole h.1))
          groups (Distinct-group_of groups (group_from-Distinct [] (rank_options os) tt)),
    )
