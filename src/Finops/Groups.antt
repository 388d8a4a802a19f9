-- ===== src/Finops/Groups.antt =====
-- The groups of a pass: one for each deliverable, each of that deliverable's options, and between
-- them all the options.
use costcrew.Base.{
  ◌≡◌, refl, ◌∙◌, sym, ℕ, Bool, true, ◌||◌, List, [], ◌∷◌, map, any, any-append, any-sort, All,
  All-mono, All-append, mem_id, Distinct, ==_iff, ◌==◌, arith, Bool-cases, inl, inr,
}
use costcrew.Crew.Options.Table.{OptionRow}
use costcrew.Finops.Rank.{
  Group, join_group, group_from, group_by_artifact, rank_options, ranks_before,
}

abbrev pub ids : List Group → List ℕ
ids gs = map (λ g. g.0) gs

abbrev pub IsOwn : Group → Type 0
IsOwn g = All (λ o. o.artifact ≡ g.0) g.1

abbrev pub any_of : (OptionRow → Bool) → List Group → Bool
any_of p gs = any (λ g. any p g.1) gs

mem_id-join_group :
    (x : ℕ) (o : OptionRow) (gs : List Group)
    → mem_id x (ids (join_group o gs)) ≡ (mem_id x (ids gs) || (o.artifact == x))
unfolding join_group
mem_id-join_group x o [] = ground arith
mem_id-join_group x o ((id, group) ∷ gs) = elim (Bool-cases (id == o.artifact)) [
  | inl joins ↦ rw joins (ground (arith, ==_iff id o.artifact, ==_iff id x, ==_iff o.artifact x))
  | inr further ↦ rw further (ground (arith, mem_id-join_group x o gs))
]

join_group-Distinct :
    (o : OptionRow) (gs : List Group) → Distinct (ids gs) → Distinct (ids (join_group o gs))
unfolding join_group
join_group-Distinct o [] h = (refl, tt)
join_group-Distinct o ((id, group) ∷ gs) h = elim (Bool-cases (id == o.artifact)) [
  | inl joins ↦ rw joins h
  | inr further ↦ rw further (
    mem_id-join_group id o gs ∙ ground (arith, ==_iff id o.artifact, ==_iff o.artifact id, h.0),
    join_group-Distinct o gs h.1,
  )
]

join_group-IsOwn : (o : OptionRow) (gs : List Group) → All IsOwn gs → All IsOwn (join_group o gs)
unfolding join_group
join_group-IsOwn o [] h = ((refl, tt), tt)
join_group-IsOwn o ((id, group) ∷ gs) h = elim (Bool-cases (id == o.artifact)) [
  | inl joins ↦ rw joins (
    All-append (λ x. x.artifact ≡ id) group (o ∷ []) h.0 (sym ((==_iff id o.artifact).0 joins), tt),
    h.1,
  )
  | inr further ↦ rw further (h.0, join_group-IsOwn o gs h.1)
]

any-join_group :
    (p : OptionRow → Bool) (o : OptionRow) (gs : List Group)
    → any_of p (join_group o gs) ≡ (any_of p gs || p o)
unfolding join_group
any-join_group p o [] = ground arith
any-join_group p o ((id, group) ∷ gs) = elim (Bool-cases (id == o.artifact)) [
  | inl joins ↦ rw joins (ground (arith, any-append p group (o ∷ [])))
  | inr further ↦ rw further (ground (arith, any-join_group p o gs))
]

group_from-Distinct :
    (gs : List Group) (os : List OptionRow) → Distinct (ids gs) → Distinct (ids (group_from gs os))
unfolding group_from
group_from-Distinct gs [] h = h
group_from-Distinct gs (o ∷ os) h =
    group_from-Distinct (join_group o gs) os (join_group-Distinct o gs h)

group_from-IsOwn :
    (gs : List Group) (os : List OptionRow) → All IsOwn gs → All IsOwn (group_from gs os)
unfolding group_from
group_from-IsOwn gs [] h = h
group_from-IsOwn gs (o ∷ os) h = group_from-IsOwn (join_group o gs) os (join_group-IsOwn o gs h)

any-group_from :
    (p : OptionRow → Bool) (gs : List Group) (os : List OptionRow)
    → any_of p (group_from gs os) ≡ (any_of p gs || any p os)
unfolding group_from
any-group_from p gs [] = ground arith
any-group_from p gs (o ∷ os) =
    any-group_from p (join_group o gs) os ∙ ground (arith, any-join_group p o gs)

mem_id-group_from :
    (x : ℕ) (gs : List Group) (os : List OptionRow)
    → mem_id x (ids (group_from gs os)) ≡ (mem_id x (ids gs) || any (λ o. o.artifact == x) os)
unfolding group_from
mem_id-group_from x gs [] = ground arith
mem_id-group_from x gs (o ∷ os) =
    mem_id-group_from x (join_group o gs) os ∙ ground (arith, mem_id-join_group x o gs)

pub All-mem_id : (gs : List Group) → All (λ g. mem_id g.0 (ids gs) ≡ true) gs
All-mem_id [] = tt
All-mem_id (g ∷ gs) = (
  rw ((==_iff g.0 g.0).1 refl) refl,
  All-mono (λ x. mem_id x.0 (ids gs) ≡ true) (λ x. mem_id x.0 (ids (g ∷ gs)) ≡ true)
      (λ x h. ground (arith, h)) gs (All-mem_id gs),
)

module _ (os : List OptionRow) where
  pub mem_id-group_by_artifact :
      (x : ℕ) → mem_id x (ids (group_by_artifact (rank_options os))) ≡ any (λ o. o.artifact == x) os
  unfolding group_by_artifact rank_options
  mem_id-group_by_artifact x =
      mem_id-group_from x [] (rank_options os) ∙ any-sort ranks_before (λ o. o.artifact == x) os

  pub group_by_artifact-Distinct : Distinct (ids (group_by_artifact os))
  unfolding group_by_artifact
  group_by_artifact-Distinct = group_from-Distinct [] os tt

  pub group_by_artifact-IsOwn : All IsOwn (group_by_artifact os)
  unfolding group_by_artifact
  group_by_artifact-IsOwn = group_from-IsOwn [] os tt

  pub any-group_by_artifact :
      (p : OptionRow → Bool) → any_of p (group_by_artifact (rank_options os)) ≡ any p os
  unfolding group_by_artifact rank_options
  any-group_by_artifact p = any-group_from p [] (rank_options os) ∙ any-sort ranks_before p os
