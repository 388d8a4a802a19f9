-- ===== src/Enforce/Proposal.antt =====
-- What a proposed plan holds.
use costcrew.Base.{
  ℕ, ◌+◌, ◌≡◌, refl, subst, Bool, false, not, List, [], ◌∷◌, ◌++◌, Text, if◌then◌else◌, length,
  select, All, All-append, pos, leb_ℤ, ok, arith, Bool-cases, inl, inr, Result-cases, length-append,
  length-select-insert,
}
use costcrew.Money.Amount.{Cents}
use costcrew.Enforce.Plans.{
  Config, is_on, Budgets, lookup, Plane, Change, Plan, by_unit, current, change_of, is_same,
  consider, consider_all, make_plan, count_if,
}

abbrev pub is_budget : Text × Cents → Bool
is_budget e = not (leb_ℤ e.1 (pos 0))

-- A change is of a budget that is one, and that the control plane does not have.
pub record IsNeeded (now : Budgets) (c : Change) : Type 0 where
  pub positive : leb_ℤ c.want (pos 0) ≡ false
  pub differs : is_same c.want c.now ≡ false
  pub read : c.now ≡ lookup c.unit now

-- The plan's counts are those of its changes, each of which is needed.
pub record IsCounted (now : Budgets) (p : Plan) : Type 0 where
  pub needed : All (IsNeeded now) p.changes
  pub lowered : p.lowered ≡ length (select (λ c. c.lowered) p.changes)
  pub added : p.added ≡ length (select (λ c. c.is_new) p.changes)

change-IsNeeded :
    (now : Budgets) (e : Text × Cents)
    → leb_ℤ e.1 (pos 0) ≡ false
    → is_same e.1 (lookup e.0 now) ≡ false
    → IsNeeded now (change_of e (lookup e.0 now))
unfolding change_of
change-IsNeeded now e budget differs = record { positive = budget; differs = differs; read = refl }

counted :
    (q : Change → Bool) (n : ℕ) (l : List Change) (c : Change)
    → n ≡ length (select q l)
    → count_if (q c) n ≡ length (select q (l ++ c ∷ []))
counted q n l c h = elim (Bool-cases (q c)) [
  | inl hit ↦ ground (arith, length-select-insert q c l, h, hit)
  | inr miss ↦ ground (arith, length-select-insert q c l, h, miss)
]

consider-IsCounted :
    (now : Budgets) (e : Text × Cents) (p : Plan)
    → IsCounted now p
    → IsCounted now (consider now e p)
unfolding consider
consider-IsCounted now e p h = elim (Bool-cases (leb_ℤ e.1 (pos 0))) [
  | inl nothing ↦ rw nothing h
  | inr budget ↦ rw budget (elim (Bool-cases (is_same e.1 (lookup e.0 now))) [
    | inl same ↦ rw same (record { needed = h.needed; lowered = h.lowered; added = h.added })
    | inr differs ↦ rw differs (record {
      needed =
          All-append (IsNeeded now) p.changes (_ ∷ []) h.needed
            (change-IsNeeded now e budget differs, tt);
      lowered = counted (λ c. c.lowered) p.lowered p.changes _ h.lowered;
      added = counted (λ c. c.is_new) p.added p.changes _ h.added;
    })
  ])
]

consider_all-IsCounted :
    (now es : Budgets) (p : Plan) → IsCounted now p → IsCounted now (consider_all now es p)
unfolding consider_all
consider_all-IsCounted now [] p h = h
consider_all-IsCounted now (e ∷ es) p h =
    consider_all-IsCounted now es (consider now e p) (consider-IsCounted now e p h)

consider-count :
    (now : Budgets) (e : Text × Cents) (p : Plan)
    → (consider now e p).unchanged + length (consider now e p).changes
      ≡ (if is_budget e then 1 else 0) + (p.unchanged + length p.changes)
unfolding consider
consider-count now e p = ground (arith, length-append p.changes (change_of e (lookup e.0 now) ∷ []))

consider_all-count :
    (now es : Budgets) (p : Plan)
    → (consider_all now es p).unchanged + length (consider_all now es p).changes
      ≡ length (select is_budget es) + (p.unchanged + length p.changes)
unfolding consider_all
consider_all-count now [] p = omega arith
consider_all-count now (e ∷ es) p =
    ground (arith, consider_all-count now es (consider now e p), consider-count now e p)

-- A plan that is proposed has a change or an unchanged budget for each budget that is wanted and
-- positive. Each change is of a positive budget that the control plane, as it was read, does not
-- have; and the counts of lowered and of new budgets are those of the changes.
pub make_plan_counts :
    {R : Type 0} (plane : Plane R) (cfg : Config) (want : Budgets) (r : R) {p : Plan}
    → make_plan plane cfg want r ≡ ok p
    → (now : Budgets) × (current plane r ≡ ok now)
      × IsCounted now p
      × (p.unchanged + length p.changes ≡ length (select is_budget (by_unit want)))
unfolding make_plan
make_plan_counts plane cfg want r {p} h = elim (Bool-cases (is_on cfg)) [
  | inr off ↦ ground (arith, off, h)
  | inl on ↦ elim (Result-cases (current plane r)) [
    | inr (e, unread) ↦ ground (arith, on, unread, h)
    | inl (now, read) ↦
        let start : Plan = record {
          changes = [];
          unchanged = 0;
          lowered = 0;
          added = 0;
          snapshot = now;
        } in
        let made : consider_all now (by_unit want) start ≡ p = ground (arith, on, read, h) in
        (
          now,
          read,
          subst (IsCounted now) made (
              consider_all-IsCounted now (by_unit want) start
                (record { needed = tt; lowered = refl; added = refl })),
          subst (λ q. q.unchanged + length q.changes ≡ length (select is_budget (by_unit want)))
              made (omega (arith, consider_all-count now (by_unit want) start)),
        )
  ]
]
