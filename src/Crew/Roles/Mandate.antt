-- ===== src/Crew/Roles/Mandate.antt =====
-- Who may decide: the shape of MayDecide's, SupervisorMaySelect's and Escalates' answers.
use mathlib.Core.Option
use costcrew.Base.{
  ◌≡◌, refl, ap, subst, true, false, none, some, Text, codes, arith, Option-cases, Bool-cases, inl,
  inr, ◌⊎◌,
}
use costcrew.Crew.Roles.Defs.{
  Link, analyst, supervisor, owner, nobody, JobClass, RolesFile, class_for, no_class, never_decided,
  may, may_not, is_may, link_eq, link_named, link_answer, class_answer, may_decide,
  supervisor_may_select, escalates,
}

abbrev pub link_name : Link → Text
link_name analyst = codes "analyst"
link_name supervisor = codes "supervisor"
link_name owner = codes "owner"
link_name nobody = codes "nobody"

-- A literal link's own name reads back as the link, for the three that act.
link_named-link_name :
    (link : Link) → link_eq link nobody ≡ false → link_named (link_name link) ≡ some link
unfolding link_named link_eq
link_named-link_name analyst h = refl
link_named-link_name supervisor h = refl
link_named-link_name owner h = refl
link_named-link_name nobody h = cc

link_answer_own : (link : Link) → link_answer link link ≡ may
unfolding link_eq
link_answer_own analyst = refl
link_answer_own supervisor = refl
link_answer_own owner = refl
link_answer_own nobody = refl

module _ (rf : RolesFile) where
  -- The owner decides every class that the file lists, but for a class that nobody decides, which
  -- is refused to every role.
  pub owner_decides :
      (class : Text) {c : JobClass}
      → class_for rf class ≡ some c
      → (link_eq c.owner nobody ≡ true
          × ((role : Text) → may_decide rf role class ≡ may_not (never_decided c.id)))
        ⊎ (may_decide rf (codes "owner") class ≡ may)
  unfolding may_decide class_answer
  owner_decides class {c} h = elim (Bool-cases (link_eq c.owner nobody)) [
    | inl never ↦ inl (never, λ role. rw (may_decide, h, never) refl)
    | inr decided ↦ inr (rw (may_decide, h, decided) (unfold link_named in refl))
  ]

  owner_may :
      (class : Text) {c : JobClass}
      → class_for rf class ≡ some c
      → link_eq c.owner nobody ≡ false
      → may_decide rf (link_name c.owner) class ≡ may
  unfolding may_decide class_answer
  owner_may class {c} h d =
      rw (may_decide, h, d, link_named-link_name c.owner d) (link_answer_own c.owner)

  -- Where a decision goes up, the role that asked may not take it, and the link that it goes to is
  -- the class's owner and may.
  pub escalates_to :
      (role class : Text) {link : Link}
      → escalates rf role class ≡ some link
      → (is_may (may_decide rf role class) ≡ false)
        × (Option.map (λ c. c.owner) (class_for rf class) ≡ some link)
        × (may_decide rf (link_name link) class ≡ may)
  unfolding escalates
  escalates_to role class {link} h = elim (Bool-cases (is_may (may_decide rf role class))) [
    | inl allowed ↦ ground (arith, allowed)
    | inr refused ↦ elim (Option-cases (class_for rf class)) [
      | inl unknown ↦ ground (arith, refused, unknown)
      | inr (c, known) ↦ elim (Bool-cases (link_eq c.owner nobody)) [
        | inl never ↦ ground (arith, refused, known, never)
        | inr decided ↦
            let owned : c.owner ≡ link = ground (arith, refused, known, decided) in
            (
              refused,
              rw known (ap some owned),
              subst (λ l. may_decide rf (link_name l) class ≡ may) owned
                  (owner_may class known decided),
            )
      ]
    ]
  ]

  -- A class that the file does not list is refused to every role and goes nowhere.
  pub unlisted :
      (role class : Text)
      → class_for rf class ≡ none
      → (may_decide rf role class ≡ may_not (no_class class))
        × (supervisor_may_select rf class ≡ may_not (no_class class))
        × (escalates rf role class ≡ none)
  unfolding may_decide supervisor_may_select escalates
  unlisted role class h = ground (arith, h)
