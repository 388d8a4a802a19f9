-- ===== src/Crew/Roles/Tests.antt =====
-- The shipped job descriptions, asked.
use mathlib.Core.Option
use costcrew.Base.{◌≡◌, refl, false, codes, some}
use costcrew.Crew.Roles.Defs.{
  owner, may, is_may, class_for, link_eq, may_decide, escalates, JobClass, class_answer, link_named,
  role_answer, role_for, mem_text,
}
use costcrew.Crew.Roles.Table.{roles}
use costcrew.Crew.Roles.Mandate.{link_name, escalates_to}

-- What a question computes through.
asking : Unit {0}
unfolding may_decide class_for class_answer link_named link_eq role_answer role_for mem_text
asking = tt

abbrev budget_set : JobClass
budget_set = record { id = codes "budget.set"; owner = owner; up_to = codes "" }

escalates_to_example :
    (is_may (may_decide roles (codes "supervisor") (codes "budget.set")) ≡ false)
    × (Option.map (λ c. c.owner) (class_for roles (codes "budget.set")) ≡ some owner)
    × (may_decide roles (link_name owner) (codes "budget.set") ≡ may)
unfolding escalates asking
escalates_to_example = escalates_to roles (codes "supervisor") (codes "budget.set") refl
