-- ===== src/Crew/Roles/Defs.antt =====
-- internal/crew/roles.go: which link or role may decide a class. The YAML file is decoded by a
-- package outside the repository, so its contents are a value. A reason that the code formats as a
-- sentence is a constructor with what the sentence names.
use costcrew.Base.{
  Bool, true, false, Option, none, some, List, [], ◌∷◌, Text, codes, text_eq, if◌then◌else◌, find,
}
use costcrew.Money.Amount.{Cents}

-- The owner of a class, or the link of a role.
pub data Link : Type 0 where
  analyst supervisor owner nobody : Link

pub record JobClass : Type 0 where
  pub id : Text
  pub owner : Link
  pub up_to : Text

pub record JobDescription : Type 0 where
  pub family : Text
  pub matches : List Text
  pub link : Link
  pub decides_alone : List Text
  pub hands_up : List Text

pub record RolesFile : Type 0 where
  pub classes : List JobClass
  pub roles : List JobDescription

unfoldable pub mem_text : Text → List Text → Bool
mem_text s [] = false
mem_text s (t ∷ l) = let rest = mem_text s l in if text_eq t s then true else rest

-- By family first, then by a roster name. No name in roles.yaml has a wildcard in it, so
-- path.Match is equality.
unfoldable pub role_for : RolesFile → Text → Option JobDescription
role_for rf name = elim (find (λ r. text_eq r.family name) rf.roles) [
  | some r ↦ some r
  | none ↦ find (λ r. mem_text name r.matches) rf.roles
]

unfoldable pub class_for : RolesFile → Text → Option JobClass
class_for rf id = find (λ c. text_eq c.id id) rf.classes

pub data Refusal : Type 0 where
  no_class : Text → Refusal
  never_decided : Text → Refusal
  others_decide : Link → Refusal
  no_role : Text → Refusal
  hands_up_to : Text → Link → Refusal
  no_option_select : Text → Refusal

-- The bool and the reason of MayDecide.
pub data Answer : Type 0 where
  may : Answer
  may_not : Refusal → Answer

abbrev pub is_may : Answer → Bool
is_may may = true
is_may (may_not _) = false

unfoldable pub link_eq : Link → Link → Bool
link_eq analyst analyst = true
link_eq supervisor supervisor = true
link_eq owner owner = true
link_eq nobody nobody = true
link_eq _ _ = false

-- The switch on a literal link name.
unfoldable pub link_named : Text → Option Link
link_named role =
    if text_eq role (codes "owner")
    then some owner
    else if text_eq role (codes "analyst")
    then some analyst
    else if text_eq role (codes "supervisor")
    then some supervisor
    else none

unfoldable pub role_answer : RolesFile → Text → JobClass → Answer
role_answer rf role c = elim (role_for rf role) [
  | none ↦ may_not (no_role role)
  | some r ↦ if mem_text c.id r.decides_alone then may else may_not (hands_up_to r.family c.owner)
]

abbrev pub link_answer : Link → Link → Answer
link_answer owner _ = may
link_answer link o = if link_eq o link then may else may_not (others_decide o)

unfoldable pub class_answer : RolesFile → Text → JobClass → Answer
class_answer rf role c =
    if link_eq c.owner nobody then may_not (never_decided c.id) else (elim (link_named role) [
      | some link ↦ link_answer link c.owner
      | none ↦ role_answer rf role c
    ])

unfoldable pub may_decide : RolesFile → Text → Text → Answer
may_decide rf role class = elim (class_for rf class) [
  | none ↦ may_not (no_class class)
  | some c ↦ class_answer rf role c
]

unfoldable pub supervisor_may_select : RolesFile → Text → Answer
supervisor_may_select rf class = elim (class_for rf class) [
  | none ↦ may_not (no_class class)
  | some c ↦
      if link_eq c.owner analyst
      then (elim (role_for rf (codes "supervisor")) [
        | none ↦ may_not (no_role (codes "supervisor"))
        | some r ↦
            if mem_text (codes "option.select") r.decides_alone
            then may
            else may_not (no_option_select class)
      ])
      else may_decide rf (codes "supervisor") class
]

-- none where the second result is false
unfoldable pub escalates : RolesFile → Text → Text → Option Link
escalates rf role class =
    if is_may (may_decide rf role class) then none else (elim (class_for rf class) [
      | none ↦ none
      | some c ↦ if link_eq c.owner nobody then none else some c.owner
    ])

-- The fields of a threshold that the code reads.
pub record Threshold : Type 0 where
  pub name : Text
  pub value : Text
  pub value_cents : Cents

unfoldable pub threshold_for : List Threshold → Text → Option Threshold
threshold_for thresholds name = find (λ t. text_eq t.name name) thresholds
