-- ===== src/Crew/Options/Gate.antt =====
-- ValidateAndSaveOptions of internal/crew/options.go: the gate that a deliverable's options pass when
-- it is saved. `Targets` are the checks of the targets that four classes carry, each with the reason
-- that refuses one.
use costcrew.Base.{
  ℕ, Bool, not, ◌||◌, Option, none, some, List, [], ◌∷◌, ◌++◌, Text, codes, text_eq, if◌then◌else◌,
  is_empty, find, insert, any, Result, ok, err,
}
use costcrew.Base.Calls.{Call, ◌>>=◌, give, checked, for_each}
use costcrew.Crew.Roles.Defs.{JobDescription, RolesFile, role_for, class_for, mem_text}
use costcrew.Crew.Options.Table.{
  OptionRow, block_refused, Store, StoreError, stored_twice, option_is, task_of_artifact,
  task_by_id,
}
use costcrew.Crew.Options.Block.{RawOption, BlockError, parse_options}
use costcrew.Crew.Options.Marks.{tell, anomaly_of}

-- The keys of ValidClassesFor's map.
unfoldable pub valid_classes_for : JobDescription → List Text
valid_classes_for role = role.decides_alone ++ role.hands_up

-- The cases of AllowsNoOptions' switch that go on.
unfoldable pub is_prose : Text → Bool
is_prose c =
    text_eq c (codes "commentary.variance")
    || text_eq c (codes "commentary.showback")
    || text_eq c (codes "forecast.project")
    || text_eq c (codes "data.halt")

unfoldable pub allows_no_options : JobDescription → Bool
allows_no_options role = not (any (λ c. not (is_prose c)) (valid_classes_for role))

-- Why options are refused; a target by the reason that its check gives.
pub data GateReason : Type 0 where
  bad_block : BlockError → GateReason
  none_found : GateReason
  no_role : GateReason
  named_zero : GateReason
  not_listed : Text → GateReason
  not_defined : Text → GateReason
  bad_target : Text → GateReason

pub record Targets (F W : Type 0) : Type 0 where
  pub allocation_rule : Text → Option Text
  pub unit_rule : Store F W → Text → Option Text
  pub driver : Text → Text → Bool → Option Text
  pub announced : Text → Option Text
  pub announced_saving : Store F W → ℕ → Text → Option Text

unfoldable pub with_artifact : ℕ → OptionRow → OptionRow
with_artifact artifact o = record o { artifact = artifact }

abbrev pub is_driver : Text → Bool
is_driver c = text_eq c (codes "driver.recurring") || text_eq c (codes "driver.one-time")

abbrev pub or_else : Option Text → Option Text → Option Text
or_else (some e) _ = some e
or_else none e = e

module _ {F W : Type 0} (rf : RolesFile) (targets : Targets F W) where
  -- artifactHasAnomaly
  unfoldable pub artifact_has_anomaly : ℕ → Store F W → Result StoreError Bool
  artifact_has_anomaly artifact s = elim (task_of_artifact artifact s) [
    | err e ↦ err e
    | ok id ↦ (elim (task_by_id id s) [ err e ↦ err e | ok t ↦ ok (not (is_empty (anomaly_of t))) ])
  ]

  abbrev target_reason : Option Text → Result StoreError (Option GateReason)
  target_reason none = ok none
  target_reason (some why) = ok (some (bad_target why))

  -- The checks of a target, by class.
  unfoldable pub target_refusal : ℕ → OptionRow → Store F W → Result StoreError (Option GateReason)
  target_refusal artifact o s =
      if text_eq o.class (codes "allocation.rule")
      then target_reason (or_else (targets.allocation_rule o.target) (targets.unit_rule s o.target))
      else if is_driver o.class
      then (elim (artifact_has_anomaly artifact s) [
        | err e ↦ err e
        | ok tied ↦ target_reason (targets.driver o.class o.target tied)
      ])
      else if text_eq o.class (codes "driver.announced")
      then target_reason
          (or_else (targets.announced o.target) (targets.announced_saving s artifact o.target))
      else ok none

  -- One turn of the loop over the options.
  unfoldable pub option_refusal :
      JobDescription → ℕ → OptionRow → Store F W → Result StoreError (Option GateReason)
  option_refusal role artifact o s =
      if not (mem_text o.class (valid_classes_for role))
      then ok (some (not_listed o.class))
      else (elim (class_for rf o.class) [
        | none ↦ ok (some (not_defined o.class))
        | some _ ↦ target_refusal artifact o s
      ])

  unfoldable pub first_refusal :
      JobDescription → ℕ → List OptionRow → Store F W → Result StoreError (Option GateReason)
  first_refusal role artifact [] s = ok none
  first_refusal role artifact (o ∷ os) s =
      let rest = first_refusal role artifact os s in
      elim (option_refusal role artifact o s) [
        | err e ↦ err e
        | ok (some why) ↦ ok (some why)
        | ok none ↦ rest
      ]

  -- The INSERT, whose primary key is the deliverable and the ordinal.
  unfoldable pub save_option : ℕ → OptionRow → Call (Store F W) StoreError (Unit {0})
  save_option artifact o s = elim (find (option_is artifact o.ordinal) s.options) [
    | some _ ↦ (s, err stored_twice)
    | none ↦ (record s { options = insert (with_artifact artifact o) s.options }, ok tt)
  ]

  module _ (sentence : GateReason → Text) (decode : Text → Option (List RawOption)) where
    -- journalOptionRefused, and `return true, reason, nil`
    abbrev pub refuse : Text → ℕ → GateReason → Call (Store F W) StoreError (Option GateReason)
    refuse role_name artifact why s =
        (tell (block_refused role_name artifact (sentence why)) s, ok (some why))

    unfoldable pub save_options :
        Text → ℕ → JobDescription → List OptionRow → Call (Store F W) StoreError (Option GateReason)
    save_options role_name artifact role os = do
      found ← checked (first_refusal role artifact os)
      elim found [
        | some why ↦ refuse role_name artifact why
        | none ↦ (for_each (save_option artifact) os >>= λ _. give none)
      ]

    -- The value is why the options were refused, or none.
    unfoldable pub validate_and_save_options :
        ℕ → Text → Text → Call (Store F W) StoreError (Option GateReason)
    validate_and_save_options artifact role_name body s = elim (parse_options decode body) [
      | err why ↦ refuse role_name artifact (bad_block why) s
      | ok none ↦ (elim (role_for rf role_name) [
        | none ↦ (s, ok none)
        | some role ↦
            if allows_no_options role then (s, ok none) else refuse role_name artifact none_found s
      ])
      | ok (some os) ↦ (elim (role_for rf role_name) [
        | none ↦ refuse role_name artifact no_role s
        | some role ↦
            if is_empty os
            then if allows_no_options role
              then (s, ok none)
              else refuse role_name artifact named_zero s
            else save_options role_name artifact role os s
      ])
    ]
