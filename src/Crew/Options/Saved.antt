-- ===== src/Crew/Options/Saved.antt =====
-- What the gate of internal/crew/options.go lets into the table of options.
use costcrew.Base.{
  ◌≡◌, refl, sym, ap, ◌∙◌, ℕ, true, false, Option, none, some, List, [], ◌∷◌, ◌++◌, Text, ok, All,
  All-mono, All-both, length, append_nil, append_assoc, ◌≤◌, arith, find, insert, ltb_ℤ, pos,
  Bool-cases, Option-cases, Bool, true, false, ok, err, Result, Result-cases, inl, inr,
  if◌then◌else◌, is_empty,
}
use costcrew.Base.Calls.{for_each, after, give, after-give}
use costcrew.Crew.Roles.Defs.{JobDescription, JobClass, RolesFile, role_for, class_for, mem_text}
use costcrew.Crew.Options.Table.{OptionRow, opened, Store, StoreError, option_is}
use costcrew.Crew.Options.Block.{RawOption, parse_options}
use costcrew.Crew.Options.Gate.{
  Targets, GateReason, named_zero, refuse, valid_classes_for, with_artifact, allows_no_options,
  option_refusal, first_refusal, save_option, save_options, validate_and_save_options,
}
use costcrew.Crew.Options.Reads.{IsRead, parse_options-IsRead}

-- The table grew by a few rows, each with the property.
abbrev pub Grows : (OptionRow → Type 0) → ℕ → List OptionRow → List OptionRow → Type 0
Grows P n before now = (new : List OptionRow) × (now ≡ before ++ new) × (length new ≤ n) × All P new

-- Whether the caller is told of a refusal.
abbrev pub is_refused : Result StoreError (Option GateReason) → Bool
is_refused (ok (some why)) = true
is_refused _ = false

module _ {F W : Type 0} (rf : RolesFile) (targets : Targets F W) where
  save_all-Grows :
      (P : OptionRow → Type 0) (artifact : ℕ) (os : List OptionRow) (s : Store F W)
      → All (λ o. P (with_artifact artifact o)) os
      → Grows P (length os) s.options (for_each (save_option rf targets artifact) os s).0.options
  unfolding save_option
  save_all-Grows P artifact [] s h = ([], sym (append_nil s.options), omega arith, tt)
  save_all-Grows P artifact (o ∷ os) s h =
      elim (Option-cases (find (option_is artifact o.ordinal) s.options)) [
        | inr (x, taken) ↦ rw (save_option, taken) ([], sym (append_nil s.options), omega arith, tt)
        | inl free ↦
            let s1 : Store F W = record s {
              options = insert (with_artifact artifact o) s.options;
            } in
            let (new, now, few, all) = save_all-Grows P artifact os s1 h.1 in
            rw (save_option, free)
              (
                with_artifact artifact o ∷ new,
                now ∙ append_assoc s.options (with_artifact artifact o ∷ []) new,
                omega arith,
                (h.0, all),
              )
      ]

  -- An option whose class the role lists and the practice defines.
  abbrev pub IsListed : JobDescription → OptionRow → Type 0
  IsListed role o =
      (mem_text o.class (valid_classes_for role) ≡ true)
      × ((c : JobClass) × (class_for rf o.class ≡ some c))

  option_refusal-IsListed :
      (role : JobDescription) (artifact : ℕ) (o : OptionRow) (s : Store F W)
      → option_refusal rf targets role artifact o s ≡ ok none
      → IsListed role o
  unfolding option_refusal
  option_refusal-IsListed role artifact o s h =
      elim (Bool-cases (mem_text o.class (valid_classes_for role))) [
        | inr unlisted ↦ cc (rw unlisted at h)
        | inl listed ↦ (
          listed,
          elim (Option-cases (class_for rf o.class)) [
            | inl undefined ↦ cc (rw (listed, undefined) at h)
            | inr known ↦ known
          ],
        )
      ]

  first_refusal-IsListed :
      (role : JobDescription) (artifact : ℕ) (os : List OptionRow) (s : Store F W)
      → first_refusal rf targets role artifact os s ≡ ok none
      → All (IsListed role) os
  unfolding first_refusal
  first_refusal-IsListed role artifact [] s h = tt
  first_refusal-IsListed role artifact (o ∷ os) s h =
      elim (Result-cases (option_refusal rf targets role artifact o s)) [
        | inr (e, lost) ↦ cc (rw (first_refusal, lost) at h)
        | inl (some why, refused) ↦ cc (rw (first_refusal, refused) at h)
        | inl (none, passed) ↦ (
          option_refusal-IsListed role artifact o s passed,
          first_refusal-IsListed role artifact os s (rw (first_refusal, passed) at h),
        )
      ]

  give-unrefused :
      (r : Store F W × Result StoreError (Unit {0}))
      → is_refused (after r (λ _. give none)).1 ≡ false
  give-unrefused (s, ok u) = refl
  give-unrefused (s, err e) = refl

  -- What is stored for a deliverable of a role.
  pub record IsSaved (role : JobDescription) (artifact : ℕ) (o : OptionRow) : Type 0 where
    pub of_artifact : o.artifact ≡ artifact
    pub is_open : o.state ≡ opened
    pub not_negative : ltb_ℤ o.figure_cents (pos 0) ≡ false
    pub listed : IsListed role o

  to_IsSaved :
      (role : JobDescription) (artifact : ℕ) (o : OptionRow)
      → IsRead o × IsListed role o
      → IsSaved role artifact (with_artifact artifact o)
  unfolding with_artifact
  to_IsSaved role artifact o h = record {
    of_artifact = refl;
    is_open = h.0.0;
    not_negative = h.0.1;
    listed = h.1;
  }

  -- Either nothing is stored, or the role is known and up to three of its options are.
  pub data Gated (role_name : Text) (artifact : ℕ) (before : List OptionRow)
      (call : Store F W × Result StoreError (Option GateReason)) : Type 0 where
    unchanged : call.0.options ≡ before → Gated role_name artifact before call
    saved :
        (role : JobDescription)
        → is_refused call.1 ≡ false
        → role_for rf role_name ≡ some role
        → Grows (IsSaved role artifact) 3 before call.0.options
        → Gated role_name artifact before call

  module _ (sentence : GateReason → Text) (decode : Text → Option (List RawOption)) where
    save_options-Gated :
        (role_name : Text) (artifact : ℕ) (role : JobDescription) (os : List OptionRow)
        (s : Store F W)
        → role_for rf role_name ≡ some role
        → (length os ≤ 3) × All IsRead os
        → Gated role_name artifact s.options
            (save_options rf targets sentence decode role_name artifact role os s)
    unfolding save_options
    save_options-Gated role_name artifact role os s known read =
        elim (Result-cases (first_refusal rf targets role artifact os s)) [
          | inr (e, lost) ↦ rw lost (unchanged refl)
          | inl (some why, refused) ↦ rw refused (unchanged refl)
          | inl (none, passed) ↦
              let all : _ =
                All-both IsRead (IsListed role) os read.1
                  (first_refusal-IsListed role artifact os s passed) in
              let (new, grown, few, stored) = save_all-Grows (IsSaved role artifact) artifact os s (
                All-mono (λ o. IsRead o × IsListed role o)
                  (λ o. IsSaved role artifact (with_artifact artifact o)) (to_IsSaved role artifact)
                  os all) in
              rw passed (
                saved role (give-unrefused (for_each (save_option rf targets artifact) os s)) known
                  (
                    new,
                    ap (λ x. x.options)
                          (after-give (for_each (save_option rf targets artifact) os s) none)
                        ∙ grown,
                    ground arith,
                    stored,
                  ))
        ]

    for_role :
        (role_name : Text) (artifact : ℕ) (role : JobDescription) (os : List OptionRow)
        (s : Store F W)
        → role_for rf role_name ≡ some role
        → (length os ≤ 3) × All IsRead os
        → Gated role_name artifact s.options (
            if is_empty os
            then (if allows_no_options role
                then (s, ok none)
                else refuse rf targets sentence decode role_name artifact named_zero s)
            else save_options rf targets sentence decode role_name artifact role os s)
    for_role role_name artifact role os s known read = elim (Bool-cases (is_empty os)) [
      | inr some_named ↦ rw some_named (save_options-Gated role_name artifact role os s known read)
      | inl zero ↦ rw zero (elim (Bool-cases (allows_no_options role)) [
        | inl prose ↦ rw prose (unchanged refl)
        | inr owes ↦ rw owes (unchanged refl)
      ])
    ]

    -- Either the table of options stays as it was, or the caller is told of no refusal, the writer has a
    -- job description, and up to three new rows follow the old ones. Each of them is of the deliverable
    -- and open, with a figure that is not negative and of a class that the job description lists and
    -- the roles file defines.
    pub gate-Gated :
        (artifact : ℕ) (role_name body : Text) (s : Store F W)
        → Gated role_name artifact s.options
            (validate_and_save_options rf targets sentence decode artifact role_name body s)
    unfolding validate_and_save_options
    gate-Gated artifact role_name body s = elim (Result-cases (parse_options decode body)) [
      | inr (why, bad) ↦ rw (validate_and_save_options, bad) (unchanged refl)
      | inl (none, no_block) ↦
          rw (validate_and_save_options, no_block)
            (elim (Option-cases (role_for rf role_name)) [
              | inl unknown ↦ rw unknown (unchanged refl)
              | inr (role, known) ↦ rw known (elim (Bool-cases (allows_no_options role)) [
                | inl prose ↦ rw prose (unchanged refl)
                | inr owes ↦ rw owes (unchanged refl)
              ])
            ])
      | inl (some os, block) ↦
          rw (validate_and_save_options, block)
            (elim (Option-cases (role_for rf role_name)) [
              | inl unknown ↦ rw unknown (unchanged refl)
              | inr (role, known) ↦ rw known (
                  for_role role_name artifact role os s known
                    (parse_options-IsRead decode body block))
            ])
    ]
