-- ===== src/Finops/Carrying.antt =====
-- The loop that carries the options of a deliverable that is not decided.
use costcrew.Base.{
  ◌≡◌, refl, sym, subst, ℕ, Bool, true, false, ◌||◌, List, [], ◌∷◌, Text, codes, All, All-mono,
  All-update_to, any, update, find, ==_iff, ◌==◌, arith, Option-cases, Bool-cases, inl, inr,
}
use costcrew.Base.Calls.{Run, Run-mono, for_each, Call}
use costcrew.Crew.Options.Table.{
  carried, OptionRow, Store, StoreError, is_opened, is_applied, option_is,
}
use costcrew.Crew.Options.Marks.{
  marked, set_options, set_option_state, set_option_state_as, mark_option_carried,
}
use costcrew.Crew.Options.Rows.{same_key, KeepsKey, marked-KeepsKey}
use costcrew.Crew.Options.Choice.{
  Undecided, IsChoice, undecided, IsChosen, other-IsChoice, other-All,
}

abbrev as_carried : Text → OptionRow → OptionRow
as_carried now = marked carried (codes "supervisor") [] [] [] now

carried_unapplied : (now : Text) (o : OptionRow) → is_applied (as_carried now o).state ≡ false
unfolding marked is_applied
carried_unapplied now o = refl

carried_unopened : (now : Text) (o : OptionRow) → is_opened (as_carried now o).state ≡ false
unfolding marked is_opened
carried_unopened now o = refl

-- What a loop over rows of a deliverable does to the table.
pub record Carries (id : ℕ) (rs : List OptionRow) (before now : List OptionRow) : Type 0 where
  pub chosen : IsChosen now
  pub free : All (Undecided id) now
  pub others : (b : ℕ) → (id == b) ≡ false → All (Undecided b) before → All (Undecided b) now
  pub unopened :
      (P : ℕ → ℕ → Bool)
      → All
          (λ o.
            is_opened o.state ≡ true
            → (P o.artifact o.ordinal || any (λ r. same_key r o) rs) ≡ true)
          before
      → All (λ o. is_opened o.state ≡ true → P o.artifact o.ordinal ≡ true) now

module _ (id : ℕ) (r : OptionRow) (rs : List OptionRow) (now : Text) (own : r.artifact ≡ id)
    (os : List OptionRow) where
  abbrev after_one : List OptionRow
  after_one = update (same_key r) (as_carried now) os

  one-free : All (Undecided id) os → All (Undecided id) after_one
  one-free h =
      All-update_to (Undecided id) (Undecided id) (same_key r) (as_carried now)
        (λ o hit k here. carried_unapplied now o) (λ o miss k. k) os h

  apart : (b : ℕ) → (id == b) ≡ false → (r.artifact == b) ≡ false
  apart b differs = subst (λ a. (a == b) ≡ false) (sym own) differs

  keys : KeepsKey (as_carried now)
  keys = marked-KeepsKey carried (codes "supervisor") [] [] [] now

  one-IsChosen : IsChosen os → All (Undecided id) os → IsChosen after_one
  one-IsChosen chosen free b = elim (Bool-cases (id == b)) [
    | inl same ↦
        subst (λ a. IsChoice a after_one) ((==_iff id b).0 same) (undecided (one-free free))
    | inr differs ↦ other-IsChoice b r (as_carried now) (apart b differs) keys os (chosen b)
  ]

  one-others : (b : ℕ) → (id == b) ≡ false → All (Undecided b) os → All (Undecided b) after_one
  one-others b differs =
      other-All b r (as_carried now) (apart b differs) (λ o. is_applied o.state ≡ false) keys os

  one-unopened :
      (P : ℕ → ℕ → Bool)
      → All
          (λ o.
            is_opened o.state ≡ true
            → (P o.artifact o.ordinal || any (λ x. same_key x o) (r ∷ rs)) ≡ true)
          os
      → All
          (λ o.
            is_opened o.state ≡ true
            → (P o.artifact o.ordinal || any (λ x. same_key x o) rs) ≡ true)
          after_one
  one-unopened P h =
      All-update_to
        (λ o.
          is_opened o.state ≡ true
          → (P o.artifact o.ordinal || any (λ x. same_key x o) (r ∷ rs)) ≡ true)
        (λ o.
          is_opened o.state ≡ true → (P o.artifact o.ordinal || any (λ x. same_key x o) rs) ≡ true)
        (same_key r) (as_carried now) (λ o hit k is_open. ground (arith, carried_unopened now o))
        (λ o miss k is_open. ground (arith, k is_open)) os h

  one-Carries :
      IsChosen os
      → All (Undecided id) os
      → (last : List OptionRow) → Carries id rs after_one last
      → Carries id (r ∷ rs) os last
  one-Carries chosen free last rest = record {
    chosen = rest.chosen;
    free = rest.free;
    others = λ b differs h. rest.others b differs (one-others b differs h);
    unopened = λ P h. rest.unopened P (one-unopened P h);
  }

module _ {F W : Type 0} (now : Text) (id : ℕ) where
  abbrev carry_one : OptionRow → Call (Store F W) StoreError (Unit {0})
  carry_one o = mark_option_carried o.artifact o.ordinal now

  pub carry_rows-Run :
      (rs : List OptionRow) (s : Store F W)
      → All (λ o. o.artifact ≡ id) rs
      → IsChosen s.options
      → All (Undecided id) s.options
      → Run
          (λ s'. IsChosen s'.options)
          (λ _ s'. Carries id rs s.options s'.options)
          (for_each carry_one rs s)
  unfolding mark_option_carried set_option_state set_option_state_as same_key
  carry_rows-Run [] s own chosen free = record {
    chosen = chosen;
    free = free;
    others = λ b differs h. h;
    unopened = λ P h.
        All-mono (λ o. is_opened o.state ≡ true → (P o.artifact o.ordinal || false) ≡ true)
          (λ o. is_opened o.state ≡ true → P o.artifact o.ordinal ≡ true)
          (λ o k is_open. ground (arith, k is_open)) s.options h;
  }
  carry_rows-Run (r ∷ rs) s own chosen free =
      elim (Option-cases (find (option_is r.artifact r.ordinal) s.options)) [
        | inl missing ↦ rw (set_option_state_as, missing) chosen
        | inr (o, found) ↦
            let s1 : Store F W = set_options (same_key r) (as_carried now) s in
            rw (set_option_state_as, found)
              (Run-mono (λ s'. IsChosen s'.options) (λ _ s'. Carries id rs s1.options s'.options)
                (λ _ s'. Carries id (r ∷ rs) s.options s'.options) (for_each carry_one rs s1)
                (carry_rows-Run rs s1 own.1 (one-IsChosen id r rs now own.0 s.options chosen free)
                  (one-free id r rs now own.0 s.options free))
                (λ _ s'. one-Carries id r rs now own.0 s.options chosen free s'.options))
      ]
