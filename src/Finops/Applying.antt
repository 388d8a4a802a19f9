-- ===== src/Finops/Applying.antt =====
-- ApplyAs makes the choice of a deliverable: it keeps every choice that was made, whether it fails or
-- not, and where it does not fail the option's own deliverable is decided.
use costcrew.Base.{
  ◌≡◌, refl, subst, ℕ, Bool, true, false, List, Text, All, All-mono, All-update_to, update, any,
  All-any, ==_iff, ◌==◌, arith, Bool-cases, inl, inr, ◌++◌, [],
}
use costcrew.Crew.Options.Table.{OptionState, not_chosen, OptionRow, is_live, is_applied, is_opened}
use costcrew.Crew.Options.Marks.{marked}
use costcrew.Crew.Options.Rows.{
  same_key, same_key_refl, KeepsKey, mark_all, All-mark_all_kept, IsStored, marked-KeepsKey,
}
use costcrew.Crew.Options.Choice.{
  Undecided, Decided, IsChoice, decided, IsChosen, IsClosing, closing-IsChoice_all, other-IsChoice,
  other-All,
}
use costcrew.Crew.Options.Settle.{alternatives, settle-Decided}

-- What the call has done when it returns.
pub record HasChosen (opt : OptionRow) (before now : List OptionRow) : Type 0 where
  pub chosen : IsChosen now
  pub closed : All (Decided opt.artifact opt.ordinal) now
  pub others :
      (b : ℕ) → (opt.artifact == b) ≡ false → All (Undecided b) before → All (Undecided b) now
  pub unopened :
      (P : ℕ → ℕ → Bool)
      → All (λ o. is_opened o.state ≡ true → P o.artifact o.ordinal ≡ true) before
      → All (λ o. is_opened o.state ≡ true → P o.artifact o.ordinal ≡ true) now

pub not_chosen-IsClosing :
    (by reason now : Text) → IsClosing (marked not_chosen by reason [] [] now)
unfolding marked is_applied is_live
not_chosen-IsClosing by reason now = record {
  keys = marked-KeepsKey not_chosen by reason [] [] now;
  unapplied = λ o. refl;
  unlive = λ o. refl;
}

pub opened_live : (state : OptionState) → is_opened state ≡ true → is_live state ≡ true
unfolding is_opened is_live
opened_live state h = grind arith

-- Every row of the table is stored.
pub all-IsStored : (os : List OptionRow) → All (IsStored os) os
all-IsStored os =
    All-mono (λ o. same_key o o ≡ true → any (same_key o) os ≡ true) (IsStored os)
      (λ o k. k (same_key_refl o)) os (All-any (λ y x. same_key x y) os)

module _ (opt : OptionRow) (f g : OptionRow → OptionRow) (closing : IsClosing g) (keys : KeepsKey f)
    (unlive : (o : OptionRow) → is_live (f o).state ≡ false) (others : List OptionRow) where
  module _ (os : List OptionRow) where
    abbrev written : List OptionRow
    written = update (same_key opt) f os

    abbrev last : List OptionRow
    last = mark_all g (alternatives opt written ++ others) written

    closed-last : All (Undecided opt.artifact) os → All (Decided opt.artifact opt.ordinal) last
    closed-last free = settle-Decided opt f keys unlive g closing others os free

    chosen-last : IsChosen os → All (Undecided opt.artifact) os → (b : ℕ) → IsChoice b last
    chosen-last chosen free b = elim (Bool-cases (opt.artifact == b)) [
      | inl same ↦
          subst (λ a. IsChoice a last) ((==_iff opt.artifact b).0 same)
            (decided opt.ordinal (closed-last free))
      | inr differs ↦
          closing-IsChoice_all b g closing (alternatives opt written ++ others) written
            (other-IsChoice b opt f differs keys os (chosen b))
    ]

    unopened-last :
        (P : ℕ → ℕ → Bool)
        → All (λ o. is_opened o.state ≡ true → P o.artifact o.ordinal ≡ true) os
        → All (λ o. is_opened o.state ≡ true → P o.artifact o.ordinal ≡ true) last
    unopened-last P h =
        let Keeps : OptionRow → Type 0 =
          λ o. is_opened o.state ≡ true → P o.artifact o.ordinal ≡ true in
        All-mark_all_kept Keeps g
          (λ o k is_open. ground (arith, closing.unlive o, opened_live (g o).state))
          (alternatives opt written ++ others) written
          (All-update_to Keeps Keeps (same_key opt) f
            (λ o hit k is_open. ground (arith, unlive o, opened_live (f o).state)) (λ o miss k. k)
            os h)

    pub settled-HasChosen : IsChosen os → All (Undecided opt.artifact) os → HasChosen opt os last
    settled-HasChosen chosen free = record {
      chosen = chosen-last chosen free;
      closed = closed-last free;
      others = λ b differs h.
          All-mark_all_kept (Undecided b) g (λ o k here. closing.unapplied o)
            (alternatives opt written ++ others) written
            (other-All b opt f differs (λ o. is_applied o.state ≡ false) keys os h);
      unopened = unopened-last;
    }
