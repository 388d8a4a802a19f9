-- ===== src/Crew/Options/Settle.antt =====
-- An option is applied and the live rest of its deliverable is marked as not chosen: the choice of
-- the deliverable is made.
use costcrew.Base.{
  ◌≡◌, ◌∙◌, ap, Bool, true, false, ◌&&◌, ◌||◌, List, ◌++◌, update, select, sort, any, any-sort,
  any-append, any-select, All, All-mono, All-both, All-update_to, All-any, ==_iff, ◌==◌, arith, inl,
  inr, Bool-cases,
}
use costcrew.Crew.Options.Table.{OptionRow, is_live, is_applied, option_is, earlier, of_artifact}
use costcrew.Crew.Options.Marks.{is_alternative}
use costcrew.Crew.Options.Rows.{same_key, same_key_refl, KeepsKey, mark_all, All-mark_all}
use costcrew.Crew.Options.Choice.{Undecided, Decided, IsClosing}

-- The alternatives of an option, as LiveRivalsOf reads them.
abbrev pub alternatives : OptionRow → List OptionRow → List OptionRow
alternatives opt os =
    select (is_alternative opt) (sort earlier (select (of_artifact opt.artifact) os))

module _ (opt : OptionRow) (f : OptionRow → OptionRow) (keys : KeepsKey f)
    (unlive : (o : OptionRow) → is_live (f o).state ≡ false) where
  -- Between the two steps: the option alone may be applied, and it is not live.
  abbrev IsApplied : OptionRow → Type 0
  IsApplied o =
      (o.artifact == opt.artifact) ≡ true
      → (is_applied o.state ≡ true → o.ordinal ≡ opt.ordinal)
        × ((o.ordinal == opt.ordinal) ≡ true → is_live o.state ≡ false)

  apply-IsApplied :
      (os : List OptionRow)
      → All (Undecided opt.artifact) os
      → All IsApplied (update (same_key opt) f os)
  unfolding same_key option_is
  apply-IsApplied os h =
      All-update_to (Undecided opt.artifact) IsApplied (same_key opt) f
        (λ o hit k here.
          (λ _. (keys o).1 ∙ (==_iff o.ordinal opt.ordinal).0 (ground arith), λ _. unlive o))
        (λ o miss k here. (λ done. ground (arith, k here), λ same. ground arith)) os h

  module _ (g : OptionRow → OptionRow) (closing : IsClosing g) (others : List OptionRow) where
    abbrev found : OptionRow → OptionRow → Bool
    found o x = of_artifact opt.artifact o && (is_alternative opt o && same_key o x)

    rivals-any :
        (os : List OptionRow) (x : OptionRow)
        → any (λ r. same_key r x) (alternatives opt os ++ others)
          ≡ (any (λ o. found o x) os || any (λ r. same_key r x) others)
    rivals-any os x =
        any-append (λ r. same_key r x) (alternatives opt os) others
        ∙ ap (λ b. b || any (λ r. same_key r x) others)
            (any-select (λ r. same_key r x) (is_alternative opt)
                (sort earlier (select (of_artifact opt.artifact) os))
              ∙ any-sort earlier (λ o. is_alternative opt o && same_key o x)
                  (select (of_artifact opt.artifact) os)
              ∙ any-select (λ o. is_alternative opt o && same_key o x) (of_artifact opt.artifact)
                  os)

    left-Decided :
        (os : List OptionRow) (o : OptionRow)
        → IsApplied o × (found o o ≡ true → any (λ x. found x o) os ≡ true)
        → any (λ r. same_key r o) (alternatives opt os ++ others) ≡ false
        → Decided opt.artifact opt.ordinal o
    unfolding is_alternative
    left-Decided os o h missed here =
        let gone : any (λ x. found x o) os ≡ false = ground (arith, rivals-any os o) in
        (
          elim (Bool-cases (o.ordinal == opt.ordinal)) [
            | inl same ↦ (h.0 here).1 same
            | inr differs ↦ ground (arith, h.1, same_key_refl o)
          ],
          (h.0 here).0,
        )

    pub settle-Decided :
        (os : List OptionRow)
        → All (Undecided opt.artifact) os
        → let written = update (same_key opt) f os in
          All
            (Decided opt.artifact opt.ordinal)
            (mark_all g (alternatives opt written ++ others) written)
    settle-Decided os h =
        let written : _ = update (same_key opt) f os in
        All-mark_all (Decided opt.artifact opt.ordinal) g
          (λ o here. (closing.unlive o, λ k. ground (arith, closing.unapplied o)))
          (alternatives opt written ++ others) written
          (All-mono (λ o. IsApplied o × (found o o ≡ true → any (λ x. found x o) written ≡ true))
            (λ o.
              any (λ r. same_key r o) (alternatives opt written ++ others) ≡ false
              → Decided opt.artifact opt.ordinal o)
            (left-Decided written) written
            (All-both IsApplied (λ o. found o o ≡ true → any (λ x. found x o) written ≡ true)
              written (apply-IsApplied os h) (All-any found written)))
