-- ===== src/Crew/Options/Choice.antt =====
-- A deliverable's options as one choice: before it is made none is applied; once it is made one
-- ordinal is applied at most, and none is left to decide.
use costcrew.Base.{◌≡◌, ℕ, Bool, true, false, List, update, All, All-update_to, ==_iff, ◌==◌, arith}
use costcrew.Crew.Options.Table.{OptionRow, is_live, is_applied, option_is}
use costcrew.Crew.Options.Rows.{same_key, KeepsKey, mark_all, All-mark_all_kept}

abbrev pub Undecided : ℕ → OptionRow → Type 0
Undecided artifact o = (o.artifact == artifact) ≡ true → is_applied o.state ≡ false

-- No option of the deliverable is live, and one that is applied has the ordinal.
abbrev pub Decided : ℕ → ℕ → OptionRow → Type 0
Decided artifact n o =
    (o.artifact == artifact) ≡ true
    → (is_live o.state ≡ false) × (is_applied o.state ≡ true → o.ordinal ≡ n)

pub data IsChoice (artifact : ℕ) (os : List OptionRow) : Type 0 where
  undecided : All (Undecided artifact) os → IsChoice artifact os
  decided : (n : ℕ) → All (Decided artifact n) os → IsChoice artifact os

abbrev pub IsChosen : List OptionRow → Type 0
IsChosen os = (artifact : ℕ) → IsChoice artifact os

-- A mark that neither applies an option nor leaves it live.
pub record IsClosing (f : OptionRow → OptionRow) : Type 0 where
  pub keys : KeepsKey f
  pub unapplied : (o : OptionRow) → is_applied (f o).state ≡ false
  pub unlive : (o : OptionRow) → is_live (f o).state ≡ false

module _ (artifact : ℕ) (f : OptionRow → OptionRow) (closing : IsClosing f) where
  closing-Undecided : (o : OptionRow) → Undecided artifact o → Undecided artifact (f o)
  closing-Undecided o h here = closing.unapplied o

  closing-Decided : (n : ℕ) (o : OptionRow) → Decided artifact n o → Decided artifact n (f o)
  closing-Decided n o h here = (closing.unlive o, λ k. ground (arith, closing.unapplied o))

  pub closing-IsChoice_all :
      (rs os : List OptionRow) → IsChoice artifact os → IsChoice artifact (mark_all f rs os)
  closing-IsChoice_all rs os (undecided h) =
      undecided (All-mark_all_kept (Undecided artifact) f closing-Undecided rs os h)
  closing-IsChoice_all rs os (decided n h) =
      decided n (All-mark_all_kept (Decided artifact n) f (closing-Decided n) rs os h)

  pub closing-IsChoice :
      (p : OptionRow → Bool) (os : List OptionRow)
      → IsChoice artifact os
      → IsChoice artifact (update p f os)
  closing-IsChoice p os (undecided h) = undecided (
      All-update_to (Undecided artifact) (Undecided artifact) p f (λ o _. closing-Undecided o)
        (λ o _ k. k) os h)
  closing-IsChoice p os (decided n h) = decided n (
      All-update_to (Decided artifact n) (Decided artifact n) p f (λ o _. closing-Decided n o)
        (λ o _ k. k) os h)

-- A deliverable that another option's mark does not touch.
module _ (artifact : ℕ) (r : OptionRow) (f : OptionRow → OptionRow)
    (apart : (r.artifact == artifact) ≡ false) where
  untouched : (o : OptionRow) → same_key r o ≡ true → (o.artifact == artifact) ≡ false
  unfolding same_key option_is
  untouched o hit =
      ground (
        arith,
        ==_iff r.artifact artifact,
        ==_iff o.artifact artifact,
        ==_iff o.artifact r.artifact,
      )

  pub other-All :
      (P : OptionRow → Type 0)
      → KeepsKey f
      → (os : List OptionRow) → All (λ o. (o.artifact == artifact) ≡ true → P o) os
      → All (λ o. (o.artifact == artifact) ≡ true → P o) (update (same_key r) f os)
  other-All P keeps os h =
      All-update_to (λ o. (o.artifact == artifact) ≡ true → P o)
        (λ o. (o.artifact == artifact) ≡ true → P o) (same_key r) f
        (λ o hit k here. ground (arith, untouched o hit, (keeps o).0)) (λ o miss k. k) os h

  pub other-IsChoice :
      KeepsKey f
      → (os : List OptionRow) → IsChoice artifact os
      → IsChoice artifact (update (same_key r) f os)
  other-IsChoice keeps os (undecided h) =
      undecided (other-All (λ o. is_applied o.state ≡ false) keeps os h)
  other-IsChoice keeps os (decided n h) = decided n (
      other-All (λ o. (is_live o.state ≡ false) × (is_applied o.state ≡ true → o.ordinal ≡ n)) keeps
        os h)
