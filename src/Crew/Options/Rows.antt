-- ===== src/Crew/Options/Rows.antt =====
-- What a write on options does to the rows of the table: one row is marked, or all of a list are.
use costcrew.Base.{
  ◌≡◌, refl, Bool, true, false, some, List, [], ◌∷◌, Text, find, update, ok, All, All-update_to,
  All-mono, any, ==_iff, arith, inl, inr, Bool-cases,
}
use costcrew.Base.Calls.{Call, for_each}
use costcrew.Crew.Options.Table.{OptionState, OptionRow, Store, StoreError, option_is}
use costcrew.Crew.Options.Marks.{marked, set_option_state_as, set_options}

-- A row is in a list by its key.
unfoldable pub same_key : OptionRow → OptionRow → Bool
same_key r o = option_is r.artifact r.ordinal o

pub same_key_refl : (o : OptionRow) → same_key o o ≡ true
unfolding same_key option_is
same_key_refl o =
    rw ((==_iff o.artifact o.artifact).1 refl, (==_iff o.ordinal o.ordinal).1 refl) refl

-- The writes of a loop over rows, each of which is stored.
abbrev pub mark_all : (OptionRow → OptionRow) → List OptionRow → List OptionRow → List OptionRow
mark_all f [] os = os
mark_all f (r ∷ rs) os = mark_all f rs (update (same_key r) f os)

abbrev pub KeepsKey : (OptionRow → OptionRow) → Type 0
KeepsKey f = (o : OptionRow) → ((f o).artifact ≡ o.artifact) × ((f o).ordinal ≡ o.ordinal)

pub marked-KeepsKey :
    (state : OptionState) (by reason behalf_of behalf_reason now : Text)
    → KeepsKey (marked state by reason behalf_of behalf_reason now)
unfolding marked
marked-KeepsKey state by reason behalf_of behalf_reason now o = (refl, refl)

-- What was true of the rows that the loop does not reach, and what it makes true, is true of all.
pub All-mark_all :
    (Q : OptionRow → Type 0) (f : OptionRow → OptionRow)
    → ((o : OptionRow) → Q (f o))
    → (rs os : List OptionRow) → All (λ o. any (λ r. same_key r o) rs ≡ false → Q o) os
    → All Q (mark_all f rs os)
All-mark_all Q f made [] os h =
    All-mono (λ o. any (λ r. same_key r o) [] ≡ false → Q o) Q (λ o k. k refl) os h
All-mark_all Q f made (r ∷ rs) os h = All-mark_all Q f made rs (update (same_key r) f os) (
    All-update_to (λ o. any (λ x. same_key x o) (r ∷ rs) ≡ false → Q o)
      (λ o. any (λ x. same_key x o) rs ≡ false → Q o) (same_key r) f (λ o hit k missed. made o)
      (λ o miss k missed. k (rw miss missed)) os h)

-- A property that the mark keeps.
pub All-mark_all_kept :
    (P : OptionRow → Type 0) (f : OptionRow → OptionRow)
    → ((o : OptionRow) → P o → P (f o))
    → (rs os : List OptionRow) → All P os
    → All P (mark_all f rs os)
All-mark_all_kept P f keep [] os h = h
All-mark_all_kept P f keep (r ∷ rs) os h =
    All-mark_all_kept P f keep rs (update (same_key r) f os)
      (All-update_to P P (same_key r) f (λ o hit k. keep o k) (λ o miss k. k) os h)

-- A stored key stays stored.
abbrev pub IsStored : List OptionRow → OptionRow → Type 0
IsStored os r = any (same_key r) os ≡ true

pub IsStored-update :
    (f : OptionRow → OptionRow) (p : OptionRow → Bool)
    → KeepsKey f
    → (r : OptionRow) (os : List OptionRow) → IsStored os r
    → IsStored (update p f os) r
unfolding same_key option_is
IsStored-update f p keeps r [] h = cc
IsStored-update f p keeps r (o ∷ os) h = elim (Bool-cases (p o)) [
  | inl hit ↦ rw (hit, (keeps o).0, (keeps o).1) (ground (arith, IsStored-update f p keeps r os))
  | inr miss ↦ rw miss (ground (arith, IsStored-update f p keeps r os))
]

find-stored :
    (q : OptionRow → Bool) (os : List OptionRow)
    → any q os ≡ true
    → (o : OptionRow) × (find q os ≡ some o)
find-stored q [] h = cc
find-stored q (o ∷ os) h = elim (Bool-cases (q o)) [
  | inl hit ↦ (o, rw hit refl)
  | inr miss ↦ rw miss (find-stored q os (rw miss at h))
]

module _ {F W : Type 0} where
  pub set_option_state_as-stored :
      (r : OptionRow) (state : OptionState) (by reason behalf_of behalf_reason now : Text)
      (s : Store F W)
      → IsStored s.options r
      → set_option_state_as r.artifact r.ordinal state by reason behalf_of behalf_reason now s
        ≡ (set_options (same_key r) (marked state by reason behalf_of behalf_reason now) s, ok tt)
  unfolding set_option_state_as same_key
  set_option_state_as-stored r state by reason behalf_of behalf_reason now s h =
      let (o, found) = find-stored (option_is r.artifact r.ordinal) s.options h in
      rw (set_option_state_as, found) refl

  -- A loop that marks stored rows does not fail.
  pub for_each-stored :
      (call : OptionRow → Call (Store F W) StoreError (Unit {0})) (f : OptionRow → OptionRow)
      → KeepsKey f
      → ((r : OptionRow) (s : Store F W)
          → IsStored s.options r
          → call r s ≡ (set_options (same_key r) f s, ok tt))
      → (rs : List OptionRow) (s : Store F W) → All (IsStored s.options) rs
      → for_each call rs s ≡ (record s { options = mark_all f rs s.options }, ok tt)
  for_each-stored call f keeps one [] s h = refl
  for_each-stored call f keeps one (r ∷ rs) s h = rw (one r s h.0) (
      for_each-stored call f keeps one rs (set_options (same_key r) f s) (
        All-mono (IsStored s.options) (IsStored (update (same_key r) f s.options))
          (λ x. IsStored-update f (same_key r) keeps x s.options) rs h.1))
