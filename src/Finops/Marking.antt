-- ===== src/Finops/Marking.antt =====
-- The mark that an answer leaves on its option stays when the options that lost are marked.
use costcrew.Base.{
  ◌≡◌, refl, true, false, List, [], ◌∷◌, Text, All, All-mono, All-append, All-selected,
  All-update_to, select, update, ==_iff, arith, Bool-cases, Result-cases, inl, inr, is_empty,
  text_eq,
}
use costcrew.Crew.Options.Table.{
  OptionRow, Store, option_is, task_of_artifact, task_by_id, options_of,
}
use costcrew.Crew.Options.Marks.{
  is_alternative, contradicts, live_rivals_of, other_causes, anomaly_of, anomaly_explain,
}
use costcrew.Crew.Options.Rows.{same_key, KeepsKey, mark_all}
use costcrew.Crew.Options.Settle.{alternatives}

-- What a test says of the rows with the option's key.
abbrev pub OfKey : OptionRow → (OptionRow → Type 0) → OptionRow → Type 0
OfKey opt Q x = same_key opt x ≡ true → Q x

module _ (opt : OptionRow) (Q : OptionRow → Type 0) where
  -- Once the option is marked.
  pub marked-OfKey :
      (f : OptionRow → OptionRow)
      → ((o : OptionRow) → Q (f o))
      → (os : List OptionRow) → All (OfKey opt Q) (update (same_key opt) f os)
  unfolding same_key
  marked-OfKey f made [] = tt
  marked-OfKey f made (o ∷ os) = elim (Bool-cases (same_key opt o)) [
    | inl hit ↦ rw hit ((λ _. made o), marked-OfKey f made os)
    | inr miss ↦ rw miss ((λ h. ground (arith, h, miss)), marked-OfKey f made os)
  ]

  apart : (r o : OptionRow) → same_key opt r ≡ false → same_key r o ≡ true → same_key opt o ≡ false
  unfolding same_key option_is
  apart r o h k = ground (
    arith,
    ==_iff r.artifact opt.artifact,
    ==_iff r.ordinal opt.ordinal,
    ==_iff o.artifact r.artifact,
    ==_iff o.ordinal r.ordinal,
    ==_iff o.artifact opt.artifact,
    ==_iff o.ordinal opt.ordinal,
  )

  same_key-keeps :
      (f : OptionRow → OptionRow)
      → KeepsKey f
      → (o : OptionRow) → same_key opt (f o) ≡ same_key opt o
  unfolding same_key option_is
  same_key-keeps f keeps o = rw ((keeps o).0, (keeps o).1) refl

  -- Marks on other options leave it.
  pub mark_all-OfKey :
      (f : OptionRow → OptionRow)
      → KeepsKey f
      → (rs os : List OptionRow) → All (λ r. same_key opt r ≡ false) rs
      → All (OfKey opt Q) os
      → All (OfKey opt Q) (mark_all f rs os)
  mark_all-OfKey f keeps [] os other h = h
  mark_all-OfKey f keeps (r ∷ rs) os other h =
      mark_all-OfKey f keeps rs (update (same_key r) f os) other.1 (
        All-update_to (OfKey opt Q) (OfKey opt Q) (same_key r) f
          (λ o hit k same. ground (arith, apart r o other.0 hit, same_key-keeps f keeps o))
          (λ o miss k. k) os h)

-- No rival of an option is the option.
module _ (opt : OptionRow) where
  alternative-apart : (o : OptionRow) → is_alternative opt o ≡ true → same_key opt o ≡ false
  unfolding is_alternative same_key option_is
  alternative-apart o h = ground arith

  module _ {F W : Type 0} (s : Store F W) where
    contradicts-apart :
        (anomaly : Text) (o : OptionRow)
        → contradicts s.board anomaly opt o ≡ true
        → same_key opt o ≡ false
    unfolding contradicts same_key option_is
    contradicts-apart anomaly o h = ground arith

    other_causes-apart : All (λ o. same_key opt o ≡ false) (other_causes opt s)
    unfolding other_causes
    other_causes-apart = elim (Bool-cases (text_eq opt.class anomaly_explain)) [
      | inr other ↦ rw other tt
      | inl explains ↦ rw explains (elim (Result-cases (task_of_artifact opt.artifact s)) [
        | inr (e, lost) ↦ rw lost tt
        | inl (id, found) ↦ rw found (elim (Result-cases (task_by_id id s)) [
          | inr (e, lost) ↦ rw lost tt
          | inl (t, task) ↦ rw task (elim (Bool-cases (is_empty (anomaly_of t))) [
            | inl none_named ↦ rw none_named tt
            | inr named ↦ rw named (
                All-mono (λ o. contradicts s.board (anomaly_of t) opt o ≡ true)
                  (λ o. same_key opt o ≡ false) (contradicts-apart (anomaly_of t))
                  (select (contradicts s.board (anomaly_of t) opt) s.options)
                  (All-selected (contradicts s.board (anomaly_of t) opt) s.options))
          ])
        ])
      ])
    ]

    pub rivals-apart : All (λ o. same_key opt o ≡ false) (live_rivals_of opt s)
    unfolding live_rivals_of options_of
    rivals-apart =
        All-append (λ o. same_key opt o ≡ false) (alternatives opt s.options) (other_causes opt s)
          (All-mono (λ o. is_alternative opt o ≡ true) (λ o. same_key opt o ≡ false)
            alternative-apart (alternatives opt s.options) (All-selected (is_alternative opt) _))
          other_causes-apart
