-- ===== src/Crew/Halts/Left.antt =====
-- LiftHalt of internal/crew/halt.go after one of the analysts that it is to bring back was removed.
use costcrew.Base.{
  ◌≡◌, refl, sym, ◌∙◌, ap, subst, true, false, some, List, [], ◌∷◌, Text, text_eq, text_eq_iff,
  is_blank, find, update, inl, inr, Bool-cases, Option-cases, Result, err,
}
use costcrew.Crew.Roles.Defs.{mem_text}
use costcrew.Crew.Halts.Desk.{
  Crew, DeskHalt, halts_desk, HaltError, need_reason, no_such_analyst, named, active, is_state,
  in_state, set_state, tell, split_list, active_halt, lift_halt, reinstate_each,
}
use costcrew.Crew.Halts.Loops.{is_hired, is_hired-update, set_state-ok}

-- A call that fails and leaves the halts as they are.
abbrev pub IsRefused : Crew → Crew × Result HaltError (List Text) → Type 0
IsRefused c (after, done) = ((why : HaltError) × (done ≡ err why)) × (after.halts ≡ c.halts)

missing-set_state :
    (name : Text) (c : Crew)
    → is_hired c.analysts name ≡ false
    → set_state name active [] c ≡ err no_such_analyst
unfolding set_state is_state
missing-set_state name c gone = elim (Option-cases (find (named name) c.analysts)) [
  | inl missing ↦ rw (set_state, missing) refl
  | inr (a, found) ↦ cc (rw (is_hired, found) at gone)
]

reinstate_each-missing :
    (reason by name : Text) (names : List Text) (c : Crew)
    → mem_text name names ≡ true
    → is_hired c.analysts name ≡ false
    → IsRefused c (reinstate_each reason by names c)
unfolding reinstate_each mem_text in_state is_state
reinstate_each-missing reason by name [] c here gone = cc
reinstate_each-missing reason by name (n ∷ names) c here gone = elim (Bool-cases (text_eq n name)) [
  | inl own ↦
      let own_gone : is_hired c.analysts n ≡ false =
        subst (λ m. is_hired c.analysts m ≡ false) (sym ((text_eq_iff n name).0 own)) gone in
      rw (reinstate_each, missing-set_state n c own_gone) ((no_such_analyst, refl), refl)
  | inr other ↦ elim (Bool-cases (is_hired c.analysts n)) [
    | inr lost ↦ rw (reinstate_each, missing-set_state n c lost) ((no_such_analyst, refl), refl)
    | inl known ↦
        let next : Crew = record c {
          analysts = update (named n) (in_state active []) c.analysts;
        } in
        let rest : _ =
          reinstate_each-missing reason by name names (tell n active reason by next)
            (rw other at here)
            (is_hired-update n (in_state active []) c.analysts (λ a. refl) name ∙ gone) in
        rw (reinstate_each, set_state-ok n active [] c refl refl known, rest.0.1)
          ((rest.0.0, refl), rest.1)
  ]
]

-- If an analyst that a halt suspended is no longer on the roster, lifting the halt fails, whatever the
-- reason given, and the desk stays halted.
pub lift_halt-left :
    (desk reason by name : Text) (c : Crew) {h : DeskHalt}
    → active_halt desk c ≡ some h
    → mem_text name (split_list h.suspended) ≡ true
    → is_hired c.analysts name ≡ false
    → ((why : HaltError) × ((lift_halt desk reason by c).1 ≡ err why))
      × (active_halt desk (lift_halt desk reason by c).0 ≡ some h)
unfolding lift_halt active_halt
lift_halt-left desk reason by name c {h} found here gone = elim (Bool-cases (is_blank reason)) [
  | inl blank ↦ rw (lift_halt, blank) ((need_reason, refl), found)
  | inr given ↦
      let loop : _ = reinstate_each-missing reason by name (split_list h.suspended) c here gone in
      rw (lift_halt, given, found, loop.0.1)
        ((loop.0.0, refl), ap (find (halts_desk desk)) loop.1 ∙ found)
]
