-- ===== src/Anomaly/Closed.antt =====
-- A closed anomaly stays closed.
use costcrew.Base.{
  ◌≡◌, ◌∙◌, ap, subst, true, false, Option, none, some, List, [], Text, text_eq, text_eq_iff,
  find-update, find_sound, update, arith, Bool-cases, inl, inr, ◌≢◌,
}
use costcrew.Anomaly.Store.{
  State, triaged, explained, accepted, dismissed, closed, Anomaly, has_id, get,
}
use costcrew.Anomaly.Transition.{
  MoveError, moved, unless_closed, if_answerable, answerable, assign, explain, accept, dismiss,
}
use costcrew.Anomaly.Decisions.{SameDecision, SameDecision-refl, SameDecision-trans, run-keeps}
use costcrew.Anomaly.Lifecycle.{Done, transition-Done, Step, Reach, here, next}

unless_closed-closed : (s : State) → closed s ≡ true → unless_closed s ≢ none
unfolding unless_closed
unless_closed-closed s h e = ground arith

if_answerable-closed : (s : State) → closed s ≡ true → if_answerable s ≢ none
unfolding if_answerable answerable closed
if_answerable-closed s h e = ground arith

module _ {F : Type 0} where
  get-update_ne :
      (id id' : Text) (f : Anomaly F → Anomaly F) (rows : List (Anomaly F)) {b : Anomaly F}
      → ((x : Anomaly F) → (f x).id ≡ x.id)
      → text_eq id' id ≡ false
      → get rows id ≡ some b
      → get (update (has_id id') f rows) id ≡ some b
  unfolding get
  get-update_ne id id' f rows {b} same ne h =
      let found = find_sound (has_id id) rows h in
      find-update (has_id id) (has_id id') f (λ x. rw (same x)) rows
      ∙ rw h (ground (arith, text_eq_iff id b.id, text_eq_iff id' id, text_eq_iff id' b.id))

  moved-id :
      (to : State) (reason analyst now : Text) (a : Anomaly F)
      → (moved to reason analyst now a).id ≡ a.id
  unfolding moved
  moved-id to reason analyst now a = ground arith

  -- A move that succeeds on a row that it may not touch was made on another row.
  Done-keeps :
      {id to_reason analyst now : Text} {to : State} {allowed : State → Option MoveError}
      {rows after : List (Anomaly F)} (id' : Text) {b : Anomaly F}
      → Done F id to to_reason allowed analyst now rows after
      → allowed b.state ≢ none
      → get rows id' ≡ some b
      → get after id' ≡ some b
  Done-keeps {id} {to_reason} {analyst} {now} {to} {allowed} {rows} id' {b} d forbidden h =
      elim (Bool-cases (text_eq id id')) [
        | inl same ↦
            let ids : id ≡ id' = (text_eq_iff id id').0 same in
            let rows_agree : get rows id ≡ get rows id' = ap (get rows) ids in
            let row : d.cur ≡ b = cc (d.known, rows_agree, h) in
            absurd (forbidden (subst (λ x. allowed x.state ≡ none) row d.may))
        | inr other ↦ rw d.written (
            get-update_ne id' id (moved to to_reason analyst now) rows
              (moved-id to to_reason analyst now) other h)
      ]

  -- One step keeps a closed row, but for the measurements that a detection pass refreshes.
  Step-keeps :
      {rows after : List (Anomaly F)} (id : Text) {b : Anomaly F}
      → Step rows after
      → get rows id ≡ some b
      → closed b.state ≡ true
      → (c : Anomaly F) × (get after id ≡ some c) × SameDecision c b
  unfolding assign explain accept dismiss
  Step-keeps {rows} id {b} (Step.assigned id' analyst now event h) e shut =
      let d = transition-Done id' triaged [] unless_closed analyst now rows h in
      (b, Done-keeps id d (unless_closed-closed b.state shut) e, SameDecision-refl b)
  Step-keeps {rows} id {b} (Step.explained_by id' reason now event h) e shut =
      let d = transition-Done id' explained reason unless_closed [] now rows h in
      (b, Done-keeps id d (unless_closed-closed b.state shut) e, SameDecision-refl b)
  Step-keeps {rows} id {b} (Step.accepted_by id' reason now event t h) e shut =
      let d = transition-Done id' accepted reason if_answerable [] now rows h in
      (b, Done-keeps id d (if_answerable-closed b.state shut) e, SameDecision-refl b)
  Step-keeps {rows} id {b} (Step.dismissed_by id' reason now event t h) e shut =
      let d = transition-Done id' dismissed reason unless_closed [] now rows h in
      (b, Done-keeps id d (unless_closed-closed b.state shut) e, SameDecision-refl b)
  Step-keeps {rows} id {b} (Step.detected_by digest agent_for pass stamp series) e shut =
      run-keeps digest agent_for pass stamp series rows id e

  -- Whatever moves and detection passes follow, an anomaly that is accepted or dismissed keeps its
  -- state, owner, reason, closing and detection dates, rule version and cause.
  pub closed_forever :
      {rows after : List (Anomaly F)} (id : Text) {b : Anomaly F}
      → Reach rows after
      → get rows id ≡ some b
      → closed b.state ≡ true
      → (c : Anomaly F) × (get after id ≡ some c) × SameDecision c b
  closed_forever id {b} here e shut = (b, e, SameDecision-refl b)
  closed_forever id {b} (next r st) e shut =
      let (c, found, same) = closed_forever id r e shut in
      let (d, found', same') = Step-keeps id st found (rw (same.state) shut) in
      (d, found', SameDecision-trans same' same)
