-- ===== src/Anomaly/Graph.antt =====
-- The diagram of an anomaly's states.
use costcrew.Base.{
  ◌≡◌, ◌∙◌, ap, true, Option, none, some, List, [], Text, text_eq, text_eq_iff, if◌then◌else◌,
  find-update, find_sound, update, arith, Bool-cases, inl, inr, subst, sym,
}
use costcrew.Anomaly.Store.{
  State, opened, triaged, explained, accepted, dismissed, closed, Anomaly, has_id, get,
}
use costcrew.Anomaly.Transition.{
  MoveError, moved, unless_closed, if_answerable, answerable, assign, explain, accept, dismiss,
}
use costcrew.Anomaly.Decisions.{run-keeps}
use costcrew.Anomaly.Lifecycle.{Done, transition-Done, Step}

-- Work on an anomaly that nobody closed, and the two ways to close it.
pub data IsLive : State → Type 0 where
  live_opened : IsLive opened
  live_triaged : IsLive triaged
  live_explained : IsLive explained

pub data Edge : State → State → Type 0 where
  stay : {s : State} → Edge s s
  take_on : {s : State} → IsLive s → Edge s triaged
  answer : {s : State} → IsLive s → Edge s explained
  settle_explained : Edge explained accepted
  settle_triaged : Edge triaged accepted
  drop : {s : State} → IsLive s → Edge s dismissed

IsLive-of : (s : State) → unless_closed s ≡ none → IsLive s
unfolding unless_closed closed
IsLive-of opened h = live_opened
IsLive-of triaged h = live_triaged
IsLive-of explained h = live_explained
IsLive-of accepted h = cc
IsLive-of dismissed h = cc

settle_of : (s : State) → if_answerable s ≡ none → Edge s accepted
unfolding if_answerable answerable
settle_of explained h = settle_explained
settle_of triaged h = settle_triaged
settle_of opened h = cc
settle_of accepted h = cc
settle_of dismissed h = cc

some-eq : {A : Type 0} {x y : A} → some x ≡ some y → x ≡ y
some-eq h = cc

module _ {F : Type 0} where
  moved-id :
      (to : State) (reason analyst now : Text) (a : Anomaly F)
      → (moved to reason analyst now a).id ≡ a.id
  unfolding moved
  moved-id to reason analyst now a = ground arith

  moved-state :
      (to : State) (reason analyst now : Text) (a : Anomaly F)
      → (moved to reason analyst now a).state ≡ to
  unfolding moved
  moved-state to reason analyst now a = ground arith

  -- What an update by one key leaves under another.
  get-update :
      (id id' : Text) (f : Anomaly F → Anomaly F) (rows : List (Anomaly F)) {a b : Anomaly F}
      → ((x : Anomaly F) → (f x).id ≡ x.id)
      → get rows id' ≡ some a
      → get (update (has_id id) f rows) id' ≡ some b
      → b ≡ (if text_eq id a.id then f a else a)
  unfolding get
  get-update id id' f rows same before afterwards = some-eq (
      sym afterwards ∙ (find-update (has_id id') (has_id id) f (λ x. rw (same x)) rows ∙ rw before))

  -- The row that a move leaves behind: moved, where the move was on it, and as it was elsewhere.
  Done-Edge :
      {id reason analyst now : Text} {to : State} {allowed : State → Option MoveError}
      {rows after : List (Anomaly F)} (id' : Text) {a b : Anomaly F}
      → ((s : State) → allowed s ≡ none → Edge s to)
      → Done F id to reason allowed analyst now rows after
      → get rows id' ≡ some a
      → get after id' ≡ some b
      → Edge a.state b.state
  Done-Edge {id} {reason} {analyst} {now} {to} {allowed} {rows} {after} id' {a} {b} edge d before
        afterwards =
      let f = moved to reason analyst now in
      let effect : b ≡ (if text_eq id a.id then f a else a) =
        get-update id id' f rows (moved-id to reason analyst now) before
          (rw (d.written) at afterwards) in
      elim (Bool-cases (text_eq id a.id)) [
        | inl here ↦
            let own : text_eq id' a.id ≡ true = unfold get in find_sound (has_id id') rows before in
            let ids : id ≡ id' =
              (text_eq_iff id a.id).0 here ∙ sym ((text_eq_iff id' a.id).0 own) in
            let rows_agree : get rows id ≡ get rows id' = ap (get rows) ids in
            let row : d.cur ≡ a = cc (d.known, rows_agree, before) in
            let landed : b ≡ f a = effect ∙ rw here in
            rw (landed, moved-state)
              (edge a.state (subst (λ (x : Anomaly F). allowed x.state ≡ none) row d.may))
        | inr other ↦ let same : b ≡ a = effect ∙ rw other in rw same stay
      ]

  -- A move or a detection pass takes a stored anomaly along an edge of the diagram: it stays, is
  -- taken on, answered or dismissed while nobody has closed it, or is accepted once it is triaged
  -- or explained.
  pub Step-Edge :
      {rows after : List (Anomaly F)} (id : Text) {a b : Anomaly F}
      → Step rows after
      → get rows id ≡ some a
      → get after id ≡ some b
      → Edge a.state b.state
  unfolding assign explain accept dismiss
  Step-Edge {rows} id (Step.assigned id' analyst now event h) before afterwards =
      Done-Edge id (λ s e. take_on (IsLive-of s e))
        (transition-Done id' triaged [] unless_closed analyst now rows h) before afterwards
  Step-Edge {rows} id (Step.explained_by id' reason now event h) before afterwards =
      Done-Edge id (λ s e. answer (IsLive-of s e))
        (transition-Done id' explained reason unless_closed [] now rows h) before afterwards
  Step-Edge {rows} id (Step.accepted_by id' reason now event t h) before afterwards =
      Done-Edge id settle_of (transition-Done id' accepted reason if_answerable [] now rows h)
        before afterwards
  Step-Edge {rows} id (Step.dismissed_by id' reason now event t h) before afterwards =
      Done-Edge id (λ s e. drop (IsLive-of s e))
        (transition-Done id' dismissed reason unless_closed [] now rows h) before afterwards
  Step-Edge {rows} id {a} {b} (Step.detected_by digest agent_for pass stamp series) before
        afterwards =
      let (c, found, same) = run-keeps digest agent_for pass stamp series rows id before in
      let row : b ≡ c = cc (found, afterwards) in rw (row, same.state) stay
