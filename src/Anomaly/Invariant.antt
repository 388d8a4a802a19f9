-- ===== src/Anomaly/Invariant.antt =====
-- What every stored anomaly satisfies: a decision has its reason and its date.
use costcrew.Base.{
  ◌≡◌, refl, Bool, true, false, not, ◌&&◌, List, [], ◌∷◌, Text, is_empty, is_blank, All, All-update,
  All-insert, arith, Option-cases, inl, inr,
}
use costcrew.Anomaly.Store.{
  State, opened, triaged, explained, accepted, dismissed, closed, Anomaly, has_id, get,
}
use costcrew.Anomaly.Transition.{
  is_triaged, moved, unless_closed, if_answerable, assign, explain, accept, dismiss,
}
use costcrew.Anomaly.Detection.{
  fresh, refreshed, upsert, Pass, start, reconcile_all, reconcile, detections, run,
}
use costcrew.Anomaly.Decisions.{reconcile-rows}
use costcrew.Anomaly.Lifecycle.{transition-Done, Step, Reach, here, next}

abbrev pub needs_reason : State → Bool
needs_reason opened = false
needs_reason triaged = false
needs_reason _ = true

module _ {F : Type 0} where
  -- An explained or closed anomaly has a reason that is not blank, and an anomaly has a closing
  -- date exactly when it is closed.
  pub record IsSound (a : Anomaly F) : Type 0 where
    pub reasoned : (needs_reason a.state && is_blank a.reason) ≡ false
    pub dated : is_empty a.closed_at ≡ not (closed a.state)

  fresh-IsSound : (a : Anomaly F) → IsSound (fresh a)
  unfolding fresh closed
  fresh-IsSound a = ground arith

  refreshed-IsSound : (a b : Anomaly F) → IsSound b → IsSound (refreshed a b)
  unfolding refreshed
  refreshed-IsSound a b h = ground arith

  assigned-IsSound : (analyst now : Text) (a : Anomaly F) → IsSound (moved triaged [] analyst now a)
  unfolding moved closed
  assigned-IsSound analyst now a = ground arith

  explained-IsSound :
      (reason now : Text) (a : Anomaly F)
      → is_blank reason ≡ false
      → IsSound (moved explained reason [] now a)
  unfolding moved closed
  explained-IsSound reason now a h = ground arith

  closing-IsSound :
      (to : State) (reason now : Text) (a : Anomaly F)
      → closed to ≡ true
      → is_blank reason ≡ false
      → is_empty now ≡ false
      → IsSound (moved to reason [] now a)
  unfolding moved closed
  closing-IsSound to reason now a shut h t = ground arith

  upsert-IsSound :
      (a : Anomaly F) (rows : List (Anomaly F)) → All IsSound rows → All IsSound (upsert a rows).1
  unfolding upsert
  upsert-IsSound a rows h = elim (Option-cases (get rows a.id)) [
    | inl new ↦ rw (upsert, new) (All-insert IsSound (fresh a) rows (fresh-IsSound a) h)
    | inr (old, known) ↦
        rw (upsert, known)
          (All-update IsSound (has_id a.id) (refreshed a) (λ b _ s. refreshed-IsSound a b s) rows h)
  ]

  reconcile_all-IsSound :
      (pass : Text) (l : List (Anomaly F)) (p : Pass F)
      → All IsSound p.rows
      → All IsSound (reconcile_all pass l p).rows
  unfolding reconcile_all
  reconcile_all-IsSound pass [] p h = h
  reconcile_all-IsSound pass (a ∷ l) p h =
      reconcile_all-IsSound pass l (reconcile pass a p)
        (rw reconcile-rows (upsert-IsSound a p.rows h))

  Step-IsSound :
      {rows after : List (Anomaly F)} → Step rows after → All IsSound rows → All IsSound after
  unfolding assign explain accept dismiss is_triaged
  Step-IsSound {rows} (Step.assigned id analyst now event h) s =
      let d = transition-Done id triaged [] unless_closed analyst now rows h in
      rw d.written
        (All-update IsSound (has_id id) _ (λ a _ _. assigned-IsSound analyst now a) rows s)
  Step-IsSound {rows} (Step.explained_by id reason now event h) s =
      let d = transition-Done id explained reason unless_closed [] now rows h in
      rw d.written (
        All-update IsSound (has_id id) _ (λ a _ _. explained-IsSound reason now a d.reasoned) rows
          s)
  Step-IsSound {rows} (Step.accepted_by id reason now event t h) s =
      let d = transition-Done id accepted reason if_answerable [] now rows h in
      rw d.written (
        All-update IsSound (has_id id) _
          (λ a _ _. closing-IsSound accepted reason now a (unfold closed in refl) d.reasoned t) rows
          s)
  Step-IsSound {rows} (Step.dismissed_by id reason now event t h) s =
      let d = transition-Done id dismissed reason unless_closed [] now rows h in
      rw d.written (
        All-update IsSound (has_id id) _
          (λ a _ _. closing-IsSound dismissed reason now a (unfold closed in refl) d.reasoned t)
          rows s)
  Step-IsSound (Step.detected_by digest agent_for pass stamp series) s =
      unfold run in
      reconcile_all-IsSound pass (detections digest agent_for stamp series) (start _) s

  -- From a table whose rows are sound, such as the empty one, every table that moves and detection
  -- passes reach has sound rows, if the clock's reading is never empty: an explained or closed
  -- anomaly has a reason that is not blank, and one has a closing date exactly when it is closed.
  pub Reach-IsSound :
      {rows after : List (Anomaly F)} → Reach rows after → All IsSound rows → All IsSound after
  Reach-IsSound here s = s
  Reach-IsSound (next r st) s = Step-IsSound st (Reach-IsSound r s)
