-- ===== src/Anomaly/Rerun.antt =====
-- Detection is idempotent: what a pass raised, a later pass finds known.
use costcrew.Base.{
  ◌+◌, ◌≡◌, refl, ◌∙◌, none, some, List, [], ◌∷◌, Text, text_eq_refl, All, length, find-insert_new,
  insert, arith, Option-cases, inl, inr,
}
use costcrew.Detect.Series.{Finding}
use costcrew.Anomaly.Store.{Anomaly, has_id, get}
use costcrew.Anomaly.Detection.{
  SeriesKey, fresh, upsert, Pass, reconcile, reconcile_all, detected, detections, start, run,
}
use costcrew.Anomaly.Decisions.{upsert-keeps, reconcile_all-keeps, reconcile-rows}

module _ {F : Type 0} where
  -- An anomaly whose identity is stored.
  abbrev Known : List (Anomaly F) → Anomaly F → Type 0
  Known rows a = (b : Anomaly F) × (get rows a.id ≡ some b)

  get-insert-fresh :
      (a : Anomaly F) (rows : List (Anomaly F))
      → get rows a.id ≡ none
      → get (insert (fresh a) rows) a.id ≡ some (fresh a)
  unfolding get
  get-insert-fresh a rows new =
      find-insert_new (has_id a.id) (fresh a) rows new ∙ unfold fresh in rw (text_eq_refl a.id)

  upsert-Known : (a : Anomaly F) (rows : List (Anomaly F)) → Known (upsert a rows).1 a
  unfolding upsert
  upsert-Known a rows = elim (Option-cases (get rows a.id)) [
    | inl new ↦ (fresh a, rw (upsert, new) (get-insert-fresh a rows new))
    | inr (old, known) ↦ let (c, found, _) = upsert-keeps a rows a.id known in (c, found)
  ]

  reconcile_all-Known :
      (pass : Text) (l : List (Anomaly F)) (p : Pass F) (a : Anomaly F)
      → Known p.rows a
      → Known (reconcile_all pass l p).rows a
  reconcile_all-Known pass l p a (b, h) =
      let (c, found, _) = reconcile_all-keeps pass l p a.id h in (c, found)

  -- After a pass every anomaly that it raised is stored.
  reconcile_all-All-Known :
      (pass : Text) (l : List (Anomaly F)) (p : Pass F)
      → All (Known (reconcile_all pass l p).rows) l
  unfolding reconcile_all
  reconcile_all-All-Known pass [] p = tt
  reconcile_all-All-Known pass (a ∷ l) p = (
    reconcile_all-Known pass l (reconcile pass a p) a (rw reconcile-rows (upsert-Known a p.rows)),
    reconcile_all-All-Known pass l (reconcile pass a p),
  )

  All-Known-reconcile :
      (pass : Text) (a : Anomaly F) (p : Pass F) (l : List (Anomaly F))
      → All (Known p.rows) l
      → All (Known (reconcile pass a p).rows) l
  All-Known-reconcile pass a p [] h = tt
  All-Known-reconcile pass a p (x ∷ l) ((b, h), hs) =
      let (c, found, _) = upsert-keeps a p.rows x.id h in
      ((c, rw reconcile-rows found), All-Known-reconcile pass a p l hs)

  reconcile-Known :
      (pass : Text) (a : Anomaly F) (p : Pass F)
      → Known p.rows a
      → let q = reconcile pass a p in
        (q.added ≡ p.added) × (q.found ≡ p.found + 1) × (q.events ≡ p.events)
  unfolding reconcile upsert
  reconcile-Known pass a p (b, h) = ground arith

  reconcile_all-again :
      (pass : Text) (l : List (Anomaly F)) (p : Pass F)
      → All (Known p.rows) l
      → let q = reconcile_all pass l p in
        (q.added ≡ p.added) × (q.found ≡ p.found + length l) × (q.events ≡ p.events)
  unfolding reconcile_all
  reconcile_all-again pass [] p h = (refl, omega arith, refl)
  reconcile_all-again pass (a ∷ l) p h = ground (
    arith,
    reconcile-Known pass a p h.0,
    reconcile_all-again pass l (reconcile pass a p) (All-Known-reconcile pass a p l h.1),
  )

  -- An anomaly's identity is not of the pass that raises it, nor of the agent that it names.
  Known-detected :
      (digest : Text → Text) (agent_for agent_for' : SeriesKey → Text → Text) (stamp stamp' : Text)
      (k : SeriesKey) (f : Finding F) (rows : List (Anomaly F))
      → Known rows (detected digest agent_for stamp k f)
      → Known rows (detected digest agent_for' stamp' k f)
  unfolding detected
  Known-detected digest agent_for agent_for' stamp stamp' k f rows h = h

  All-Known-detections :
      (digest : Text → Text) (agent_for agent_for' : SeriesKey → Text → Text) (stamp stamp' : Text)
      (series : List (SeriesKey × List (Finding F))) (rows : List (Anomaly F))
      → All (Known rows) (detections digest agent_for stamp series)
      → All (Known rows) (detections digest agent_for' stamp' series)
  unfolding detections
  All-Known-detections digest agent_for agent_for' stamp stamp' [] rows h = tt
  All-Known-detections digest agent_for agent_for' stamp stamp' ((k, []) ∷ series) rows h =
      All-Known-detections digest agent_for agent_for' stamp stamp' series rows h
  All-Known-detections digest agent_for agent_for' stamp stamp' ((k, f ∷ fs) ∷ series) rows h = (
    Known-detected digest agent_for agent_for' stamp stamp' k f rows h.0,
    All-Known-detections digest agent_for agent_for' stamp stamp' ((k, fs) ∷ series) rows h.1,
  )

  -- A second pass over the same findings, whatever its name, its time and the agents that it names,
  -- adds no anomaly and reports none; it finds as many as there are.
  pub run_again :
      (digest : Text → Text) (agent_for agent_for' : SeriesKey → Text → Text)
      (pass pass' stamp stamp' : Text) (series : List (SeriesKey × List (Finding F)))
      (rows : List (Anomaly F))
      → let first = run digest agent_for pass stamp series rows in
        let again = run digest agent_for' pass' stamp' series first.rows in
        (again.added ≡ 0)
        × (again.found ≡ length (detections digest agent_for' stamp' series))
        × (again.events ≡ [])
  unfolding run
  run_again digest agent_for agent_for' pass pass' stamp stamp' series rows =
      let l = detections digest agent_for stamp series in
      let l' = detections digest agent_for' stamp' series in
      let first = (reconcile_all pass l (start rows)).rows in
      let (added, found, events) = reconcile_all-again pass' l' (start first) (
        All-Known-detections digest agent_for agent_for' stamp stamp' series first
          (reconcile_all-All-Known pass l (start rows))) in
      (added, omega (arith, found), events)
