-- ===== src/Anomaly/Decisions.antt =====
-- A detection pass never touches a decision.
use costcrew.Base.{
  ◌≡◌, refl, ◌∙◌, some, List, [], ◌∷◌, Text, text_eq, if◌then◌else◌, find-update, find-insert_found,
  update, arith, Option-cases, inl, inr,
}
use costcrew.Detect.Series.{Finding}
use costcrew.Anomaly.Store.{Anomaly, has_id, get}
use costcrew.Anomaly.Detection.{
  SeriesKey, fresh, refreshed, upsert, Pass, reconcile, reconcile_all, detections, start, run,
}

module _ {F : Type 0} where
  -- What a person decided about an anomaly, and what it is about, is the same in two rows.
  pub record SameDecision (a b : Anomaly F) : Type 0 where
    pub id : a.id ≡ b.id
    pub state : a.state ≡ b.state
    pub handled_by : a.handled_by ≡ b.handled_by
    pub reason : a.reason ≡ b.reason
    pub closed_at : a.closed_at ≡ b.closed_at
    pub detected_at : a.detected_at ≡ b.detected_at
    pub rule_ver : a.rule_ver ≡ b.rule_ver
    pub caused_by : a.caused_by ≡ b.caused_by

  refreshed-SameDecision : (a b : Anomaly F) → SameDecision (refreshed a b) b
  unfolding refreshed
  refreshed-SameDecision a b = ground arith

  pub SameDecision-refl : (a : Anomaly F) → SameDecision a a
  SameDecision-refl a = ground arith

  pub SameDecision-trans :
      {a b c : Anomaly F} → SameDecision a b → SameDecision b c → SameDecision a c
  SameDecision-trans h k = ground arith

  update-keeps :
      (a : Anomaly F) (rows : List (Anomaly F)) (id : Text) {b : Anomaly F}
      → get rows id ≡ some b
      → (c : Anomaly F) × (get (update (has_id a.id) (refreshed a) rows) id ≡ some c)
        × SameDecision c b
  unfolding get
  update-keeps a rows id {b} h = (
    if text_eq a.id b.id then refreshed a b else b,
    find-update (has_id id) (has_id a.id) (refreshed a) (λ x. unfold refreshed in refl) rows ∙ rw h,
    ground (arith, refreshed-SameDecision a b, SameDecision-refl b),
  )

  -- One upsert: a stored anomaly is still there, with the same decision.
  pub upsert-keeps :
      (a : Anomaly F) (rows : List (Anomaly F)) (id : Text) {b : Anomaly F}
      → get rows id ≡ some b
      → (c : Anomaly F) × (get (upsert a rows).1 id ≡ some c) × SameDecision c b
  unfolding upsert
  upsert-keeps a rows id {b} h = elim (Option-cases (get rows a.id)) [
    | inl new ↦ (
      b,
      rw (upsert, new) (unfold get in find-insert_found (has_id id) (fresh a) rows h),
      SameDecision-refl b,
    )
    | inr (old, known) ↦ rw (upsert, known) (update-keeps a rows id h)
  ]

  pub reconcile-rows :
      (pass : Text) (a : Anomaly F) (p : Pass F) → (reconcile pass a p).rows ≡ (upsert a p.rows).1
  unfolding reconcile
  reconcile-rows pass a p = ground arith

  pub reconcile_all-keeps :
      (pass : Text) (l : List (Anomaly F)) (p : Pass F) (id : Text) {b : Anomaly F}
      → get p.rows id ≡ some b
      → (c : Anomaly F) × (get (reconcile_all pass l p).rows id ≡ some c) × SameDecision c b
  unfolding reconcile_all
  reconcile_all-keeps pass [] p id {b} h = (b, h, SameDecision-refl b)
  reconcile_all-keeps pass (a ∷ l) p id h =
      let (c, found, same) = upsert-keeps a p.rows id h in
      let (d, found', same') =
        reconcile_all-keeps pass l (reconcile pass a p) id (rw reconcile-rows found) in
      (d, found', SameDecision-trans same' same)

  -- A detection pass leaves every stored anomaly stored, with its state, owner, reason, closing
  -- and detection dates, rule version and cause as they were.
  pub run-keeps :
      (digest : Text → Text) (agent_for : SeriesKey → Text → Text) (pass stamp : Text)
      (series : List (SeriesKey × List (Finding F))) (rows : List (Anomaly F)) (id : Text)
      {b : Anomaly F}
      → get rows id ≡ some b
      → (c : Anomaly F) × (get (run digest agent_for pass stamp series rows).rows id ≡ some c)
        × SameDecision c b
  unfolding run
  run-keeps digest agent_for pass stamp series rows id h =
      reconcile_all-keeps pass (detections digest agent_for stamp series) (start rows) id h
