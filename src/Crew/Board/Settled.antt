-- ===== src/Crew/Board/Settled.antt =====
-- What no operation of the board takes back: a stamp, the date of a decision request, a closed sprint.
use costcrew.Base.{
  ℕ, ◌≡◌, refl, ap, find-find-none, find-mem_id, ◌∙◌, Bool, true, false, none, some, List, Text,
  find, find-update, find_sound, find-insert_found, find-insert_new, mem_id, arith, Option-cases,
  Bool-cases, inl, inr, ◌==◌, ==_iff,
}
use costcrew.Crew.Roles.Defs.{RolesFile}
use costcrew.Crew.Board.Tables.{Artifact, Request, Db, artifact_is, get_artifact}
use costcrew.Crew.Board.Stamp.{is_posted_draft, set_artifact, stamped_by, sent_back}
use costcrew.Crew.Board.Requests.{
  request_is, decision_request_for, rewritten, artifact_ids, add_request, answered,
}
use costcrew.Crew.Board.Steps.{Reach, here, next}
use costcrew.Crew.Board.Writes.{Write, Writes, nothing, also}
use costcrew.Crew.Board.Split.{Step-Writes}

-- the deliverable is a decision request
abbrev pub request_for : ℕ → Request → Bool
request_for id r = r.artifact == id

-- A stamped deliverable that is no decision request.
pub record IsStamped (db : Db) (a : Artifact) : Type 0 where
  pub stored : get_artifact db a.id ≡ some a
  pub posted : is_posted_draft a.state ≡ true
  pub ordinary : find (request_for a.id) db.requests ≡ none

set_artifact_ne :
    (db : Db) (id id' : ℕ) (f : Artifact → Artifact) {a : Artifact}
    → ((x : Artifact) → (f x).id ≡ x.id)
    → (id' == id) ≡ false
    → get_artifact db id ≡ some a
    → get_artifact (set_artifact id' f db) id ≡ some a
unfolding get_artifact
set_artifact_ne db id id' f {a} same ne h =
    let found = find_sound (artifact_is id) db.artifacts h in
    find-update (artifact_is id) (artifact_is id') f (λ x. rw (same x)) db.artifacts
    ∙ rw h (ground (arith, ==_iff a.id id, ==_iff a.id id'))

-- a change of a deliverable that the stamped one is not
other-IsStamped :
    (id' : ℕ) (f : Artifact → Artifact) {db : Db} {a : Artifact}
    → ((x : Artifact) → (f x).id ≡ x.id)
    → (id' == a.id) ≡ false
    → IsStamped db a
    → IsStamped (set_artifact id' f db) a
other-IsStamped id' f {db} {a} same ne s = record {
  stored = set_artifact_ne db a.id id' f same ne s.stored;
  posted = s.posted;
  ordinary = s.ordinary;
}

-- A deliverable that was looked up and found unposted is another one.
unposted_ne :
    {db : Db} {a b : Artifact} (id : ℕ)
    → IsStamped db a
    → get_artifact db id ≡ some b
    → is_posted_draft b.state ≡ false
    → (id == a.id) ≡ false
unposted_ne {db} {a} {b} id s h drafted = elim (Bool-cases (id == a.id)) [
  | inr other ↦ other
  | inl same ↦
      let ids : id ≡ a.id = (==_iff id a.id).0 same in
      let rows : b ≡ a = cc (h, s.stored, ap (get_artifact db) ids) in
      absurd (cc (drafted, s.posted, ap (λ x. is_posted_draft x.state) rows))
]

request_ne :
    {db : Db} {a : Artifact} (sprint : ℕ) (owner : Text) {id : ℕ}
    → IsStamped db a
    → decision_request_for db sprint owner ≡ some id
    → (id == a.id) ≡ false
unfolding decision_request_for
request_ne {db} {a} sprint owner {id} s h =
    elim (Option-cases (find (request_is sprint owner) db.requests)) [
      | inl unknown ↦ ground arith
      | inr (r, known) ↦ ground (
        arith,
        find-find-none (request_for a.id) (request_is sprint owner) db.requests s.ordinary known,
      )
    ]

answered-IsStamped :
    (id : ℕ) (owner now : Text) {db : Db} {a : Artifact}
    → IsStamped db a
    → IsStamped (set_artifact id (answered owner now) db) a
unfolding get_artifact answered
answered-IsStamped id owner now {db} {a} s = record {
  stored =
      find-update (artifact_is a.id) (artifact_is id) (answered owner now) (λ x. ground arith)
        db.artifacts
      ∙ rw (s.stored) (ground (arith, s.posted));
  posted = s.posted;
  ordinary = s.ordinary;
}

apart_ids : (x y : ℕ) (l : List ℕ) → mem_id x l ≡ false → mem_id y l ≡ true → (x == y) ≡ false
apart_ids x y l h k = elim (Bool-cases (x == y)) [
  | inr other ↦ other
  | inl same ↦ absurd (cc (h, k, ap (λ z. mem_id z l) ((==_iff x y).0 same)))
]

module _ (fresh : List ℕ → ℕ) (unused : (l : List ℕ) → mem_id (fresh l) l ≡ false) where
  add_request-IsStamped :
      (a' : Artifact) (r : Request) {db : Db} {a : Artifact}
      → r.artifact ≡ fresh (artifact_ids db)
      → IsStamped db a
      → IsStamped (add_request a' r db) a
  unfolding get_artifact
  add_request-IsStamped a' r {db} {a} new s = record {
    stored = find-insert_found (artifact_is a.id) a' db.artifacts s.stored;
    posted = s.posted;
    ordinary =
        let stored : mem_id a.id (artifact_ids db) ≡ true =
          find-mem_id (λ x. x.id) a.id db.artifacts s.stored in
        let free : mem_id r.artifact (artifact_ids db) ≡ false =
          rw new (unused (artifact_ids db)) in
        let apart : (r.artifact == a.id) ≡ false =
          apart_ids r.artifact a.id (artifact_ids db) free stored in
        find-insert_new (request_for a.id) r db.requests s.ordinary ∙ rw apart refl;
  }

  Write-IsStamped :
      {db after : Db} {a : Artifact} → Write fresh db after → IsStamped db a → IsStamped after a
  unfolding get_artifact stamped_by sent_back rewritten
  Write-IsStamped (Write.task_assigned id analyst now) s = record {
    stored = s.stored;
    posted = s.posted;
    ordinary = s.ordinary;
  }
  Write-IsStamped (Write.task_stopped id state reason now _ _) s = record {
    stored = s.stored;
    posted = s.posted;
    ordinary = s.ordinary;
  }
  Write-IsStamped (Write.task_posted id now) s = record {
    stored = s.stored;
    posted = s.posted;
    ordinary = s.ordinary;
  }
  Write-IsStamped (Write.task_planned sprint item now) s = record {
    stored = s.stored;
    posted = s.posted;
    ordinary = s.ordinary;
  }
  Write-IsStamped (Write.task_from sprint item anomaly now _) s = record {
    stored = s.stored;
    posted = s.posted;
    ordinary = s.ordinary;
  }
  Write-IsStamped (Write.artifact_stamped id stamper now _ known drafted) s =
      other-IsStamped id (stamped_by stamper now) (λ x. refl) (unposted_ne id s known drafted) s
  Write-IsStamped (Write.artifact_returned id reason _ known drafted) s =
      other-IsStamped id (sent_back reason) (λ x. refl) (unposted_ne id s known drafted) s
  Write-IsStamped (Write.artifact_rewritten sprint owner body {id} known) s =
      other-IsStamped id (rewritten body) (λ x. refl) (request_ne sprint owner s known) s
  Write-IsStamped (Write.artifact_answered id owner now _) s = answered-IsStamped id owner now s
  Write-IsStamped (Write.request_written task sprint owner body lapses now _) s =
      add_request-IsStamped _ _ refl s
  Write-IsStamped (Write.commented c) s = record {
    stored = s.stored;
    posted = s.posted;
    ordinary = s.ordinary;
  }
  Write-IsStamped (Write.sprint_planned p) s = record {
    stored = s.stored;
    posted = s.posted;
    ordinary = s.ordinary;
  }
  Write-IsStamped (Write.sprint_shut id) s = record {
    stored = s.stored;
    posted = s.posted;
    ordinary = s.ordinary;
  }

  Writes-IsStamped :
      {db after : Db} {a : Artifact} → Writes fresh db after → IsStamped db a → IsStamped after a
  Writes-IsStamped nothing s = s
  Writes-IsStamped (also ws w) s = Write-IsStamped w (Writes-IsStamped ws s)

  -- Whatever operations follow, a posted deliverable that is no decision request is stored as it
  -- was: its state, body, stamp and stamper, if the database gives a new row an id not in use.
  pub IsStamped-forever :
      (roles : RolesFile) {db after : Db} {a : Artifact}
      → Reach fresh roles db after
      → IsStamped db a
      → IsStamped after a
  IsStamped-forever roles here s = s
  IsStamped-forever roles (next r st) s =
      Writes-IsStamped (Step-Writes fresh roles st) (IsStamped-forever roles r s)
