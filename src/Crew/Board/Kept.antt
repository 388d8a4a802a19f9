-- ===== src/Crew/Board/Kept.antt =====
-- The date of a decision request and a closed sprint, which no later operation changes.
use costcrew.Base.{
  ℕ, ◌≡◌, refl, ◌∙◌, true, some, List, Text, find, find-update, find-insert_found, update, insert,
  arith, Option-cases, inl, inr,
}
use costcrew.Crew.Roles.Defs.{RolesFile}
use costcrew.Crew.Board.Tables.{Sprint, Request, Db, sprint_is}
use costcrew.Crew.Board.Sprints.{shut, is_closed}
use costcrew.Crew.Board.Requests.{request_is, existing_lapses}
use costcrew.Crew.Board.Steps.{Reach, here, next}
use costcrew.Crew.Board.Writes.{Write, Writes, nothing, also}
use costcrew.Crew.Board.Split.{Step-Writes}

-- A row of the sprint table that is closed.
pub record IsClosed (id : ℕ) (s : Sprint) (db : Db) : Type 0 where
  pub stored : find (sprint_is id) db.sprints ≡ some s
  pub closed : is_closed s.state ≡ true

-- A date that is on file.
pub record IsDated (sprint : ℕ) (owner lapses : Text) (db : Db) : Type 0 where
  pub dated : existing_lapses db sprint owner ≡ some lapses

-- What the board says for good: the row of a closed sprint, or a date that is on file.
pub data Fact : Type 0 where
  closed_as : ℕ → Sprint → Fact
  lapses_on : ℕ → Text → Text → Fact

abbrev pub Holds : Fact → Db → Type 0
Holds (closed_as id s) db = IsClosed id s db
Holds (lapses_on sprint owner lapses) db = IsDated sprint owner lapses db

shut_twice : (s : Sprint) → is_closed s.state ≡ true → shut s ≡ s
unfolding shut is_closed
shut_twice s h = ground arith

shut-IsClosed :
    (id id' : ℕ) (s : Sprint) (db : Db)
    → IsClosed id s db
    → IsClosed id s (record db { sprints = update (sprint_is id') shut db.sprints })
shut-IsClosed id id' s db c = record {
  stored =
      find-update (sprint_is id) (sprint_is id') shut (λ x. unfold shut in refl) db.sprints
      ∙ rw (c.stored) (ground (arith, shut_twice s c.closed));
  closed = c.closed;
}

add_request-IsDated :
    (r : Request) (sprint : ℕ) (owner lapses : Text) (db : Db)
    → IsDated sprint owner lapses db
    → IsDated sprint owner lapses (record db { requests = insert r db.requests })
unfolding existing_lapses
add_request-IsDated r sprint owner lapses db d =
    elim (Option-cases (find (request_is sprint owner) db.requests)) [
      | inl unknown ↦ ground (arith, d.dated)
      | inr (q, known) ↦ record {
        dated =
            ground
              (arith, d.dated, find-insert_found (request_is sprint owner) r db.requests known);
      }
    ]

module _ (fresh : List ℕ → ℕ) where
  same_sprints :
      {id : ℕ} {s : Sprint} {db after : Db}
      → after.sprints ≡ db.sprints
      → IsClosed id s db
      → IsClosed id s after
  same_sprints same c = record { stored = rw same c.stored; closed = c.closed }

  same_requests :
      {sprint : ℕ} {owner lapses : Text} {db after : Db}
      → after.requests ≡ db.requests
      → IsDated sprint owner lapses db
      → IsDated sprint owner lapses after
  unfolding existing_lapses
  same_requests same d = record { dated = rw same d.dated }

  Write-sprints :
      {id : ℕ} {s : Sprint} {db after : Db}
      → Write fresh db after
      → IsClosed id s db
      → IsClosed id s after
  Write-sprints {id} {s} {db} (Write.sprint_planned p) c = record {
    stored = find-insert_found (sprint_is id) _ db.sprints c.stored;
    closed = c.closed;
  }
  Write-sprints {id} {s} {db} (Write.sprint_shut id') c = shut-IsClosed id id' s db c
  Write-sprints (Write.task_assigned id analyst now) c = same_sprints refl c
  Write-sprints (Write.task_stopped id state reason now _ _) c = same_sprints refl c
  Write-sprints (Write.task_posted id now) c = same_sprints refl c
  Write-sprints (Write.task_planned sprint item now) c = same_sprints refl c
  Write-sprints (Write.task_from sprint item anomaly now _) c = same_sprints refl c
  Write-sprints (Write.artifact_stamped id stamper now _ _ _) c = same_sprints refl c
  Write-sprints (Write.artifact_returned id reason _ _ _) c = same_sprints refl c
  Write-sprints (Write.artifact_rewritten sprint owner body _) c = same_sprints refl c
  Write-sprints (Write.artifact_answered id owner now _) c = same_sprints refl c
  Write-sprints (Write.request_written task sprint owner body lapses now _) c = same_sprints refl c
  Write-sprints (Write.commented x) c = same_sprints refl c

  Write-requests :
      {sprint : ℕ} {owner lapses : Text} {db after : Db}
      → Write fresh db after
      → IsDated sprint owner lapses db
      → IsDated sprint owner lapses after
  Write-requests {sprint} {owner} {lapses} {db} (Write.request_written _ _ _ _ _ _ _) d =
      same_requests refl (add_request-IsDated _ sprint owner lapses db d)
  Write-requests (Write.sprint_planned p) d = same_requests refl d
  Write-requests (Write.sprint_shut id') d = same_requests refl d
  Write-requests (Write.task_assigned id analyst now) d = same_requests refl d
  Write-requests (Write.task_stopped id state reason now _ _) d = same_requests refl d
  Write-requests (Write.task_posted id now) d = same_requests refl d
  Write-requests (Write.task_planned sprint item now) d = same_requests refl d
  Write-requests (Write.task_from sprint item anomaly now _) d = same_requests refl d
  Write-requests (Write.artifact_stamped id stamper now _ _ _) d = same_requests refl d
  Write-requests (Write.artifact_returned id reason _ _ _) d = same_requests refl d
  Write-requests (Write.artifact_rewritten sprint owner body _) d = same_requests refl d
  Write-requests (Write.artifact_answered id owner now _) d = same_requests refl d
  Write-requests (Write.commented x) d = same_requests refl d

  Write-Holds :
      (fact : Fact) {db after : Db} → Write fresh db after → Holds fact db → Holds fact after
  Write-Holds (closed_as id s) w h = Write-sprints w h
  Write-Holds (lapses_on sprint owner lapses) w h = Write-requests w h

  Writes-Holds :
      (fact : Fact) {db after : Db} → Writes fresh db after → Holds fact db → Holds fact after
  Writes-Holds fact nothing h = h
  Writes-Holds fact (also ws w) h = Write-Holds fact w (Writes-Holds fact ws h)

  -- Whatever operations follow, a sprint that is closed keeps its row; and whatever operations
  -- follow, the date on which an owner's decision request lapses, if it has one, is not moved.
  pub kept_forever :
      (roles : RolesFile) (fact : Fact) {db after : Db}
      → Reach fresh roles db after
      → Holds fact db
      → Holds fact after
  kept_forever roles fact here h = h
  kept_forever roles fact (next r st) h =
      Writes-Holds fact (Step-Writes fresh roles st) (kept_forever roles fact r h)
