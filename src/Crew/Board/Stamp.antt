-- ===== src/Crew/Board/Stamp.antt =====
-- The stamp and its opposite, of internal/crew/crew.go: Post and Return, which ask MayDecide of
-- roles.go first.
use costcrew.Base.{
  ℕ, Bool, true, false, not, [], Text, codes, update, is_blank, Result, ok, ◌>>=◌, ◌>>◌, refuse_if,
}
use costcrew.Crew.Roles.Defs.{RolesFile, may_decide, is_may}
use costcrew.Crew.Board.Tables.{
  returned, posted, ArtifactState, returned_draft, posted_draft, Task, Artifact, Db, artifact_is,
  get_artifact, BoardError, settled, need_reason, may_not_decide,
}
use costcrew.Crew.Board.Work.{or_not_found, set_task, stopped}

unfoldable pub is_posted_draft : ArtifactState → Bool
is_posted_draft posted_draft = true
is_posted_draft _ = false

abbrev pub set_artifact : ℕ → (Artifact → Artifact) → Db → Db
set_artifact id f db = record db { artifacts = update (artifact_is id) f db.artifacts }

unfoldable pub stamped_by : Text → Text → Artifact → Artifact
stamped_by stamper now a = record a {
  state = posted_draft;
  stamped = now;
  stamper = stamper;
  reason = [];
}

unfoldable pub sent_back : Text → Artifact → Artifact
sent_back reason a = record a { state = returned_draft; reason = reason }

unfoldable pub posted_task : Text → Task → Task
posted_task now t = record t { state = posted; updated = now }

unfoldable pub post : RolesFile → ℕ → Text → Text → Text → Db → Result BoardError Db
post roles id stamper link now db = do
  refuse_if (not (is_may (may_decide roles link (codes "task.accept")))) may_not_decide
  a ← or_not_found (get_artifact db id)
  refuse_if (is_posted_draft a.state) settled
  ok (set_task a.task (posted_task now) (set_artifact id (stamped_by stamper now) db))

-- Return
unfoldable pub send_back : RolesFile → ℕ → Text → Text → Text → Db → Result BoardError Db
send_back roles id reason link now db = do
  refuse_if (is_blank reason) need_reason
  refuse_if (not (is_may (may_decide roles link (codes "task.return")))) may_not_decide
  a ← or_not_found (get_artifact db id)
  refuse_if (is_posted_draft a.state) settled
  ok (set_task a.task (stopped returned reason now) (set_artifact id (sent_back reason) db))
