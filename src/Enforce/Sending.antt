-- ===== src/Enforce/Sending.antt =====
-- Apply of internal/enforce/enforce.go: the approved plan, sent change by change. The outcome is the
-- count that it returns, its error if any, and the state that the control plane is left in.
use costcrew.Base.{
  ℕ, suc, Bool, true, false, not, ◌&&◌, ◌||◌, Option, none, some, List, [], ◌∷◌, Text, text_eq,
  if◌then◌else◌, is_empty, length, eq_ℤ, ◌==◌, Result, ok, err,
}
use costcrew.Enforce.Plans.{
  Config, is_on, Budgets, lookup, Plane, Change, Plan, fingerprint, EnforceError, switched_off,
  not_approved, has_moved, refused, current,
}

pub record Outcome (R : Type 0) : Type 0 where
  pub applied : ℕ
  pub error : Option EnforceError
  pub plane : R

-- Every unit of the snapshot has the budget that it had.
unfoldable pub still : Budgets → Budgets → Bool
still now [] = true
still now (e ∷ m) =
    let rest = still now m in
    elim (lookup e.0 now) [ none ↦ false | some cur ↦ eq_ℤ cur e.1 && rest ]

module _ {R : Type 0} where
  -- The loop of posts, which stops at the first refusal.
  unfoldable pub send : Plane R → List Change → ℕ → R → Outcome R
  send plane [] applied r = record { applied = applied; error = none; plane = r }
  send plane (c ∷ cs) applied r =
      let (accepted, after) = plane.set c.unit c.want r in
      let rest = send plane cs (suc applied) after in
      if accepted
      then rest
      else record { applied = applied; error = some (refused c.unit); plane = after }

  abbrev pub stop : EnforceError → R → Outcome R
  stop e r = record { applied = 0; error = some e; plane = r }

  abbrev pub send_if_still : Plane R → Plan → R → Result EnforceError Budgets → Outcome R
  send_if_still plane p r (err e) = stop e r
  send_if_still plane p r (ok now) =
      if not (length now == length p.snapshot) || not (still now p.snapshot)
      then stop has_moved r
      else send plane p.changes 0 r

  unfoldable pub apply : (Text → Text) → Plane R → Config → Plan → Text → R → Outcome R
  apply digest plane cfg p expect r =
      if not (is_on cfg)
      then stop switched_off r
      else if not (text_eq expect (fingerprint digest p))
      then stop not_approved r
      else if is_empty p.changes
      then record { applied = 0; error = none; plane = r }
      else send_if_still plane p r (current plane r)
