-- ===== src/Enforce/Approval.antt =====
-- When a plan is sent, and how far.
use costcrew.Base.{
  ℕ, suc, ◌+◌, ◌≡◌, refl, sym, subst, ap, ◌++◌, Bool, true, false, not, ◌||◌, none, some, List, [],
  ◌∷◌, Text, text_eq, is_empty, length, ok, arith, Bool-cases, inl, inr, Result-cases, ◌⊎◌, ◌==◌,
  ==_iff,
}
use costcrew.Enforce.Plans.{
  Config, is_on, Budgets, Plane, Change, Plan, fingerprint, refused, current,
}
use costcrew.Enforce.Sending.{Outcome, still, send, send_if_still, apply}

module _ {R : Type 0} where
  abbrev pub has_error : Outcome R → Bool
  has_error o = elim o.error [ none ↦ false | some _ ↦ true ]

  -- Changes that the control plane accepted one after the other, from one state to another.
  pub data Accepted (plane : Plane R) : List Change → R → R → Type 0 where
    no_more : {r : R} → Accepted plane [] r r
    and_then :
        {cs : List Change} {r s : R} (c : Change)
        → (plane.set c.unit c.want r).0 ≡ true
        → Accepted plane cs (plane.set c.unit c.want r).1 s
        → Accepted plane (c ∷ cs) r s

  -- A change that the control plane refused, after it had accepted the ones before it.
  pub record RefusedAt (plane : Plane R) (changes : List Change) (r : R) (start : ℕ) (o : Outcome R)
      : Type 0 where
    pub before : List Change
    pub change : Change
    pub later : List Change
    pub reached : R
    pub split : changes ≡ before ++ change ∷ later
    pub accepted : Accepted plane before r reached
    pub refusal : (plane.set change.unit change.want reached).0 ≡ false
    pub left : o.plane ≡ (plane.set change.unit change.want reached).1
    pub count : o.applied ≡ start + length before
    pub error : o.error ≡ some (refused change.unit)

  -- The control plane accepted every change and each was counted, or it refused one and nothing was
  -- sent after that.
  abbrev pub Stopped : Plane R → ℕ → List Change → R → Outcome R → Type 0
  Stopped plane start changes r o =
      (Accepted plane changes r o.plane × (o.error ≡ none) × (o.applied ≡ start + length changes))
      ⊎ RefusedAt plane changes r start o

  RefusedAt-cons :
      (plane : Plane R) (c : Change) {cs : List Change} {r : R} {start : ℕ} {o : Outcome R}
      → (plane.set c.unit c.want r).0 ≡ true
      → RefusedAt plane cs (plane.set c.unit c.want r).1 (suc start) o
      → RefusedAt plane (c ∷ cs) r start o
  RefusedAt-cons plane c ok_here h = record {
    before = c ∷ h.before;
    change = h.change;
    later = h.later;
    reached = h.reached;
    split = ap (λ l. c ∷ l) h.split;
    accepted = and_then c ok_here h.accepted;
    refusal = h.refusal;
    left = h.left;
    count = omega (arith, h.count);
    error = h.error;
  }

  send-Stopped :
      (plane : Plane R) (changes : List Change) (start : ℕ) (r : R)
      → Stopped plane start changes r (send plane changes start r)
  unfolding send
  send-Stopped plane [] start r = inl (no_more, refl, omega arith)
  send-Stopped plane (c ∷ cs) start r = elim (Bool-cases (plane.set c.unit c.want r).0) [
    | inr refusal ↦ inr (record {
      before = [];
      change = c;
      later = cs;
      reached = r;
      split = refl;
      accepted = no_more;
      refusal = refusal;
      left = rw refusal refl;
      count = rw refusal (omega arith);
      error = rw refusal refl;
    })
    | inl accepted ↦
        let o = send plane cs (suc start) (plane.set c.unit c.want r).1 in
        let same : send plane (c ∷ cs) start r ≡ o = rw accepted refl in
        subst (Stopped plane start (c ∷ cs) r) (sym same)
          (elim (send-Stopped plane cs (suc start) (plane.set c.unit c.want r).1) [
            | inl (all, fine, count) ↦ inl (and_then c accepted all, fine, omega (arith, count))
            | inr h ↦ inr (RefusedAt-cons plane c accepted h)
          ])
  ]

  -- The plan was the approved one, the control plane was as proposed, and the changes were sent.
  pub record IsSent (digest : Text → Text) (plane : Plane R) (cfg : Config) (p : Plan)
      (expect : Text) (r : R) (o : Outcome R) : Type 0 where
    pub switched_on : is_on cfg ≡ true
    pub approved : text_eq expect (fingerprint digest p) ≡ true
    pub now : Budgets
    pub read : current plane r ≡ ok now
    pub same_size : length now ≡ length p.snapshot
    pub unmoved : still now p.snapshot ≡ true
    pub outcome : Stopped plane 0 p.changes r o

  send_if_still-IsSent :
      (digest : Text → Text) (plane : Plane R) (cfg : Config) (p : Plan) (expect : Text) (r : R)
      → is_on cfg ≡ true
      → text_eq expect (fingerprint digest p) ≡ true
      → let o = send_if_still plane p r (current plane r) in
        ((o.plane ≡ r) × (o.applied ≡ 0) × (has_error o ≡ true))
        ⊎ IsSent digest plane cfg p expect r o
  send_if_still-IsSent digest plane cfg p expect r on same = elim (Result-cases (current plane r)) [
    | inr (e, unread) ↦ rw unread (inl (refl, refl, refl))
    | inl (now, read) ↦
        rw read
          (elim (Bool-cases (not (length now == length p.snapshot) || not (still now p.snapshot))) [
            | inl moved ↦ rw moved (inl (refl, refl, refl))
            | inr unmoved ↦ rw unmoved (
                inr (record {
                  switched_on = on;
                  approved = same;
                  now = now;
                  read = read;
                  same_size = ground (arith, unmoved, ==_iff (length now) (length p.snapshot));
                  unmoved = ground (arith, unmoved);
                  outcome = send-Stopped plane p.changes 0 r;
                }))
          ])
  ]

  -- Apply leaves the control plane as it is and counts nothing, with an error or because the plan
  -- has no changes, or all of this holds: sending is switched on, the plan's fingerprint is the
  -- expected one, the control plane still has the budgets of the plan's snapshot, and either it
  -- accepted every change in turn, there is no error and all are counted, or it accepted the changes
  -- before one that it refused, those are counted, the error names that one's unit, and nothing was
  -- sent after it.
  pub apply-IsSent :
      (digest : Text → Text) (plane : Plane R) (cfg : Config) (p : Plan) (expect : Text) (r : R)
      → let o = apply digest plane cfg p expect r in
        ((o.plane ≡ r) × (o.applied ≡ 0) × ((has_error o || is_empty p.changes) ≡ true))
        ⊎ IsSent digest plane cfg p expect r o
  unfolding apply
  apply-IsSent digest plane cfg p expect r = elim (Bool-cases (is_on cfg)) [
    | inr off ↦ rw off (inl (refl, refl, refl))
    | inl on ↦ rw on (elim (Bool-cases (text_eq expect (fingerprint digest p))) [
      | inr other ↦ rw other (inl (refl, refl, refl))
      | inl same ↦ rw same (elim (Bool-cases (is_empty p.changes)) [
        | inl empty ↦ rw empty (inl (refl, refl, refl))
        | inr changes ↦
            rw changes (elim (send_if_still-IsSent digest plane cfg p expect r on same) [
              | inl (kept, none_sent, failed) ↦ inl (kept, none_sent, rw failed refl)
              | inr sent ↦ inr sent
            ])
      ])
    ])
  ]
