-- ===== src/Enforce/Tests.antt =====
-- A control plane that keeps its budgets in a list, proposed to and set.
use costcrew.Base.{
  ◌*◌, ◌≡◌, refl, true, false, ◌||◌, none, some, List, [], ◌∷◌, Text, codes, ℤ, pos, ok, is_blank,
  is_empty, ◌⊎◌, nat_abs, quot64, text_eq,
}
use costcrew.Enforce.Plans.{
  Config, is_on, Budgets, Plane, Plan, by_unit, put_unit, current, in_cents, consider, consider_all,
  change_of, lookup, make_plan, fingerprint, was_lines, set_lines, refused, show_int,
}
use costcrew.Base.Decimal.{show_nat}
use costcrew.Enforce.Sending.{apply, send, still}
use costcrew.Enforce.Approval.{has_error, IsSent, apply-IsSent}

abbrev ledger : Plane (List (Text × ℤ))
ledger = record {
  read = λ r. some r;
  set = λ unit v r. (true, (unit, pos (nat_abs v * 10000)) ∷ r);
}

abbrev cfg : Config
cfg = record { base_url = codes "http://plane"; key = codes "k" }

abbrev held : List (Text × ℤ)
held = (codes "a", pos 1000000) ∷ []

abbrev wanted : Budgets
wanted = (codes "b", pos 7) ∷ (codes "a", pos 50) ∷ (codes "c", pos 0) ∷ []

abbrev proposed : Plan
proposed = record {
  changes =
      record {
        unit = codes "a";
        now = some (pos 100);
        want = pos 50;
        lowered = true;
        is_new = false;
      }
      ∷ record { unit = codes "b"; now = none; want = pos 7; lowered = false; is_new = true }
      ∷ [];
  unchanged = 0;
  lowered = 1;
  added = 1;
  snapshot = (codes "a", pos 100) ∷ [];
}

planning_runs : make_plan ledger cfg wanted held ≡ ok proposed
unfolding make_plan current in_cents consider_all consider change_of lookup by_unit put_unit is_on
    quot64 is_blank
planning_runs = refl

abbrev digest : Text → Text
digest s = s

-- the first change is accepted, the second refused
abbrev wary : Plane (List (Text × ℤ))
wary = record { read = λ r. some r; set = λ unit v r. (text_eq unit (codes "a"), (unit, v) ∷ r) }

apply_runs : apply digest wary cfg proposed (fingerprint digest proposed) held ≡ record {
  applied = 1;
  error = some (refused (codes "b"));
  plane = (codes "b", pos 7) ∷ (codes "a", pos 50) ∷ held;
}
unfolding apply send still current in_cents is_on is_blank lookup quot64 fingerprint by_unit
    put_unit was_lines set_lines show_int show_nat
apply_runs = refl

apply-IsSent_example :
    let o = apply digest wary cfg proposed (fingerprint digest proposed) held in
    ((o.plane ≡ held) × (o.applied ≡ 0) × ((has_error o || is_empty proposed.changes) ≡ true))
    ⊎ IsSent digest wary cfg proposed (fingerprint digest proposed) held o
apply-IsSent_example = apply-IsSent digest wary cfg proposed (fingerprint digest proposed) held
