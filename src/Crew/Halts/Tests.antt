-- ===== src/Crew/Halts/Tests.antt =====
-- A desk with two analysts at work and one who is suspended for a reason of his own.
use costcrew.Base.{
  split, ◌≡◌, refl, Bool, false, List, [], ◌∷◌, Text, codes, is_blank, trim_space, trim_left, All,
  pos, Result, some, ok, err,
}
use costcrew.Crew.Roles.Defs.{mem_text}
use costcrew.Crew.Board.Tables.{Analyst}
use costcrew.Crew.Halts.Desk.{
  Crew, DeskHalt, HaltError, active, is_state, in_state, set_state, is_on, put_text, sort_texts,
  trimmed, split_list, active_halt, suspend_each, apply_halt, lift_halt,
}
use costcrew.Crew.Halts.RoundTrip.{IsRoster, lift_halt-apply_halt, apply_halt-stops}
use costcrew.Crew.Halts.Left.{lift_halt-left}

abbrev analyst : Text → Text → Text → Analyst
analyst name state reason = record {
  name = name;
  desk = codes "aws";
  state = state;
  reason = reason;
  monthly = pos 100;
  owner = codes "ann";
}

abbrev crew : Crew
crew = record {
  analysts =
      analyst (codes "one") active []
      ∷ analyst (codes "two") (codes "suspended") (codes "done")
      ∷ analyst (codes "six") active []
      ∷ [];
  halts = [];
  events = [];
}

-- The crew after a halt.
abbrev halt_aws : Crew × Result HaltError (List Text × Bool)
halt_aws = apply_halt (codes " aws") (codes "late") (codes "bot") (codes "ann") (codes "day") crew

abbrev lift_aws : Crew × Result HaltError (List Text)
lift_aws = lift_halt (trim_space (codes " aws")) (codes "back") (codes "ann") halt_aws.0

crew-IsRoster : IsRoster crew.analysts
crew-IsRoster = (
  ((refl, (refl, tt)), ((refl, tt), (tt, tt))),
  (
    (refl, ((refl, refl), ((refl, refl), ((refl, refl), tt)))),
    (
      (refl, ((refl, refl), ((refl, refl), ((refl, refl), tt)))),
      ((refl, ((refl, refl), ((refl, refl), ((refl, refl), tt)))), tt),
    ),
  ),
  ((λ e. refl), ((λ e. cc), ((λ e. refl), tt))),
)

lift_halt-apply_halt_example :
    (lift_aws.0.analysts ≡ crew.analysts)
    × (lift_aws.0.halts ≡ crew.halts)
    × ((names : List Text) × (lift_aws.1 ≡ ok names))
unfolding is_blank trim_space trim_left active_halt
lift_halt-apply_halt_example =
    lift_halt-apply_halt (codes " aws") (codes "late") (codes "bot") (codes "ann") (codes "day")
      (codes "back") (codes "ann") crew refl refl refl refl crew-IsRoster

halt_done : halt_aws.1 ≡ ok (codes "one" ∷ codes "six" ∷ [], false)
unfolding is_blank trim_space trim_left active_halt apply_halt suspend_each set_state is_state
    in_state is_on
halt_done = refl

apply_halt-stops_example :
    All (λ a. is_on (trim_space (codes " aws")) a ≡ false) halt_aws.0.analysts
apply_halt-stops_example =
    apply_halt-stops (codes " aws") (codes "late") (codes "bot") (codes "ann") (codes "day") crew
      crew-IsRoster.0 halt_done

abbrev aws_halt : DeskHalt
aws_halt = record {
  desk = codes "aws";
  reason = codes "late";
  started = codes "day";
  applied_by = codes "bot";
  owner = codes "ann";
  suspended = codes "one,six";
}

-- One of those whom the halt suspended has left.
abbrev one_left : Crew
one_left = record {
  analysts = analyst (codes "one") (codes "suspended") (codes "late") ∷ [];
  halts = aws_halt ∷ [];
  events = [];
}

lift_halt-left_example :
    ((why : HaltError) × ((lift_halt (codes "aws") (codes "back") (codes "ann") one_left).1
        ≡ err why))
    × (active_halt (codes "aws") (lift_halt (codes "aws") (codes "back") (codes "ann") one_left).0
        ≡ some aws_halt)
unfolding active_halt split_list sort_texts put_text trimmed split trim_space trim_left is_blank
    mem_text
lift_halt-left_example =
    lift_halt-left (codes "aws") (codes "back") (codes "ann") (codes "six") one_left {h = aws_halt}
      refl refl refl
