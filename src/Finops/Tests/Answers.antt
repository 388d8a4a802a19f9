-- ===== src/Finops/Tests/Answers.antt =====
-- The owner answers the option that the supervisor carried, on a concrete store.
use costcrew.Base.{ℕ, [], ◌∷◌, codes, Result}
use costcrew.Crew.Options.Table.{carried, applied, Store}
use costcrew.Finops.Console.{ActionError, apply_it, option_action}
use costcrew.Finops.Tests.{outside, row, console, olga}

-- the desk after the pass, when the options that it carried wait for their owner
abbrev waiting : Store ℕ ℕ
waiting = record console {
  options =
      record (row 3 2 (codes "commentary.variance") 9) { state = applied }
      ∷ record (row 4 1 (codes "budget.set") 0) { state = carried }
      ∷ [];
}

abbrev answered : Store ℕ ℕ × Result ActionError (Unit {0})
answered = option_action outside (codes "t") (codes "n") olga 4 1 apply_it [] waiting
