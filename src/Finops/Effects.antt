-- ===== src/Finops/Effects.antt =====
-- What applying an option does outside the table of options leaves that table alone.
use costcrew.Base.{
  arith, ◌≡◌, refl, Bool, true, false, Option, none, some, List, Text, Result, Bool-cases, inl, inr,
  Result-cases, is_empty, trim_space,
}
use costcrew.Crew.Board.Tables.{Task}
use costcrew.Crew.Halts.Desk.{Crew, HaltError}
use costcrew.Anomaly.Store.{Anomaly}
use costcrew.Anomaly.Transition.{explain, accept, dismiss}
use costcrew.Crew.Options.Table.{OptionRow, Store}
use costcrew.Crew.Options.Marks.{anomaly_of}
use costcrew.Finops.Apply.{
  Outside, Move, owner_of_option, move_anomaly, anomaly_row, source_of, apply_driver, driver_window,
  halt_desk, after_halt, apply_side_effect, reported,
}

module _ {F W : Type 0} (outside : Outside W) (today now : Text) where
  reported-options :
      (e : Option _) (s : Store F W) → (reported outside today now e s).options ≡ s.options
  reported-options none s = refl
  reported-options (some e) s = refl

  move_anomaly-options :
      (move : Text → Text → Text → List (Anomaly F) → Move F) (opt : OptionRow) (t : Task)
      (s : Store F W)
      → (move_anomaly outside today now move opt t s).0.options ≡ s.options
  unfolding move_anomaly
  move_anomaly-options move opt t s = elim (Bool-cases (is_empty (anomaly_of t))) [
    | inl none_named ↦ rw none_named refl
    | inr named ↦ rw named (elim (Result-cases (move (anomaly_of t) opt.summary now s.anomalies)) [
      | inl (x, moved) ↦ rw moved (reported-options x.1 _)
      | inr (e, refused) ↦ rw refused refl
    ])
  ]

  apply_driver-options :
      (opt : OptionRow) (t : Task) (one_time : Bool) (s : Store F W)
      → (apply_driver outside today now opt t one_time s).0.options ≡ s.options
  unfolding apply_driver
  apply_driver-options opt t one_time s =
      let an : _ = anomaly_row outside today now t s in
      elim (Bool-cases (is_empty (source_of outside today now t an))) [
        | inl no_source ↦ rw no_source refl
        | inr sourced ↦
            rw sourced (elim (Result-cases (driver_window outside today now opt one_time an)) [
              | inl (w, found) ↦ rw found refl
              | inr (e, refused) ↦ rw refused refl
            ])
      ]

  after_halt-options :
      {A : Type 0} (s : Store F W) (r : Crew × Result HaltError A)
      → (after_halt outside today now s r).0.options ≡ s.options
  after_halt-options s r = refl

  halt_desk-options :
      (opt : OptionRow) (actor : Text) (s : Store F W)
      → (halt_desk outside today now opt actor s).0.options ≡ s.options
  unfolding halt_desk
  halt_desk-options opt actor s = elim (Bool-cases (is_empty (trim_space opt.needs))) [
    | inl no_desk ↦ rw no_desk refl
    | inr desk ↦ rw desk (elim (Result-cases (owner_of_option opt s)) [
      | inl (o, found) ↦ rw found refl
      | inr (e, refused) ↦ rw refused refl
    ])
  ]

  pub apply_side_effect-options :
      (opt : OptionRow) (t : Task) (actor : Text) (s : Store F W)
      → (apply_side_effect outside today now opt t actor s).0.options ≡ s.options
  unfolding apply_side_effect
  apply_side_effect-options opt t actor s = ground (
    arith,
    move_anomaly-options explain opt t s,
    move_anomaly-options dismiss opt t s,
    move_anomaly-options accept opt t s,
    apply_driver-options opt t true s,
    apply_driver-options opt t false s,
    halt_desk-options opt actor s,
  )
