-- ===== src/Crew/Halts/Desk.antt =====
-- SetState and splitList of internal/crew/roster.go, ActiveHalt, ApplyHalt and LiftHalt of
-- internal/crew/halt.go. An operation that fails leaves what it wrote before;
-- the names that ApplyHalt returns beside an error, which its caller discards, are left out.
use costcrew.Base.{
  split, Bool, true, false, not, ◌&&◌, ◌||◌, Option, none, some, List, [], ◌∷◌, Text, codes,
  text_eq, text_leb, if◌then◌else◌, is_empty, is_blank, trim_space, join, find, update, delete,
  insert, Result, ok, err,
}
use costcrew.Crew.Board.Tables.{Analyst}

-- A row of desk_halts.
pub record DeskHalt : Type 0 where
  pub desk : Text
  pub reason : Text
  pub started : Text
  pub applied_by : Text
  pub owner : Text
  pub suspended : Text

-- agent_state_changed
pub record StateEvent : Type 0 where
  pub analyst : Text
  pub state : Text
  pub reason : Text
  pub by : Text

pub record Crew : Type 0 where
  pub analysts : List Analyst
  pub halts : List DeskHalt
  pub events : List StateEvent

pub data HaltError : Type 0 where
  no_desk need_reason not_halted no_such_state no_such_analyst : HaltError

abbrev pub named : Text → Analyst → Bool
named name a = text_eq a.name name

abbrev pub halts_desk : Text → DeskHalt → Bool
halts_desk desk h = text_eq h.desk desk

abbrev pub active : Text
active = codes "active"

abbrev pub suspended_state : Text
suspended_state = codes "suspended"

unfoldable pub is_state : Text → Bool
is_state s =
    text_eq s active
    || text_eq s suspended_state
    || text_eq s (codes "restricted")
    || text_eq s (codes "probation")
    || text_eq s (codes "onboarding")

unfoldable pub in_state : Text → Text → Analyst → Analyst
in_state state reason a = record a {
  state = state;
  reason = if text_eq state active then [] else reason;
}

unfoldable pub set_state : Text → Text → Text → Crew → Result HaltError Crew
set_state name state reason c =
    if not (is_state state)
    then err no_such_state
    else if not (text_eq state active) && is_blank reason
    then err need_reason
    else (elim (find (named name) c.analysts) [
      | none ↦ err no_such_analyst
      | some _ ↦ ok (record c { analysts = update (named name) (in_state state reason) c.analysts })
    ])

-- sort.Strings
unfoldable pub put_text : Text → List Text → List Text
put_text s [] = s ∷ []
put_text s (t ∷ ts) = let rest = put_text s ts in if text_leb s t then s ∷ t ∷ ts else t ∷ rest

unfoldable pub sort_texts : List Text → List Text
sort_texts [] = []
sort_texts (s ∷ ss) = put_text s (sort_texts ss)

unfoldable pub trimmed : List Text → List Text
trimmed [] = []
trimmed (s ∷ ss) =
    let rest = trimmed ss in if is_empty (trim_space s) then rest else trim_space s ∷ rest

unfoldable pub split_list : Text → List Text
split_list s = if is_blank s then [] else sort_texts (trimmed (split b',' s))

unfoldable pub active_halt : Text → Crew → Option DeskHalt
active_halt desk c = find (halts_desk desk) c.halts

abbrev pub tell : Text → Text → Text → Text → Crew → Crew
tell name state reason by c = record c {
  events = insert (record { analyst = name; state = state; reason = reason; by = by }) c.events;
}

-- The analysts whom a halt of the desk suspends.
unfoldable pub is_on : Text → Analyst → Bool
is_on desk a = text_eq a.desk desk && text_eq a.state active

-- The loop of ApplyHalt over the roster; the names are of the analysts it suspended.
unfoldable pub suspend_each :
    Text → Text → Text → List Analyst → Crew → Crew × Result HaltError (List Text)
suspend_each desk reason by [] c = (c, ok [])
suspend_each desk reason by (a ∷ roster) c =
    if not (is_on desk a)
    then suspend_each desk reason by roster c
    else (elim (set_state a.name suspended_state reason c) [
      | err why ↦ (c, err why)
      | ok next ↦
          let (last, names) =
            suspend_each desk reason by roster (tell a.name suspended_state reason by next) in
          (elim names [ err why ↦ (last, err why) | ok rest ↦ (last, ok (a.name ∷ rest)) ])
    ])

abbrev pub halted :
    Text
    → Text
    → Text
    → Text
    → Text
    → Crew × Result HaltError (List Text)
    → Crew × Result HaltError (List Text × Bool)
halted desk reason by owner today (c, err why) = (c, err why)
halted desk reason by owner today (c, ok names) =
    let row : DeskHalt = record {
      desk = desk;
      reason = reason;
      started = today;
      applied_by = by;
      owner = owner;
      suspended = join (codes ",") names;
    } in
    (record c { halts = insert row c.halts }, ok (names, false))

-- ApplyHalt. The Boolean says that the desk was halted already.
unfoldable pub apply_halt :
    Text → Text → Text → Text → Text → Crew → Crew × Result HaltError (List Text × Bool)
apply_halt source reason by owner today c =
    let desk = trim_space source in
    if is_empty desk
    then (c, err no_desk)
    else if is_blank reason
    then (c, err need_reason)
    else (elim (active_halt desk c) [
      | some _ ↦ (c, ok ([], true))
      | none ↦ halted desk reason by owner today (suspend_each desk reason by c.analysts c)
    ])

-- The loop of LiftHalt.
unfoldable pub reinstate_each : Text → Text → List Text → Crew → Crew × Result HaltError (List Text)
reinstate_each reason by [] c = (c, ok [])
reinstate_each reason by (name ∷ names) c = elim (set_state name active [] c) [
  | err why ↦ (c, err why)
  | ok next ↦
      let (last, done) = reinstate_each reason by names (tell name active reason by next) in
      (elim done [ err why ↦ (last, err why) | ok rest ↦ (last, ok (name ∷ rest)) ])
]

abbrev pub lifted : Text → Crew × Result HaltError (List Text) → Crew × Result HaltError (List Text)
lifted desk (c, err why) = (c, err why)
lifted desk (c, ok names) = (record c { halts = delete (halts_desk desk) c.halts }, ok names)

unfoldable pub lift_halt : Text → Text → Text → Crew → Crew × Result HaltError (List Text)
lift_halt desk reason by c =
    if is_blank reason then (c, err need_reason) else (elim (active_halt desk c) [
      | none ↦ (c, err not_halted)
      | some h ↦ lifted desk (reinstate_each reason by (split_list h.suspended) c)
    ])
