-- ===== src/Crew/Halts/RoundTrip.antt =====
-- ApplyHalt and LiftHalt of internal/crew/halt.go, one after the other.
use costcrew.Base.{
  ◌≡◌, refl, sym, ◌∙◌, ap, subst, Bool, true, false, ◌&&◌, none, some, List, [], ◌∷◌, map, Text,
  codes, text_eq, text_eq_refl, if◌then◌else◌, is_empty, is_blank, trim_space, join, find, delete,
  insert, find-insert_new, All, All-mono, inl, inr, Bool-cases, Option-cases, ok,
}
use costcrew.Crew.Roles.Defs.{mem_text}
use costcrew.Crew.Board.Tables.{Analyst}
use costcrew.Crew.Halts.Desk.{
  Crew, DeskHalt, halts_desk, active, suspended_state, in_state, is_on, split_list, active_halt,
  apply_halt, lift_halt,
}
use costcrew.Crew.Halts.Lists.{IsName, mem_text-split_list}
use costcrew.Crew.Halts.Loops.{
  is_hired, set_all, change, set_all-map, names_on, reinstate_each_lem, suspend_each_lem,
}
use costcrew.Crew.Halts.Lifted.{
  AreDistinct, AreClear, among-is_on, names-hired, names-IsName, is_hired-set_all, All-mem, mem-All,
  back_again, map_back, both_mono,
}

-- A roster whose analysts have distinct proper names and, where they are active, no reason.
abbrev pub IsRoster : List Analyst → Type 0
IsRoster crew = AreDistinct crew × All (λ a. IsName a.name) crew × AreClear crew

abbrev row : Text → Text → Text → Text → Text → List Text → DeskHalt
row desk reason by owner today names = record {
  desk = desk;
  reason = reason;
  started = today;
  applied_by = by;
  owner = owner;
  suspended = join (codes ",") names;
}

apply_halt_lem :
    (source reason by owner today : Text) (c : Crew)
    → is_empty (trim_space source) ≡ false
    → is_blank reason ≡ false
    → active_halt (trim_space source) c ≡ none
    → ((apply_halt source reason by owner today c).1
        ≡ ok (names_on (trim_space source) c.analysts, false))
      × ((apply_halt source reason by owner today c).0.analysts
          ≡ set_all
              (in_state suspended_state reason)
              (names_on (trim_space source) c.analysts)
              c.analysts)
      × ((apply_halt source reason by owner today c).0.halts
          ≡ insert
              (row
                (trim_space source)
                reason
                by
                owner
                today
                (names_on (trim_space source) c.analysts))
              c.halts)
unfolding apply_halt
apply_halt_lem source reason by owner today c filled given free =
    let loop : _ =
      suspend_each_lem (trim_space source) reason by c.analysts c given
        (names-hired (trim_space source) c.analysts) in
    rw (apply_halt, filled, given, free, loop.0) (refl, loop.1, ap (insert _) loop.2)

delete-insert_new :
    (desk : Text) (h : DeskHalt) (hs : List DeskHalt)
    → find (halts_desk desk) hs ≡ none
    → halts_desk desk h ≡ true
    → delete (halts_desk desk) (insert h hs) ≡ hs
delete-insert_new desk h [] free own = rw own refl
delete-insert_new desk h (x ∷ hs) free own = elim (Bool-cases (halts_desk desk x)) [
  | inl taken ↦ cc (rw taken at free)
  | inr other ↦ rw other (ap (λ l. x ∷ l) (delete-insert_new desk h hs (rw other at free) own))
]

restored_roster :
    (desk reason : Text) (ms : List Text) (crew : List Analyst)
    → IsRoster crew
    → ((n : Text) → mem_text n ms ≡ mem_text n (names_on desk crew))
    → set_all
        (in_state active [])
        ms
        (set_all (in_state suspended_state reason) (names_on desk crew) crew)
      ≡ crew
unfolding in_state
restored_roster desk reason ms crew proper same =
    ap (set_all (in_state active []) ms) (
      set_all-map (in_state suspended_state reason) (λ a. refl) (λ a. refl) (names_on desk crew)
        crew)
    ∙ set_all-map (in_state active []) (λ a. refl) (λ a. refl) ms _
    ∙ map_back (change (in_state suspended_state reason) (names_on desk crew))
        (change (in_state active []) ms) crew
        (both_mono _ _ _
          (λ a on clear. back_again desk reason (names_on desk crew) ms a on (same a.name) clear)
          crew (among-is_on desk crew proper.0) proper.2)

lift_halt_lem :
    (desk reason by : Text) (c : Crew) {h : DeskHalt}
    → is_blank reason ≡ false
    → active_halt desk c ≡ some h
    → All (λ n. is_hired c.analysts n ≡ true) (split_list h.suspended)
    → ((lift_halt desk reason by c).1 ≡ ok (split_list h.suspended))
      × ((lift_halt desk reason by c).0.analysts
          ≡ set_all (in_state active []) (split_list h.suspended) c.analysts)
      × ((lift_halt desk reason by c).0.halts ≡ delete (halts_desk desk) c.halts)
unfolding lift_halt
lift_halt_lem desk reason by c {h} given found hired =
    let loop : _ = reinstate_each_lem reason by (split_list h.suspended) c hired in
    rw (lift_halt, given, found, loop.0) (refl, loop.1, ap (delete (halts_desk desk)) loop.2)

-- A desk that is halted and then lifted has its roster and its halts as they were, if the desk has a
-- name and was not halted, both calls give a reason, and the analysts have distinct proper names and no
-- reason while active. The second call reports success.
pub lift_halt-apply_halt :
    (source reason by owner today why who : Text) (c : Crew)
    → is_empty (trim_space source) ≡ false
    → is_blank reason ≡ false
    → is_blank why ≡ false
    → active_halt (trim_space source) c ≡ none
    → IsRoster c.analysts
    → ((lift_halt
          (trim_space source)
          why
          who
          (apply_halt source reason by owner today c).0).0.analysts
        ≡ c.analysts)
      × ((lift_halt
            (trim_space source)
            why
            who
            (apply_halt source reason by owner today c).0).0.halts
          ≡ c.halts)
      × ((names : List Text) × ((lift_halt
              (trim_space source)
              why
              who
              (apply_halt source reason by owner today c).0).1
            ≡ ok names))
unfolding active_halt
lift_halt-apply_halt source reason by owner today why who c filled given again free roster =
    let desk : Text = trim_space source in
    let names : List Text = names_on desk c.analysts in
    let held : Crew = (apply_halt source reason by owner today c).0 in
    let first : _ = apply_halt_lem source reason by owner today c filled given free in
    let stored : DeskHalt = row desk reason by owner today names in
    let found : active_halt desk held ≡ some stored =
      ap (find (halts_desk desk)) first.2
      ∙ find-insert_new (halts_desk desk) stored c.halts free
      ∙ rw (text_eq_refl desk) refl in
    let same : (n : Text) → mem_text n (split_list stored.suspended) ≡ mem_text n names =
      λ n. mem_text-split_list n names (names-IsName desk c.analysts roster.1) in
    let hired : All (λ n. is_hired held.analysts n ≡ true) (split_list stored.suspended) =
      All-mem _ (split_list stored.suspended) (λ n here.
        ap (λ l. is_hired l n) first.1
        ∙ is_hired-set_all suspended_state reason names c.analysts n
            (mem-All _ names n (names-hired desk c.analysts) (sym (same n) ∙ here))) in
    let last : _ = lift_halt_lem desk why who held again found hired in
    (
      last.1
          ∙ ap (set_all (in_state active []) (split_list stored.suspended)) first.1
          ∙ restored_roster desk reason (split_list stored.suspended) c.analysts roster same,
      last.2
          ∙ ap (delete (halts_desk desk)) first.2
          ∙ delete-insert_new desk stored c.halts free (text_eq_refl desk),
      (split_list stored.suspended, last.0),
    )

All-map :
    (P : Analyst → Type 0) (f : Analyst → Analyst) (crew : List Analyst)
    → All (λ a. P (f a)) crew
    → All P (map f crew)
All-map P f [] h = tt
All-map P f (a ∷ crew) h = (h.0, All-map P f crew h.1)

idle : (b : Bool) → (b && false) ≡ false
idle true = refl
idle false = refl

stopped :
    (desk reason : Text) (ns : List Text) (a : Analyst)
    → mem_text a.name ns ≡ is_on desk a
    → is_on desk (change (in_state suspended_state reason) ns a) ≡ false
unfolding in_state is_on
stopped desk reason ns a on = elim (Bool-cases (is_on desk a)) [
  | inr off ↦
      ap (λ b. is_on desk (if b then in_state suspended_state reason a else a)) (on ∙ off) ∙ off
  | inl now ↦
      ap (λ b. is_on desk (if b then in_state suspended_state reason a else a)) (on ∙ now)
      ∙ idle (text_eq a.desk desk)
]

-- After a call of ApplyHalt that succeeds and does not find the desk halted already, no analyst of the
-- desk is active, if no two analysts have one name.
pub apply_halt-stops :
    (source reason by owner today : Text) (c : Crew) {names : List Text}
    → AreDistinct c.analysts
    → (apply_halt source reason by owner today c).1 ≡ ok (names, false)
    → All
        (λ a. is_on (trim_space source) a ≡ false)
        (apply_halt source reason by owner today c).0.analysts
unfolding apply_halt in_state
apply_halt-stops source reason by owner today c distinct done =
    elim (Bool-cases (is_empty (trim_space source))) [
      | inl nameless ↦ cc (rw (apply_halt, nameless) at done)
      | inr filled ↦ elim (Bool-cases (is_blank reason)) [
        | inl blank ↦ cc (rw (apply_halt, filled, blank) at done)
        | inr given ↦ elim (Option-cases (active_halt (trim_space source) c)) [
          | inr (h, taken) ↦ cc (rw (apply_halt, filled, given, taken) at done)
          | inl free ↦
              let desk : Text = trim_space source in
              let after : _ = apply_halt_lem source reason by owner today c filled given free in
              subst (All (λ a. is_on desk a ≡ false))
                (sym (
                  after.1
                  ∙ set_all-map (in_state suspended_state reason) (λ a. refl) (λ a. refl)
                      (names_on desk c.analysts) c.analysts))
                (All-map _ _ c.analysts (
                  All-mono _ _ (λ a on. stopped desk reason (names_on desk c.analysts) a on)
                    c.analysts (among-is_on desk c.analysts distinct)))
        ]
      ]
    ]
