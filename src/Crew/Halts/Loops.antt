-- ===== src/Crew/Halts/Loops.antt =====
-- The loops of ApplyHalt and LiftHalt, each as one change of the roster.
use costcrew.Base.{
  ◌≡◌, refl, sym, ◌∙◌, ap, Bool, true, false, not, ◌&&◌, none, some, List, [], ◌∷◌, map, Text,
  text_eq, text_eq_iff, if◌then◌else◌, is_blank, find, update, find-update, All, All-mono, inl, inr,
  Bool-cases, Option-cases, ok, arith,
}
use costcrew.Crew.Roles.Defs.{mem_text}
use costcrew.Crew.Board.Tables.{Analyst}
use costcrew.Crew.Halts.Desk.{
  Crew, tell, named, active, suspended_state, is_state, in_state, set_state, is_on, suspend_each,
  reinstate_each,
}

abbrev pub is_hired : List Analyst → Text → Bool
is_hired crew name = elim (find (named name) crew) [ none ↦ false | some _ ↦ true ]

-- A change of the analysts of some names, one name after the other.
abbrev pub set_all : (Analyst → Analyst) → List Text → List Analyst → List Analyst
set_all f [] crew = crew
set_all f (n ∷ ns) crew = set_all f ns (update (named n) f crew)

-- The same change at once.
abbrev pub change : (Analyst → Analyst) → List Text → Analyst → Analyst
change f ns a = if mem_text a.name ns then f a else a

pub text_eq_comm : (s t : Text) → text_eq s t ≡ text_eq t s
text_eq_comm s t = elim (Bool-cases (text_eq s t)) [
  | inl same ↦ rw ((text_eq_iff s t).0 same) refl
  | inr differs ↦ ground (arith, text_eq_iff s t, text_eq_iff t s)
]

ap2_cons : {a b : Analyst} {l m : List Analyst} → a ≡ b → l ≡ m → (a ∷ l) ≡ (b ∷ m)
ap2_cons p q = cc (p, q)

module _ (f : Analyst → Analyst) (keeps : (a : Analyst) → (f a).name ≡ a.name)
    (once : (a : Analyst) → f (f a) ≡ f a) where
  change-changed : (ns : List Text) (a : Analyst) → change f ns (f a) ≡ f a
  change-changed ns a = elim (Bool-cases (mem_text (f a).name ns)) [
    | inl again ↦ ap (λ b. if b then f (f a) else f a) again ∙ once a
    | inr last ↦ ap (λ b. if b then f (f a) else f a) last
  ]

  change-one :
      (n : Text) (ns : List Text) (a : Analyst)
      → change f ns (if named n a then f a else a) ≡ change f (n ∷ ns) a
  unfolding mem_text
  change-one n ns a = elim (Bool-cases (text_eq a.name n)) [
    | inl hit ↦
        let own : text_eq n a.name ≡ true = text_eq_comm n a.name ∙ hit in
        let head : (if named n a then f a else a) ≡ f a = ap (λ b. if b then f a else a) hit in
        let whole : change f (n ∷ ns) a ≡ f a =
          ap (λ b. if (if b then true else mem_text a.name ns) then f a else a) own in
        ap (change f ns) head ∙ change-changed ns a ∙ sym whole
    | inr miss ↦
        let other : text_eq n a.name ≡ false = text_eq_comm n a.name ∙ miss in
        let head : (if named n a then f a else a) ≡ a = ap (λ b. if b then f a else a) miss in
        let whole : change f (n ∷ ns) a ≡ change f ns a =
          ap (λ b. if (if b then true else mem_text a.name ns) then f a else a) other in
        ap (change f ns) head ∙ sym whole
  ]

  change-update :
      (n : Text) (ns : List Text) (crew : List Analyst)
      → map (change f ns) (update (named n) f crew) ≡ map (change f (n ∷ ns)) crew
  change-update n ns [] = refl
  change-update n ns (a ∷ crew) = ap2_cons (change-one n ns a) (change-update n ns crew)

  pub set_all-map :
      (ns : List Text) (crew : List Analyst) → set_all f ns crew ≡ map (change f ns) crew
  unfolding mem_text
  set_all-map [] [] = refl
  set_all-map [] (a ∷ crew) = ap (λ l. a ∷ l) (set_all-map [] crew)
  set_all-map (n ∷ ns) crew = set_all-map ns (update (named n) f crew) ∙ change-update n ns crew

pub is_hired-update :
    (n : Text) (f : Analyst → Analyst) (crew : List Analyst)
    → ((a : Analyst) → (f a).name ≡ a.name)
    → (other : Text) → is_hired (update (named n) f crew) other ≡ is_hired crew other
is_hired-update n f crew keeps other =
    rw
      (
        is_hired,
        find-update (named other) (named n) f (λ a. ap (λ m. text_eq m other) (keeps a)) crew,
      )
      (elim (Option-cases (find (named other) crew)) [
        | inl missing ↦ rw (is_hired, missing) refl
        | inr (a, found) ↦ rw (is_hired, found) refl
      ])

pub set_state-ok :
    (name state reason : Text) (c : Crew)
    → is_state state ≡ true
    → (not (text_eq state active) && is_blank reason) ≡ false
    → is_hired c.analysts name ≡ true
    → set_state name state reason c
      ≡ ok (record c { analysts = update (named name) (in_state state reason) c.analysts })
unfolding set_state
set_state-ok name state reason c valid given hired =
    elim (Option-cases (find (named name) c.analysts)) [
      | inl missing ↦ cc (rw (is_hired, missing) at hired)
      | inr (a, found) ↦ rw (set_state, valid, given, found) refl
    ]

still_hired :
    (n : Text) (state reason : Text) (crew : List Analyst) (names : List Text)
    → All (λ m. is_hired crew m ≡ true) names
    → All (λ m. is_hired (update (named n) (in_state state reason) crew) m ≡ true) names
unfolding in_state
still_hired n state reason crew names hired =
    All-mono _ _ (λ m known. is_hired-update n (in_state state reason) crew (λ a. refl) m ∙ known)
      names hired

pub reinstate_each_lem :
    (reason by : Text) (names : List Text) (c : Crew)
    → All (λ n. is_hired c.analysts n ≡ true) names
    → ((reinstate_each reason by names c).1 ≡ ok names)
      × ((reinstate_each reason by names c).0.analysts
          ≡ set_all (in_state active []) names c.analysts)
      × ((reinstate_each reason by names c).0.halts ≡ c.halts)
unfolding reinstate_each is_state
reinstate_each_lem reason by [] c hired = (refl, refl, refl)
reinstate_each_lem reason by (n ∷ names) c hired =
    let next : Crew = record c { analysts = update (named n) (in_state active []) c.analysts } in
    let rest : _ =
      reinstate_each_lem reason by names (tell n active reason by next)
        (still_hired n active [] c.analysts names hired.1) in
    rw (reinstate_each, set_state-ok n active [] c refl refl hired.0, rest.0) (refl, rest.1, rest.2)

-- The names of the analysts whom a halt suspends.
abbrev pub names_on : Text → List Analyst → List Text
names_on desk [] = []
names_on desk (a ∷ roster) =
    let rest = names_on desk roster in if is_on desk a then a.name ∷ rest else rest

pub suspend_each_lem :
    (desk reason by : Text) (roster : List Analyst) (c : Crew)
    → is_blank reason ≡ false
    → All (λ n. is_hired c.analysts n ≡ true) (names_on desk roster)
    → ((suspend_each desk reason by roster c).1 ≡ ok (names_on desk roster))
      × ((suspend_each desk reason by roster c).0.analysts
          ≡ set_all (in_state suspended_state reason) (names_on desk roster) c.analysts)
      × ((suspend_each desk reason by roster c).0.halts ≡ c.halts)
unfolding suspend_each is_state
suspend_each_lem desk reason by [] c given hired = (refl, refl, refl)
suspend_each_lem desk reason by (a ∷ roster) c given hired = elim (Bool-cases (is_on desk a)) [
  | inr off ↦
      let rest : _ = suspend_each_lem desk reason by roster c given (rw (names_on, off) at hired) in
      rw (off, names_on) rest
  | inl on ↦
      let here : All (λ n. is_hired c.analysts n ≡ true) (a.name ∷ names_on desk roster) =
        rw (names_on, on) at hired in
      let next : Crew = record c {
        analysts = update (named a.name) (in_state suspended_state reason) c.analysts;
      } in
      let rest : _ =
        suspend_each_lem desk reason by roster (tell a.name suspended_state reason by next) given
          (still_hired a.name suspended_state reason c.analysts (names_on desk roster) here.1) in
      rw (on, set_state-ok a.name suspended_state reason c refl given here.0, rest.0, names_on)
        (refl, rest.1, rest.2)
]
