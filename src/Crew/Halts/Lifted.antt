-- ===== src/Crew/Halts/Lifted.antt =====
-- A halt suspends the desk's active analysts, and lifting it brings the roster back.
use costcrew.Base.{
  ◌≡◌, refl, sym, ◌∙◌, ap, subst, true, false, List, [], ◌∷◌, map, Text, text_eq, text_eq_iff,
  text_eq_refl, if◌then◌else◌, update, All, All-mono, inl, inr, Bool-cases, arith,
}
use costcrew.Crew.Roles.Defs.{mem_text}
use costcrew.Crew.Board.Tables.{Analyst}
use costcrew.Crew.Halts.Desk.{named, active, suspended_state, in_state, is_on}
use costcrew.Crew.Halts.Lists.{IsName}
use costcrew.Crew.Halts.Loops.{is_hired, is_hired-update, set_all, change, names_on, text_eq_comm}

-- No two analysts of one name.
abbrev pub AreDistinct : List Analyst → Type 0
AreDistinct [] = Unit
AreDistinct (a ∷ crew) = All (λ x. text_eq x.name a.name ≡ false) crew × AreDistinct crew

not_among :
    (desk name : Text) (crew : List Analyst)
    → All (λ x. text_eq x.name name ≡ false) crew
    → mem_text name (names_on desk crew) ≡ false
unfolding mem_text
not_among desk name [] h = refl
not_among desk name (a ∷ crew) h = elim (Bool-cases (is_on desk a)) [
  | inl on ↦ rw (on, h.0) (not_among desk name crew h.1)
  | inr off ↦ rw off (not_among desk name crew h.1)
]

-- Another name does not change whether a name is among those of a halt.
among-other :
    (desk : Text) (a x : Analyst) (crew : List Analyst)
    → text_eq x.name a.name ≡ false
    → mem_text x.name (names_on desk (a ∷ crew)) ≡ mem_text x.name (names_on desk crew)
unfolding mem_text
among-other desk a x crew other = elim (Bool-cases (is_on desk a)) [
  | inl on ↦ rw (on, text_eq_comm a.name x.name, other) refl
  | inr off ↦ rw off refl
]

pub both_mono :
    (P Q R : Analyst → Type 0)
    → ((a : Analyst) → P a → Q a → R a)
    → (crew : List Analyst) → All P crew
    → All Q crew
    → All R crew
both_mono P Q R f [] p q = tt
both_mono P Q R f (a ∷ crew) p q = (f a p.0 q.0, both_mono P Q R f crew p.1 q.1)

-- The names of a halt are of those who are on the desk and active.
pub among-is_on :
    (desk : Text) (crew : List Analyst)
    → AreDistinct crew
    → All (λ a. mem_text a.name (names_on desk crew) ≡ is_on desk a) crew
unfolding mem_text
among-is_on desk [] h = tt
among-is_on desk (a ∷ crew) h = (
  (elim (Bool-cases (is_on desk a)) [
    | inl on ↦ rw (on, text_eq_refl a.name) refl
    | inr off ↦ rw off (not_among desk a.name crew h.0)
  ]),
  both_mono _ _ _ (λ x other same. among-other desk a x crew other ∙ same) crew h.0
      (among-is_on desk crew h.1),
)

hired_cons :
    (a : Analyst) (crew : List Analyst) (name : Text)
    → is_hired crew name ≡ true
    → is_hired (a ∷ crew) name ≡ true
hired_cons a crew name h = elim (Bool-cases (text_eq a.name name)) [
  | inl here ↦ rw (is_hired, here) refl
  | inr further ↦ rw (is_hired, further) h
]

pub names-hired :
    (desk : Text) (crew : List Analyst) → All (λ n. is_hired crew n ≡ true) (names_on desk crew)
names-hired desk [] = tt
names-hired desk (a ∷ crew) =
    let rest : All (λ n. is_hired (a ∷ crew) n ≡ true) (names_on desk crew) =
      All-mono _ _ (λ n h. hired_cons a crew n h) (names_on desk crew) (names-hired desk crew) in
    elim (Bool-cases (is_on desk a)) [
      | inl on ↦ rw on ((rw (is_hired, text_eq_refl a.name) refl), rest)
      | inr off ↦ rw off rest
    ]

pub names-IsName :
    (desk : Text) (crew : List Analyst)
    → All (λ a. IsName a.name) crew
    → All IsName (names_on desk crew)
names-IsName desk [] h = tt
names-IsName desk (a ∷ crew) h = elim (Bool-cases (is_on desk a)) [
  | inl on ↦ rw on (h.0, names-IsName desk crew h.1)
  | inr off ↦ rw off (names-IsName desk crew h.1)
]

pub is_hired-set_all :
    (state reason : Text) (ns : List Text) (crew : List Analyst) (name : Text)
    → is_hired crew name ≡ true
    → is_hired (set_all (in_state state reason) ns crew) name ≡ true
unfolding in_state
is_hired-set_all state reason [] crew name h = h
is_hired-set_all state reason (n ∷ ns) crew name h =
    is_hired-set_all state reason ns (update (named n) (in_state state reason) crew) name
      (is_hired-update n (in_state state reason) crew (λ a. refl) name ∙ h)

pub All-mem :
    (P : Text → Type 0) (ns : List Text) → ((n : Text) → mem_text n ns ≡ true → P n) → All P ns
unfolding mem_text
All-mem P [] h = tt
All-mem P (n ∷ ns) h =
    (h n (rw (text_eq_refl n) refl), All-mem P ns (λ m k. h m (ground (arith, k))))

pub mem-All :
    (P : Text → Type 0) (ns : List Text) (n : Text) → All P ns → mem_text n ns ≡ true → P n
unfolding mem_text
mem-All P [] n h k = cc
mem-All P (m ∷ ns) n h k = elim (Bool-cases (text_eq m n)) [
  | inl same ↦ subst P ((text_eq_iff m n).0 same) h.0
  | inr other ↦ mem-All P ns n h.1 (rw other at k)
]

-- The analysts who are active have no reason noted.
abbrev pub AreClear : List Analyst → Type 0
AreClear = All (λ a. text_eq a.state active ≡ true → a.reason ≡ [])

restored :
    (reason : Text) (a : Analyst)
    → a.state ≡ active
    → a.reason ≡ []
    → in_state active [] (in_state suspended_state reason a) ≡ a
unfolding in_state
restored reason a works clear = λ i. record a { state = (sym works) i; reason = (sym clear) i }

pub back_again :
    (desk reason : Text) (ns ms : List Text) (a : Analyst)
    → mem_text a.name ns ≡ is_on desk a
    → mem_text a.name ms ≡ mem_text a.name ns
    → (text_eq a.state active ≡ true → a.reason ≡ [])
    → change (in_state active []) ms (change (in_state suspended_state reason) ns a) ≡ a
unfolding in_state is_on
back_again desk reason ns ms a on same clear = elim (Bool-cases (is_on desk a)) [
  | inr off ↦
      let inner : change (in_state suspended_state reason) ns a ≡ a =
        ap (λ b. if b then in_state suspended_state reason a else a) (on ∙ off) in
      ap (change (in_state active []) ms) inner
      ∙ ap (λ b. if b then in_state active [] a else a) (same ∙ on ∙ off)
  | inl now ↦
      let f : Analyst = in_state suspended_state reason a in
      let inner : change (in_state suspended_state reason) ns a ≡ f =
        ap (λ b. if b then f else a) (on ∙ now) in
      let outer : change (in_state active []) ms f ≡ in_state active [] f =
        ap (λ b. if b then in_state active [] f else f) (same ∙ on ∙ now) in
      let works : text_eq a.state active ≡ true = ground (arith, now) in
      ap (change (in_state active []) ms) inner
      ∙ outer
      ∙ restored reason a ((text_eq_iff a.state active).0 works) (clear works)
]

pub map_back :
    (f : Analyst → Analyst) (g : Analyst → Analyst) (crew : List Analyst)
    → All (λ a. g (f a) ≡ a) crew
    → map g (map f crew) ≡ crew
map_back f g [] h = refl
map_back f g (a ∷ crew) h = cc (h.0, map_back f g crew h.1)
