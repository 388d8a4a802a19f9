-- ===== src/Detect/Kept.antt =====
-- What coalescing and sorting findings keep: a predicate of each finding that a finding still has
-- when it is dated by the first one of its incident.
use costcrew.Base.{
  ℕ, zero, suc, ◌+◌, ◌≡◌, refl, subst, some, List, [], ◌∷◌, Text, ltb, leb, length, get_elem?, All,
  All-append, arith, Bool-cases, Option-cases, inl, inr, ltb_ℤ, leb_ℤ, text_leb,
}
use costcrew.Money.Amount.{abs}
use costcrew.Detect.Series.{Direction, up, down, Finding}
use costcrew.Detect.Coalesce.{
  put_by_day, sort_by_day, set_elem, Incidents, head_of, with_head, begin_incident, absorb,
  open_incident, gather, gather_all, coalesce,
}
use costcrew.Detect.Search.{put_by_excess, sort_by_excess}

with_head-out :
    {F : Type 0} (d : Direction) (i : ℕ) (s : Incidents F) → (with_head d i s).out ≡ s.out
unfolding with_head
with_head-out up i s = refl
with_head-out down i s = refl

module _ {F : Type 0} (P : Finding F → Type 0) where
  All-put_by_day : (x : Finding F) (l : List (Finding F)) → P x → All P l → All P (put_by_day x l)
  unfolding put_by_day
  All-put_by_day x [] h k = (h, tt)
  All-put_by_day x (y ∷ l) h k = elim (Bool-cases (text_leb x.day y.day)) [
    | inl first ↦ rw first (h, k)
    | inr after ↦ rw after (k.0, All-put_by_day x l h k.1)
  ]

  All-sort_by_day : (l : List (Finding F)) → All P l → All P (sort_by_day l)
  unfolding sort_by_day
  All-sort_by_day [] k = tt
  All-sort_by_day (x ∷ l) k = All-put_by_day x (sort_by_day l) k.0 (All-sort_by_day l k.1)

  All-put_by_excess :
      (x : Finding F) (l : List (Finding F)) → P x → All P l → All P (put_by_excess x l)
  unfolding put_by_excess
  All-put_by_excess x [] h k = (h, tt)
  All-put_by_excess x (y ∷ l) h k = elim (Bool-cases (leb_ℤ (abs y.excess) (abs x.excess))) [
    | inl first ↦ rw first (h, k)
    | inr after ↦ rw after (k.0, All-put_by_excess x l h k.1)
  ]

  pub All-sort_by_excess : (l : List (Finding F)) → All P l → All P (sort_by_excess l)
  unfolding sort_by_excess
  All-sort_by_excess [] k = tt
  All-sort_by_excess (x ∷ l) k =
      All-put_by_excess x (sort_by_excess l) k.0 (All-sort_by_excess l k.1)

  All-set_elem :
      (i : ℕ) (x : Finding F) (l : List (Finding F)) → P x → All P l → All P (set_elem i x l)
  unfolding set_elem
  All-set_elem i x [] h k = tt
  All-set_elem zero x (y ∷ l) h k = (h, k.1)
  All-set_elem (suc i) x (y ∷ l) h k = (k.0, All-set_elem i x l h k.1)

  All-get_elem :
      (i : ℕ) (l : List (Finding F)) {x : Finding F} → All P l → get_elem? l i ≡ some x → P x
  All-get_elem i [] k e = cc
  All-get_elem zero (y ∷ l) k e = subst P (cc e) k.0
  All-get_elem (suc i) (y ∷ l) k e = All-get_elem i l k.1 e

  All-begin_incident :
      (cur : Finding F) (s : Incidents F) → P cur → All P s.out → All P (begin_incident cur s).out
  unfolding begin_incident
  All-begin_incident cur s h k = rw with_head-out (All-append P s.out (cur ∷ []) k (h, tt))

  All-open_incident :
      (d : Direction) (s : Incidents F) {i : ℕ} {first : Finding F}
      → All P s.out
      → open_incident d s ≡ some (i, first)
      → P first
  All-open_incident d s {i} {first} k e = elim (Option-cases (head_of d s)) [
    | inl unset ↦ ground (arith, unset, e)
    | inr (j, set) ↦ elim (Option-cases (get_elem? s.out j)) [
      | inl out_of_range ↦ ground (arith, set, out_of_range, e)
      | inr (g, here) ↦
          let same : g ≡ first = ground (arith, set, here, e) in
          subst P same (All-get_elem j s.out k here)
    ]
  ]

  module _ (dated : (f g : Finding F) → P f → P g → P (record g { day = f.day })) where
    All-absorb :
        (i : ℕ) (first cur : Finding F) (s : Incidents F)
        → P first
        → P cur
        → All P s.out
        → All P (absorb i first cur s).out
    unfolding absorb
    All-absorb i first cur s h k a = elim (Bool-cases (ltb_ℤ (abs first.excess) (abs cur.excess))) [
      | inl larger ↦
          rw larger (All-set_elem i (record cur { day = first.day }) s.out (dated first cur h k) a)
      | inr smaller ↦ rw smaller a
    ]

    All-gather :
        (day_number : Text → ℕ) (cool : ℕ) (cur : Finding F) (s : Incidents F)
        → P cur
        → All P s.out
        → All P (gather day_number cool cur s).out
    unfolding gather
    All-gather day_number cool cur s h k = elim (Option-cases (open_incident cur.direction s)) [
      | inl fresh ↦ rw (gather, fresh) (All-begin_incident cur s h k)
      | inr ((i, first), known) ↦
          elim (Bool-cases (leb (day_number cur.day) (day_number first.day + cool))) [
            | inl within ↦
                rw (gather, known, within)
                  (All-absorb i first cur s (All-open_incident cur.direction s k known) h k)
            | inr later ↦ rw (gather, known, later) (All-begin_incident cur s h k)
          ]
    ]

    All-gather_all :
        (day_number : Text → ℕ) (cool : ℕ) (l : List (Finding F)) (s : Incidents F)
        → All P l
        → All P s.out
        → All P (gather_all day_number cool l s).out
    unfolding gather_all
    All-gather_all day_number cool [] s h k = k
    All-gather_all day_number cool (f ∷ l) s h k =
        All-gather_all day_number cool l (gather day_number cool f s) h.1
          (All-gather day_number cool f s h.0 k)

    pub All-coalesce :
        (day_number : Text → ℕ) (cool : ℕ) (l : List (Finding F))
        → All P l
        → All P (coalesce day_number cool l)
    unfolding coalesce
    All-coalesce day_number cool l h = elim (Bool-cases (ltb (length l) 2)) [
      | inl short ↦ rw short h
      | inr long ↦ rw long (All-gather_all day_number _ (sort_by_day l) _ (All-sort_by_day l h) tt)
    ]
