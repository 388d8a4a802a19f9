-- ===== src/Crew/Options/Reads.antt =====
-- What ParseOptions of internal/crew/options.go reads of a block.
use costcrew.Base.{
  ◌≡◌, refl, subst, ap, ℕ, suc, false, Option, some, List, [], ◌∷◌, Text, ok, All, length, ◌≤◌,
  arith, ltb, ltb_ℤ, pos, Bool-cases, Option-cases, Result-cases, inl, inr, is_blank, Ensures,
  ensured, refused_with, Ensures-value, Ensures->>=,
}
use costcrew.Auth.Passwords.{byte_length}
use costcrew.Crew.Options.Table.{OptionRow, opened}
use costcrew.Crew.Options.Block.{
  RawOption, figure_not_whole, saving_not_whole, cents_of, whole, read_option, read_options,
  parse_options, options_max, options_block_max_bytes,
}
use costcrew.Crew.Options.Fence.{options_fence}

-- An option as the block's reading gives it.
abbrev pub IsRead : OptionRow → Type 0
IsRead o = (o.state ≡ opened) × (ltb_ℤ o.figure_cents (pos 0) ≡ false)

read_option-IsRead : (i : ℕ) (r : RawOption) → Ensures IsRead (read_option i r)
unfolding read_option
read_option-IsRead i r = elim (Bool-cases (is_blank r.class)) [
  | inl nameless ↦ rw nameless refused_with
  | inr named ↦
      rw named (elim (Result-cases (whole (figure_not_whole i) (cents_of r.figure_cents))) [
        | inr (e, broken) ↦ rw broken refused_with
        | inl (figure, read) ↦ rw read (elim (Bool-cases (ltb_ℤ figure (pos 0))) [
          | inl negative ↦ rw negative refused_with
          | inr fine ↦
              rw fine (elim (Result-cases (whole (saving_not_whole i) (cents_of r.saving_cents))) [
                | inr (e, broken) ↦ rw broken refused_with
                | inl (saving, read2) ↦ rw read2 (ensured (refl, fine))
              ])
        ])
      ])
]

read_options-IsRead :
    (i : ℕ) (rs : List RawOption)
    → Ensures (λ os. (length os ≡ length rs) × All IsRead os) (read_options i rs)
unfolding read_options
read_options-IsRead i [] = ensured (refl, tt)
read_options-IsRead i (r ∷ rs) = Ensures->>= (read_option-IsRead i r) (λ o read.
    Ensures->>= (read_options-IsRead (suc i) rs)
      (λ os rest. ensured (ap suc rest.0, (read, rest.1))))

-- A block that is read has three options at most.
pub parse_options-IsRead :
    (decode : Text → Option (List RawOption)) (body : Text) {os : List OptionRow}
    → parse_options decode body ≡ ok (some os)
    → (length os ≤ 3) × All IsRead os
unfolding parse_options
parse_options-IsRead decode body {os} h = elim (Option-cases (options_fence body)) [
  | inl absent ↦ cc (rw (parse_options, absent) at h)
  | inr (raw, found) ↦ elim (Bool-cases (ltb options_block_max_bytes (byte_length raw))) [
    | inl large ↦ cc (rw (parse_options, found, large) at h)
    | inr fits ↦ elim (Option-cases (decode raw)) [
      | inl broken ↦ cc (rw (parse_options, found, fits, broken) at h)
      | inr (rs, decoded) ↦ elim (Bool-cases (ltb options_max (length rs))) [
        | inl many ↦ cc (rw (parse_options, found, fits, decoded, many) at h)
        | inr few ↦ elim (Result-cases (read_options 1 rs)) [
          | inr (e, lost) ↦ cc (rw (parse_options, found, fits, decoded, few, lost) at h)
          | inl (l, read) ↦
              let (long, all) =
                Ensures-value (λ x. (length x ≡ length rs) × All IsRead x)
                  (read_options-IsRead 1 rs) read in
              subst (λ x. (length x ≤ 3) × All IsRead x)
                (cc (rw (parse_options, found, fits, decoded, few, read) at h)) (ground arith, all)
        ]
      ]
    ]
  ]
]
