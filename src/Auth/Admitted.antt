-- ===== src/Auth/Admitted.antt =====
-- A sign-in with the identity provider leaves sound accounts, and admits a user who exists.
use costcrew.Base.{
  refl, Text, ℕ, trim_space, is_empty, ◌||◌, inl, inr, Bool-cases, Option-cases, ensured,
  refused_with, Ensures,
}
use costcrew.Auth.Accounts.{Accounts, Role, get, set_user, new_user, with_role, read_role}
use costcrew.Auth.External.{
  admit, seen, unusable_password, refuse_external, linked_name, sign_in_mapped, sign_in_named,
  sign_in_external, link, is_taken, move_role, same_role,
}
use costcrew.Auth.Unique.{IsSound, set_user-IsSound, add_user-IsSound, end_sessions-IsSound}
use costcrew.Auth.Sound.{IsAdmitted, get_known}

got-IsAdmitted : (a : Accounts) (name : Text) → IsSound a → IsAdmitted (a, get a name)
got-IsAdmitted a name sound = elim (Option-cases (get a name)) [
  | inl missing ↦ rw missing sound
  | inr (u, found) ↦ rw found (sound, get_known a name found)
]

admit-IsAdmitted :
    (name : Text) (role : Role) (now : ℕ) (a : Accounts)
    → IsSound a
    → IsAdmitted (admit name role now a)
unfolding admit move_role seen new_user with_role
admit-IsAdmitted name role now a sound = elim (Option-cases (get a name)) [
  | inl new ↦
      rw (admit, new)
        (got-IsAdmitted _ name
          (add_user-IsSound (seen now (new_user name unusable_password role now)) a new sound))
  | inr (u, found) ↦ elim (Bool-cases (same_role u.role role)) [
    | inl same ↦
        rw (admit, found, same)
          (got-IsAdmitted _ name (set_user-IsSound name (seen now) a (λ v. refl) sound))
    | inr changed ↦
        rw (admit, found, changed)
          (got-IsAdmitted _ name (
            set_user-IsSound name (seen now) (set_user name (with_role role) a) (λ v. refl)
              (set_user-IsSound name (with_role role) a (λ v. refl) sound)))
  ]
]

refuse_external-IsSound :
    (issuer subject username : Text) (a : Accounts)
    → IsSound a
    → IsSound (refuse_external issuer subject username a)
unfolding refuse_external
refuse_external-IsSound issuer subject username a sound =
    elim (Option-cases (linked_name issuer subject a)) [
      | inl unlinked ↦ rw (refuse_external, unlinked) sound
      | inr (name, linked) ↦ rw (refuse_external, linked) (end_sessions-IsSound name a sound)
    ]

sign_in_mapped-IsAdmitted :
    (issuer subject name : Text) (role : Role) (now : ℕ) (a : Accounts)
    → IsSound a
    → IsAdmitted (sign_in_mapped issuer subject name role now a)
unfolding sign_in_mapped link
sign_in_mapped-IsAdmitted issuer subject name role now a sound =
    elim (Option-cases (linked_name issuer subject a)) [
      | inr (known, linked) ↦ rw (sign_in_mapped, linked) (admit-IsAdmitted known role now a sound)
      | inl unlinked ↦ elim (Bool-cases (is_taken name a)) [
        | inl taken ↦ rw (sign_in_mapped, unlinked, taken) sound
        | inr free ↦
            rw (sign_in_mapped, unlinked, free)
              (admit-IsAdmitted name role now (link issuer subject name a) sound)
      ]
    ]

pub sign_in_external-IsAdmitted :
    (issuer subject username role : Text) (now : ℕ) (a : Accounts)
    → IsSound a
    → Ensures IsAdmitted (sign_in_external issuer subject username role now a)
unfolding sign_in_external sign_in_named
sign_in_external-IsAdmitted issuer subject username role now a sound =
    elim (Bool-cases (is_empty issuer || is_empty subject || is_empty (trim_space username))) [
      | inl unnamed ↦ rw unnamed refused_with
      | inr named ↦ elim (Bool-cases (is_empty role)) [
        | inl denied ↦
            rw (named, sign_in_named, denied)
              (ensured (refuse_external-IsSound issuer subject (trim_space username) a sound))
        | inr asked ↦ elim (Option-cases (read_role role)) [
          | inl invalid ↦ rw (named, sign_in_named, asked, invalid) refused_with
          | inr (r, valid) ↦
              rw (named, sign_in_named, asked, valid)
                (ensured
                  (sign_in_mapped-IsAdmitted issuer subject (trim_space username) r now a sound))
        ]
      ]
    ]
