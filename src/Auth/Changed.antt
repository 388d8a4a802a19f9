-- ===== src/Auth/Changed.antt =====
-- What signing in, a change of role and a removal do to the roles by name.
use costcrew.Base.{
  refl, ℕ, Option, Text, text_eq, inl, inr, Bool-cases, Option-cases, trim_space, ltb, leb, ◌&&◌,
  find, ensured, refused_with, Ensures,
}
use costcrew.Auth.Passwords.{verify_password}
use costcrew.Auth.Accounts.{
  Accounts, get, read_role, count_admins, set_role, remove, is_admin, authenticate,
  authenticate_break_glass, signed_in, failed_once,
}
use costcrew.Auth.Roles.{
  unchanged, revoked, apply, Implements, update-Implements, with_role-Implements, delete-Implements,
}
use costcrew.Auth.Policy.{grant}

module _ (derive : Text → Text → Text → Option Text) where
  pub authenticate-Implements :
      (name password : Text) (now : ℕ) (a : Accounts)
      → Implements a unchanged (authenticate derive name password now a).0
  unfolding authenticate signed_in failed_once apply
  authenticate-Implements name password now a = elim (Option-cases (get a name)) [
    | inl missing ↦ rw (authenticate, missing) λ n. refl
    | inr (u, found) ↦ elim (Bool-cases (ltb now u.locked_until)) [
      | inl locked ↦ rw (authenticate, found, locked) λ n. refl
      | inr open_now ↦ elim (Bool-cases (verify_password derive password u.hash)) [
        | inl right ↦
            rw (authenticate, found, open_now, right)
              (update-Implements name (signed_in now) a.users (λ v. refl) (λ v. refl))
        | inr wrong ↦
            rw (authenticate, found, open_now, wrong)
              (update-Implements name (failed_once now) a.users (λ v. refl) (λ v. refl))
      ]
    ]
  ]

  pub authenticate_break_glass-Implements :
      (name password : Text) (now : ℕ) (a : Accounts)
      → Implements a unchanged (authenticate_break_glass derive name password now a).0
  unfolding authenticate_break_glass apply
  authenticate_break_glass-Implements name password now a =
      elim (Option-cases (find (text_eq (trim_space name)) a.break_glass)) [
        | inl missing ↦ rw (authenticate_break_glass, missing) λ n. refl
        | inr (n, found) ↦
            rw (authenticate_break_glass, found) (authenticate-Implements name password now a)
      ]

pub set_role-Implements :
    (name role : Text) (a : Accounts)
    → Ensures (Implements a (grant name (read_role role))) (set_role name role a)
unfolding set_role get grant
set_role-Implements name role a = elim (Option-cases (read_role role)) [
  | inl invalid ↦ rw (set_role, invalid) refused_with
  | inr (r, valid) ↦ elim (Option-cases (get a name)) [
    | inl missing ↦ rw (set_role, valid, missing) refused_with
    | inr (u, found) ↦
        rw (set_role, valid, found) (ensured (with_role-Implements name r a.users found))
  ]
]

pub remove-Implements :
    (username : Text) (a : Accounts)
    → Ensures (Implements a (revoked (trim_space username))) (remove username a)
unfolding remove
remove-Implements username a = elim (Option-cases (get a (trim_space username))) [
  | inl missing ↦ rw (remove, missing) refused_with
  | inr (u, found) ↦ elim (Bool-cases (is_admin u && leb (count_admins a) 1)) [
    | inl last ↦ rw (remove, found, last) refused_with
    | inr other ↦
        rw (remove, found, other) (ensured (delete-Implements (trim_space username) a.users))
  ]
]
