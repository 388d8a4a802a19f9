-- ===== src/Auth/Granted.antt =====
-- What the operations on accounts do to the roles by name.
use costcrew.Base.{
  ◌≡◌, refl, sym, subst, ℕ, Bool, true, false, Option, none, some, Text, codes, text_eq,
  if◌then◌else◌, inl, inr, Bool-cases, Option-cases, trim_space, trim_space-trim_space, is_empty,
  is_blank, ltb, ◌==◌, ◌||◌, ◌&&◌, ◌>>◌, refuse_if, not, ensured, refused_with, Ensures,
  Ensures->>=, ok,
}
use costcrew.Auth.Passwords.{hash_password, byte_length}
use costcrew.Auth.Accounts.{
  Role, Accounts, get, new_user, read_role, create_new, create_any, create, register, refused,
  report, count_admins, set_password, with_hash, or_admin,
}
use costcrew.Auth.Roles.{
  Change, unchanged, granted, directory, apply, Implements, update-Implements, insert-Implements,
}
use costcrew.Auth.Policy.{grant, first_role, reset_role, role_or_admin}

module _ (derive : Text → Text → Text → Option Text) where
  -- The roles after create and its variants, whose Boolean says whether the account was made.
  abbrev pub IsCreated : Accounts → Change → Accounts × Bool → Type 0
  IsCreated a c (after, made) = Implements a (if made then c else unchanged) after

  create_new-IsCreated :
      (salt name password : Text) (role : Role) (now : ℕ) (a : Accounts)
      → Ensures (IsCreated a (granted name role)) (create_new derive salt name password role now a)
  unfolding create_new new_user get apply
  create_new-IsCreated salt name password role now a = elim (Option-cases (get a name)) [
    | inr (u, found) ↦ rw (create_new, found) (ensured λ n. refl)
    | inl new ↦ elim (Option-cases (hash_password derive salt password)) [
      | inl failed ↦ rw (create_new, new, failed) refused_with
      | inr (h, hashed) ↦
          rw (create_new, new, hashed)
            (ensured (insert-Implements (new_user name h role now) a.users new))
    ]
  ]

  create_any-IsCreated :
      (salt username password role : Text) (now : ℕ) (a : Accounts)
      → Ensures
          (IsCreated a (grant (trim_space username) (read_role role)))
          (create_any derive salt username password role now a)
  unfolding create_any grant apply
  create_any-IsCreated salt username password role now a = elim (Option-cases (read_role role)) [
    | inl invalid ↦ rw (create_any, invalid) (ensured λ n. refl)
    | inr (r, valid) ↦ elim (Bool-cases (is_empty (trim_space username))) [
      | inl empty ↦ rw (create_any, valid, empty) (ensured λ n. refl)
      | inr named ↦
          rw (create_any, valid, named)
            (create_new-IsCreated salt (trim_space username) password r now a)
    ]
  ]

  pub create-IsCreated :
      (salt username password role : Text) (now : ℕ) (a : Accounts)
      → Ensures
          (IsCreated a (grant (trim_space username) (read_role role)))
          (create derive salt username password role now a)
  unfolding create grant apply
  create-IsCreated salt username password role now a =
      elim (Bool-cases (is_blank username || ltb (byte_length password) 10)) [
        | inl bad ↦ rw (create, bad) (ensured λ n. refl)
        | inr good ↦ rw (create, good) (create_any-IsCreated salt username password role now a)
      ]

  abbrev first_text : Accounts → Text
  first_text a = if count_admins a == 0 then codes "admin" else codes "viewer"

  read_role-first_text : (a : Accounts) → read_role (first_text a) ≡ some (first_role a)
  unfolding read_role
  read_role-first_text a = elim (Bool-cases (count_admins a == 0)) [
    | inl first ↦ rw first refl
    | inr later ↦ rw later refl
  ]

  register_end :
      (username : Text) (a : Accounts) (c : Change) (r : Accounts × Bool)
      → IsCreated a c r
      → Ensures (Implements a c) (
          refuse_if (not r.1) (refused (codes "that name is taken, or the password is too short"))
          >> ok (report (codes "user_registered") username r.0))
  register_end username a c (after, true) h = ensured h
  register_end username a c (after, false) h = refused_with

  pub register-Implements :
      (signup salt username password code : Text) (now : ℕ) (a : Accounts)
      → Ensures
          (Implements a (granted (trim_space username) (first_role a)))
          (register derive signup salt username password code now a)
  unfolding register grant
  register-Implements signup salt username password code now a =
      elim (Bool-cases (not (count_admins a == 0) && is_empty signup)) [
        | inl closed ↦ rw closed refused_with
        | inr open_now ↦ elim (Bool-cases (not (is_empty signup) && not (text_eq code signup))) [
          | inl wrong ↦ rw (open_now, wrong) refused_with
          | inr right ↦ elim (Bool-cases (ltb (byte_length password) 10)) [
            | inl short ↦ rw (open_now, right, short) refused_with
            | inr long ↦
                let made : Ensures (IsCreated a (granted (trim_space username) (first_role a)))
                    (create derive salt username password (first_text a) now a) =
                  subst
                    (λ q.
                      Ensures (IsCreated a (grant (trim_space username) q))
                        (create derive salt username password (first_text a) now a))
                    (read_role-first_text a)
                    (create-IsCreated salt username password (first_text a) now a) in
                rw (open_now, right, long) (Ensures->>= made (register_end username a _))
          ]
        ]
      ]

  or_admin-role : (role : Text) → read_role (or_admin role) ≡ some (role_or_admin role)
  unfolding read_role
  or_admin-role role = elim (Option-cases (read_role role)) [
    | inl invalid ↦ rw (or_admin, role_or_admin, invalid) refl
    | inr (r, valid) ↦ rw (or_admin, role_or_admin, valid, valid) refl
  ]

  made-Implements :
      (salt username password role : Text) (now : ℕ) (a : Accounts)
      → is_empty (trim_space username) ≡ false
      → get a (trim_space username) ≡ none
      → Ensures
          (λ r. Implements a (granted (trim_space username) (role_or_admin role)) r.0)
          (create_any derive salt username password (or_admin role) now a)
  unfolding create_any create_new new_user get
  made-Implements salt username password role now a named new =
      elim (Option-cases (hash_password derive salt password)) [
        | inl failed ↦
            rw (create_any, or_admin-role role, named, create_new, new, failed) refused_with
        | inr (h, hashed) ↦
            rw (create_any, or_admin-role role, named, create_new, new, hashed)
              (ensured (
                insert-Implements (new_user (trim_space username) h (role_or_admin role) now)
                  a.users new))
      ]

  created-Implements :
      (salt username password role : Text) (now : ℕ) (a : Accounts)
      → is_empty (trim_space username) ≡ false
      → get a (trim_space username) ≡ none
      → Ensures
          (λ r. Implements a (granted (trim_space username) (role_or_admin role)) r.0)
          (create_any derive salt (trim_space username) password (or_admin role) now a)
  created-Implements salt username password role now a named new =
      let twice : trim_space (trim_space username) ≡ trim_space username =
        trim_space-trim_space username in
      subst
        (λ n.
          Ensures (λ r. Implements a (granted n (role_or_admin role)) r.0)
            (create_any derive salt (trim_space username) password (or_admin role) now a))
        twice
        (made-Implements salt (trim_space username) password role now a
          (subst (λ n. is_empty n ≡ false) (sym twice) named)
          (subst (λ n. get a n ≡ none) (sym twice) new))

  pub set_password-Implements :
      (salt username password role : Text) (allow_weak : Bool) (now : ℕ) (a : Accounts)
      → Ensures
          (λ r. Implements a (reset_role (trim_space username) role (directory a.users)) r.0)
          (set_password derive salt username password role allow_weak now a)
  unfolding set_password with_hash reset_role directory get apply
  set_password-Implements salt username password role allow_weak now a =
      elim (Bool-cases (is_empty (trim_space username))) [
        | inl empty ↦ rw empty refused_with
        | inr named ↦ elim (Bool-cases (ltb (byte_length password) 10 && not allow_weak)) [
          | inl short ↦ rw (named, short) refused_with
          | inr long ↦ elim (Option-cases (get a (trim_space username))) [
            | inl new ↦
                rw (named, long, reset_role, new)
                  (Ensures->>= (created-Implements salt username password role now a named new)
                    λ r h. ensured h)
            | inr (u, found) ↦ elim (Option-cases (hash_password derive salt password)) [
              | inl failed ↦ rw (named, long, found, failed) refused_with
              | inr (h, hashed) ↦
                  rw (named, long, reset_role, found, hashed)
                    (ensured (
                      update-Implements (trim_space username) (with_hash h) a.users (λ u. refl)
                        (λ u. refl)))
            ]
          ]
        ]
      ]
