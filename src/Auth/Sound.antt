-- ===== src/Auth/Sound.antt =====
-- Every request of Auth.Console leaves the names of users distinct, and every session a user's.
use costcrew.Base.{
  ◌≡◌, refl, sym, ◌∙◌, subst, true, Option, none, some, Text, text_eq, text_eq_iff, ℕ, ltb,
  trim_space, is_empty, ◌&&◌, All-delete, All-insert, find, find_sound, inl, inr, Bool-cases,
  Option-cases, ensured, refused_with, Ensures, leb,
}
use costcrew.Auth.Passwords.{verify_password}
use costcrew.Auth.Accounts.{
  User, Accounts, is_user, get, authenticate, authenticate_break_glass, signed_in, failed_once,
  set_role, with_role, remove, read_role, count_admins, is_admin,
}
use costcrew.Auth.Sessions.{start_session, end_session, new_session, is_over, has_key}
use costcrew.Auth.Known.{is_known, is_known-some, is_known-update}
use costcrew.Auth.Unique.{IsSound, set_user-IsSound, remove_user-IsSound}

-- A sound state, and the user who may start a session is one of its users.
abbrev pub IsAdmitted : Accounts × Option User → Type 0
IsAdmitted (a, none) = IsSound a
IsAdmitted (a, some u) = IsSound a × (is_known a.users u.username ≡ true)

pub get_known :
    (a : Accounts) (name : Text) {u : User}
    → get a name ≡ some u
    → is_known a.users u.username ≡ true
unfolding get
get_known a name {u} found = is_known-some a.users u.username (
    subst (λ n. find (is_user n) a.users ≡ some u)
      (sym ((text_eq_iff u.username name).0 (find_sound (is_user name) a.users found))) found)

module _ (derive : Text → Text → Text → Option Text) where
  pub authenticate-IsAdmitted :
      (name password : Text) (now : ℕ) (a : Accounts)
      → IsSound a
      → IsAdmitted (authenticate derive name password now a)
  unfolding authenticate signed_in failed_once
  authenticate-IsAdmitted name password now a sound = elim (Option-cases (get a name)) [
    | inl missing ↦ rw (authenticate, missing) sound
    | inr (u, found) ↦ elim (Bool-cases (ltb now u.locked_until)) [
      | inl locked ↦ rw (authenticate, found, locked) sound
      | inr open_now ↦ elim (Bool-cases (verify_password derive password u.hash)) [
        | inl right ↦
            rw (authenticate, found, open_now, right)
              (
                set_user-IsSound name (signed_in now) a (λ v. refl) sound,
                is_known-update name (signed_in now) a.users (λ v. refl) u.username
                    ∙ get_known a name found,
              )
        | inr wrong ↦
            rw (authenticate, found, open_now, wrong)
              (set_user-IsSound name (failed_once now) a (λ v. refl) sound)
      ]
    ]
  ]

  pub authenticate_break_glass-IsAdmitted :
      (name password : Text) (now : ℕ) (a : Accounts)
      → IsSound a
      → IsAdmitted (authenticate_break_glass derive name password now a)
  unfolding authenticate_break_glass
  authenticate_break_glass-IsAdmitted name password now a sound =
      elim (Option-cases (find (text_eq (trim_space name)) a.break_glass)) [
        | inl missing ↦ rw (authenticate_break_glass, missing) sound
        | inr (n, found) ↦
            rw (authenticate_break_glass, found) (authenticate-IsAdmitted name password now a sound)
      ]

pub set_role-IsSound :
    (name role : Text) (a : Accounts) → IsSound a → Ensures IsSound (set_role name role a)
unfolding set_role with_role
set_role-IsSound name role a sound = elim (Option-cases (read_role role)) [
  | inl invalid ↦ rw (set_role, invalid) refused_with
  | inr (r, valid) ↦ elim (Option-cases (get a name)) [
    | inl missing ↦ rw (set_role, valid, missing) refused_with
    | inr (u, found) ↦
        rw (set_role, valid, found)
          (ensured (set_user-IsSound name (with_role r) a (λ v. refl) sound))
  ]
]

pub remove-IsSound :
    (username : Text) (a : Accounts) → IsSound a → Ensures IsSound (remove username a)
unfolding remove
remove-IsSound username a sound = elim (Option-cases (get a (trim_space username))) [
  | inl missing ↦ rw (remove, missing) refused_with
  | inr (u, found) ↦ elim (Bool-cases (is_admin u && leb (count_admins a) 1)) [
    | inl last ↦ rw (remove, found, last) refused_with
    | inr other ↦
        rw (remove, found, other) (ensured (remove_user-IsSound (trim_space username) a sound))
  ]
]

pub start_session-IsSound :
    (key_of : Text → Text) (token username : Text) (now : ℕ) (a : Accounts)
    → is_known a.users username ≡ true
    → IsSound a
    → IsSound (start_session key_of token username now a)
unfolding start_session new_session
start_session-IsSound key_of token username now a known sound = (
  sound.0,
  All-insert _ (new_session (key_of token) username now) _ known
      (All-delete _ (is_over now) a.sessions sound.1),
)

pub end_session-IsSound :
    (key_of : Text → Text) (token : Text) (a : Accounts)
    → IsSound a
    → IsSound (end_session key_of token a)
unfolding end_session
end_session-IsSound key_of token a sound = elim (Bool-cases (is_empty token)) [
  | inl empty ↦ rw (end_session, empty) sound
  | inr given ↦ elim (Option-cases (find (has_key (key_of token)) a.sessions)) [
    | inl missing ↦ rw (end_session, given, missing) sound
    | inr (s, found) ↦
        rw (end_session, given, found)
          (sound.0, All-delete _ (has_key (key_of token)) a.sessions sound.1)
  ]
]
