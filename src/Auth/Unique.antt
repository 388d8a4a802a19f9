-- ===== src/Auth/Unique.antt =====
-- Every request keeps the names of users distinct, and every session a user's.
use costcrew.Base.{
  trim_space, is_empty, is_blank, ltb, ◌||◌, ◌>>◌, refuse_if, codes, ◌==◌, ◌&&◌, not, ℕ, ◌≤◌, ◌≡◌,
  refl, ap, Bool, true, false, Option, none, List, Text, text_eq, text_eq_iff, subst, if◌then◌else◌,
  find, select, length, All, update, delete, insert, length-select-update, length-select-insert,
  select-insert_once, length-select-delete, All-mono, All-delete, All-delete_where, inl, inr,
  Bool-cases, Option-cases, Ensures, Ensures->>=, ensured, refused_with, ok, arith,
}
use costcrew.Auth.Accounts.{
  count_admins, is_admin, is_admin_role, refused, report, refused, User, Accounts, is_user, of_user,
  Role, get, add_user, set_user, end_sessions, new_user, create_new, create_any, create, read_role,
  register, set_password, with_hash,
}
use costcrew.Auth.Passwords.{hash_password, byte_length}
use costcrew.Auth.Known.{is_known, is_known-update, is_known-insert, is_known-new, is_known-delete}

-- No name has two users, and every session is a user's.
abbrev pub IsSound : Accounts → Type 0
IsSound a =
    ((name : Text) → length (select (is_user name) a.users) ≤ 1)
    × All (λ s. is_known a.users s.username ≡ true) a.sessions

pub set_user-IsSound :
    (name : Text) (f : User → User) (a : Accounts)
    → ((u : User) → (f u).username ≡ u.username)
    → IsSound a
    → IsSound (set_user name f a)
set_user-IsSound name f a same sound = (
  λ other.
      rw
        (length-select-update (is_user other) (is_user name) f
          (λ u. ap (λ n. text_eq n other) (same u)) a.users)
        (sound.0 other),
  All-mono _ _ (λ s known. rw (is_known-update name f a.users same s.username) known) a.sessions
      sound.1,
)

new_name :
    (u : User) (us : List User) (other : Text)
    → find (is_user u.username) us ≡ none
    → is_user other u ≡ true
    → find (is_user other) us ≡ none
new_name u us other new mine =
    subst (λ n. find (is_user n) us ≡ none) ((text_eq_iff u.username other).0 mine) new

pub add_user-IsSound :
    (u : User) (a : Accounts) → get a u.username ≡ none → IsSound a → IsSound (add_user u a)
unfolding get
add_user-IsSound u a new sound = (
  λ other.
      select-insert_once (is_user other) u a.users (new_name u a.users other new) (sound.0 other),
  All-mono _ _ (λ s known. is_known-insert u a.users s.username known) a.sessions sound.1,
)

pub end_sessions-IsSound : (name : Text) (a : Accounts) → IsSound a → IsSound (end_sessions name a)
end_sessions-IsSound name a sound = (sound.0, All-delete _ (of_user name) a.sessions sound.1)

pub remove_user-IsSound :
    (name : Text) (a : Accounts)
    → IsSound a
    → IsSound (record (end_sessions name a) { users = delete (is_user name) a.users })
remove_user-IsSound name a sound = (
  λ other.
      omega (arith, length-select-delete (is_user other) (is_user name) a.users, sound.0 other),
  All-mono _ _ (λ s known. is_known-delete name s.username a.users known.1 known.0)
      (delete (of_user name) a.sessions) (All-delete_where _ (of_user name) a.sessions sound.1),
)

-- The admins are no fewer.
abbrev pub KeepsAdmins : Accounts → Accounts → Type 0
KeepsAdmins a after = length (select is_admin a.users) ≤ length (select is_admin after.users)

-- What create and its variants leave: a sound state, with as many admins, in which the name they made
-- is known.
abbrev pub IsMade : Accounts → Text → Accounts × Bool → Type 0
IsMade a name (after, made) =
    IsSound after × (made ≡ true → is_known after.users name ≡ true) × KeepsAdmins a after

add_user-KeepsAdmins :
    (u : User) (us : List User)
    → length (select is_admin us) ≤ length (select is_admin (insert u us))
add_user-KeepsAdmins u us = omega (arith, length-select-insert is_admin u us)

pub set_user-KeepsAdmins :
    (name : Text) (f : User → User) (us : List User)
    → ((u : User) → (f u).role ≡ u.role)
    → length (select is_admin us) ≤ length (select is_admin (update (is_user name) f us))
set_user-KeepsAdmins name f us same =
    omega
      (arith, length-select-update is_admin (is_user name) f (λ u. ap is_admin_role (same u)) us)

module _ (derive : Text → Text → Text → Option Text) where
  create_new-IsMade :
      (salt name password : Text) (role : Role) (now : ℕ) (a : Accounts)
      → IsSound a
      → Ensures (IsMade a name) (create_new derive salt name password role now a)
  unfolding create_new new_user
  create_new-IsMade salt name password role now a sound = elim (Option-cases (get a name)) [
    | inr (u, found) ↦ rw (create_new, found) (ensured (sound, (λ e. cc), omega arith))
    | inl new ↦ elim (Option-cases (hash_password derive salt password)) [
      | inl failed ↦ rw (create_new, new, failed) refused_with
      | inr (h, hashed) ↦
          rw (create_new, new, hashed)
            (ensured (
              add_user-IsSound (new_user name h role now) a new sound,
              (λ e. is_known-new (new_user name h role now) a.users),
              add_user-KeepsAdmins (new_user name h role now) a.users,
            ))
    ]
  ]

  create_any-IsMade :
      (salt username password role : Text) (now : ℕ) (a : Accounts)
      → IsSound a
      → Ensures
          (IsMade a (trim_space username))
          (create_any derive salt username password role now a)
  unfolding create_any
  create_any-IsMade salt username password role now a sound = elim (Option-cases (read_role role)) [
    | inl invalid ↦ rw (create_any, invalid) (ensured (sound, (λ e. cc), omega arith))
    | inr (r, valid) ↦ elim (Bool-cases (is_empty (trim_space username))) [
      | inl empty ↦ rw (create_any, valid, empty) (ensured (sound, (λ e. cc), omega arith))
      | inr named ↦
          rw (create_any, valid, named)
            (create_new-IsMade salt (trim_space username) password r now a sound)
    ]
  ]

  pub create-IsMade :
      (salt username password role : Text) (now : ℕ) (a : Accounts)
      → IsSound a
      → Ensures (IsMade a (trim_space username)) (create derive salt username password role now a)
  unfolding create
  create-IsMade salt username password role now a sound =
      elim (Bool-cases (is_blank username || ltb (byte_length password) 10)) [
        | inl bad ↦ rw (create, bad) (ensured (sound, (λ e. cc), omega arith))
        | inr good ↦ rw (create, good) (create_any-IsMade salt username password role now a sound)
      ]

  abbrev first_role : Accounts → Text
  first_role a = if count_admins a == 0 then codes "admin" else codes "viewer"

  register_end :
      (username : Text) (a : Accounts) (r : Accounts × Bool)
      → IsMade a (trim_space username) r
      → Ensures
          (λ after.
            IsSound after
            × (is_known after.users (trim_space username) ≡ true)
            × KeepsAdmins a after)
          (refuse_if (not r.1) (refused (codes "that name is taken, or the password is too short"))
            >> ok (report (codes "user_registered") username r.0))
  register_end username a (after, true) h = ensured (h.0, h.1 refl, h.2)
  register_end username a (after, false) h = refused_with

  pub register-IsSound :
      (signup salt username password code : Text) (now : ℕ) (a : Accounts)
      → IsSound a
      → Ensures
          (λ after.
            IsSound after
            × (is_known after.users (trim_space username) ≡ true)
            × KeepsAdmins a after)
          (register derive signup salt username password code now a)
  unfolding register
  register-IsSound signup salt username password code now a sound =
      elim (Bool-cases (not (count_admins a == 0) && is_empty signup)) [
        | inl closed ↦ rw closed refused_with
        | inr open_now ↦ elim (Bool-cases (not (is_empty signup) && not (text_eq code signup))) [
          | inl wrong ↦ rw (open_now, wrong) refused_with
          | inr right ↦ elim (Bool-cases (ltb (byte_length password) 10)) [
            | inl short ↦ rw (open_now, right, short) refused_with
            | inr long ↦
                rw (open_now, right, long)
                  (Ensures->>= (create-IsMade salt username password (first_role a) now a sound)
                    (register_end username a))
          ]
        ]
      ]

  pub set_password-IsSound :
      (salt username password role : Text) (allow_weak : Bool) (now : ℕ) (a : Accounts)
      → IsSound a
      → Ensures
          (λ r. IsSound r.0 × KeepsAdmins a r.0)
          (set_password derive salt username password role allow_weak now a)
  unfolding set_password with_hash
  set_password-IsSound salt username password role allow_weak now a sound =
      elim (Bool-cases (is_empty (trim_space username))) [
        | inl empty ↦ rw empty refused_with
        | inr named ↦ elim (Bool-cases (ltb (byte_length password) 10 && not allow_weak)) [
          | inl short ↦ rw (named, short) refused_with
          | inr long ↦ elim (Option-cases (get a (trim_space username))) [
            | inl new ↦
                rw (named, long, new)
                  (Ensures->>= (create_any-IsMade salt (trim_space username) password _ now a sound)
                    λ (after, made) h. ensured (h.0, h.2))
            | inr (u, found) ↦ elim (Option-cases (hash_password derive salt password)) [
              | inl failed ↦ rw (named, long, found, failed) refused_with
              | inr (h, hashed) ↦
                  rw (named, long, found, hashed)
                    (ensured (
                      end_sessions-IsSound (trim_space username)
                          (set_user (trim_space username) (with_hash h) a)
                          (set_user-IsSound (trim_space username) (with_hash h) a (λ u. refl)
                            sound),
                      set_user-KeepsAdmins (trim_space username) (with_hash h) a.users (λ u. refl),
                    ))
            ]
          ]
        ]
      ]
