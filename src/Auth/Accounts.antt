-- ===== src/Auth/Accounts.antt =====
-- The accounts of internal/auth/auth.go. Times are clock readings in nanoseconds; the code keeps them
-- as float64 seconds. The journal is the list of what is reported.
use costcrew.Base.{
  ℕ, suc, ◌+◌, ◌*◌, ◌^◌, Bool, true, false, not, ◌&&◌, ◌||◌, Option, none, some, List, Text, codes,
  text_eq, if◌then◌else◌, is_empty, is_blank, trim_space, find, select, length, update, delete,
  insert, ltb, leb, ◌==◌, Result, ok, err, ◌>>=◌, ◌>>◌, refuse_if,
}
use costcrew.Auth.Passwords.{byte_length, hash_password, verify_password}

pub data Role : Type 0 where
  viewer operator admin : Role

-- validRole
unfoldable pub read_role : Text → Option Role
read_role r =
    if text_eq r (codes "viewer")
    then some viewer
    else if text_eq r (codes "operator")
    then some operator
    else if text_eq r (codes "admin")
    then some admin
    else none

unfoldable pub rank : Role → ℕ
rank viewer = 1
rank operator = 2
rank admin = 3

-- User.May
unfoldable pub may : Role → Role → Bool
unfolding rank
may role need = leb (rank need) (rank role)

unfoldable pub is_admin_role : Role → Bool
is_admin_role admin = true
is_admin_role _ = false

pub record User : Type 0 where
  pub username : Text
  pub hash : Text
  pub role : Role
  pub created : ℕ
  pub last_login : ℕ
  pub failed : ℕ
  pub locked_until : ℕ

pub record Session : Type 0 where
  pub key : Text
  pub username : Text
  pub created : ℕ
  pub expires : ℕ

pub record Identity : Type 0 where
  pub issuer : Text
  pub subject : Text
  pub username : Text

pub record Event : Type 0 where
  pub kind : Text
  pub username : Text

pub record Accounts : Type 0 where
  pub users : List User
  pub sessions : List Session
  pub identities : List Identity
  pub break_glass : List Text
  pub journal : List Event

abbrev pub is_user : Text → User → Bool
is_user name u = text_eq u.username name

abbrev pub is_admin : User → Bool
is_admin u = is_admin_role u.role

abbrev pub of_user : Text → Session → Bool
of_user name s = text_eq s.username name

unfoldable pub get : Accounts → Text → Option User
get a name = find (is_user name) a.users

-- CountRole of "admin"
unfoldable pub count_admins : Accounts → ℕ
count_admins a = length (select is_admin a.users)

pub data AuthError : Type 0 where
  no_name short_password no_such_role no_such_account only_admin no_hash signed_out : AuthError
  refused : Text → AuthError

abbrev pub report : Text → Text → Accounts → Accounts
report kind name a = record a {
  journal = insert (record { kind = kind; username = name }) a.journal;
}

-- the rounds of the clock in a second
abbrev pub second : ℕ
second = 1_000_000_000

unfoldable pub new_user : Text → Text → Role → ℕ → User
new_user name hash role now = record {
  username = name;
  hash = hash;
  role = role;
  created = now;
  last_login = 0;
  failed = 0;
  locked_until = 0;
}

abbrev pub add_user : User → Accounts → Accounts
add_user u a = record a { users = insert u a.users }

abbrev pub set_user : Text → (User → User) → Accounts → Accounts
set_user name f a = record a { users = update (is_user name) f a.users }

abbrev pub end_sessions : Text → Accounts → Accounts
end_sessions name a = record a { sessions = delete (of_user name) a.sessions }

abbrev pub mark_break_glass : Text → Accounts → Accounts
mark_break_glass name a = record a {
  break_glass = insert name (delete (text_eq name) a.break_glass);
}

unfoldable pub with_hash : Text → User → User
with_hash h u = record u { hash = h }

abbrev pub or_admin : Text → Text
or_admin role = elim (read_role role) [ none ↦ codes "admin" | some _ ↦ role ]

-- 10 * (1 << min(failed, 5)) seconds, at most 300
unfoldable pub lock_seconds : ℕ → ℕ
lock_seconds failed =
    let back = 10 * 2 ^ (if ltb failed 5 then failed else 5) in if ltb 300 back then 300 else back

unfoldable pub lock_after : ℕ → ℕ → ℕ
lock_after failed now = if ltb failed 3 then 0 else now + lock_seconds failed * second

unfoldable pub failed_once : ℕ → User → User
failed_once now u = record u { failed = suc u.failed; locked_until = lock_after (suc u.failed) now }

unfoldable pub signed_in : ℕ → User → User
signed_in now u = record u { failed = 0; locked_until = 0; last_login = now }

module _ (derive : Text → Text → Text → Option Text) where
  -- create, after its tests
  unfoldable pub create_new :
      Text → Text → Text → Role → ℕ → Accounts → Result AuthError (Accounts × Bool)
  create_new salt name password role now a = elim (get a name) [
    | some _ ↦ ok (a, false)
    | none ↦ elim (hash_password derive salt password) [
      | none ↦ err no_hash
      | some h ↦
          ok (report (codes "user_created") name (add_user (new_user name h role now) a), true)
    ]
  ]

  -- create: without the length test
  unfoldable pub create_any :
      Text → Text → Text → Text → ℕ → Accounts → Result AuthError (Accounts × Bool)
  create_any salt username password role now a =
      let name = trim_space username in
      elim (read_role role) [
        | none ↦ ok (a, false)
        | some r ↦ if is_empty name then ok (a, false) else create_new salt name password r now a
      ]

  unfoldable pub create :
      Text → Text → Text → Text → ℕ → Accounts → Result AuthError (Accounts × Bool)
  create salt username password role now a =
      if is_blank username || ltb (byte_length password) 10
      then ok (a, false)
      else create_any salt username password role now a

  -- SetPassword, of the command line. The Boolean tells whether the account was created.
  unfoldable pub set_password :
      Text → Text → Text → Text → Bool → ℕ → Accounts → Result AuthError (Accounts × Bool)
  set_password salt username password role allow_weak now a = do
    let name = trim_space username
    refuse_if (is_empty name) no_name
    refuse_if (ltb (byte_length password) 10 && not allow_weak) short_password
    elim (get a name) [
      | none ↦ do
        (after, created) ← create_any salt name password (or_admin role) now a
        ok (mark_break_glass name after, created)
      | some _ ↦ elim (hash_password derive salt password) [
        | none ↦ err no_hash
        | some h ↦ ok (
          report (codes "password_reset") name
              (end_sessions name (mark_break_glass name (set_user name (with_hash h) a))),
          false,
        )
      ]
    ]

  -- Register. `signup` is the joining code that is configured, the empty text where there is none.
  unfoldable pub register :
      Text → Text → Text → Text → Text → ℕ → Accounts → Result AuthError Accounts
  register signup salt username password code now a = do
    let first = count_admins a == 0
    refuse_if (not first && is_empty signup)
        (refused (codes "registration is closed; ask an admin for an account"))
    refuse_if (not (is_empty signup) && not (text_eq code signup))
        (refused (codes "that joining code is not right"))
    refuse_if (ltb (byte_length password) 10)
        (refused (codes "choose a password of at least 10 characters"))
    (after, made) ←
        create salt username password (if first then codes "admin" else codes "viewer") now a
    refuse_if (not made) (refused (codes "that name is taken, or the password is too short"))
    ok (report (codes "user_registered") username after)

  -- Authenticate. No user stands for LoginRefused, the one refusal that there is.
  unfoldable pub authenticate : Text → Text → ℕ → Accounts → Accounts × Option User
  authenticate name password now a = elim (get a name) [
    | none ↦ (a, none)
    | some u ↦
        if ltb now u.locked_until
        then (a, none)
        else if verify_password derive password u.hash
        then (set_user name (signed_in now) a, some u)
        else (report (codes "login_failed") name (set_user name (failed_once now) a), none)
  ]

  unfoldable pub authenticate_break_glass : Text → Text → ℕ → Accounts → Accounts × Option User
  authenticate_break_glass name password now a =
      elim (find (text_eq (trim_space name)) a.break_glass) [
        | none ↦ (a, none)
        | some _ ↦ authenticate name password now a
      ]

unfoldable pub with_role : Role → User → User
with_role r u = record u { role = r }

unfoldable pub set_role : Text → Text → Accounts → Result AuthError Accounts
set_role name role a = elim (read_role role) [
  | none ↦ err no_such_role
  | some r ↦ elim (get a name) [
    | none ↦ err no_such_account
    | some _ ↦ ok (report (codes "user_role_changed") name (set_user name (with_role r) a))
  ]
]

-- Delete
unfoldable pub remove : Text → Accounts → Result AuthError Accounts
remove username a =
    let name = trim_space username in
    elim (get a name) [
      | none ↦ err no_such_account
      | some u ↦ do
        refuse_if (is_admin u && leb (count_admins a) 1) only_admin
        let ended = end_sessions name a
        ok (
            report (codes "user_removed") name
              (record ended { users = delete (is_user name) ended.users }))
    ]
