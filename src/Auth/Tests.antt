-- ===== src/Auth/Tests.antt =====
-- Concrete accounts: ann is the admin and is signed in, bob is a viewer and is signed in.
use costcrew.Base.{
  split, length, select, Bool-cases, inl, inr, ◌⊎◌, subst, text_eq_iff, ok, ◌≡◌, refl, ℕ, ◌*◌, ◌≤◌,
  arith, false, Option, none, some, [], ◌∷◌, ◌++◌, Text, codes, text_eq, if◌then◌else◌, trim_space,
  trim_left, is_blank,
}
use costcrew.Auth.Passwords.{hash_password, verify_password, byte_length}
use costcrew.Auth.Accounts.{
  Role, viewer, admin, User, Session, Accounts, second, get, is_user, count_admins, read_role, rank,
  may, is_admin_role, new_user, create_new, create_any, create, authenticate, set_role, remove,
}
use costcrew.Auth.Sessions.{session_user, csrf_token, csrf_ok}
use costcrew.Auth.Console.{
  Form, create_account, remove_account, change_role, Request, sign_up, manage, Settings, Primitives,
  act, account_action, serve, handle, handle_all,
}
use costcrew.Auth.Unique.{IsSound}
use costcrew.Auth.Roles.{directory, role_of, apply}
use costcrew.Auth.Policy.{policy}
use costcrew.Auth.Served.{handle_all-IsSound}
use costcrew.Auth.Kept.{handle_all-HasAdmin}
use costcrew.Auth.Rights.{serve-policy}
use costcrew.Auth.Escalation.{IsVouched, handle-no_escalation}
use costcrew.Auth.Ended.{serve-ends_sessions}
use costcrew.Auth.Lockout.{authenticate-locked, authenticate-unlocked}

abbrev toy_derive : Text → Text → Text → Option Text
toy_derive password salt algo =
    if text_eq algo (codes "scrypt") then some (salt ++ password) else none

abbrev toy : Primitives
toy = record { derive = toy_derive; key_of = λ t. t; mac = λ t. t }

abbrev settings : Settings
settings = record { signup = codes "join"; external = false; only = false }

abbrev person : Text → Role → ℕ → User
person name role failed = record {
  username = name;
  hash = codes "scrypt$ab$ab" ++ name;
  role = role;
  created = 1;
  last_login = 1;
  failed = failed;
  locked_until = 0;
}

abbrev session : Text → Text → Session
session key name = record { key = key; username = name; created = 1; expires = 1000 }

abbrev accounts : Accounts
accounts = record {
  users = person (codes "ann") admin 0 ∷ person (codes "bob") viewer 2 ∷ [];
  sessions = session (codes "t1") (codes "ann") ∷ session (codes "t2") (codes "bob") ∷ [];
  identities = [];
  break_glass = [];
  journal = [];
}

abbrev form : Text → Text → Text → Text → Form
form cookie name password role = record {
  cookie = cookie;
  csrf = cookie;
  username = name;
  password = password;
  role = role;
  code = codes "join";
  confirm = name;
  fresh = codes "t3";
  salt = codes "cd";
  now = 10;
}

abbrev add_carl : Request
add_carl =
    manage create_account
      (form (codes "t1") (codes " carl") (codes "long enough") (codes "operator"))

abbrev remove_bob : Request
remove_bob = manage remove_account (form (codes "t1") (codes "bob") [] [])

abbrev join_dora : Request
join_dora = sign_up (form (codes "t2") (codes "dora") (codes "long enough") [])

abbrev bob_promotes_himself : Request
bob_promotes_himself = manage change_role (form (codes "t2") (codes "bob") [] (codes "admin"))

accounts-IsUnique : (name : Text) → length (select (is_user name) accounts.users) ≤ 1
accounts-IsUnique name = elim (Bool-cases (text_eq (codes "ann") name)) [
  | inl same ↦
      subst (λ n. length (select (is_user n) accounts.users) ≤ 1)
        ((text_eq_iff (codes "ann") name).0 same) (omega arith)
  | inr other ↦ rw other (elim (Bool-cases (text_eq (codes "bob") name)) [
    | inl bob ↦ rw bob (omega arith)
    | inr nobody ↦ rw nobody (omega arith)
  ])
]

accounts-IsSound : IsSound accounts
accounts-IsSound = (accounts-IsUnique, (refl, (refl, tt)))

handle_all-IsSound_example :
    IsSound (handle_all toy settings (add_carl ∷ remove_bob ∷ join_dora ∷ []) accounts)
handle_all-IsSound_example =
    handle_all-IsSound toy settings (add_carl ∷ remove_bob ∷ join_dora ∷ []) accounts
      accounts-IsSound

handle_all-HasAdmin_example :
    1 ≤ count_admins (handle_all toy settings (add_carl ∷ remove_bob ∷ []) accounts)
unfolding count_admins is_admin_role
handle_all-HasAdmin_example =
    handle_all-HasAdmin toy settings (add_carl ∷ remove_bob ∷ []) accounts (refl, (refl, tt))
      accounts-IsSound (omega arith)

served : serve toy settings add_carl accounts ≡ ok (handle toy settings add_carl accounts)
unfolding serve account_action session_user get csrf_ok csrf_token may rank act create create_any
    create_new is_blank trim_space trim_left byte_length hash_password read_role new_user
served = refl

serve-policy_example :
    role_of (handle toy settings add_carl accounts) (codes "carl")
    ≡ apply (policy add_carl accounts) (role_of accounts) (codes "carl")
serve-policy_example = serve-policy toy settings add_carl accounts served (codes "carl")

handle-no_escalation_example :
    (role_of accounts (codes "ann") ≡ some admin)
    ⊎ IsVouched settings bob_promotes_himself accounts (codes "ann") admin
unfolding serve account_action session_user get csrf_ok csrf_token may rank act set_role read_role
    count_admins is_admin_role trim_space trim_left directory
handle-no_escalation_example =
    handle-no_escalation toy settings bob_promotes_himself accounts (codes "ann") (omega arith) refl
      refl refl

removed : serve toy settings remove_bob accounts ≡ ok (handle toy settings remove_bob accounts)
unfolding serve account_action session_user get csrf_ok csrf_token may rank act remove count_admins
    is_admin_role trim_space trim_left
removed = refl

serve-ends_sessions_example : text_eq (codes "ann") (codes "bob") ≡ false
unfolding serve account_action session_user get csrf_ok csrf_token may rank act remove count_admins
    is_admin_role trim_space trim_left
serve-ends_sessions_example =
    serve-ends_sessions toy settings remove_bob accounts {name = codes "bob"} accounts-IsSound refl
      removed (codes "t1") 20 {u = person (codes "ann") admin 0} refl

abbrev third_failure : Accounts
third_failure = (authenticate toy_derive (codes "bob") (codes "guess") 10 accounts).0

authenticate-locked_example :
    authenticate toy_derive (codes "bob") (codes "bob") (70 * second) third_failure
    ≡ (third_failure, none)
unfolding get verify_password split
authenticate-locked_example =
    authenticate-locked toy_derive (codes "bob") (codes "guess") (codes "bob") 10 (70 * second)
      accounts {u = person (codes "bob") viewer 2} refl refl refl (omega arith) (omega arith)

authenticate-unlocked_example :
    (v : User) × ((authenticate toy_derive
        (codes "bob")
        (codes "bob")
        (400 * second)
        third_failure).1
      ≡ some v)
    × (v.username ≡ codes "bob")
unfolding get verify_password split
authenticate-unlocked_example =
    authenticate-unlocked toy_derive (codes "bob") (codes "guess") (codes "bob") 10 (400 * second)
      accounts {u = person (codes "bob") viewer 2} refl refl refl refl (omega arith)
