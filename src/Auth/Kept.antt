-- ===== src/Auth/Kept.antt =====
-- An installation that has an admin keeps one, while the identity provider changes no roles.
use costcrew.Base.{
  ◌≡◌, refl, sym, subst, ℕ, ◌≤◌, Bool, true, false, some, List, [], ◌∷◌, Text, codes, text_eq,
  text_eq_iff, inl, inr, Bool-cases, Option-cases, trim_space, ltb, is_empty, ◌&&◌, not, find,
  find_sound, leb, ensured, refused_with, Ensures, Ensures->>=, Result, ok, ◌>>◌, refuse_if, All,
  arith,
}
use costcrew.Auth.Accounts.{
  viewer, operator, admin, Role, rank, may, is_admin_role, is_admin, is_user, User, Accounts,
  AuthError, get, count_admins,
}
use costcrew.Auth.Sessions.{session_user, csrf_ok, has_key}
use costcrew.Auth.Console.{
  Form, Action, create_account, remove_account, change_role, Request, log_in, sign_up, log_out,
  manage, call_back, reset, Settings, Primitives, act, account_action, serve, handle, handle_all,
}
use costcrew.Auth.Unique.{IsSound, KeepsAdmins, IsMade, create-IsMade, set_password-IsSound}
use costcrew.Auth.Served.{serve-IsSound, or_same-keeps}
use costcrew.Auth.Admins.{HasAdmin, set_role-HasAdmin, remove-HasAdmin}
use costcrew.Auth.Remaining.{
  end_session-KeepsAdmins, login_submit-KeepsAdmins, signup_submit-KeepsAdmins,
}

-- What is found under a name is found under its own name.
get_own : (a : Accounts) (name : Text) {u : User} → get a name ≡ some u → get a u.username ≡ some u
unfolding get
get_own a name {u} found =
    subst (λ n. find (is_user n) a.users ≡ some u)
      (sym ((text_eq_iff u.username name).0 (find_sound (is_user name) a.users found))) found

may-is_admin : (r : Role) → may r admin ≡ true → is_admin_role r ≡ true
unfolding may rank is_admin_role
may-is_admin viewer h = cc
may-is_admin operator h = cc
may-is_admin admin h = refl

-- Requests other than a sign-in with the identity provider.
abbrev pub is_local : Request → Bool
is_local (call_back x f) = false
is_local _ = true

module _ (p : Primitives) where
  created-HasAdmin :
      (why : AuthError) (a : Accounts) (name : Text) (r : Accounts × Bool)
      → HasAdmin a
      → IsMade a name r
      → Ensures HasAdmin (refuse_if (not r.1) why >> ok r.0)
  unfolding count_admins
  created-HasAdmin why a name (after, true) h made = ensured (omega (arith, h, made.2))
  created-HasAdmin why a name (after, false) h made = refused_with

  act-HasAdmin :
      (k : Action) (u : User) (f : Form) (a : Accounts)
      → IsSound a
      → HasAdmin a
      → get a u.username ≡ some u
      → is_admin u ≡ true
      → Ensures HasAdmin (act p k u f a)
  unfolding act
  act-HasAdmin create_account u f a sound h found high =
      Ensures->>=
        (create-IsMade p.derive f.salt (trim_space f.username) f.password f.role f.now a sound)
        λ r made. created-HasAdmin _ a _ r h made
  act-HasAdmin remove_account u f a sound h found high =
      elim (Bool-cases (not (text_eq f.confirm (trim_space f.username)))) [
        | inl unconfirmed ↦ rw unconfirmed refused_with
        | inr confirmed ↦ elim (Bool-cases (text_eq (trim_space f.username) u.username)) [
          | inl self ↦ rw (confirmed, self) refused_with
          | inr other ↦ rw (confirmed, other) (remove-HasAdmin (trim_space f.username) a sound h)
        ]
      ]
  act-HasAdmin change_role u f a sound h found high =
      elim (Bool-cases (
        text_eq (trim_space f.username) u.username
        && not (text_eq f.role (codes "admin"))
        && leb (count_admins a) 1)) [
          | inl last ↦ rw last refused_with
          | inr safe ↦
              rw safe (
                set_role-HasAdmin (trim_space f.username) f.role a u.username sound found high safe)
        ]

  session_user-get :
      (token : Text) (now : ℕ) (a : Accounts) {u : User}
      → session_user p.key_of token now a ≡ some u
      → get a u.username ≡ some u
  unfolding session_user get
  session_user-get token now a {u} h = elim (Bool-cases (is_empty token)) [
    | inl empty ↦ cc (rw (session_user, empty) at h)
    | inr given ↦
        elim (Option-cases
          (find (λ s. has_key (p.key_of token) s && ltb now s.expires) a.sessions)) [
            | inl missing ↦ cc (rw (session_user, given, missing) at h)
            | inr (s, signed) ↦ get_own a s.username (rw (session_user, given, signed) at h)
          ]
  ]

  account_action-HasAdmin :
      (k : Action) (f : Form) (a : Accounts)
      → IsSound a
      → HasAdmin a
      → Ensures HasAdmin (account_action p k f a)
  unfolding account_action
  account_action-HasAdmin k f a sound h =
      elim (Option-cases (session_user p.key_of f.cookie f.now a)) [
        | inl nobody ↦ rw (account_action, nobody) refused_with
        | inr (u, found) ↦ elim (Bool-cases (not (csrf_ok p.mac f.cookie f.csrf))) [
          | inl forged ↦ rw (account_action, found, forged) refused_with
          | inr genuine ↦ elim (Bool-cases (may u.role admin)) [
            | inr low ↦ rw (account_action, found, genuine, low) refused_with
            | inl high ↦
                rw (account_action, found, genuine, high)
                  (act-HasAdmin k u f a sound h (session_user-get f.cookie f.now a found)
                    (may-is_admin u.role high))
          ]
        ]
      ]

  more-HasAdmin :
      (a : Accounts) (m : Result AuthError Accounts)
      → HasAdmin a
      → Ensures (KeepsAdmins a) m
      → Ensures HasAdmin m
  unfolding count_admins
  more-HasAdmin a m h (ensured {x = after} more) = ensured {x = after} (omega (arith, h, more))
  more-HasAdmin a m h refused_with = refused_with

  serve-HasAdmin :
      (s : Settings) (q : Request) (a : Accounts)
      → is_local q ≡ true
      → IsSound a
      → HasAdmin a
      → Ensures HasAdmin (serve p s q a)
  unfolding serve count_admins
  serve-HasAdmin s (log_in f) a here sound h =
      more-HasAdmin a _ h (login_submit-KeepsAdmins p s f a)
  serve-HasAdmin s (sign_up f) a here sound h =
      more-HasAdmin a _ h (signup_submit-KeepsAdmins p s f a sound)
  serve-HasAdmin s (log_out f) a here sound h =
      more-HasAdmin a _ h (ensured (end_session-KeepsAdmins p f.cookie a))
  serve-HasAdmin s (manage k f) a here sound h = account_action-HasAdmin k f a sound h
  serve-HasAdmin s (call_back x f) a here sound h = cc
  serve-HasAdmin s (reset allow_weak f) a here sound h = more-HasAdmin a _ h (
      Ensures->>=
        (set_password-IsSound p.derive f.salt f.username f.password f.role allow_weak f.now a sound)
        λ r k. ensured k.1)

-- Once an installation has an admin it has one after any requests, in any order, none of which is a
-- sign-in with the identity provider, where names are distinct and sessions are of users that exist.
pub handle_all-HasAdmin :
    (p : Primitives) (s : Settings) (qs : List Request) (a : Accounts)
    → All (λ q. is_local q ≡ true) qs
    → IsSound a
    → 1 ≤ count_admins a
    → 1 ≤ count_admins (handle_all p s qs a)
handle_all-HasAdmin p s [] a here sound h = h
handle_all-HasAdmin p s (q ∷ qs) a here sound h =
    handle_all-HasAdmin p s qs (handle p s q a) here.1
      (or_same-keeps a sound (serve-IsSound p s q a sound))
      (or_same-keeps {P = HasAdmin} a h (serve-HasAdmin p s q a here.0 sound h))
