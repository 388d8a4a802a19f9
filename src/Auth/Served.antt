-- ===== src/Auth/Served.antt =====
-- Every request of Auth.Console leaves the names of users distinct, and every session a user's.
use costcrew.Base.{
  Bool, true, false, Option, none, some, List, [], ◌∷◌, codes, text_eq, trim_space, ◌&&◌, ◌>>◌,
  refuse_if, leb, not, inl, inr, Bool-cases, Option-cases, ensured, refused_with, Ensures,
  Ensures->>=, Result, ok,
}
use costcrew.Auth.Accounts.{admin, count_admins, may, User, Accounts, AuthError}
use costcrew.Auth.Sessions.{session_user, csrf_ok}
use costcrew.Auth.Console.{
  Form, Action, create_account, remove_account, change_role, Claims, Request, log_in, sign_up,
  log_out, manage, call_back, reset, Settings, Primitives, signup_open, act, account_action,
  admitted, login_submit, signup_submit, oidc_callback, serve, or_same, handle, handle_all,
}
use costcrew.Auth.Unique.{IsSound, register-IsSound, set_password-IsSound, create-IsMade}
use costcrew.Auth.Sound.{
  IsAdmitted, authenticate-IsAdmitted, authenticate_break_glass-IsAdmitted, set_role-IsSound,
  remove-IsSound, start_session-IsSound, end_session-IsSound,
}
use costcrew.Auth.Admitted.{sign_in_external-IsAdmitted}

module _ (p : Primitives) where
  admitted-IsSound :
      (f : Form) (r : Accounts × Option User) → IsAdmitted r → IsSound (admitted p f r)
  admitted-IsSound f (a, none) h = h
  admitted-IsSound f (a, some u) h =
      start_session-IsSound p.key_of f.fresh u.username f.now a h.1 h.0

  created-IsSound :
      (why : AuthError) (r : Accounts × Bool)
      → IsSound r.0
      → Ensures IsSound (refuse_if (not r.1) why >> ok r.0)
  created-IsSound why (after, true) h = ensured h
  created-IsSound why (after, false) h = refused_with

  act-IsSound :
      (k : Action) (u : User) (f : Form) (a : Accounts)
      → IsSound a
      → Ensures IsSound (act p k u f a)
  unfolding act
  act-IsSound create_account u f a sound =
      Ensures->>=
        (create-IsMade p.derive f.salt (trim_space f.username) f.password f.role f.now a sound)
        λ r made. created-IsSound _ r made.0
  act-IsSound remove_account u f a sound =
      elim (Bool-cases (not (text_eq f.confirm (trim_space f.username)))) [
        | inl unconfirmed ↦ rw unconfirmed refused_with
        | inr confirmed ↦ elim (Bool-cases (text_eq (trim_space f.username) u.username)) [
          | inl self ↦ rw (confirmed, self) refused_with
          | inr other ↦ rw (confirmed, other) (remove-IsSound (trim_space f.username) a sound)
        ]
      ]
  act-IsSound change_role u f a sound =
      elim (Bool-cases (
        text_eq (trim_space f.username) u.username
        && not (text_eq f.role (codes "admin"))
        && leb (count_admins a) 1)) [
          | inl last ↦ rw last refused_with
          | inr safe ↦ rw safe (set_role-IsSound (trim_space f.username) f.role a sound)
        ]

  account_action-IsSound :
      (k : Action) (f : Form) (a : Accounts) → IsSound a → Ensures IsSound (account_action p k f a)
  unfolding account_action
  account_action-IsSound k f a sound =
      elim (Option-cases (session_user p.key_of f.cookie f.now a)) [
        | inl nobody ↦ rw (account_action, nobody) refused_with
        | inr (u, found) ↦ elim (Bool-cases (not (csrf_ok p.mac f.cookie f.csrf))) [
          | inl forged ↦ rw (account_action, found, forged) refused_with
          | inr genuine ↦ elim (Bool-cases (not (may u.role admin))) [
            | inl low ↦ rw (account_action, found, genuine, low) refused_with
            | inr high ↦ rw (account_action, found, genuine, high) (act-IsSound k u f a sound)
          ]
        ]
      ]

  login_submit-IsSound :
      (s : Settings) (f : Form) (a : Accounts) → IsSound a → Ensures IsSound (login_submit p s f a)
  unfolding login_submit
  login_submit-IsSound s f a sound = elim (Bool-cases (not (csrf_ok p.mac f.cookie f.csrf))) [
    | inl forged ↦ rw forged refused_with
    | inr genuine ↦ elim (Bool-cases (s.external && s.only)) [
      | inl only ↦
          rw (genuine, only)
            (ensured (
              admitted-IsSound f _
                (authenticate_break_glass-IsAdmitted p.derive f.username f.password f.now a sound)))
      | inr also ↦
          rw (genuine, also)
            (ensured (
              admitted-IsSound f _
                (authenticate-IsAdmitted p.derive f.username f.password f.now a sound)))
    ]
  ]

  signup_submit-IsSound :
      (s : Settings) (f : Form) (a : Accounts) → IsSound a → Ensures IsSound (signup_submit p s f a)
  unfolding signup_submit
  signup_submit-IsSound s f a sound = elim (Bool-cases (not (csrf_ok p.mac f.cookie f.csrf))) [
    | inl forged ↦ rw forged refused_with
    | inr genuine ↦ elim (Bool-cases (not (signup_open s a))) [
      | inl closed ↦ rw (genuine, closed) refused_with
      | inr open_now ↦
          rw (genuine, open_now)
            (Ensures->>=
              (register-IsSound p.derive s.signup f.salt f.username f.password f.code f.now a sound)
              λ after h. ensured (
                start_session-IsSound p.key_of f.fresh (trim_space f.username) f.now after h.1 h.0))
    ]
  ]

  oidc_callback-IsSound :
      (s : Settings) (x : Claims) (f : Form) (a : Accounts)
      → IsSound a
      → Ensures IsSound (oidc_callback p s x f a)
  unfolding oidc_callback
  oidc_callback-IsSound s x f a sound = elim (Bool-cases (not s.external)) [
    | inl local ↦ rw local refused_with
    | inr configured ↦ rw configured (
        Ensures->>= (sign_in_external-IsAdmitted x.issuer x.subject x.username x.role f.now a sound)
          λ r h. ensured (admitted-IsSound f r h))
  ]

  pub serve-IsSound :
      (s : Settings) (q : Request) (a : Accounts) → IsSound a → Ensures IsSound (serve p s q a)
  unfolding serve
  serve-IsSound s (log_in f) a sound = login_submit-IsSound s f a sound
  serve-IsSound s (sign_up f) a sound = signup_submit-IsSound s f a sound
  serve-IsSound s (log_out f) a sound = ensured (end_session-IsSound p.key_of f.cookie a sound)
  serve-IsSound s (manage k f) a sound = account_action-IsSound k f a sound
  serve-IsSound s (call_back x f) a sound = oidc_callback-IsSound s x f a sound
  serve-IsSound s (reset allow_weak f) a sound =
      Ensures->>=
        (set_password-IsSound p.derive f.salt f.username f.password f.role allow_weak f.now a sound)
        λ r h. ensured h.0

pub or_same-keeps :
    {P : Accounts → Type 0} (a : Accounts) {m : Result AuthError Accounts}
    → P a
    → Ensures P m
    → P (or_same a m)
or_same-keeps a h (ensured k) = k
or_same-keeps a h refused_with = h

-- Whatever requests are served, in any order, no name gets two users, and every session is of a user
-- that exists, if it was so before.
pub handle_all-IsSound :
    (p : Primitives) (s : Settings) (qs : List Request) (a : Accounts)
    → IsSound a
    → IsSound (handle_all p s qs a)
handle_all-IsSound p s [] a sound = sound
handle_all-IsSound p s (q ∷ qs) a sound =
    handle_all-IsSound p s qs (handle p s q a) (or_same-keeps a sound (serve-IsSound p s q a sound))
