-- ===== src/Auth/Rights.antt =====
-- Which requests may change the roles by name, and how.
use costcrew.Base.{
  ◌≡◌, Text, if◌then◌else◌, inl, inr, Bool-cases, Option-cases, trim_space, is_empty, ◌&&◌, not,
  ensured, refused_with, Ensures, Ensures->>=, Ensures-value, ok,
}
use costcrew.Auth.Accounts.{admin, may, Accounts}
use costcrew.Auth.Sessions.{start_session, session_user, csrf_ok}
use costcrew.Auth.Console.{
  Form, Action, Claims, Request, log_in, sign_up, log_out, manage, call_back, reset, Settings,
  Primitives, signup_open, account_action, login_submit, signup_submit, oidc_callback, serve,
}
use costcrew.Auth.Roles.{unchanged, granted, role_of, apply, Implements}
use costcrew.Auth.Policy.{first_role, managed, claimed, policy}
use costcrew.Auth.Granted.{register-Implements, set_password-Implements}
use costcrew.Auth.Changed.{authenticate-Implements, authenticate_break_glass-Implements}
use costcrew.Auth.Refines.{
  sign_in_external-Implements, act-Implements, end_session-Implements, admitted-Implements,
}

module _ (p : Primitives) where
  account_action-Implements :
      (k : Action) (f : Form) (a : Accounts)
      → Ensures (Implements a (managed k f)) (account_action p k f a)
  unfolding account_action
  account_action-Implements k f a = elim (Option-cases (session_user p.key_of f.cookie f.now a)) [
    | inl nobody ↦ rw (account_action, nobody) refused_with
    | inr (u, found) ↦ elim (Bool-cases (not (csrf_ok p.mac f.cookie f.csrf))) [
      | inl forged ↦ rw (account_action, found, forged) refused_with
      | inr genuine ↦ elim (Bool-cases (not (may u.role admin))) [
        | inl low ↦ rw (account_action, found, genuine, low) refused_with
        | inr high ↦ rw (account_action, found, genuine, high) (act-Implements p k u f a)
      ]
    ]
  ]

  pub login_submit-Implements :
      (s : Settings) (f : Form) (a : Accounts)
      → Ensures (Implements a unchanged) (login_submit p s f a)
  unfolding login_submit
  login_submit-Implements s f a = elim (Bool-cases (not (csrf_ok p.mac f.cookie f.csrf))) [
    | inl forged ↦ rw forged refused_with
    | inr genuine ↦ elim (Bool-cases (s.external && s.only)) [
      | inl only ↦
          rw (genuine, only)
            (ensured (
              admitted-Implements p f a unchanged _
                (authenticate_break_glass-Implements p.derive f.username f.password f.now a)))
      | inr also ↦
          rw (genuine, also)
            (ensured (
              admitted-Implements p f a unchanged _
                (authenticate-Implements p.derive f.username f.password f.now a)))
    ]
  ]

  signup_submit-Implements :
      (s : Settings) (f : Form) (a : Accounts)
      → Ensures
          (Implements a (granted (trim_space f.username) (first_role a)))
          (signup_submit p s f a)
  unfolding signup_submit start_session
  signup_submit-Implements s f a = elim (Bool-cases (not (csrf_ok p.mac f.cookie f.csrf))) [
    | inl forged ↦ rw forged refused_with
    | inr genuine ↦ elim (Bool-cases (not (signup_open s a))) [
      | inl closed ↦ rw (genuine, closed) refused_with
      | inr open_now ↦
          rw (genuine, open_now)
            (Ensures->>=
              (register-Implements p.derive s.signup f.salt f.username f.password f.code f.now a)
              λ after h. ensured h)
    ]
  ]

  oidc_callback-Implements :
      (s : Settings) (x : Claims) (f : Form) (a : Accounts)
      → Ensures
          (Implements a (if is_empty x.role then unchanged else claimed x a))
          (oidc_callback p s x f a)
  unfolding oidc_callback
  oidc_callback-Implements s x f a = elim (Bool-cases (not s.external)) [
    | inl local ↦ rw local refused_with
    | inr configured ↦ rw configured (
        Ensures->>= (sign_in_external-Implements x f.now a)
          λ r h. ensured (admitted-Implements p f a _ r h))
  ]

  pub serve-Implements :
      (s : Settings) (q : Request) (a : Accounts)
      → Ensures (Implements a (policy q a)) (serve p s q a)
  unfolding serve policy
  serve-Implements s (log_in f) a = login_submit-Implements s f a
  serve-Implements s (sign_up f) a = signup_submit-Implements s f a
  serve-Implements s (log_out f) a = ensured (end_session-Implements p f.cookie a)
  serve-Implements s (manage k f) a = account_action-Implements k f a
  serve-Implements s (call_back x f) a = oidc_callback-Implements s x f a
  serve-Implements s (reset allow_weak f) a =
      Ensures->>=
        (set_password-Implements p.derive f.salt f.username f.password f.role allow_weak f.now a)
        λ r h. ensured h

-- A request that is not refused changes the roles by name as the policy says, and no other role.
pub serve-policy :
    (p : Primitives) (s : Settings) (q : Request) (a : Accounts) {after : Accounts}
    → serve p s q a ≡ ok after
    → (name : Text) → role_of after name ≡ apply (policy q a) (role_of a) name
serve-policy p s q a done = Ensures-value _ (serve-Implements p s q a) done
