-- ===== src/Auth/Remaining.antt =====
-- The requests of Auth.Console that take no admin away.
use costcrew.Base.{
  refl, ℕ, Option, none, some, Text, text_eq, inl, inr, Bool-cases, Option-cases, trim_space, ltb,
  is_empty, ◌&&◌, not, find, ensured, refused_with, Ensures, Ensures->>=, arith,
}
use costcrew.Auth.Passwords.{verify_password}
use costcrew.Auth.Accounts.{
  signed_in, failed_once, authenticate, authenticate_break_glass, User, Accounts, get,
}
use costcrew.Auth.Sessions.{csrf_ok, start_session, end_session, has_key}
use costcrew.Auth.Console.{
  Form, Settings, Primitives, signup_open, admitted, login_submit, signup_submit,
}
use costcrew.Auth.Unique.{set_user-KeepsAdmins, IsSound, KeepsAdmins, register-IsSound}

module _ (derive : Text → Text → Text → Option Text) where
  authenticate-KeepsAdmins :
      (name password : Text) (now : ℕ) (a : Accounts)
      → KeepsAdmins a (authenticate derive name password now a).0
  unfolding authenticate signed_in failed_once
  authenticate-KeepsAdmins name password now a = elim (Option-cases (get a name)) [
    | inl missing ↦ rw (authenticate, missing) (omega arith)
    | inr (u, found) ↦ elim (Bool-cases (ltb now u.locked_until)) [
      | inl locked ↦ rw (authenticate, found, locked) (omega arith)
      | inr open_now ↦ elim (Bool-cases (verify_password derive password u.hash)) [
        | inl right ↦
            rw (authenticate, found, open_now, right)
              (set_user-KeepsAdmins name (signed_in now) a.users (λ v. refl))
        | inr wrong ↦
            rw (authenticate, found, open_now, wrong)
              (set_user-KeepsAdmins name (failed_once now) a.users (λ v. refl))
      ]
    ]
  ]

  authenticate_break_glass-KeepsAdmins :
      (name password : Text) (now : ℕ) (a : Accounts)
      → KeepsAdmins a (authenticate_break_glass derive name password now a).0
  unfolding authenticate_break_glass
  authenticate_break_glass-KeepsAdmins name password now a =
      elim (Option-cases (find (text_eq (trim_space name)) a.break_glass)) [
        | inl missing ↦ rw (authenticate_break_glass, missing) (omega arith)
        | inr (n, found) ↦
            rw (authenticate_break_glass, found) (authenticate-KeepsAdmins name password now a)
      ]

module _ (p : Primitives) where
  pub end_session-KeepsAdmins :
      (token : Text) (a : Accounts) → KeepsAdmins a (end_session p.key_of token a)
  unfolding end_session
  end_session-KeepsAdmins token a = elim (Bool-cases (is_empty token)) [
    | inl empty ↦ rw (end_session, empty) (omega arith)
    | inr given ↦ elim (Option-cases (find (has_key (p.key_of token)) a.sessions)) [
      | inl missing ↦ rw (end_session, given, missing) (omega arith)
      | inr (s, found) ↦ rw (end_session, given, found) (omega arith)
    ]
  ]

  admitted-KeepsAdmins :
      (f : Form) (a : Accounts) (r : Accounts × Option User)
      → KeepsAdmins a r.0
      → KeepsAdmins a (admitted p f r)
  unfolding start_session
  admitted-KeepsAdmins f a (after, none) h = h
  admitted-KeepsAdmins f a (after, some u) h = h

  pub login_submit-KeepsAdmins :
      (s : Settings) (f : Form) (a : Accounts) → Ensures (KeepsAdmins a) (login_submit p s f a)
  unfolding login_submit
  login_submit-KeepsAdmins s f a = elim (Bool-cases (not (csrf_ok p.mac f.cookie f.csrf))) [
    | inl forged ↦ rw forged refused_with
    | inr genuine ↦ elim (Bool-cases (s.external && s.only)) [
      | inl only ↦
          rw (genuine, only)
            (ensured (
              admitted-KeepsAdmins f a _
                (authenticate_break_glass-KeepsAdmins p.derive f.username f.password f.now a)))
      | inr also ↦
          rw (genuine, also)
            (ensured (
              admitted-KeepsAdmins f a _
                (authenticate-KeepsAdmins p.derive f.username f.password f.now a)))
    ]
  ]

  pub signup_submit-KeepsAdmins :
      (s : Settings) (f : Form) (a : Accounts)
      → IsSound a
      → Ensures (KeepsAdmins a) (signup_submit p s f a)
  unfolding signup_submit start_session
  signup_submit-KeepsAdmins s f a sound = elim (Bool-cases (not (csrf_ok p.mac f.cookie f.csrf))) [
    | inl forged ↦ rw forged refused_with
    | inr genuine ↦ elim (Bool-cases (not (signup_open s a))) [
      | inl closed ↦ rw (genuine, closed) refused_with
      | inr open_now ↦
          rw (genuine, open_now)
            (Ensures->>=
              (register-IsSound p.derive s.signup f.salt f.username f.password f.code f.now a sound)
              λ after h. ensured h.2)
    ]
  ]
