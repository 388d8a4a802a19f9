-- ===== src/Auth/Console.antt =====
-- The requests that change accounts: the handlers of internal/web (loginSubmit, signupSubmit, logout of
-- server.go, accountAction of ops.go, oidcCallback of oidc.go) and -set-password of the command line.
-- A request that is refused leaves the accounts as they are, but for the journal and the failure count.
use costcrew.Base.{
  ℕ, Bool, not, ◌&&◌, ◌||◌, Option, none, some, List, [], ◌∷◌, Text, codes, text_eq, if◌then◌else◌,
  is_empty, trim_space, leb, ◌==◌, Result, ok, err, ◌>>=◌, ◌>>◌, refuse_if,
}
use costcrew.Auth.Accounts.{
  admin, may, User, Accounts, count_admins, AuthError, signed_out, refused, create, set_password,
  register, authenticate, authenticate_break_glass, set_role, remove,
}
use costcrew.Auth.Sessions.{start_session, session_user, end_session, csrf_ok}
use costcrew.Auth.External.{sign_in_external}

-- A form that is posted: the session's cookie, the CSRF token and the fields. `fresh` is the cookie value
-- drawn for a new session, `salt` the salt drawn for a new password.
pub record Form : Type 0 where
  pub cookie : Text
  pub csrf : Text
  pub username : Text
  pub password : Text
  pub role : Text
  pub code : Text
  pub confirm : Text
  pub fresh : Text
  pub salt : Text
  pub now : ℕ

pub data Action : Type 0 where
  create_account remove_account change_role : Action

-- What the identity provider established.
pub record Claims : Type 0 where
  pub issuer : Text
  pub subject : Text
  pub username : Text
  pub role : Text

pub data Request : Type 0 where
  log_in sign_up log_out : Form → Request
  manage : Action → Form → Request
  call_back : Claims → Form → Request
  reset : (allow_weak : Bool) → Form → Request

-- The provider's configuration: with `only`, passwords are for break-glass accounts.
pub record Settings : Type 0 where
  pub signup : Text
  pub external : Bool
  pub only : Bool

-- The primitives that the server uses: key derivation, SHA-256 and the HMAC, all in hexadecimal.
pub record Primitives : Type 0 where
  pub derive : Text → Text → Text → Option Text
  pub key_of : Text → Text
  pub mac : Text → Text

-- SignupOpen
unfoldable pub signup_open : Settings → Accounts → Bool
signup_open s a = not s.external && (count_admins a == 0 || not (is_empty s.signup))

-- the switch of accountAction
unfoldable pub act : Primitives → Action → User → Form → Accounts → Result AuthError Accounts
act p create_account u f a = do
  (after, made) ← create p.derive f.salt (trim_space f.username) f.password f.role f.now a
  refuse_if (not made)
      (refused (codes "that name is taken, or the password is under ten characters"))
  ok after
act p remove_account u f a = do
  let name = trim_space f.username
  refuse_if (not (text_eq f.confirm name))
      (refused (codes "to remove an account, type its name in the box beside the button"))
  refuse_if (text_eq name u.username) (
      refused (
        codes
          "you cannot remove the account you are signed in as: ask another admin, or promote one first"))
  remove name a
act p change_role u f a = do
  let name = trim_space f.username
  refuse_if
      (text_eq name u.username && not (text_eq f.role (codes "admin")) && leb (count_admins a) 1)
      (refused (codes "you are the only admin: promote somebody else first"))
  set_role name f.role a

unfoldable pub account_action : Primitives → Action → Form → Accounts → Result AuthError Accounts
account_action p k f a = elim (session_user p.key_of f.cookie f.now a) [
  | none ↦ err signed_out
  | some u ↦ do
    refuse_if (not (csrf_ok p.mac f.cookie f.csrf))
        (refused (codes "reload the page and try again"))
    refuse_if (not (may u.role admin)) (refused (codes "managing accounts is an admin's job"))
    act p k u f a
]

abbrev pub admitted : Primitives → Form → Accounts × Option User → Accounts
admitted p f (a, none) = a
admitted p f (a, some u) = start_session p.key_of f.fresh u.username f.now a

unfoldable pub login_submit : Primitives → Settings → Form → Accounts → Result AuthError Accounts
login_submit p s f a = do
  refuse_if (not (csrf_ok p.mac f.cookie f.csrf)) (refused (codes "reload the page and try again"))
  let authenticated =
      if s.external && s.only
      then authenticate_break_glass p.derive f.username f.password f.now a
      else authenticate p.derive f.username f.password f.now a
  ok (admitted p f authenticated)

unfoldable pub signup_submit : Primitives → Settings → Form → Accounts → Result AuthError Accounts
signup_submit p s f a = do
  refuse_if (not (csrf_ok p.mac f.cookie f.csrf)) (refused (codes "reload the page and try again"))
  refuse_if (not (signup_open s a)) (refused (codes "registration is closed"))
  after ← register p.derive s.signup f.salt f.username f.password f.code f.now a
  ok (start_session p.key_of f.fresh (trim_space f.username) f.now after)

unfoldable pub oidc_callback :
    Primitives → Settings → Claims → Form → Accounts → Result AuthError Accounts
oidc_callback p s x f a = do
  refuse_if (not s.external) (refused (codes "not found"))
  result ← sign_in_external x.issuer x.subject x.username x.role f.now a
  ok (admitted p f result)

unfoldable pub serve : Primitives → Settings → Request → Accounts → Result AuthError Accounts
serve p s (log_in f) a = login_submit p s f a
serve p s (sign_up f) a = signup_submit p s f a
serve p s (log_out f) a = ok (end_session p.key_of f.cookie a)
serve p s (manage k f) a = account_action p k f a
serve p s (call_back x f) a = oidc_callback p s x f a
serve p s (reset allow_weak f) a = do
  (after, created) ← set_password p.derive f.salt f.username f.password f.role allow_weak f.now a
  ok after

abbrev pub or_same : Accounts → Result AuthError Accounts → Accounts
or_same a (ok after) = after
or_same a (err _) = a

abbrev pub handle : Primitives → Settings → Request → Accounts → Accounts
handle p s q a = or_same a (serve p s q a)

abbrev pub handle_all : Primitives → Settings → List Request → Accounts → Accounts
handle_all p s [] a = a
handle_all p s (q ∷ qs) a = handle_all p s qs (handle p s q a)
