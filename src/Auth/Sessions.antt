-- ===== src/Auth/Sessions.antt =====
-- Sessions of internal/auth/auth.go. `key_of` is the SHA-256 of a cookie's value, in hexadecimal.
use costcrew.Base.{
  ℕ, ◌+◌, ◌*◌, Bool, ◌&&◌, Option, none, some, Text, codes, text_eq, if◌then◌else◌, is_empty, find,
  delete, insert, ltb, take,
}
use costcrew.Auth.Accounts.{User, Session, Accounts, get, second, report}

abbrev pub has_key : Text → Session → Bool
has_key key s = text_eq s.key key

abbrev pub is_over : ℕ → Session → Bool
is_over now s = ltb s.expires now

unfoldable pub new_session : Text → Text → ℕ → Session
new_session key username now = record {
  key = key;
  username = username;
  created = now;
  expires = now + 12 * 3600 * second;
}

module _ (key_of : Text → Text) where
  -- StartSession, for a cookie value that is drawn at random
  unfoldable pub start_session : Text → Text → ℕ → Accounts → Accounts
  start_session token username now a = report (codes "login") username (record a {
    sessions = insert (new_session (key_of token) username now) (delete (is_over now) a.sessions);
  })

  -- SessionUser
  unfoldable pub session_user : Text → ℕ → Accounts → Option User
  session_user token now a =
      if is_empty token
      then none
      else (elim (find (λ s. has_key (key_of token) s && ltb now s.expires) a.sessions) [
        | none ↦ none
        | some s ↦ get a s.username
      ])

  -- EndSession
  unfoldable pub end_session : Text → Accounts → Accounts
  end_session token a =
      if is_empty token then a else (elim (find (has_key (key_of token)) a.sessions) [
        | none ↦ a
        | some s ↦
            report (codes "logout") s.username
              (record a { sessions = delete (has_key (key_of token)) a.sessions })
      ])

-- CSRFToken and CSRFOK, for the HMAC of a text under the server's secret, in hexadecimal
module _ (mac : Text → Text) where
  unfoldable pub csrf_token : Text → Text
  csrf_token session = take 32 (mac (if is_empty session then codes "anon" else session))

  unfoldable pub csrf_ok : Text → Text → Bool
  csrf_ok session given = text_eq (csrf_token session) given
