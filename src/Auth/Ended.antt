-- ===== src/Auth/Ended.antt =====
-- A password reset and the removal of an account end its sessions.
use costcrew.Base.{
  ◌≡◌, refl, sym, subst, ℕ, Bool, true, false, Option, none, some, List, Text, text_eq, text_eq_iff,
  inl, inr, Bool-cases, Option-cases, trim_space, trim_space-trim_space, is_empty, ltb, leb, ◌&&◌,
  not, find, find_sound, ensured, refused_with, Ensures, Ensures->>=, Ensures-value, ok, All,
  All-mono, All-find, All-deleted,
}
use costcrew.Auth.Passwords.{hash_password, byte_length}
use costcrew.Auth.Accounts.{
  admin, may, is_user, of_user, is_admin, User, Session, Accounts, get, count_admins, set_password,
  create_any, create_new, read_role, remove,
}
use costcrew.Auth.Sessions.{session_user, csrf_ok, has_key}
use costcrew.Auth.Console.{
  Form, create_account, remove_account, change_role, Request, log_in, sign_up, log_out, manage,
  call_back, reset, Settings, Primitives, act, account_action, serve,
}
use costcrew.Auth.Known.{is_known}
use costcrew.Auth.Unique.{IsSound}

abbrev pub AreOthers : Text → List Session → Type 0
AreOthers name = All (λ s. of_user name s ≡ false)

-- Where no session is of a name, no cookie is signed in under it.
signed_out_name :
    (key_of : Text → Text) (token name : Text) (now : ℕ) (a : Accounts) {u : User}
    → AreOthers name a.sessions
    → session_user key_of token now a ≡ some u
    → text_eq u.username name ≡ false
unfolding session_user get
signed_out_name key_of token name now a {u} others h = elim (Bool-cases (is_empty token)) [
  | inl empty ↦ cc (rw (session_user, empty) at h)
  | inr given ↦
      elim (Option-cases (find (λ s. has_key (key_of token) s && ltb now s.expires) a.sessions)) [
        | inl missing ↦ cc (rw (session_user, given, missing) at h)
        | inr (s, signed) ↦
            let found : find (is_user s.username) a.users ≡ some u =
              rw (session_user, given, signed, get) at h in
            subst (λ n. text_eq n name ≡ false)
              (sym (
                (text_eq_iff u.username s.username).0
                  (find_sound (is_user s.username) a.users found)))
              (All-find _ _ a.sessions others signed)
      ]
]

remove-AreOthers :
    (username : Text) (a : Accounts)
    → Ensures (λ after. AreOthers (trim_space username) after.sessions) (remove username a)
unfolding remove
remove-AreOthers username a = elim (Option-cases (get a (trim_space username))) [
  | inl missing ↦ rw (remove, missing) refused_with
  | inr (u, found) ↦ elim (Bool-cases (is_admin u && leb (count_admins a) 1)) [
    | inl last ↦ rw (remove, found, last) refused_with
    | inr other ↦
        rw (remove, found, other) (ensured (All-deleted (of_user (trim_space username)) a.sessions))
  ]
]

unknown-AreOthers :
    (name : Text) (us : List User) (ss : List Session)
    → is_known us name ≡ false
    → All (λ s. is_known us s.username ≡ true) ss
    → AreOthers name ss
unknown-AreOthers name us ss missing known =
    All-mono _ _
      (λ s here. elim (Bool-cases (text_eq s.username name)) [
        | inr other ↦ other
        | inl same ↦ cc (rw ((text_eq_iff s.username name).0 same) at here, missing)
      ])
      ss known

module _ (derive : Text → Text → Text → Option Text) where
  create_any-sessions :
      (salt username password role : Text) (now : ℕ) (a : Accounts)
      → Ensures
          (λ r. r.0.sessions ≡ a.sessions)
          (create_any derive salt username password role now a)
  unfolding create_any create_new
  create_any-sessions salt username password role now a = elim (Option-cases (read_role role)) [
    | inl invalid ↦ rw (create_any, invalid) (ensured refl)
    | inr (r, valid) ↦ elim (Bool-cases (is_empty (trim_space username))) [
      | inl empty ↦ rw (create_any, valid, empty) (ensured refl)
      | inr named ↦ elim (Option-cases (get a (trim_space username))) [
        | inr (u, found) ↦ rw (create_any, valid, named, create_new, found) (ensured refl)
        | inl new ↦ elim (Option-cases (hash_password derive salt password)) [
          | inl failed ↦ rw (create_any, valid, named, create_new, new, failed) refused_with
          | inr (h, hashed) ↦ rw (create_any, valid, named, create_new, new, hashed) (ensured refl)
        ]
      ]
    ]
  ]

  set_password-AreOthers :
      (salt username password role : Text) (allow_weak : Bool) (now : ℕ) (a : Accounts)
      → IsSound a
      → Ensures
          (λ r. AreOthers (trim_space username) r.0.sessions)
          (set_password derive salt username password role allow_weak now a)
  unfolding set_password get
  set_password-AreOthers salt username password role allow_weak now a sound =
      elim (Bool-cases (is_empty (trim_space username))) [
        | inl empty ↦ rw empty refused_with
        | inr named ↦ elim (Bool-cases (ltb (byte_length password) 10 && not allow_weak)) [
          | inl short ↦ rw (named, short) refused_with
          | inr long ↦ elim (Option-cases (get a (trim_space username))) [
            | inl new ↦
                let unknown : is_known a.users (trim_space username) ≡ false =
                  rw (is_known, new) refl in
                rw (named, long, new)
                  (Ensures->>= (create_any-sessions salt (trim_space username) password _ now a)
                    λ r same. ensured (
                      subst (AreOthers (trim_space username)) (sym same) (
                        unknown-AreOthers (trim_space username) a.users a.sessions unknown
                          sound.1)))
            | inr (u, found) ↦ elim (Option-cases (hash_password derive salt password)) [
              | inl failed ↦ rw (named, long, found, failed) refused_with
              | inr (h, hashed) ↦
                  rw (named, long, found, hashed)
                    (ensured (All-deleted (of_user (trim_space username)) a.sessions))
            ]
          ]
        ]
      ]

-- The account whose sessions a request ends.
abbrev pub ends : Request → Option Text
ends (reset w f) = some (trim_space f.username)
ends (manage remove_account f) = some (trim_space f.username)
ends _ = none

module _ (p : Primitives) where
  act-AreOthers :
      (u : User) (f : Form) (a : Accounts)
      → Ensures
          (λ after. AreOthers (trim_space f.username) after.sessions)
          (act p remove_account u f a)
  unfolding act
  act-AreOthers u f a = elim (Bool-cases (not (text_eq f.confirm (trim_space f.username)))) [
    | inl unconfirmed ↦ rw unconfirmed refused_with
    | inr confirmed ↦ elim (Bool-cases (text_eq (trim_space f.username) u.username)) [
      | inl self ↦ rw (confirmed, self) refused_with
      | inr other ↦
          rw (confirmed, other)
            (subst
              (λ n.
                Ensures (λ after. AreOthers n after.sessions) (remove (trim_space f.username) a))
              (trim_space-trim_space f.username) (remove-AreOthers (trim_space f.username) a))
    ]
  ]

  removed-AreOthers :
      (f : Form) (a : Accounts)
      → Ensures
          (λ after. AreOthers (trim_space f.username) after.sessions)
          (account_action p remove_account f a)
  unfolding account_action
  removed-AreOthers f a = elim (Option-cases (session_user p.key_of f.cookie f.now a)) [
    | inl nobody ↦ rw (account_action, nobody) refused_with
    | inr (u, found) ↦ elim (Bool-cases (not (csrf_ok p.mac f.cookie f.csrf))) [
      | inl forged ↦ rw (account_action, found, forged) refused_with
      | inr genuine ↦ elim (Bool-cases (not (may u.role admin))) [
        | inl low ↦ rw (account_action, found, genuine, low) refused_with
        | inr high ↦ rw (account_action, found, genuine, high) (act-AreOthers u f a)
      ]
    ]
  ]

  ends-AreOthers :
      (s : Settings) (q : Request) (a : Accounts) (name : Text)
      → IsSound a
      → ends q ≡ some name
      → Ensures (λ after. AreOthers name after.sessions) (serve p s q a)
  unfolding serve
  ends-AreOthers s (reset w f) a name sound h =
      subst (λ n. Ensures (λ after. AreOthers n after.sessions) (serve p s (reset w f) a)) (cc h)
        (Ensures->>=
          (set_password-AreOthers p.derive f.salt f.username f.password f.role w f.now a sound)
          λ r others. ensured others)
  ends-AreOthers s (manage remove_account f) a name sound h =
      subst
        (λ n. Ensures (λ after. AreOthers n after.sessions) (serve p s (manage remove_account f) a))
        (cc h) (removed-AreOthers f a)
  ends-AreOthers s (manage create_account f) a name sound h = cc
  ends-AreOthers s (manage change_role f) a name sound h = cc
  ends-AreOthers s (log_in f) a name sound h = cc
  ends-AreOthers s (sign_up f) a name sound h = cc
  ends-AreOthers s (log_out f) a name sound h = cc
  ends-AreOthers s (call_back x f) a name sound h = cc

-- After a password is set from the command line, and after an account is removed, no cookie is signed in
-- under that name, at any time, where before every session was of a user that exists.
pub serve-ends_sessions :
    (p : Primitives) (s : Settings) (q : Request) (a : Accounts) {after : Accounts} {name : Text}
    → IsSound a
    → ends q ≡ some name
    → serve p s q a ≡ ok after
    → (token : Text) (later : ℕ) {u : User} → session_user p.key_of token later after ≡ some u
    → text_eq u.username name ≡ false
serve-ends_sessions p s q a {after} {name} sound h done token later signed =
    signed_out_name p.key_of token name later after
      (Ensures-value _ (ends-AreOthers p s q a name sound h) done) signed
