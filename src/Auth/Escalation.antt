-- ===== src/Auth/Escalation.antt =====
-- Who gets which role without an admin: nobody by asking, only the person whom the identity provider
-- vouches for.
use costcrew.Base.{
  ◌≡◌, refl, ap, sym, ◌∙◌, Bool, true, false, none, some, Option, Text, codes, text_eq, text_eq_iff,
  if◌then◌else◌, inl, inr, ◌⊎◌, Bool-cases, Option-cases, trim_space, is_empty, not, Result-cases,
  ok, err, ◌==◌, arith, ◌≤◌,
}
use costcrew.Auth.Accounts.{
  Role, viewer, operator, admin, rank, may, read_role, Accounts, AuthError, signed_out, refused,
  count_admins,
}
use costcrew.Auth.Sessions.{session_user, csrf_ok}
use costcrew.Auth.External.{linked_name, is_taken}
use costcrew.Auth.Console.{
  Form, Action, Claims, Request, log_in, sign_up, log_out, manage, call_back, reset, Settings,
  Primitives, account_action, oidc_callback, serve, handle,
}
use costcrew.Auth.Roles.{Directory, unchanged, role_of, apply}
use costcrew.Auth.Policy.{first_role, grant, claimed, policy}
use costcrew.Auth.Rights.{serve-policy}

-- The role of the account that a cookie is signed in to is admin.
abbrev pub is_signed_admin : Primitives → Form → Accounts → Bool
is_signed_admin p f a = elim (session_user p.key_of f.cookie f.now a) [
  | none ↦ false
  | some u ↦ may u.role admin
]

-- Every request but what a signed-in admin asks for and what is typed on the command line.
abbrev pub is_public : Primitives → Request → Accounts → Bool
is_public p (log_in f) a = true
is_public p (sign_up f) a = true
is_public p (log_out f) a = true
is_public p (manage k f) a = not (is_signed_admin p f a)
is_public p (call_back x f) a = true
is_public p (reset w f) a = false

-- The account that the provider's claims are about: the one they are linked to, or else a new one.
abbrev pub IsAbout : Claims → Accounts → Text → Type 0
IsAbout x a name =
    (linked_name x.issuer x.subject a ≡ some name)
    ⊎ ((linked_name x.issuer x.subject a ≡ none)
        × (name ≡ trim_space x.username)
        × (is_taken (trim_space x.username) a ≡ false))

-- The configured identity provider says that the person has the role.
abbrev pub IsVouched : Settings → Request → Accounts → Text → Role → Type 0
IsVouched s (call_back x f) a name r =
    (s.external ≡ true) × (read_role x.role ≡ some r) × IsAbout x a name
IsVouched s _ a name r = ⊥

refused_action :
    (p : Primitives) (k : Action) (f : Form) (a : Accounts)
    → is_signed_admin p f a ≡ false
    → (e : AuthError) × (account_action p k f a ≡ err e)
unfolding account_action
refused_action p k f a low = elim (Option-cases (session_user p.key_of f.cookie f.now a)) [
  | inl nobody ↦ (signed_out, rw (account_action, nobody) refl)
  | inr (u, found) ↦
      let weak : may u.role admin ≡ false = rw (is_signed_admin, found) at low in
      elim (Bool-cases (csrf_ok p.mac f.cookie f.csrf)) [
        | inl genuine ↦ (
          refused (codes "managing accounts is an admin's job"),
          rw (account_action, found, genuine, weak) refl,
        )
        | inr forged ↦ (
          refused (codes "reload the page and try again"),
          rw (account_action, found, forged) refl,
        )
      ]
]

-- Somebody who signs up while an admin exists is a viewer.
later_role : (a : Accounts) → 1 ≤ count_admins a → first_role a ≡ viewer
later_role a h =
    let some_admin : (count_admins a == 0) ≡ false = ground arith in
    rw (first_role, some_admin) refl

grant_source :
    (owner : Text) (o : Option Role) (d : Directory) (name : Text) {r : Role}
    → apply (grant owner o) d name ≡ some r
    → (d name ≡ some r) ⊎ ((name ≡ owner) × (o ≡ some r))
unfolding apply grant
grant_source owner none d name now = inl now
grant_source owner (some r') d name now = elim (Bool-cases (text_eq name owner)) [
  | inl own ↦ inr ((text_eq_iff name owner).0 own, rw own at now)
  | inr other ↦ inl (rw other at now)
]

claimed-linked :
    (x : Claims) (a : Accounts) {linked : Text}
    → linked_name x.issuer x.subject a ≡ some linked
    → claimed x a ≡ grant linked (read_role x.role)
unfolding claimed
claimed-linked x a known = rw (claimed, known) refl

claimed-unlinked :
    (x : Claims) (a : Accounts)
    → linked_name x.issuer x.subject a ≡ none
    → claimed x a ≡ (
        if is_taken (trim_space x.username) a
        then unchanged
        else grant (trim_space x.username) (read_role x.role))
unfolding claimed
claimed-unlinked x a new = rw (claimed, new) refl

claimed_source :
    (x : Claims) (a : Accounts) (name : Text) {r : Role}
    → apply (claimed x a) (role_of a) name ≡ some r
    → (role_of a name ≡ some r) ⊎ ((read_role x.role ≡ some r) × IsAbout x a name)
claimed_source x a name {r} now = elim (Option-cases (linked_name x.issuer x.subject a)) [
  | inr (linked, known) ↦
      elim (grant_source linked (read_role x.role) (role_of a) name {r = r}
        (rw (claimed-linked x a known) at now)) [
          | inl before ↦ inl before
          | inr (own, says) ↦ inr (says, inl (known ∙ ap some (sym own)))
        ]
  | inl new ↦ elim (Bool-cases (is_taken (trim_space x.username) a)) [
    | inl taken ↦ inl (unfold apply in rw (claimed-unlinked x a new, taken) at now)
    | inr free ↦
        elim (grant_source (trim_space x.username) (read_role x.role) (role_of a) name {r = r}
          (rw (claimed-unlinked x a new, free) at now)) [
            | inl before ↦ inl before
            | inr (own, says) ↦ inr (says, inr (new, own, free))
          ]
  ]
]

-- A provider that is not configured lets nobody in.
oidc_callback-external :
    (p : Primitives) (s : Settings) (x : Claims) (f : Form) (a : Accounts) {after : Accounts}
    → oidc_callback p s x f a ≡ ok after
    → s.external ≡ true
unfolding oidc_callback
oidc_callback-external p s x f a done = elim (Bool-cases s.external) [
  | inl on ↦ on
  | inr off ↦ cc (rw off at done)
]

no_escalation :
    (p : Primitives) (s : Settings) (q : Request) (a after : Accounts) (name : Text) {r : Role}
    → 1 ≤ count_admins a
    → is_public p q a ≡ true
    → may r operator ≡ true
    → serve p s q a ≡ ok after
    → apply (policy q a) (role_of a) name ≡ some r
    → (role_of a name ≡ some r) ⊎ IsVouched s q a name r
unfolding policy apply serve may rank
no_escalation p s (log_in f) a after name managed_now public high done now = inl now
no_escalation p s (log_out f) a after name managed_now public high done now = inl now
no_escalation p s (sign_up f) a after name {r} managed_now public high done now =
    elim (Bool-cases (text_eq name (trim_space f.username))) [
      | inl own ↦
          let low : viewer ≡ r = cc (rw (own, later_role a managed_now) at now) in
          cc (rw (sym low) at high)
      | inr other ↦ inl (rw other at now)
    ]
no_escalation p s (manage k f) a after name managed_now public high done now =
    let low : is_signed_admin p f a ≡ false = ground arith in
    cc ((refused_action p k f a low).1, done)
no_escalation p s (call_back x f) a after name managed_now public high done now =
    elim (Bool-cases (is_empty x.role)) [
      | inl no_role ↦ inl (rw no_role at now)
      | inr role ↦ elim (claimed_source x a name (rw role at now)) [
        | inl before ↦ inl before
        | inr vouched ↦ inr (oidc_callback-external p s x f a done, vouched.0, vouched.1)
      ]
    ]
no_escalation p s (reset w f) a after name managed_now public high done now = cc

-- While an admin exists, who is an operator or an admin after a request was one before it, or the
-- identity provider, which is configured, vouches for that role: the request is its sign-in, whose
-- claims map to the role, and they are linked to the account, or are linked to none and the account is
-- new. The exceptions are the acts of a signed-in admin and the command line's reset of a password.
pub handle-no_escalation :
    (p : Primitives) (s : Settings) (q : Request) (a : Accounts) (name : Text) {r : Role}
    → 1 ≤ count_admins a
    → is_public p q a ≡ true
    → may r operator ≡ true
    → role_of (handle p s q a) name ≡ some r
    → (role_of a name ≡ some r) ⊎ IsVouched s q a name r
handle-no_escalation p s q a name {r} managed_now public high now =
    elim (Result-cases (serve p s q a)) [
      | inr (why, fails) ↦ inl (rw fails at now)
      | inl (after, done) ↦
          no_escalation p s q a after name managed_now public high done
            (sym (serve-policy p s q a done name) ∙ (rw done at now))
    ]
