-- ===== src/Auth/External.antt =====
-- SignInExternal of internal/auth/external.go: what the organisation's identity provider says of a
-- person, applied.
use costcrew.Base.{
  ℕ, Bool, true, false, ◌&&◌, ◌||◌, Option, none, some, Text, codes, text_eq, if◌then◌else◌,
  is_empty, trim_space, find, insert, ◌==◌, Result, ok, err, ◌>>◌, refuse_if,
}
use costcrew.Auth.Accounts.{
  Role, read_role, User, Identity, Accounts, get, AuthError, no_name, no_such_role, report,
  add_user, set_user, end_sessions, new_user, with_role, rank,
}

abbrev pub is_identity : Text → Text → Identity → Bool
is_identity issuer subject i = text_eq i.issuer issuer && text_eq i.subject subject

-- External
unfoldable pub is_external : Text → Accounts → Bool
is_external name a = elim (find (λ i. text_eq i.username name) a.identities) [
  | none ↦ false
  | some _ ↦ true
]

unfoldable pub linked_name : Text → Text → Accounts → Option Text
linked_name issuer subject a = elim (find (is_identity issuer subject) a.identities) [
  | none ↦ none
  | some i ↦ some i.username
]

-- What a password is checked against, for an account that the provider created: no algorithm of
-- this name exists.
abbrev pub unusable_password : Text
unusable_password = codes "external$$"

unfoldable pub seen : ℕ → User → User
seen now u = record u { last_login = now }

unfoldable pub same_role : Role → Role → Bool
unfolding rank
same_role r r' = rank r == rank r'

unfoldable pub move_role : Text → Role → Role → Accounts → Accounts
move_role name was role a =
    if same_role was role
    then a
    else report (codes "user_role_changed") name (set_user name (with_role role) a)

-- The account of a linked name, at the role that the provider maps to now.
unfoldable pub admit : Text → Role → ℕ → Accounts → Accounts × Option User
admit name role now a = elim (get a name) [
  | none ↦
      let after =
        report (codes "user_created") name
          (add_user (seen now (new_user name unusable_password role now)) a) in
      (after, get after name)
  | some u ↦
      let after = set_user name (seen now) (move_role name u.role role a) in (after, get after name)
]

abbrev pub end_linked : Option Text → Accounts → Accounts
end_linked none a = a
end_linked (some name) a = end_sessions name a

abbrev pub name_or : Option Text → Text → Text
name_or none username = username
name_or (some linked) _ = linked

-- Without a role, every session of the linked account ends.
unfoldable pub refuse_external : Text → Text → Text → Accounts → Accounts
refuse_external issuer subject username a =
    let linked = linked_name issuer subject a in
    report (codes "external_access_refused") (name_or linked username) (end_linked linked a)

abbrev pub is_taken : Text → Accounts → Bool
is_taken name a = is_external name a || (elim (get a name) [ none ↦ false | some _ ↦ true ])

unfoldable pub link : Text → Text → Text → Accounts → Accounts
link issuer subject name a = record a {
  identities = insert (record { issuer = issuer; subject = subject; username = name }) a.identities;
}

unfoldable pub sign_in_mapped : Text → Text → Text → Role → ℕ → Accounts → Accounts × Option User
sign_in_mapped issuer subject name role now a = elim (linked_name issuer subject a) [
  | some linked ↦ admit linked role now a
  | none ↦
      if is_taken name a
      then (report (codes "external_access_refused") name a, none)
      else admit name role now (link issuer subject name a)
]

-- An empty `role` is a claim that maps to no role.
unfoldable pub sign_in_named :
    Text → Text → Text → Text → ℕ → Accounts → Result AuthError (Accounts × Option User)
sign_in_named issuer subject name role now a =
    if is_empty role
    then ok (refuse_external issuer subject name a, none)
    else (elim (read_role role) [
      | none ↦ err no_such_role
      | some r ↦ ok (sign_in_mapped issuer subject name r now a)
    ])

unfoldable pub sign_in_external :
    Text → Text → Text → Text → ℕ → Accounts → Result AuthError (Accounts × Option User)
sign_in_external issuer subject username role now a = do
  let name = trim_space username
  refuse_if (is_empty issuer || is_empty subject || is_empty name) no_name
  sign_in_named issuer subject name role now a
