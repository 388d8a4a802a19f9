-- ===== src/Auth/Refines.antt =====
-- The requests of Auth.Console, as changes of the roles by name: they refine Auth.Policy.
use costcrew.Base.{
  ◌≡◌, refl, ◌∙◌, subst, ℕ, Bool, true, false, Option, none, some, List, Text, codes, text_eq,
  text_eq_iff, if◌then◌else◌, inl, inr, Bool-cases, Option-cases, trim_space, trim_space-trim_space,
  is_empty, ◌||◌, ◌&&◌, ◌>>◌, refuse_if, not, find, update, leb, ensured, refused_with, Ensures,
  Ensures->>=, ok,
}
use costcrew.Auth.Accounts.{
  Role, viewer, operator, admin, rank, User, Accounts, AuthError, is_user, get, new_user, read_role,
  with_role, count_admins, create, remove,
}
use costcrew.Auth.Sessions.{start_session, end_session, has_key}
use costcrew.Auth.External.{
  admit, seen, unusable_password, refuse_external, linked_name, sign_in_mapped, sign_in_named,
  sign_in_external, link, is_taken, move_role, same_role,
}
use costcrew.Auth.Console.{
  Form, Action, create_account, remove_account, change_role, Claims, Primitives, act, admitted,
}
use costcrew.Auth.Roles.{
  Change, unchanged, granted, revoked, directory, apply, Implements, update-Implements,
  with_role-Implements, insert-Implements,
}
use costcrew.Auth.Policy.{grant, managed, claimed}
use costcrew.Auth.Granted.{IsCreated, create-IsCreated}
use costcrew.Auth.Changed.{set_role-Implements, remove-Implements}

same_role-eq : (r r' : Role) → same_role r r' ≡ true → r ≡ r'
unfolding same_role rank
same_role-eq viewer viewer h = refl
same_role-eq operator operator h = refl
same_role-eq admin admin h = refl
same_role-eq viewer operator h = cc
same_role-eq viewer admin h = cc
same_role-eq operator viewer h = cc
same_role-eq operator admin h = cc
same_role-eq admin viewer h = cc
same_role-eq admin operator h = cc

-- To grant the role that is held changes nothing.
held-Implements :
    (name : Text) (r : Role) (us : List User) {u : User}
    → find (is_user name) us ≡ some u
    → u.role ≡ r
    → (other : Text) → directory us other ≡ apply (granted name r) (directory us) other
unfolding directory apply
held-Implements name r us found held other = elim (Bool-cases (text_eq other name)) [
  | inl same ↦ rw (same, (text_eq_iff other name).0 same, found, held) refl
  | inr differs ↦ rw differs refl
]

admit-Implements :
    (name : Text) (r : Role) (now : ℕ) (a : Accounts)
    → Implements a (granted name r) (admit name r now a).0
unfolding admit move_role seen new_user get
admit-Implements name r now a other = elim (Option-cases (get a name)) [
  | inl new ↦
      rw (admit, new)
        (insert-Implements (seen now (new_user name unusable_password r now)) a.users new other)
  | inr (u, found) ↦ elim (Bool-cases (same_role u.role r)) [
    | inl same ↦
        rw (admit, found, same)
          (update-Implements name (seen now) a.users (λ v. refl) (λ v. refl) other
            ∙ held-Implements name r a.users found (same_role-eq u.role r same) other)
    | inr moved ↦
        rw (admit, found, moved)
          (update-Implements name (seen now) (update (is_user name) (with_role r) a.users)
              (λ v. refl) (λ v. refl) other
            ∙ with_role-Implements name r a.users found other)
  ]
]

refuse_external-Implements :
    (issuer subject username : Text) (a : Accounts)
    → Implements a unchanged (refuse_external issuer subject username a)
unfolding refuse_external apply
refuse_external-Implements issuer subject username a =
    elim (Option-cases (linked_name issuer subject a)) [
      | inl unlinked ↦ rw (refuse_external, unlinked) λ n. refl
      | inr (name, linked) ↦ rw (refuse_external, linked) λ n. refl
    ]

sign_in_mapped-Implements :
    (x : Claims) (r : Role) (now : ℕ) (a : Accounts)
    → read_role x.role ≡ some r
    → Implements a
        (claimed x a)
        (sign_in_mapped x.issuer x.subject (trim_space x.username) r now a).0
unfolding sign_in_mapped link claimed grant apply
sign_in_mapped-Implements x r now a valid other =
    elim (Option-cases (linked_name x.issuer x.subject a)) [
      | inr (known, linked) ↦
          rw (sign_in_mapped, claimed, linked, valid) (admit-Implements known r now a other)
      | inl unlinked ↦ elim (Bool-cases (is_taken (trim_space x.username) a)) [
        | inl taken ↦ rw (sign_in_mapped, claimed, unlinked, taken) refl
        | inr free ↦
            rw (sign_in_mapped, claimed, unlinked, free, valid)
              (admit-Implements (trim_space x.username) r now
                (link x.issuer x.subject (trim_space x.username) a) other)
      ]
    ]

pub sign_in_external-Implements :
    (x : Claims) (now : ℕ) (a : Accounts)
    → Ensures
        (λ r. Implements a (if is_empty x.role then unchanged else claimed x a) r.0)
        (sign_in_external x.issuer x.subject x.username x.role now a)
unfolding sign_in_external sign_in_named
sign_in_external-Implements x now a =
    elim (Bool-cases
      (is_empty x.issuer || is_empty x.subject || is_empty (trim_space x.username))) [
        | inl unnamed ↦ rw unnamed refused_with
        | inr named ↦ elim (Bool-cases (is_empty x.role)) [
          | inl denied ↦
              rw (named, sign_in_named, denied)
                (ensured (refuse_external-Implements x.issuer x.subject (trim_space x.username) a))
          | inr asked ↦ elim (Option-cases (read_role x.role)) [
            | inl invalid ↦ rw (named, sign_in_named, asked, invalid) refused_with
            | inr (r, valid) ↦
                rw (named, sign_in_named, asked, valid)
                  (ensured (sign_in_mapped-Implements x r now a valid))
          ]
        ]
      ]

module _ (p : Primitives) where
  pub admitted-Implements :
      (f : Form) (a : Accounts) (c : Change) (r : Accounts × Option User)
      → Implements a c r.0
      → Implements a c (admitted p f r)
  unfolding start_session
  admitted-Implements f a c (after, none) h = h
  admitted-Implements f a c (after, some u) h = h

  pub end_session-Implements :
      (token : Text) (a : Accounts) → Implements a unchanged (end_session p.key_of token a)
  unfolding end_session apply
  end_session-Implements token a = elim (Bool-cases (is_empty token)) [
    | inl empty ↦ rw (end_session, empty) λ n. refl
    | inr given ↦ elim (Option-cases (find (has_key (p.key_of token)) a.sessions)) [
      | inl missing ↦ rw (end_session, given, missing) λ n. refl
      | inr (s, found) ↦ rw (end_session, given, found) λ n. refl
    ]
  ]

  created-Implements :
      (why : AuthError) (a : Accounts) (c : Change) (r : Accounts × Bool)
      → IsCreated p.derive a c r
      → Ensures (Implements a c) (refuse_if (not r.1) why >> ok r.0)
  created-Implements why a c (after, true) h = ensured h
  created-Implements why a c (after, false) h = refused_with

  pub act-Implements :
      (k : Action) (u : User) (f : Form) (a : Accounts)
      → Ensures (Implements a (managed k f)) (act p k u f a)
  unfolding act managed
  act-Implements create_account u f a =
      Ensures->>=
        (subst
          (λ n.
            Ensures (IsCreated p.derive a (grant n (read_role f.role)))
              (create p.derive f.salt (trim_space f.username) f.password f.role f.now a))
          (trim_space-trim_space f.username)
          (create-IsCreated p.derive f.salt (trim_space f.username) f.password f.role f.now a))
        λ r h. created-Implements _ a _ r h
  act-Implements remove_account u f a =
      elim (Bool-cases (not (text_eq f.confirm (trim_space f.username)))) [
        | inl unconfirmed ↦ rw unconfirmed refused_with
        | inr confirmed ↦ elim (Bool-cases (text_eq (trim_space f.username) u.username)) [
          | inl self ↦ rw (confirmed, self) refused_with
          | inr other ↦
              rw (confirmed, other)
                (subst (λ n. Ensures (Implements a (revoked n)) (remove (trim_space f.username) a))
                  (trim_space-trim_space f.username) (remove-Implements (trim_space f.username) a))
        ]
      ]
  act-Implements change_role u f a =
      elim (Bool-cases (
        text_eq (trim_space f.username) u.username
        && not (text_eq f.role (codes "admin"))
        && leb (count_admins a) 1)) [
          | inl last ↦ rw last refused_with
          | inr safe ↦ rw safe (set_role-Implements (trim_space f.username) f.role a)
        ]
