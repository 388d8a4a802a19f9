-- ===== src/Auth/Roles.antt =====
-- The roles by name that the accounts stand for, and what each operation of auth.go does to them.
use mathlib.Core.Option
use costcrew.Base.{
  ◌≡◌, refl, ap, false, Option, none, some, List, Text, text_eq, text_eq_iff, text_eq_refl,
  if◌then◌else◌, find, find_sound, update, delete, insert, find-update, find-insert_new,
  find-insert_found, find-delete_other, find-delete_same, inl, inr, Bool-cases, Option-cases, arith,
}
use costcrew.Auth.Accounts.{Role, User, Accounts, is_user, with_role}
use costcrew.Auth.Known.{not_user}

abbrev pub Directory : Type 0
Directory = Text → Option Role

unfoldable pub directory : List User → Directory
directory us name = Option.map (λ u. u.role) (find (is_user name) us)

abbrev pub role_of : Accounts → Directory
role_of a name = directory a.users name

-- What a request means for the roles.
pub data Change : Type 0 where
  unchanged : Change
  granted : Text → Role → Change
  revoked : Text → Change

unfoldable pub apply : Change → Directory → Directory
apply unchanged d name = d name
apply (granted n r) d name = if text_eq name n then some r else d name
apply (revoked n) d name = if text_eq name n then none else d name

-- The roles after a change.
abbrev pub Implements : Accounts → Change → Accounts → Type 0
Implements a c after = (name : Text) → role_of after name ≡ apply c (role_of a) name

pub update-Implements :
    (name : Text) (f : User → User) (us : List User)
    → ((u : User) → (f u).username ≡ u.username)
    → ((u : User) → (f u).role ≡ u.role)
    → (other : Text) → directory (update (is_user name) f us) other ≡ directory us other
unfolding directory
update-Implements name f us same keep other =
    rw (find-update (is_user other) (is_user name) f (λ u. ap (λ n. text_eq n other) (same u)) us)
      (elim (Option-cases (find (is_user other) us)) [
        | inl missing ↦ rw missing refl
        | inr (u, found) ↦ rw found (elim (Bool-cases (is_user name u)) [
          | inl hit ↦ rw (hit, keep u) refl
          | inr miss ↦ rw miss refl
        ])
      ])

-- A user that is found has the name that was asked for.
found_name :
    (name : Text) (us : List User) {u : User} → find (is_user name) us ≡ some u → u.username ≡ name
found_name name us {u} found = (text_eq_iff u.username name).0 (find_sound (is_user name) us found)

pub with_role-Implements :
    (name : Text) (r : Role) (us : List User) {u : User}
    → find (is_user name) us ≡ some u
    → (other : Text)
    → directory (update (is_user name) (with_role r) us) other
      ≡ apply (granted name r) (directory us) other
unfolding directory apply with_role
with_role-Implements name r us {u} found other =
    rw (find-update (is_user other) (is_user name) (with_role r) (λ v. refl) us)
      (elim (Bool-cases (text_eq other name)) [
        | inl same ↦
            rw (same, (text_eq_iff other name).0 same, found, find_sound (is_user name) us found)
              refl
        | inr differs ↦ rw differs (elim (Option-cases (find (is_user other) us)) [
          | inl missing ↦ rw missing refl
          | inr (v, at_other) ↦
              let miss : is_user name v ≡ false = rw (found_name other us at_other) differs in
              rw (at_other, miss) refl
        ])
      ])

pub insert-Implements :
    (u : User) (us : List User)
    → find (is_user u.username) us ≡ none
    → (other : Text)
    → directory (insert u us) other ≡ apply (granted u.username u.role) (directory us) other
unfolding directory apply
insert-Implements u us new other = elim (Bool-cases (text_eq other u.username)) [
  | inl same ↦
      rw
        (
          same,
          (text_eq_iff other u.username).0 same,
          find-insert_new (is_user u.username) u us new,
          text_eq_refl u.username,
        )
        refl
  | inr differs ↦ elim (Option-cases (find (is_user other) us)) [
    | inl missing ↦
        let miss : text_eq u.username other ≡ false =
          ground (arith, text_eq_iff u.username other, text_eq_iff other u.username) in
        rw (differs, find-insert_new (is_user other) u us missing, miss, missing) refl
    | inr (v, found) ↦ rw (differs, find-insert_found (is_user other) u us found, found) refl
  ]
]

pub delete-Implements :
    (name : Text) (us : List User) (other : Text)
    → directory (delete (is_user name) us) other ≡ apply (revoked name) (directory us) other
unfolding directory apply
delete-Implements name us other = elim (Bool-cases (text_eq other name)) [
  | inl same ↦ rw (same, (text_eq_iff other name).0 same, find-delete_same (is_user name) us) refl
  | inr differs ↦
      rw
        (differs, find-delete_other (is_user other) (is_user name) (not_user name other differs) us)
        refl
]
