-- ===== src/Auth/Admins.antt =====
-- While the identity provider changes no roles, an installation that has an admin keeps one.
use costcrew.Base.{
  ◌≤◌, ◌≡◌, refl, sym, ap, subst, true, false, some, Text, codes, text_eq, text_eq_iff, trim_space,
  ◌&&◌, not, leb, leb_gt, inl, inr, Bool-cases, Option-cases, ensured, refused_with, Ensures,
  length, select, update, delete, find, select-update_few, select-delete_few, length-select-update,
  length-select-insert, find_sound, select-found, select-delete_found, find-update, arith,
}
use costcrew.Auth.Accounts.{
  Role, admin, read_role, is_admin_role, is_admin, is_user, User, Accounts, get, count_admins,
  set_role, with_role, remove, set_user, add_user,
}
use costcrew.Auth.Unique.{IsSound}

abbrev pub HasAdmin : Accounts → Type 0
HasAdmin a = 1 ≤ count_admins a

-- A change of users that leaves their roles alone leaves the admins.
pub set_user-HasAdmin :
    (name : Text) (f : User → User) (a : Accounts)
    → ((u : User) → (f u).role ≡ u.role)
    → HasAdmin a
    → HasAdmin (set_user name f a)
unfolding count_admins
set_user-HasAdmin name f a same h =
    rw (length-select-update is_admin (is_user name) f (λ u. ap is_admin_role (same u)) a.users) h

pub add_user-HasAdmin : (u : User) (a : Accounts) → HasAdmin a → HasAdmin (add_user u a)
unfolding count_admins
add_user-HasAdmin u a h = omega (arith, length-select-insert is_admin u a.users)

-- The role of a user decides, whose row the change of another leaves alone.
other-HasAdmin :
    (name : Text) (f : User → User) (a : Accounts) (actor : Text) {u : User}
    → ((v : User) → (f v).username ≡ v.username)
    → get a actor ≡ some u
    → is_admin u ≡ true
    → text_eq name actor ≡ false
    → HasAdmin (set_user name f a)
unfolding get count_admins
other-HasAdmin name f a actor {u} same found role differs =
    let mine : text_eq u.username actor ≡ true = find_sound (is_user actor) a.users found in
    let other : is_user name u ≡ false =
      ground (
        arith,
        text_eq_iff name actor,
        text_eq_iff u.username actor,
        text_eq_iff u.username name,
      ) in
    let still : find (is_user actor) (update (is_user name) f a.users) ≡ some u =
      rw
        (
          find-update (is_user actor) (is_user name) f (λ v. ap (λ n. text_eq n actor) (same v))
              a.users,
          found,
          other,
        )
        refl in
    select-found (is_user actor) is_admin (update (is_user name) f a.users) still role

with_role-HasAdmin :
    (name : Text) (a : Accounts) {u : User}
    → get a name ≡ some u
    → HasAdmin (set_user name (with_role admin) a)
unfolding get count_admins with_role is_admin_role
with_role-HasAdmin name a {u} found =
    let now_admin : find (is_user name) (update (is_user name) (with_role admin) a.users)
        ≡ some (with_role admin u) =
      rw
        (
          find-update (is_user name) (is_user name) (with_role admin) (λ v. refl) a.users,
          found,
          find_sound (is_user name) a.users found,
        )
        refl in
    select-found (is_user name) is_admin (update (is_user name) (with_role admin) a.users) now_admin
      refl

with_admin-HasAdmin :
    (name role : Text) (a : Accounts) {u : User} {r : Role}
    → get a name ≡ some u
    → read_role role ≡ some r
    → role ≡ codes "admin"
    → HasAdmin (set_user name (with_role r) a)
unfolding read_role
with_admin-HasAdmin name role a {u} {r} found valid same =
    let granted : admin ≡ r = cc (sym (rw same at valid)) in
    subst (λ q. HasAdmin (set_user name (with_role q) a)) granted (with_role-HasAdmin name a found)

granted-HasAdmin :
    (name role : Text) (a : Accounts) (actor : Text) {u v : User} {r : Role}
    → IsSound a
    → get a actor ≡ some u
    → is_admin u ≡ true
    → (text_eq name actor && not (text_eq role (codes "admin")) && leb (count_admins a) 1) ≡ false
    → read_role role ≡ some r
    → get a name ≡ some v
    → HasAdmin (set_user name (with_role r) a)
unfolding count_admins with_role
granted-HasAdmin name role a actor {r = r} sound found is safe valid known =
    elim (Bool-cases (text_eq name actor)) [
      | inr differs ↦ other-HasAdmin name (with_role r) a actor (λ w. refl) found is differs
      | inl self ↦ elim (Bool-cases (text_eq role (codes "admin"))) [
        | inl stays ↦
            with_admin-HasAdmin name role a known valid ((text_eq_iff role (codes "admin")).0 stays)
        | inr demoted ↦
            let several : leb (count_admins a) 1 ≡ false = cc (rw (self, demoted) at safe) in
            omega (
              arith,
              leb_gt (count_admins a) 1 several,
              sound.0 name,
              select-update_few is_admin (is_user name) (with_role r) a.users,
            )
      ]
    ]

pub set_role-HasAdmin :
    (name role : Text) (a : Accounts) (actor : Text) {u : User}
    → IsSound a
    → get a actor ≡ some u
    → is_admin u ≡ true
    → (text_eq name actor && not (text_eq role (codes "admin")) && leb (count_admins a) 1) ≡ false
    → Ensures HasAdmin (set_role name role a)
unfolding set_role count_admins
set_role-HasAdmin name role a actor sound found is safe = elim (Option-cases (read_role role)) [
  | inl invalid ↦ rw (set_role, invalid) refused_with
  | inr (r, valid) ↦ elim (Option-cases (get a name)) [
    | inl missing ↦ rw (set_role, valid, missing) refused_with
    | inr (v, known) ↦
        let kept : 1 ≤ length (select is_admin (update (is_user name) (with_role r) a.users)) =
          granted-HasAdmin name role a actor sound found is safe valid known in
        rw (set_role, valid, known) (ensured kept)
  ]
]

removed-HasAdmin :
    (name : Text) (a : Accounts) {u : User}
    → IsSound a
    → HasAdmin a
    → get a name ≡ some u
    → (is_admin u && leb (count_admins a) 1) ≡ false
    → 1 ≤ length (select is_admin (delete (is_user name) a.users))
unfolding get count_admins
removed-HasAdmin name a {u} sound h found safe = elim (Bool-cases (is_admin u)) [
  | inr other ↦
      omega
        (arith, h, select-delete_found (is_user name) is_admin a.users (sound.0 name) found other)
  | inl one ↦
      let several : leb (count_admins a) 1 ≡ false = cc (rw one at safe) in
      omega (
        arith,
        leb_gt (count_admins a) 1 several,
        sound.0 name,
        select-delete_few is_admin (is_user name) a.users,
      )
]

pub remove-HasAdmin :
    (username : Text) (a : Accounts) → IsSound a → HasAdmin a → Ensures HasAdmin (remove username a)
unfolding remove count_admins
remove-HasAdmin username a sound h = elim (Option-cases (get a (trim_space username))) [
  | inl missing ↦ rw (remove, missing) refused_with
  | inr (u, found) ↦ elim (Bool-cases (is_admin u && leb (count_admins a) 1)) [
    | inl last ↦ rw (remove, found, last) refused_with
    | inr safe ↦
        rw (remove, found, safe)
          (ensured (removed-HasAdmin (trim_space username) a sound h found safe))
  ]
]
