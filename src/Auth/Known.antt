-- ===== src/Auth/Known.antt =====
-- Users by name: what the changes of the users' table leave of it.
use costcrew.Base.{
  ◌≡◌, refl, ap, Bool, true, false, none, some, List, Text, text_eq, text_eq_iff, text_eq_refl,
  find, update, delete, insert, find-update, find-insert_new, find-insert_found, find-delete_other,
  inl, inr, Option-cases,
}
use costcrew.Auth.Accounts.{User, is_user}

-- A user of this name exists.
abbrev pub is_known : List User → Text → Bool
is_known us name = elim (find (is_user name) us) [ none ↦ false | some _ ↦ true ]

pub is_known-some :
    (us : List User) (name : Text) {u : User}
    → find (is_user name) us ≡ some u
    → is_known us name ≡ true
is_known-some us name h = rw (is_known, h) refl

pub is_known-update :
    (name : Text) (f : User → User) (us : List User)
    → ((u : User) → (f u).username ≡ u.username)
    → (other : Text) → is_known (update (is_user name) f us) other ≡ is_known us other
is_known-update name f us same other =
    rw
      (
        is_known,
        find-update (is_user other) (is_user name) f (λ u. ap (λ n. text_eq n other) (same u)) us,
      )
      (elim (Option-cases (find (is_user other) us)) [
        | inl missing ↦ rw (is_known, missing) refl
        | inr (u, found) ↦ rw (is_known, found) refl
      ])

pub is_known-insert :
    (u : User) (us : List User) (name : Text)
    → is_known us name ≡ true
    → is_known (insert u us) name ≡ true
is_known-insert u us name h = elim (Option-cases (find (is_user name) us)) [
  | inl missing ↦ cc (rw (is_known, missing) at h)
  | inr (v, found) ↦ rw (is_known, find-insert_found (is_user name) u us found) refl
]

pub is_known-new : (u : User) (us : List User) → is_known (insert u us) u.username ≡ true
is_known-new u us = elim (Option-cases (find (is_user u.username) us)) [
  | inl missing ↦
      rw (is_known, find-insert_new (is_user u.username) u us missing, text_eq_refl u.username) refl
  | inr (v, found) ↦ rw (is_known, find-insert_found (is_user u.username) u us found) refl
]

pub not_user :
    (name other : Text)
    → text_eq other name ≡ false
    → (u : User) → is_user other u ≡ true
    → is_user name u ≡ false
not_user name other differs u mine = rw ((text_eq_iff u.username other).0 mine) differs

pub is_known-delete :
    (name other : Text) (us : List User)
    → text_eq other name ≡ false
    → is_known us other ≡ true
    → is_known (delete (is_user name) us) other ≡ true
is_known-delete name other us differs h =
    rw (is_known, find-delete_other (is_user other) (is_user name) (not_user name other differs) us)
      h
