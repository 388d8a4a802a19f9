-- ===== src/Auth/Lockout.antt =====
-- How long wrong passwords lock an account.
use costcrew.Base.{
  ◌≡◌, refl, ap, ℕ, zero, suc, ◌≤◌, ◌<◌, ◌+◌, ◌*◌, true, false, Option, none, some, Text, codes,
  text_eq, text_eq_iff, ltb, find-update, find_sound, arith,
}
use costcrew.Auth.Passwords.{verify_password}
use costcrew.Auth.Accounts.{
  second, User, Accounts, is_user, get, set_user, lock_seconds, lock_after, failed_once, signed_in,
  authenticate, report,
}

lock_seconds-bound : (failed : ℕ) → lock_seconds failed ≤ 300
unfolding lock_seconds
lock_seconds-bound failed = ground arith

lock_seconds-third : (failed : ℕ) → 3 ≤ failed → 80 ≤ lock_seconds failed
unfolding lock_seconds
lock_seconds-third zero h = omega (arith, h)
lock_seconds-third (suc zero) h = omega (arith, h)
lock_seconds-third (suc (suc zero)) h = omega (arith, h)
lock_seconds-third (suc (suc (suc zero))) h = omega arith
lock_seconds-third (suc (suc (suc (suc zero)))) h = omega arith
lock_seconds-third (suc (suc (suc (suc (suc failed))))) h =
    let many : ltb (suc (suc (suc (suc (suc failed))))) 5 ≡ false = ground arith in
    rw (lock_seconds, many) (omega arith)

lock_after-bound : (failed now : ℕ) → lock_after failed now ≤ now + 300 * second
unfolding lock_after
lock_after-bound failed now = ground (arith, lock_seconds-bound failed)

lock_after-third : (failed now : ℕ) → 3 ≤ failed → now + 80 * second ≤ lock_after failed now
unfolding lock_after
lock_after-third failed now h = ground (arith, lock_seconds-third failed h)

set_user-get :
    (name : Text) (f : User → User) (a : Accounts) {u : User}
    → ((v : User) → (f v).username ≡ v.username)
    → get a name ≡ some u
    → get (set_user name f a) name ≡ some (f u)
unfolding get
set_user-get name f a {u} same found =
    rw
      (
        find-update (is_user name) (is_user name) f (λ v. ap (λ n. text_eq n name) (same v))
            a.users,
        found,
        find_sound (is_user name) a.users found,
      )
      refl

module _ (derive : Text → Text → Text → Option Text) where
  -- A wrong password for an account that is open.
  failed-state :
      (name password : Text) (now : ℕ) (a : Accounts) {u : User}
      → get a name ≡ some u
      → ltb now u.locked_until ≡ false
      → verify_password derive password u.hash ≡ false
      → authenticate derive name password now a
        ≡ (report (codes "login_failed") name (set_user name (failed_once now) a), none)
  unfolding authenticate
  failed-state name password now a found open_now wrong =
      rw (authenticate, found, open_now, wrong) refl

  failed-get :
      (name password : Text) (now : ℕ) (a : Accounts) {u : User}
      → get a name ≡ some u
      → ltb now u.locked_until ≡ false
      → verify_password derive password u.hash ≡ false
      → get (authenticate derive name password now a).0 name ≡ some (failed_once now u)
  unfolding get failed_once
  failed-get name password now a found open_now wrong =
      rw (failed-state name password now a found open_now wrong)
        (set_user-get name (failed_once now) a (λ v. refl) found)

  locked-state :
      (name password : Text) (now : ℕ) (a : Accounts) {u : User}
      → get a name ≡ some u
      → ltb now u.locked_until ≡ true
      → authenticate derive name password now a ≡ (a, none)
  unfolding authenticate
  locked-state name password now a found locked = rw (authenticate, found, locked) refl

  signed-state :
      (name password : Text) (now : ℕ) (a : Accounts) {u : User}
      → get a name ≡ some u
      → ltb now u.locked_until ≡ false
      → verify_password derive password u.hash ≡ true
      → authenticate derive name password now a ≡ (set_user name (signed_in now) a, some u)
  unfolding authenticate
  signed-state name password now a found open_now right =
      rw (authenticate, found, open_now, right) refl

-- After a wrong password for an account that is not locked, at least the third in a row, a sign-in with
-- any password, the right one included, is refused for 80 seconds and changes nothing.
pub authenticate-locked :
    (derive : Text → Text → Text → Option Text) (name wrong password : Text) (now later : ℕ)
    (a : Accounts) {u : User}
    → get a name ≡ some u
    → ltb now u.locked_until ≡ false
    → verify_password derive wrong u.hash ≡ false
    → 2 ≤ u.failed
    → later < now + 80 * second
    → authenticate derive name password later (authenticate derive name wrong now a).0
      ≡ ((authenticate derive name wrong now a).0, none)
unfolding failed_once
authenticate-locked derive name wrong password now later a {u} found open_now refused twice soon =
    let locked : ltb later (lock_after (suc u.failed) now) ≡ true =
      grind (arith, lock_after-third (suc u.failed) now) in
    locked-state derive name password later _
      (failed-get derive name wrong now a found open_now refused) locked

-- However many passwords were wrong before it, 300 seconds after a wrong password for an account that
-- is not locked the right password signs in to that account.
pub authenticate-unlocked :
    (derive : Text → Text → Text → Option Text) (name wrong right : Text) (now later : ℕ)
    (a : Accounts) {u : User}
    → get a name ≡ some u
    → ltb now u.locked_until ≡ false
    → verify_password derive wrong u.hash ≡ false
    → verify_password derive right u.hash ≡ true
    → now + 300 * second ≤ later
    → (v : User) × ((authenticate derive name right later
          (authenticate derive name wrong now a).0).1
        ≡ some v)
      × (v.username ≡ name)
unfolding failed_once get
authenticate-unlocked derive name wrong right now later a {u} found open_now refused fits late =
    let over : ltb later (lock_after (suc u.failed) now) ≡ false =
      grind (arith, lock_after-bound (suc u.failed) now) in
    let own : u.username ≡ name =
      (text_eq_iff u.username name).0 (find_sound (is_user name) a.users found) in
    (
      failed_once now u,
      ap (λ r. r.1)
          (signed-state derive name right later _
            (failed-get derive name wrong now a found open_now refused) over fits),
      own,
    )
