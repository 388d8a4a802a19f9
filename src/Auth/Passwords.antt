-- ===== src/Auth/Passwords.antt =====
-- HashPassword and VerifyPassword of internal/auth/auth.go. `derive` is the key derivation of a
-- password, a salt in hexadecimal and an algorithm's name (scrypt, pbkdf2), in hexadecimal; it has no
-- result for a salt that is not hexadecimal and for another name.
use costcrew.Base.{
  split, ℕ, ◌+◌, ◌≡◌, refl, ◌∙◌, Bool, true, false, Option, none, some, List, [], ◌∷◌, ◌++◌, Text,
  codes, text_eq, text_eq_refl, if◌then◌else◌, ltb, ◌==◌, All, ap,
}

abbrev pub dollar : ℕ
dollar = b'$'

-- The bytes of a text in UTF-8: Go's len of a string.
unfoldable pub byte_length : Text → ℕ
byte_length [] = 0
byte_length (c ∷ s) =
    (if ltb c 0x80 then 1 else if ltb c 0x800 then 2 else if ltb c 0x10000 then 3 else 4)
    + byte_length s

module _ (derive : Text → Text → Text → Option Text) where
  -- `salt` is the random salt in hexadecimal.
  unfoldable pub hash_password : Text → Text → Option Text
  hash_password salt password = elim (derive password salt (codes "scrypt")) [
    | none ↦ none
    | some h ↦ some (codes "scrypt" ++ dollar ∷ salt ++ dollar ∷ h)
  ]

  abbrev pub derives : Text → Text → Text → Text → Bool
  derives password algo salt want = elim (derive password salt algo) [
    | none ↦ false
    | some got ↦ text_eq got want
  ]

  abbrev pub verify_parts : Text → List Text → Bool
  verify_parts password (algo ∷ salt ∷ want ∷ []) = derives password algo salt want
  verify_parts password _ = false

  unfoldable pub verify_password : Text → Text → Bool
  verify_password password stored = verify_parts password (split dollar stored)

-- A text without a dollar sign.
abbrev pub IsPlain : Text → Type 0
IsPlain = All (λ c. (c == dollar) ≡ false)

split-plain : (s : Text) → IsPlain s → split dollar s ≡ s ∷ []
unfolding split
split-plain [] h = refl
split-plain (c ∷ s) h = rw (h.0, split-plain s h.1) refl

split-join : (s t : Text) → IsPlain s → split dollar (s ++ dollar ∷ t) ≡ s ∷ split dollar t
unfolding split
split-join [] t h = refl
split-join (c ∷ s) t h = rw (h.0, split-join s t h.1) refl

derives-same :
    (derive : Text → Text → Text → Option Text) (password algo salt : Text) {key : Text}
    → derive password salt algo ≡ some key
    → derives derive password algo salt key ≡ true
derives-same derive password algo salt {key} derived = rw (derives, derived) (text_eq_refl key)

-- The stored form of a password verifies against that password, if the salt and the derived key, as
-- hexadecimal texts, have no dollar sign.
pub verify-hash :
    (derive : Text → Text → Text → Option Text) (salt password : Text) {key : Text}
    → derive password salt (codes "scrypt") ≡ some key
    → IsPlain salt
    → IsPlain key
    → (stored : Text) × (hash_password derive salt password ≡ some stored)
      × (verify_password derive password stored ≡ true)
unfolding hash_password verify_password
verify-hash derive salt password {key} derived plain_salt plain_key =
    let parts : split dollar (codes "scrypt" ++ dollar ∷ salt ++ dollar ∷ key)
        ≡ codes "scrypt" ∷ salt ∷ key ∷ [] =
      split-join (codes "scrypt") (salt ++ dollar ∷ key)
        (refl, (refl, (refl, (refl, (refl, (refl, tt))))))
      ∙ ap (λ l. codes "scrypt" ∷ l)
          (split-join salt key plain_salt ∙ ap (λ l. salt ∷ l) (split-plain key plain_key)) in
    (
      codes "scrypt" ++ dollar ∷ salt ++ dollar ∷ key,
      rw (hash_password, derived) refl,
      ap (verify_parts derive password) parts
          ∙ derives-same derive password (codes "scrypt") salt derived,
    )
